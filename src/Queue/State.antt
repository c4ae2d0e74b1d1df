-- ===== src/Queue/State.antt =====
-- What src/jobs/worker.ts calls outside itself: the database, the clock, random numbers and the
-- error reports. Every call to the database may throw.
use home_hero_backend.Prelude.{
  Bool, List, Option, String, [], length, none, some, ℕ, ◌%◌, ◌++◌, ◌+◌, ◌∷◌,
}
use home_hero_backend.Db.{Table}
use home_hero_backend.Http.{Exit, Handler, next}
use home_hero_backend.Queue.Model.{BackgroundJob}

-- The constants that are read from the environment.
pub record QueueSettings : Type 0 where
  pub batch_size : ℕ
  pub processing_lease_ms : ℕ
  pub retry_base_ms : ℕ
  pub retry_max_ms : ℕ

-- The arguments of `captureMessage("Background job dead-lettered", ...)`.
pub record DeadLetter : Type 0 where
  pub job_id : ℕ
  pub attempts : ℕ
  pub max_attempts : ℕ
  pub last_error : String

module _ (table : Table BackgroundJob (λ j. j.id)) where
  pub record QueueState : Type 0 where
    pub rows : table.Rows
    -- What was sent to `captureMessage`.
    pub captured : List DeadLetter
    -- The calls to the database that throw, by their number.
    pub faults : ℕ → Option String
    pub calls : ℕ
    -- The readings of the clock, the random draws, and how many of both were used.
    pub clock : ℕ → ℕ
    pub draws : ℕ → ℕ
    pub used : ℕ

  abbrev pub QueueWork : Type 0 → Type 0
  QueueWork A = Handler (Unit {0}) QueueState A

module _ {table : Table BackgroundJob (λ j. j.id)} where
  -- `new Date()` and `Date.now()`.
  unfoldable pub current_time : QueueWork table ℕ
  current_time w = next (w.clock w.used) (record w { used = w.used + 1 })

  -- `Math.floor(Math.random() * bound)`, where `bound` is not 0.
  unfoldable pub random_below : ℕ → QueueWork table ℕ
  random_below bound w = next (w.draws w.used % bound) (record w { used = w.used + 1 })

  unfoldable pub query :
      {A : Type 0}
      → (QueueState table → A)
      → (QueueState table → QueueState table)
      → QueueWork table A
  query result effect w = elim (w.faults w.calls) [
    | none ↦ next (result w) (effect (record w { calls = w.calls + 1 }))
    | some e ↦ Exit.thrown e (record w { calls = w.calls + 1 })
  ]

  -- `prisma.$transaction(async (tx) => ...)`.
  unfoldable pub transaction : {A : Type 0} → QueueWork table A → QueueWork table A
  transaction m w = elim (m w) [
    | next a w' ↦ next a w'
    | Exit.reply r w' ↦ Exit.reply r (record w { calls = w'.calls; used = w'.used })
    | Exit.thrown e w' ↦ Exit.thrown e (record w { calls = w'.calls; used = w'.used })
  ]

  unfoldable pub find_jobs : (BackgroundJob → Bool) → QueueWork table (List BackgroundJob)
  unfolding query
  find_jobs p = query (λ w. table.find_many p w.rows) (λ w. w)

  -- `updateMany`, which answers with the count of the rows.
  unfoldable pub update_jobs :
      (BackgroundJob → Bool) → (BackgroundJob → BackgroundJob) → QueueWork table ℕ
  unfolding query
  update_jobs p f =
      query (λ w. length (table.find_many p w.rows))
        (λ w. record w { rows = table.update_many p f w.rows })

  -- `update` by the id, which throws where the row is missing.
  abbrev pub updated :
      Option BackgroundJob
      → QueueState table
      → QueueState table
      → Exit (Unit {0}) (QueueState table) (Unit {0})
  updated none before after = Exit.thrown "Record to update not found." before
  updated (some j) before after = next tt after

  unfoldable pub update_job : ℕ → (BackgroundJob → BackgroundJob) → QueueWork table (Unit {0})
  update_job i f w =
      let w' = record w { calls = w.calls + 1 } in
      elim (w.faults w.calls) [
        | none ↦
            updated (table.find_unique i w.rows) w' (record w' { rows = table.update i f w.rows })
        | some e ↦ Exit.thrown e w'
      ]

  unfoldable pub create_job : (ℕ → BackgroundJob) → QueueWork table (Unit {0})
  unfolding query
  create_job make =
      query (λ w. tt) (λ w. record w { rows = table.create (make (table.next_id w.rows)) w.rows })

  unfoldable pub capture_message : DeadLetter → QueueWork table (Unit {0})
  capture_message m w = next tt (record w { captured = w.captured ++ m ∷ [] })
