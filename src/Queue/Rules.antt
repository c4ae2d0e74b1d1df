-- ===== src/Queue/Rules.antt =====
-- What stays true of the queue's rows through the calls of src/jobs/worker.ts, whichever fail.
use home_hero_backend.Prelude.{
  Bool, List, Option-cases, inl, inr, length, none, refl, subst, ℕ, ◌+◌, ◌≡◌,
}
use home_hero_backend.Db.{Table}
use home_hero_backend.Http.{Exit, next, ◌>>=◌}
use home_hero_backend.Http.Keeps.{Keeps}
use home_hero_backend.Http.Rules.{Ends, goes, stops, throws}
use home_hero_backend.Queue.Model.{BackgroundJob}
use home_hero_backend.Queue.State.{
  DeadLetter, QueueState, QueueWork, capture_message, create_job, current_time, find_jobs, query,
  random_below, transaction, update_job, update_jobs, updated,
}

-- A property of the rows, of the state.
abbrev pub OfRows :
    (table : Table BackgroundJob (λ j. j.id)) → (table.Rows → Type 0) → QueueState table → Type 0
OfRows table P w = P w.rows

module _ {table : Table BackgroundJob (λ j. j.id)} (P : table.Rows → Type 0) where
  pub query-Keeps :
      {A : Type 0} (result : QueueState table → A) (effect : QueueState table → QueueState table)
      → ((w : QueueState table) → P w.rows → P (effect w).rows)
      → Keeps (OfRows table P) A (query result effect)
  unfolding query
  query-Keeps result effect keep = record {
    ends = λ w h. elim (Option-cases (w.faults w.calls)) [
      | inl e ↦ rw (e, query) (goes _ _ (keep (record w { calls = w.calls + 1 }) h))
      | inr (m, e) ↦ rw (e, query) (throws m _ h)
    ];
  }

  pub current_time-Keeps : Keeps (OfRows table P) ℕ current_time
  unfolding current_time
  current_time-Keeps = record { ends = λ w h. goes _ _ h }

  pub random_below-Keeps : (bound : ℕ) → Keeps (OfRows table P) ℕ (random_below bound)
  unfolding random_below
  random_below-Keeps bound = record { ends = λ w h. goes _ _ h }

  pub capture_message-Keeps :
      (m : DeadLetter) → Keeps (OfRows table P) (Unit {0}) (capture_message m)
  unfolding capture_message
  capture_message-Keeps m = record { ends = λ w h. goes _ _ h }

  pub find_jobs-Keeps :
      (p : BackgroundJob → Bool) → Keeps (OfRows table P) (List BackgroundJob) (find_jobs p)
  unfolding find_jobs
  find_jobs-Keeps p = query-Keeps (λ w. table.find_many p w.rows) (λ w. w) λ w h. h

  pub update_jobs-Keeps :
      (p : BackgroundJob → Bool) (f : BackgroundJob → BackgroundJob)
      → ((s : table.Rows) → P s → P (table.update_many p f s))
      → Keeps (OfRows table P) ℕ (update_jobs p f)
  unfolding update_jobs
  update_jobs-Keeps p f keep =
      query-Keeps (λ w. length (table.find_many p w.rows))
        (λ w. record w { rows = table.update_many p f w.rows }) λ w h. keep w.rows h

  pub update_job-Keeps :
      (i : ℕ) (f : BackgroundJob → BackgroundJob)
      → ((s : table.Rows) → P s → P (table.update i f s))
      → Keeps (OfRows table P) (Unit {0}) (update_job i f)
  unfolding update_job
  update_job-Keeps i f keep = record {
    ends = λ w h. elim (Option-cases (w.faults w.calls)) [
      | inl e ↦ elim (Option-cases (table.find_unique i w.rows)) [
        | inl none_there ↦ rw (e, update_job) (rw (none_there, updated) (throws _ _ h))
        | inr (j, there) ↦ rw (e, update_job) (rw (there, updated) (goes _ _ (keep w.rows h)))
      ]
      | inr (m, e) ↦ rw (e, update_job) (throws m _ h)
    ];
  }

  pub create_job-Keeps :
      (make : ℕ → BackgroundJob)
      → ((s : table.Rows) → P s → P (table.create (make (table.next_id s)) s))
      → Keeps (OfRows table P) (Unit {0}) (create_job make)
  unfolding create_job
  create_job-Keeps make keep =
      query-Keeps (λ w. tt)
        (λ w. record w { rows = table.create (make (table.next_id w.rows)) w.rows })
        λ w h. keep w.rows h

  pub transaction-Keeps :
      {A : Type 0} {m : QueueWork table A}
      → Keeps (OfRows table P) A m
      → Keeps (OfRows table P) A (transaction m)
  unfolding transaction
  transaction-Keeps {A} {m} hm = record { ends = λ w h. go w h (m w) (hm.ends w h) }
    where
      go :
          (w : QueueState table)
          → P w.rows
          → (x : Exit (Unit {0}) (QueueState table) A)
          → Ends tt (λ _ w'. P w'.rows) (λ _ w'. P w'.rows) x
          → Ends tt (λ _ w'. P w'.rows) (λ _ w'. P w'.rows) (transaction (λ _. x) w)
      go w k _ (goes a w' h) = goes a w' h
      go w k _ (stops r w' h) = stops r _ k
      go w k _ (throws e w' h) = throws e _ k

-- The rules for a call and what follows it, where only the value and the state of a computation
-- that goes on matter.
pub Ends-next :
    {W A : Type 0} (K : A → W → Type 0) (x : Exit (Unit {0}) W A) {a : A} {w : W}
    → Ends tt (λ _ _. Unit {0}) K x
    → x ≡ next a w
    → K a w
Ends-next {W} {A} K x h e = subst Holds e (holds x h)
  where
    Holds : Exit (Unit {0}) W A → Type 0
    Holds (next a w) = K a w
    Holds _ = Unit

    holds : (x : Exit (Unit {0}) W A) → Ends tt (λ _ _. Unit {0}) K x → Holds x
    holds _ (goes a w h) = h
    holds _ (stops r w h) = tt
    holds _ (throws e w h) = tt

module _ {table : Table BackgroundJob (λ j. j.id)} {A : Type 0}
    {K : A → QueueState table → Type 0} where
  pub query_rule :
      {B : Type 0} (result : QueueState table → B) (effect : QueueState table → QueueState table)
      (f : B → QueueWork table A) (w : QueueState table)
      → Ends tt (λ _ _. Unit {0}) K (f (result w) (effect (record w { calls = w.calls + 1 })))
      → Ends tt (λ _ _. Unit {0}) K ((query result effect >>= f) w)
  unfolding ◌>>=◌ query
  query_rule result effect f w go = elim (Option-cases (w.faults w.calls)) [
    | inl e ↦ rw (e, ◌>>=◌, query) go
    | inr (m, e) ↦ rw (e, ◌>>=◌, query) (throws m _ tt)
  ]

  pub current_time_rule :
      (f : ℕ → QueueWork table A) (w : QueueState table)
      → Ends tt (λ _ _. Unit {0}) K (f (w.clock w.used) (record w { used = w.used + 1 }))
      → Ends tt (λ _ _. Unit {0}) K ((current_time >>= f) w)
  unfolding ◌>>=◌ current_time
  current_time_rule f w go = go

  pub transaction_rule :
      (m : QueueWork table A) (w : QueueState table)
      → Ends tt (λ _ _. Unit {0}) K (m w)
      → Ends tt (λ _ _. Unit {0}) K (transaction m w)
  unfolding transaction
  transaction_rule m w h = go (m w) h
    where
      go :
          (x : Exit (Unit {0}) (QueueState table) A)
          → Ends tt (λ _ _. Unit {0}) K x
          → Ends tt (λ _ _. Unit {0}) K (transaction (λ _. x) w)
      go _ (goes a w' h) = goes a w' h
      go _ (stops r w' h) = stops r _ tt
      go _ (throws e w' h) = throws e _ tt

-- Where no call throws: the computation goes on, and `K` holds from there.
pub Ends-goes :
    {W A : Type 0} (K : A → W → Type 0) (x : Exit (Unit {0}) W A)
    → Ends tt (λ _ _. ⊥) K x
    → (a : A) × (w : W) × (x ≡ next a w) × K a w
Ends-goes K _ (goes a w h) = (a, w, refl, h)
Ends-goes K _ (stops r w h) = absurd h
Ends-goes K _ (throws e w h) = absurd h

module _ {table : Table BackgroundJob (λ j. j.id)} {A : Type 0}
    {K : A → QueueState table → Type 0} where
  pub calm_query_rule :
      {B : Type 0} (result : QueueState table → B) (effect : QueueState table → QueueState table)
      (f : B → QueueWork table A) (w : QueueState table)
      → w.faults w.calls ≡ none
      → Ends tt (λ _ _. ⊥) K (f (result w) (effect (record w { calls = w.calls + 1 })))
      → Ends tt (λ _ _. ⊥) K ((query result effect >>= f) w)
  unfolding ◌>>=◌ query
  calm_query_rule result effect f w calm go = rw (calm, ◌>>=◌, query) go

  pub calm_update_rule :
      (p : BackgroundJob → Bool) (g : BackgroundJob → BackgroundJob) (f : ℕ → QueueWork table A)
      (w : QueueState table)
      → w.faults w.calls ≡ none
      → Ends tt
          (λ _ _. ⊥)
          K
          (f
            (length (table.find_many p w.rows))
            (record w { rows = table.update_many p g w.rows; calls = w.calls + 1 }))
      → Ends tt (λ _ _. ⊥) K ((update_jobs p g >>= f) w)
  unfolding update_jobs
  calm_update_rule p g f w calm go =
      calm_query_rule (λ v. length (table.find_many p v.rows))
        (λ v. record v { rows = table.update_many p g v.rows }) f w calm go
