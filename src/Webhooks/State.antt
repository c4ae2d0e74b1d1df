-- ===== src/Webhooks/State.antt =====
-- What src/webhooks/worker.ts calls outside itself: the database, the clock, random numbers, the
-- receivers of the deliveries and the error reports. Every call may throw.
use home_hero_backend.Prelude.{
  Bool, List, Option, String, [], inl, inr, length, map, none, some, ℕ, ◌%◌, ◌++◌, ◌+◌, ◌∷◌, ◌⊎◌,
}
use home_hero_backend.Db.{Table}
use home_hero_backend.Http.{Exit, Handler, next, pure, reply, throw, thrown}
use home_hero_backend.Webhooks.Model.{Attempt, Delivery, Endpoint}

pub record Hooks : Type 1 where
  pub deliveries : Table Delivery (λ d. d.id)
  pub attempt_logs : Table Attempt (λ a. a.id)
  pub endpoints : Table Endpoint (λ e. e.id)

-- What `fetch` gives: the response's `ok`, `status`, text and `retry-after` header.
pub record Posted : Type 0 where
  pub ok : Bool
  pub status : ℕ
  pub response_text : String
  pub retry_after : Option String

pub record Outgoing : Type 0 where
  pub url : String
  pub body : String
  pub headers : List (String × String)

-- The platform's functions; `post n` is what the request number `n` brings back, or the message
-- of what it throws.
pub record Runtime : Type 0 where
  pub post : ℕ → Outgoing → String ⊎ Posted
  pub hmac_sha256_hex : String → String → String
  pub uuid : ℕ → String
  pub decimal : ℕ → String
  -- `Number(raw) * 1000`, where that number is finite and not negative.
  pub seconds_as_ms : String → Option ℕ
  -- `Date.parse(raw)`, where that is a number.
  pub date_ms : String → Option ℕ
  -- The thrown error's name is `AbortError`; its code is `P1001`.
  pub is_abort : String → Bool
  pub is_unreachable : String → Bool

-- The constants that are read from the environment.
pub record Settings : Type 0 where
  pub batch_size : ℕ
  pub max_attempts : ℕ
  pub processing_lease_ms : ℕ
  pub worker_poll_ms : ℕ

-- The arguments of `captureMessage("Webhook delivery dead-lettered", ...)`.
pub record Alert : Type 0 where
  pub webhook_delivery_id : ℕ
  pub attempts : ℕ
  pub last_error : String

pub record State (hooks : Hooks) : Type 0 where
  pub deliveries : hooks.deliveries.Rows
  pub attempt_logs : hooks.attempt_logs.Rows
  pub endpoints : hooks.endpoints.Rows
  pub posts : List Outgoing
  pub alerts : List Alert
  pub faults : ℕ → Option String
  pub calls : ℕ
  -- The readings of the clock, the random draws `Math.floor(Math.random() * 500)`, and how many
  -- of both were used.
  pub clock : ℕ → ℕ
  pub draws : ℕ → ℕ
  pub used : ℕ

abbrev pub Work : Hooks → Type 0 → Type 0
Work hooks A = Handler (Unit {0}) (State hooks) A

module _ {hooks : Hooks} where
  -- `new Date()` and `Date.now()`.
  unfoldable pub read_clock : Work hooks ℕ
  read_clock w = next (w.clock w.used) (record w { used = w.used + 1 })

  -- `crypto.randomUUID()`, by the number of the draw.
  unfoldable pub random_uuid : Work hooks ℕ
  random_uuid w = next w.used (record w { used = w.used + 1 })

  unfoldable pub draw : Work hooks ℕ
  draw w = next (w.draws w.used % 500) (record w { used = w.used + 1 })

  unfoldable pub call :
      {A : Type 0} → (State hooks → A) → (State hooks → State hooks) → Work hooks A
  call result effect w = elim (w.faults w.calls) [
    | none ↦ next (result w) (effect (record w { calls = w.calls + 1 }))
    | some e ↦ thrown e (record w { calls = w.calls + 1 })
  ]

  -- `prisma.$transaction(async (tx) => ...)`.
  unfoldable pub in_transaction : {A : Type 0} → Work hooks A → Work hooks A
  in_transaction m w = elim (m w) [
    | next a w' ↦ next a w'
    | reply r w' ↦ reply r (record w { calls = w'.calls; used = w'.used })
    | thrown e w' ↦ thrown e (record w { calls = w'.calls; used = w'.used })
  ]

  unfoldable pub find_deliveries : (Delivery → Bool) → Work hooks (List Delivery)
  unfolding call
  find_deliveries p = call (λ w. hooks.deliveries.find_many p w.deliveries) (λ w. w)

  -- With `include: { endpoint: true }`.
  unfoldable pub find_with_endpoints :
      (Delivery → Bool) → Work hooks (List (Delivery × Option Endpoint))
  unfolding call
  find_with_endpoints p =
      call
        (λ w.
          map (λ d. (d, hooks.endpoints.find_unique d.endpoint_id w.endpoints))
            (hooks.deliveries.find_many p w.deliveries))
        (λ w. w)

  -- `updateMany`, which answers with the count of the rows.
  unfoldable pub update_deliveries : (Delivery → Bool) → (Delivery → Delivery) → Work hooks ℕ
  unfolding call
  update_deliveries p f =
      call (λ w. length (hooks.deliveries.find_many p w.deliveries))
        (λ w. record w { deliveries = hooks.deliveries.update_many p f w.deliveries })

  -- `update` throws where the row is missing.
  abbrev pub updated :
      Option Delivery → State hooks → State hooks → Exit (Unit {0}) (State hooks) (Unit {0})
  updated none before after = thrown "Record to update not found." before
  updated (some d) before after = next tt after

  unfoldable pub update_delivery : ℕ → (Delivery → Delivery) → Work hooks (Unit {0})
  update_delivery i f w =
      let w' = record w { calls = w.calls + 1 } in
      elim (w.faults w.calls) [
        | none ↦
            updated (hooks.deliveries.find_unique i w.deliveries) w'
              (record w' { deliveries = hooks.deliveries.update i f w.deliveries })
        | some e ↦ thrown e w'
      ]

  unfoldable pub create_attempt : (ℕ → Attempt) → Work hooks Attempt
  unfolding call
  create_attempt make =
      call (λ w. make (hooks.attempt_logs.next_id w.attempt_logs))
        (λ w. record w {
          attempt_logs =
              hooks.attempt_logs.create (make (hooks.attempt_logs.next_id w.attempt_logs))
                w.attempt_logs;
        })

  -- The row of an attempt is there: only the deletion of its delivery takes it away, which then
  -- fails the call as any fault does.
  unfoldable pub update_attempt : ℕ → (Attempt → Attempt) → Work hooks (Unit {0})
  unfolding call
  update_attempt i f =
      call (λ w. tt) (λ w. record w { attempt_logs = hooks.attempt_logs.update i f w.attempt_logs })

  unfoldable pub alert : Alert → Work hooks (Unit {0})
  alert a w = next tt (record w { alerts = w.alerts ++ a ∷ [] })

  -- One `fetch`; the body of the response is read with it.
  unfoldable pub fetch : Runtime → Outgoing → Work hooks Posted
  unfolding pure throw
  fetch runtime request w =
      let w' = record w { posts = w.posts ++ request ∷ [] } in
      elim (runtime.post (length w.posts) request) [
        | inl message ↦ throw message w'
        | inr answer ↦ pure answer w'
      ]
