-- ===== src/Webhooks/Model.antt =====
-- The rows that src/webhooks/worker.ts works on, from prisma/schema.prisma, and their updates.
use home_hero_backend.Prelude.{
  Bool, List, Option, String, [], false, if◌then◌else◌, leb, ltb, none, not, some, true, ℕ, ◌&&◌,
  ◌+◌, ◌-◌, ◌||◌, ◌∷◌,
}
use home_hero_backend.Text.{slice16}

pub data DeliveryStatus : Type 0 where
  pending processing success failed dead : DeliveryStatus

pub record Endpoint : Type 0 where
  pub id : ℕ
  pub url : String
  pub enabled : Bool
  pub secret : String
  pub events : List String

-- The payload is its JSON text; none is a null payload.
pub record Delivery : Type 0 where
  pub id : ℕ
  pub endpoint_id : ℕ
  pub event : String
  pub payload : Option String
  pub status : DeliveryStatus
  pub attempts : ℕ
  pub last_error : Option String
  pub next_attempt : Option ℕ
  pub created_at : ℕ
  pub delivered_at : Option ℕ
  pub last_attempt_at : Option ℕ
  pub last_status_code : Option ℕ

-- The difference of two times, which clocks of two machines can make negative.
pub data Duration : Type 0 where
  ahead : ℕ → Duration
  behind : ℕ → Duration

pub record Attempt : Type 0 where
  pub id : ℕ
  pub delivery_id : ℕ
  pub attempt_number : ℕ
  pub endpoint_id : Option ℕ
  pub endpoint_url : Option String
  pub event : Option String
  pub started_at : ℕ
  pub finished_at : Option ℕ
  pub duration_ms : Option Duration
  pub ok : Option Bool
  pub status_code : Option ℕ
  pub error : Option String
  pub response_snippet : Option String
  pub retry_after : Option String

-- `finishedAt.getTime() - startedAt.getTime()`.
abbrev pub time_between : ℕ → ℕ → Duration
time_between started finished =
    if leb started finished
    then Duration.ahead (finished - started)
    else Duration.behind (started - finished)

abbrev pub is_pending_delivery : DeliveryStatus → Bool
is_pending_delivery DeliveryStatus.pending = true
is_pending_delivery _ = false

abbrev pub is_processing : DeliveryStatus → Bool
is_processing DeliveryStatus.processing = true
is_processing _ = false

-- `where: { status: PROCESSING, nextAttempt: { lte: now } }`; null is never `lte`.
abbrev pub due : ℕ → Option ℕ → Bool
due now none = false
due now (some t) = leb t now

abbrev pub is_stale : ℕ → Delivery → Bool
is_stale now d = is_processing d.status && due now d.next_attempt

abbrev pub requeue : ℕ → Delivery → Delivery
requeue now d = record d {
  status = DeliveryStatus.pending;
  next_attempt = some now;
  last_error = some "Requeued after processing lease expired";
}

-- `OR: [{ nextAttempt: null }, { nextAttempt: { lte: now } }]`.
abbrev pub eligible : ℕ → Option ℕ → Bool
eligible now none = true
eligible now (some t) = leb t now

abbrev pub is_claimable : ℕ → ℕ → Delivery → Bool
is_claimable max_attempts now d =
    is_pending_delivery d.status && ltb d.attempts max_attempts && eligible now d.next_attempt

abbrev pub claim : ℕ → Delivery → Delivery
claim lease_until d = record d {
  status = DeliveryStatus.processing;
  attempts = d.attempts + 1;
  next_attempt = some lease_until;
}

-- `orderBy: [{ nextAttempt: "asc" }, { createdAt: "asc" }]`, with nulls last as PostgreSQL has it.
abbrev time_before : Option ℕ → Option ℕ → Bool
time_before (some a) (some b) = ltb a b
time_before (some a) none = true
time_before none o = false

abbrev pub comes_first : Delivery → Delivery → Bool
comes_first d e =
    time_before d.next_attempt e.next_attempt
    || (not (time_before e.next_attempt d.next_attempt) && leb d.created_at e.created_at)

unfoldable pub place : Delivery → List Delivery → List Delivery
place d [] = d ∷ []
place d (e ∷ es) = let rest = place d es in if comes_first d e then d ∷ e ∷ es else e ∷ rest

unfoldable pub in_order : List Delivery → List Delivery
unfolding place
in_order [] = []
in_order (d ∷ ds) = place d (in_order ds)

-- The `data` of the single updates.
abbrev pub disable : ℕ → Delivery → Delivery
disable now d = record d {
  status = DeliveryStatus.failed;
  last_error = some "Endpoint disabled";
  last_attempt_at = some now;
  next_attempt = none;
}

abbrev pub succeed : ℕ → ℕ → ℕ → Delivery → Delivery
succeed status delivered attempted d = record d {
  status = DeliveryStatus.success;
  last_error = none;
  last_status_code = some status;
  delivered_at = some delivered;
  last_attempt_at = some attempted;
  next_attempt = none;
}

abbrev pub note_status : Option ℕ → ℕ → Delivery → Delivery
note_status status now d = record d { last_status_code = status; last_attempt_at = some now }

abbrev pub give_up : String → ℕ → Delivery → Delivery
give_up err now d = record d {
  status = DeliveryStatus.failed;
  last_error = some (slice16 2000 err);
  last_attempt_at = some now;
  next_attempt = none;
}

abbrev pub bury : String → ℕ → Delivery → Delivery
bury err now d = record d {
  status = DeliveryStatus.dead;
  last_error = some (slice16 2000 err);
  last_attempt_at = some now;
  next_attempt = none;
}

abbrev pub reschedule : String → ℕ → ℕ → Delivery → Delivery
reschedule err now next_attempt_at d = record d {
  status = DeliveryStatus.pending;
  last_error = some (slice16 2000 err);
  last_attempt_at = some now;
  next_attempt = some next_attempt_at;
}
