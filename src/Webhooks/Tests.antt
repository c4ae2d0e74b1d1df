-- ===== src/Webhooks/Tests.antt =====
-- A small table of deliveries with the loop of src/webhooks/worker.ts run on it, and the theorems
-- at those inputs.
use mathlib.Core.Option
use home_hero_backend.Prelude.{
  List, Option, String, [], arith, false, if◌then◌else◌, inr, length, none, refl, some, true, ℕ,
  ◌+◌, ◌<◌, ◌==◌, ◌∷◌, ◌≡◌, ◌≤◌,
}
use home_hero_backend.Db.ListTable.{cells_table}
use home_hero_backend.Text.{same_text}
use home_hero_backend.Webhooks.Backoff.{compute_backoff_ms}
use home_hero_backend.Webhooks.Delays.{compute_backoff_ms-bounds, turns-bounds}
use home_hero_backend.Webhooks.Enqueue.{
  create_all, create_deliveries, data_for, enqueue_for, enqueue_or_log, enqueue_webhook_event,
  find_endpoints, subscribes,
}
use home_hero_backend.Webhooks.Invariants.{AttemptsBounded}
use home_hero_backend.Webhooks.Loop.{turns, worker_calls}
use home_hero_backend.Webhooks.Model.{Delivery, DeliveryStatus, Endpoint}
use home_hero_backend.Webhooks.Running.{
  Step, enqueue_event, enqueue_logged, one_turn, run_steps, step,
}
use home_hero_backend.Webhooks.State.{Hooks, Runtime, Settings, State}
use home_hero_backend.Webhooks.Traffic.{run_steps-AttemptsBounded, run_steps-idle}

abbrev demo_hooks : Hooks
demo_hooks = record {
  deliveries = cells_table (λ d. d.id);
  attempt_logs = cells_table (λ a. a.id);
  endpoints = cells_table (λ e. e.id);
}

-- Every receiver answers 200.
abbrev demo_runtime : Runtime
demo_runtime = record {
  post = λ n request.
      inr (record { ok = true; status = 200; response_text = "thanks"; retry_after = none });
  hmac_sha256_hex = λ secret payload. payload;
  uuid = λ n. "u";
  decimal = λ n. "1";
  seconds_as_ms = λ raw. none;
  date_ms = λ raw. none;
  is_abort = λ e. false;
  is_unreachable = λ e. false;
}

abbrev demo_settings : Settings
demo_settings = record {
  batch_size = 25;
  max_attempts = 10;
  processing_lease_ms = 30000;
  worker_poll_ms = 1000;
}

abbrev demo_delivery : ℕ → DeliveryStatus → ℕ → Delivery
demo_delivery id status attempts = record {
  id = id;
  endpoint_id = 1;
  event = "job.completed";
  payload = none;
  status = status;
  attempts = attempts;
  last_error = none;
  next_attempt = none;
  created_at = 100;
  delivered_at = none;
  last_attempt_at = none;
  last_status_code = none;
}

-- Delivery 1 waits for its first attempt; delivery 2 has used all its attempts.
abbrev demo_deliveries : ℕ → Option Delivery
demo_deliveries n =
    if n == 1
    then some (demo_delivery 1 DeliveryStatus.pending 0)
    else if n == 2
    then some (demo_delivery 2 DeliveryStatus.pending 10)
    else none

abbrev failing : Option ℕ → ℕ → Option String
failing none n = none
failing (some k) n = if k == n then some "connection reset" else none

abbrev demo_endpoint : Endpoint
demo_endpoint = record {
  id = 1;
  url = "https://a.example";
  enabled = true;
  secret = "s";
  events = "job.completed" ∷ [];
}

abbrev demo_state : Option ℕ → State demo_hooks
demo_state fault = record {
  deliveries = record { count = 3; cell = demo_deliveries };
  attempt_logs = record { count = 1; cell = λ n. none };
  endpoints = record { count = 2; cell = λ n. if n == 1 then some demo_endpoint else none };
  posts = [];
  alerts = [];
  faults = failing fault;
  calls = 0;
  clock = λ n. 5000 + n;
  draws = λ n. 17;
  used = 0;
}

abbrev status_of : ℕ → Option ℕ → Option DeliveryStatus
status_of k fault =
    Option.map (λ d. d.status)
      (demo_hooks.deliveries.find_unique k
        (turns demo_hooks demo_runtime demo_settings 1 1000 (demo_state fault)).1.deliveries)

-- Delivery 1 is delivered; delivery 2 is left as it is.
delivered_run :
    (status_of 1 none ≡ some DeliveryStatus.success)
    × (status_of 2 none ≡ some DeliveryStatus.pending)
unfolding turns worker_calls
delivered_run = (refl, refl)

-- The receiver answered 200, but the write of the attempt's log failed: the delivery waits to be
-- delivered again.
delivered_again_run : status_of 1 (some 6) ≡ some DeliveryStatus.pending
unfolding turns worker_calls
delivered_again_run = refl

compute_backoff_ms-bounds_example :
    (1000 ≤ compute_backoff_ms 3 17)
    × (compute_backoff_ms 3 17 < 600500)
    × (compute_backoff_ms 3 17 ≤ compute_backoff_ms (3 + 4) 17)
compute_backoff_ms-bounds_example = compute_backoff_ms-bounds 3 4 17 (ground arith)

demo-AttemptsBounded : AttemptsBounded demo_hooks 10 (demo_state none).deliveries
demo-AttemptsBounded k d row = ground arith

abbrev demo_steps : List Step
demo_steps = enqueue_logged "job.completed" none ∷ one_turn ∷ enqueue_event "job.started" none ∷ []

abbrev after_steps : State demo_hooks
after_steps = (run_steps demo_hooks demo_runtime demo_settings demo_steps 1000 (demo_state none)).1

-- The event to which the endpoint subscribes is delivered by the next turn; no delivery is made for
-- the other event.
enqueued_run :
    (Option.map (λ d. d.status) (demo_hooks.deliveries.find_unique 3 after_steps.deliveries)
      ≡ some DeliveryStatus.success)
    × (demo_hooks.deliveries.find_unique 4 after_steps.deliveries ≡ none)
    × (length after_steps.posts ≡ 2)
unfolding run_steps step subscribes find_endpoints create_all create_deliveries data_for enqueue_for
    enqueue_webhook_event enqueue_or_log same_text worker_calls
enqueued_run = (refl, refl, refl)

run_steps-AttemptsBounded_example : AttemptsBounded demo_hooks 10 after_steps.deliveries
run_steps-AttemptsBounded_example =
    run_steps-AttemptsBounded demo_hooks demo_runtime demo_settings demo_steps 1000
      (demo_state none) demo-AttemptsBounded

run_steps-idle_example :
    demo_hooks.deliveries.find_unique 2 after_steps.deliveries
    ≡ some (demo_delivery 2 DeliveryStatus.pending 10)
run_steps-idle_example =
    run_steps-idle demo_hooks demo_runtime demo_settings demo_steps 1000 (demo_state none) 2
      (demo_delivery 2 DeliveryStatus.pending 10) (refl, refl) refl

turns-bounds_example :
    (1000 ≤ (turns demo_hooks demo_runtime demo_settings 3 1000 (demo_state none)).0)
    × ((turns demo_hooks demo_runtime demo_settings 3 1000 (demo_state none)).0 ≤ 30000)
turns-bounds_example =
    turns-bounds demo_hooks demo_runtime demo_settings 3 1000 (demo_state none) (ground arith)
      (ground arith)
