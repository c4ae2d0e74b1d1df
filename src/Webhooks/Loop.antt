-- ===== src/Webhooks/Loop.antt =====
-- src/webhooks/worker.ts: the loop of `startWebhookWorker`, turn by turn.
use home_hero_backend.Prelude.{
  Bool, List, Option, String, [], if◌then◌else◌, min, suc, zero, ℕ, ◌*◌, ◌||◌, ◌∷◌,
}
use home_hero_backend.Db.ListTable.{first_below, gather, many_below}
use home_hero_backend.Http.{Exit, next, pure, reply, respond, throw, thrown, try_catch, ◌>>=◌, ◌>>◌}
use home_hero_backend.Jobs.World.{includes}
use home_hero_backend.Text.{slice16}
use home_hero_backend.Webhooks.Backoff.{
  compute_backoff_ms, is_permanent_http, is_url_error, parse_retry_after_ms,
}
use home_hero_backend.Webhooks.Model.{Delivery, Endpoint, in_order, place}
use home_hero_backend.Webhooks.State.{
  Hooks, Runtime, Settings, State, Work, alert, call, create_attempt, draw, fetch, find_deliveries,
  find_with_endpoints, in_transaction, random_uuid, read_clock, update_attempt, update_deliveries,
  update_delivery,
}
use home_hero_backend.Webhooks.Worker.{
  claim_batch, claim_rows, dead_letter, delay_of, deliver, fail_and_reschedule, fail_permanent,
  finish_attempt, handle_one, outgoing, override_of, post_and_settle, requeue_stale_processing,
  settle_exception, settle_http_error, settle_success, skip_disabled,
}

module _ (hooks : Hooks) (runtime : Runtime) (settings : Settings) where
  -- `for (const delivery of batch) await handleOne(delivery)`.
  unfoldable pub handle_each : List (Delivery × Option Endpoint) → Work hooks (Unit {0})
  handle_each [] = pure tt
  handle_each ((d, endpoint) ∷ batch) = do
    handle_one hooks runtime settings d endpoint
    handle_each batch

  -- The body of the loop's `try`, without its sleep.
  unfoldable pub work_once : Work hooks (Unit {0})
  work_once = do
    requeue_stale_processing hooks runtime settings
    batch ← claim_batch hooks runtime settings
    handle_each batch

  abbrev is_db_down : String → Bool
  is_db_down message =
      runtime.is_unreachable message || includes message "Can't reach database server"

  -- The delay for the next time that the database is down, and the time slept in this turn.
  pub record Pause : Type 0 where
    pub db_down_backoff_ms : ℕ
    pub slept_ms : ℕ

  unfoldable pub pause_after : ℕ → String → Pause
  pause_after backoff message =
      if is_db_down message
      then record { db_down_backoff_ms = min 30000 (backoff * 2); slept_ms = backoff }
      else record { db_down_backoff_ms = backoff; slept_ms = 1000 }

  -- What follows the body: a sleep, and the delay that is kept.
  unfoldable pub close_turn : ℕ → Exit (Unit {0}) (State hooks) (Unit {0}) → Pause × State hooks
  close_turn backoff (next _ w) =
      (record { db_down_backoff_ms = 1000; slept_ms = settings.worker_poll_ms }, w)
  close_turn backoff (reply _ w) =
      (record { db_down_backoff_ms = 1000; slept_ms = settings.worker_poll_ms }, w)
  close_turn backoff (thrown message w) = (pause_after backoff message, w)

  -- One turn of the loop.
  unfoldable pub turn : ℕ → State hooks → Pause × State hooks
  unfolding close_turn
  turn backoff w = close_turn backoff (work_once w)

  -- The first turns of the loop, of which it has no last one until it is stopped.
  unfoldable pub turns : ℕ → ℕ → State hooks → ℕ × State hooks
  turns zero backoff w = (backoff, w)
  turns (suc n) backoff w = let (pause, w') = turn backoff w in turns n pause.db_down_backoff_ms w'

-- For the tests: to unfold this is to unfold the calls and the operations of the worker.
unfoldable pub worker_calls : Unit {0}
unfolding pure respond throw ◌>>=◌ try_catch read_clock draw random_uuid call in_transaction
    find_deliveries find_with_endpoints update_deliveries update_delivery create_attempt
    update_attempt alert fetch slice16 place in_order compute_backoff_ms is_permanent_http
    is_url_error parse_retry_after_ms requeue_stale_processing claim_rows claim_batch fail_permanent
    finish_attempt dead_letter delay_of fail_and_reschedule skip_disabled settle_success override_of
    settle_http_error settle_exception outgoing post_and_settle deliver handle_one handle_each
    work_once pause_after close_turn turn first_below many_below gather
worker_calls = tt
