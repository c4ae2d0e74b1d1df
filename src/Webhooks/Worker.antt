-- ===== src/Webhooks/Worker.antt =====
-- src/webhooks/worker.ts: claiming a batch, one delivery, and the loop.
use mathlib.Core.Option
use home_hero_backend.Prelude.{
  Bool, List, Option, String, [], any, false, if◌then◌else◌, leb, ltb, map, none, some, take, true,
  ℕ, ◌&&◌, ◌+◌, ◌==◌, ◌||◌, ◌∷◌,
}
use home_hero_backend.Http.{interpolate, pure, try_catch, ◌>>=◌, ◌>>◌}
use home_hero_backend.Text.{slice16}
use home_hero_backend.Webhooks.Backoff.{
  compute_backoff_ms, is_permanent_http, is_url_error, parse_retry_after_ms,
}
use home_hero_backend.Webhooks.Model.{
  Attempt, Delivery, Endpoint, bury, claim, disable, give_up, in_order, is_claimable,
  is_pending_delivery, is_processing, is_stale, note_status, requeue, reschedule, succeed,
  time_between,
}
use home_hero_backend.Webhooks.State.{
  Hooks, Outgoing, Posted, Runtime, Settings, Work, alert, create_attempt, draw, fetch,
  find_deliveries, find_with_endpoints, in_transaction, random_uuid, read_clock, update_attempt,
  update_deliveries, update_delivery,
}

abbrev pub ids_of : List Delivery → List ℕ
ids_of ds = map (λ d. d.id) ds

-- `id: { in: ids }`.
abbrev pub is_among : List ℕ → Delivery → Bool
is_among ids d = any (λ i. i == d.id) ids

abbrev pub is_enabled : Option Endpoint → Option Endpoint
is_enabled none = none
is_enabled (some e) = if e.enabled then some e else none

-- `delivery.payload ?? {}` as JSON text.
abbrev pub payload_string : Option String → String
payload_string none = "{}"
payload_string (some s) = s

-- `data.x ?? null` and `data.x?.slice(...) ?? null` of an attempt.
pub record AttemptResult : Type 0 where
  pub ok : Bool
  pub status_code : Option ℕ
  pub error : Option String
  pub response_snippet : Option String
  pub retry_after : Option String

abbrev pub new_attempt : Delivery → Endpoint → ℕ → ℕ → Attempt
new_attempt d e now id = record {
  id = id;
  delivery_id = d.id;
  attempt_number = d.attempts;
  endpoint_id = some e.id;
  endpoint_url = some e.url;
  event = some d.event;
  started_at = now;
  finished_at = none;
  duration_ms = none;
  ok = none;
  status_code = none;
  error = none;
  response_snippet = none;
  retry_after = none;
}

abbrev pub finished : ℕ → ℕ → AttemptResult → Attempt → Attempt
finished started now result a = record a {
  finished_at = some now;
  duration_ms = some (time_between started now);
  ok = some result.ok;
  status_code = result.status_code;
  error = Option.map (slice16 2000) result.error;
  response_snippet = Option.map (slice16 500) result.response_snippet;
  retry_after = result.retry_after;
}

module _ (hooks : Hooks) (runtime : Runtime) (settings : Settings) where
  unfoldable pub requeue_stale_processing : Work hooks (Unit {0})
  requeue_stale_processing = do
    now ← read_clock
    _ ← update_deliveries (is_stale now) (requeue now)
    pure tt

  -- The claimed rows, whatever the candidates.
  unfoldable pub claim_rows : ℕ → List Delivery → Work hooks (List (Delivery × Option Endpoint))
  claim_rows lease_until [] = pure []
  claim_rows lease_until (d ∷ ds) = do
    let ids = ids_of (d ∷ ds)
    _ ← update_deliveries (λ x. is_among ids x && is_pending_delivery x.status) (claim lease_until)
    find_with_endpoints (λ x. is_among ids x && is_processing x.status)

  unfoldable pub claim_batch : Work hooks (List (Delivery × Option Endpoint))
  claim_batch = do
    now ← read_clock
    in_transaction (do
      found ← find_deliveries (is_claimable settings.max_attempts now)
      claim_rows (now + settings.processing_lease_ms) (take settings.batch_size (in_order found)))

  unfoldable pub fail_permanent : ℕ → String → Work hooks (Unit {0})
  fail_permanent id err = do now ← read_clock; update_delivery id (give_up err now)

  unfoldable pub finish_attempt : Attempt → AttemptResult → Work hooks (Unit {0})
  finish_attempt a result = do
    now ← read_clock
    update_attempt a.id (finished a.started_at now result)

  -- The alert is only for the worker whose update met the row.
  unfoldable pub dead_letter : ℕ → ℕ → String → ℕ → Work hooks (Unit {0})
  dead_letter id attempts err now = do
    count ← update_deliveries (λ d. d.id == id && is_processing d.status) (bury err now)
    (if ltb 0 count
        then alert
            (record { webhook_delivery_id = id; attempts = attempts; last_error = slice16 500 err })
        else pure tt)

  unfoldable pub delay_of : ℕ → Option ℕ → Work hooks ℕ
  delay_of attempts (some ms) = pure ms
  delay_of attempts none = do jitter ← draw; pure (compute_backoff_ms (attempts + 1) jitter)

  unfoldable pub fail_and_reschedule : ℕ → ℕ → String → Option ℕ → Work hooks (Unit {0})
  fail_and_reschedule id attempts err override_delay_ms = do
    now ← read_clock
    (if leb settings.max_attempts attempts then dead_letter id attempts err now else do
      delay_ms ← delay_of attempts override_delay_ms
      later ← read_clock
      update_delivery id (reschedule err now (later + delay_ms)))

  unfoldable pub skip_disabled : ℕ → Work hooks (Unit {0})
  skip_disabled id = do now ← read_clock; update_delivery id (disable now)

  unfoldable pub settle_success : Delivery → Attempt → Posted → Work hooks (Unit {0})
  settle_success d a result = do
    delivered ← read_clock
    attempted ← read_clock
    update_delivery d.id (succeed result.status delivered attempted)
    finish_attempt a (record {
      ok = true;
      status_code = some result.status;
      error = none;
      response_snippet = some result.response_text;
      retry_after = result.retry_after;
    })

  -- `result.status === 429 || result.status === 503`. The source reads the clock here only for a
  -- header that is a date; the reading is not used otherwise.
  unfoldable pub override_of : Posted → Work hooks (Option ℕ)
  override_of result =
      if result.status == 429 || result.status == 503
      then (do now ← read_clock; pure (parse_retry_after_ms runtime now result.retry_after))
      else pure none

  unfoldable pub settle_http_error : Delivery → Attempt → Posted → Work hooks (Unit {0})
  settle_http_error d a result = do
    let code = interpolate ("HTTP " ∷ runtime.decimal result.status ∷ [])
    let err = interpolate (code ∷ ": " ∷ slice16 500 result.response_text ∷ [])
    now ← read_clock
    update_delivery d.id (note_status (some result.status) now)
    finish_attempt a (record {
      ok = false;
      status_code = some result.status;
      error = some code;
      response_snippet = some result.response_text;
      retry_after = result.retry_after;
    })
    (if is_permanent_http result.status then fail_permanent d.id err else do
      override_delay_ms ← override_of result
      fail_and_reschedule d.id d.attempts err override_delay_ms)

  -- The `catch` around the request and what follows it.
  unfoldable pub settle_exception : Delivery → Attempt → String → Work hooks (Unit {0})
  settle_exception d a message = do
    let err = if runtime.is_abort message then "Request timeout" else message
    finish_attempt a (record {
      ok = false;
      status_code = none;
      error = some err;
      response_snippet = none;
      retry_after = none;
    })
    now ← read_clock
    update_delivery d.id (note_status none now)
    (if is_url_error err
        then fail_permanent d.id err
        else fail_and_reschedule d.id d.attempts err none)

  unfoldable pub outgoing : Delivery → Endpoint → String → ℕ → Outgoing
  outgoing d e request_id now =
      let body = payload_string d.payload in
      let timestamp = runtime.decimal now in
      let signature =
        runtime.hmac_sha256_hex e.secret (interpolate (timestamp ∷ "." ∷ body ∷ [])) in
      record {
        url = e.url;
        body = body;
        headers =
            ("Content-Type", "application/json")
            ∷ ("X-Request-Id", request_id)
            ∷ ("X-GoGetter-Event", d.event)
            ∷ ("X-GoGetter-Delivery-Id", runtime.decimal d.id)
            ∷ ("X-GoGetter-Timestamp", timestamp)
            ∷ ("X-GoGetter-Signature", interpolate ("sha256=" ∷ signature ∷ []))
            ∷ [];
      }

  unfoldable pub post_and_settle : Delivery → Attempt → Outgoing → Work hooks (Unit {0})
  post_and_settle d a request = do
    result ← fetch runtime request
    (if result.ok then settle_success d a result else settle_http_error d a result)

  unfoldable pub deliver : Delivery → Endpoint → String → Work hooks (Unit {0})
  deliver d e request_id = do
    started ← read_clock
    a ← create_attempt (new_attempt d e started)
    now ← read_clock
    try_catch (post_and_settle d a (outgoing d e request_id now)) (settle_exception d a)

  -- The endpoint comes with the delivery from `include: { endpoint: true }`.
  unfoldable pub handle_one : Delivery → Option Endpoint → Work hooks (Unit {0})
  handle_one d endpoint = do
    uuid ← random_uuid
    let request_id = interpolate (
        "wh-"
        ∷ runtime.decimal d.id
        ∷ "-"
        ∷ runtime.decimal d.attempts
        ∷ "-"
        ∷ runtime.uuid uuid
        ∷ [])
    elim (is_enabled endpoint) [ none ↦ skip_disabled d.id | some e ↦ deliver d e request_id ]
