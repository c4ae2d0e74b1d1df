-- ===== src/Queue/Worker.antt =====
-- src/jobs/worker.ts: the leases, the claims and the two ways to settle a job; and
-- src/jobs/enqueue.ts.
use home_hero_backend.Prelude.{
  Bool, List, Option, String, [], false, if◌then◌else◌, inl, inr, leb, ltb, max, min, none, some,
  take, true, ℕ, ◌&&◌, ◌*◌, ◌+◌, ◌-◌, ◌/◌, ◌^◌, ◌∷◌, ◌⊎◌,
}
use home_hero_backend.Db.{Table}
use home_hero_backend.Http.{Fields, Value, pure, try_catch, ◌>>=◌, ◌>>◌}
use home_hero_backend.Queue.Model.{
  BackgroundJob, by_run_at, dead_lettered, has_stale_lease, is_due, is_held, is_locked_by,
  is_one_of, is_running, is_waiting, lock, new_job, release, rescheduled, retried, succeeded,
}
use home_hero_backend.Queue.State.{
  QueueSettings, QueueWork, capture_message, create_job, current_time, find_jobs, random_below,
  transaction, update_jobs,
}
use home_hero_backend.Text.{non_empty, same_text, slice16}

-- `Math.min(maxMs, baseMs * Math.pow(2, Math.max(0, attempt - 1)))`.
unfoldable pub exponential_ms : ℕ → ℕ → ℕ → ℕ
exponential_ms base_ms max_ms attempt = min max_ms (base_ms * 2 ^ (attempt - 1))

-- The draws `Math.floor(Math.random() * Math.min(1000, exp * 0.2))` are the numbers below this.
unfoldable pub jitter_bound : ℕ → ℕ
jitter_bound exp = max 1 (min 1000 ((exp + 4) / 5))

-- What a job throws: a `RescheduleJobError` with its time, or another error; with their messages.
pub data JobError : Type 0 where
  reschedule_error : ℕ → String → JobError
  plain_error : String → JobError

-- `isRescheduleJobError`, with the time that the error carries.
abbrev pub is_reschedule_job_error : JobError → Option ℕ
is_reschedule_job_error (reschedule_error run_at message) = some run_at
is_reschedule_job_error (plain_error message) = none

abbrev pub message_of : JobError → String
message_of (reschedule_error run_at message) = message
message_of (plain_error message) = message

module _ {table : Table BackgroundJob (λ j. j.id)} where
  -- The rest of the transaction, with the candidates.
  unfoldable pub lock_candidates :
      String → ℕ → List BackgroundJob → QueueWork table (List BackgroundJob)
  lock_candidates worker now [] = pure []
  lock_candidates worker now (c ∷ cs) = do
    _ ← update_jobs (λ j. is_one_of (c ∷ cs) j && is_waiting j.status) (lock now worker)
    claimed ←
        find_jobs
          (λ j. is_one_of (c ∷ cs) j && is_running j.status && is_locked_by worker j.locked_by)
    pure (by_run_at claimed)

  unfoldable pub mark_success : ℕ → String → QueueWork table (Unit {0})
  mark_success id worker = do
    now ← current_time
    _ ← update_jobs (is_held id worker) (succeeded now)
    pure tt

  -- The report is only for the worker whose update met the row.
  unfoldable pub dead_letter_job : ℕ → ℕ → ℕ → String → ℕ → String → QueueWork table (Unit {0})
  dead_letter_job id next_attempts max_attempts message now worker = do
    count ← update_jobs (is_held id worker) (dead_lettered next_attempts message now)
    (if ltb 0 count
        then capture_message (record {
          job_id = id;
          attempts = next_attempts;
          max_attempts = max_attempts;
          last_error = slice16 500 message;
        })
        else pure tt)

  -- What `processOne` came to: it returned, or threw.
  unfoldable pub settle_or_keep :
      BackgroundJob → String → Unit {0} ⊎ JobError → QueueWork table (Option JobError)
  settle_or_keep j worker (inl _) = do mark_success j.id worker; pure none
  settle_or_keep j worker (inr err) = pure (some err)

module _ {table : Table BackgroundJob (λ j. j.id)} (settings : QueueSettings) where
  unfoldable pub retry_delay_ms : ℕ → QueueWork table ℕ
  retry_delay_ms attempt = do
    let exp = exponential_ms settings.retry_base_ms settings.retry_max_ms attempt
    jitter ← random_below (jitter_bound exp)
    pure (min settings.retry_max_ms (exp + jitter))

  unfoldable pub release_stale_leases : QueueWork table (Unit {0})
  release_stale_leases = do
    now ← current_time
    _ ← update_jobs (has_stale_lease now settings.processing_lease_ms) release
    pure tt

  unfoldable pub claim_due_jobs : String → QueueWork table (List BackgroundJob)
  claim_due_jobs worker = do
    now ← current_time
    transaction (do
      found ← find_jobs (is_due now)
      lock_candidates worker now (take settings.batch_size (by_run_at found)))

  unfoldable pub retry_job : ℕ → ℕ → String → ℕ → String → QueueWork table (Unit {0})
  retry_job id next_attempts message now worker = do
    delay_ms ← retry_delay_ms next_attempts
    later ← current_time
    _ ← update_jobs (is_held id worker) (retried next_attempts message now (later + delay_ms))
    pure tt

  unfoldable pub mark_failure : ℕ → ℕ → ℕ → JobError → String → QueueWork table (Unit {0})
  mark_failure id attempts max_attempts err worker = do
    now ← current_time
    elim (is_reschedule_job_error err) [
      | some run_at ↦ (do
        _ ← update_jobs (is_held id worker) (rescheduled attempts now run_at)
        pure tt)
      | none ↦
          if leb max_attempts (attempts + 1)
          then dead_letter_job id (attempts + 1) max_attempts (message_of err) now worker
          else retry_job id (attempts + 1) (message_of err) now worker
    ]

  -- The body of the loop for one job; `process` is `processOne(job)`, which gives what it throws.
  -- An error of the database, there or in `markSuccess`, is handled as one of the job.
  unfoldable pub handle_job :
      QueueWork table (Unit {0} ⊎ JobError) → BackgroundJob → String → QueueWork table (Unit {0})
  handle_job process j worker = do
    failed ← try_catch (process >>= settle_or_keep j worker) (λ m. pure (some (plain_error m)))
    elim failed [
      | none ↦ pure tt
      | some err ↦ mark_failure j.id j.attempts j.max_attempts err worker
    ]

abbrev is_null_value : Value → Bool
is_null_value Value.null = true
is_null_value _ = false

-- `payload.requestId == null`.
abbrev lacks_request_id : Fields → Bool
lacks_request_id [] = true
lacks_request_id ((k, v) ∷ fs) =
    if same_text k "requestId" then is_null_value v else lacks_request_id fs

-- `{ ...payload, requestId }`.
abbrev set_field : String → Value → Fields → Fields
set_field k v [] = (k, v) ∷ []
set_field k v ((l, u) ∷ fs) =
    let rest = set_field k v fs in if same_text l k then (l, v) ∷ fs else (l, u) ∷ rest

abbrev pub with_request_id : Option String → Fields → Fields
with_request_id none payload = payload
with_request_id (some r) payload =
    if lacks_request_id payload then set_field "requestId" (Value.text r) payload else payload

abbrev truthy : Option String → Option String
truthy none = none
truthy (some s) = non_empty s

abbrev or_else : ℕ → Option ℕ → ℕ
or_else d none = d
or_else d (some n) = n

module _ {table : Table BackgroundJob (λ j. j.id)} where
  -- `request_id` is that of the input, or else of the log context; the empty text is as none. A
  -- failure of the database is logged and passed over.
  unfoldable pub enqueue_background_job :
      String → Fields → Option ℕ → Option ℕ → Option String → QueueWork table (Unit {0})
  enqueue_background_job kind payload run_at max_attempts request_id = do
    let final_payload = with_request_id (truthy request_id) payload
    now ← current_time
    try_catch
        (create_job (new_job kind final_payload (or_else now run_at) (or_else 8 max_attempts) now))
        (λ err. pure tt)
