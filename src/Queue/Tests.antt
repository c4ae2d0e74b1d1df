-- ===== src/Queue/Tests.antt =====
-- A small queue with the calls of src/jobs/worker.ts run on it, and the theorems at those inputs.
use mathlib.Core.Option
use home_hero_backend.Prelude.{
  All, List, Option, String, [], arith, false, if◌then◌else◌, none, refl, some, true, ℕ, ◌+◌, ◌==◌,
  ◌∷◌, ◌≡◌, ◌≢◌,
}
use home_hero_backend.Db.{Table}
use home_hero_backend.Db.ListTable.{cells_table, first_below, gather, many_below}
use home_hero_backend.Http.{Value, next, pure, try_catch, ◌>>=◌}
use home_hero_backend.Http.Keeps.{state_of}
use home_hero_backend.Queue.Calls.{
  QueueCall, claim_due, enqueue, perform, perform_all, place_digest_job, succeed_job,
}
use home_hero_backend.Queue.Claims.{claim_due_jobs-disjoint}
use home_hero_backend.Queue.Digest.{
  ensure_job_match_digest_scheduled, find_digest, is_digest_of, place_digest,
}
use home_hero_backend.Queue.Failures.{AfterFailure, mark_failure-result}
use home_hero_backend.Queue.Invariants.{
  IsWellLocked, is_foreign_to, perform_all-WellLocked, perform_all-held, perform_all-settled,
  spares,
}
use home_hero_backend.Queue.Model.{
  BackgroundJob, BackgroundJobStatus, by_run_at, insert_job, is_held, lock, new_job,
}
use home_hero_backend.Queue.Rows.{EachRow}
use home_hero_backend.Queue.State.{
  QueueSettings, QueueState, capture_message, create_job, current_time, find_jobs, query,
  random_below, transaction, update_job, update_jobs,
}
use home_hero_backend.Queue.Worker.{
  claim_due_jobs, dead_letter_job, enqueue_background_job, exponential_ms, jitter_bound,
  lock_candidates, mark_failure, mark_success, plain_error, release_stale_leases, retry_delay_ms,
  retry_job,
}
use home_hero_backend.Text.{non_empty, same_text, slice16}

abbrev jobs_table : Table BackgroundJob (λ j. j.id)
jobs_table = cells_table (λ j. j.id)

abbrev queue_settings : QueueSettings
queue_settings = record {
  batch_size = 20;
  processing_lease_ms = 30000;
  retry_base_ms = 2000;
  retry_max_ms = 600000;
}

abbrev match_job : ℕ → BackgroundJobStatus → ℕ → Option ℕ → Option String → BackgroundJob
match_job id status attempts locked_at locked_by = record {
  id = id;
  kind = "JOB_MATCH_NOTIFY";
  payload = [];
  status = status;
  run_at = 1000;
  attempts = attempts;
  max_attempts = 8;
  locked_at = locked_at;
  locked_by = locked_by;
  last_error = none;
  last_attempt_at = none;
  created_at = 500;
}

abbrev waiting_job : BackgroundJob
waiting_job = match_job 1 BackgroundJobStatus.pending 0 none none

abbrev held_job : BackgroundJob
held_job = match_job 2 BackgroundJobStatus.processing 7 (some 4000) (some "host-1")

abbrev done_job : BackgroundJob
done_job = match_job 3 BackgroundJobStatus.success 1 none none

abbrev demo_cells : ℕ → Option BackgroundJob
demo_cells n =
    if n == 1
    then some waiting_job
    else if n == 2
    then some held_job
    else if n == 3
    then some done_job
    else none

abbrev demo_queue : QueueState jobs_table
demo_queue = record {
  rows = record { count = 4; cell = demo_cells };
  captured = [];
  faults = λ n. none;
  calls = 0;
  clock = λ n. 5000 + n;
  draws = λ n. 17;
  used = 0;
}

-- A claim, a late answer of another worker, and a new job.
abbrev demo_calls : List QueueCall
demo_calls =
    claim_due "host-2"
    ∷ succeed_job 2 "host-2"
    ∷ enqueue "AI_MONTHLY_RESET" [] none (some 3) none
    ∷ place_digest_job 4 6000 5000 none
    ∷ []

-- For the tests: to unfold this is to unfold the calls of the worker.
unfoldable queue_calls : Unit {0}
unfolding pure ◌>>=◌ try_catch current_time random_below query transaction find_jobs update_jobs
    create_job capture_message insert_job by_run_at exponential_ms jitter_bound retry_delay_ms
    release_stale_leases lock_candidates claim_due_jobs mark_success dead_letter_job retry_job
    mark_failure enqueue_background_job update_job is_digest_of find_digest place_digest
    ensure_job_match_digest_scheduled perform perform_all first_below many_below gather same_text
    non_empty slice16
queue_calls = tt

abbrev status_after : ℕ → Option BackgroundJobStatus
status_after k =
    Option.map (λ j. j.status)
      (jobs_table.find_unique k (perform_all queue_settings demo_calls demo_queue).rows)

-- Job 1 is claimed, job 2 is still with its worker, and job 4 is the new one.
calls_run :
    (status_after 1 ≡ some BackgroundJobStatus.processing)
    × (status_after 2 ≡ some BackgroundJobStatus.processing)
    × (status_after 3 ≡ some BackgroundJobStatus.success)
    × (status_after 4 ≡ some BackgroundJobStatus.pending)
unfolding queue_calls
calls_run = (refl, refl, refl, refl)

demo-WellLocked : EachRow jobs_table IsWellLocked demo_queue.rows
demo-WellLocked k j row = ground arith

perform_all-WellLocked_example :
    EachRow jobs_table IsWellLocked (perform_all queue_settings demo_calls demo_queue).rows
perform_all-WellLocked_example =
    perform_all-WellLocked jobs_table queue_settings demo_calls demo_queue demo-WellLocked

-- A digest of provider 4 was read when it waited; a worker then did it, and the write comes after.
abbrev digest_job : BackgroundJob
digest_job = new_job "JOB_MATCH_DIGEST" (("providerId", Value.num 4) ∷ []) 4500 8 100 1

abbrev digest_queue : QueueState jobs_table
digest_queue = record demo_queue {
  rows = record { count = 2; cell = λ n. if n == 1 then some digest_job else none };
}

abbrev digest_calls : List QueueCall
digest_calls =
    claim_due "host-1"
    ∷ succeed_job 1 "host-1"
    ∷ place_digest_job 4 4200 4000 (some digest_job)
    ∷ []

digest_read :
    find_digest 4 digest_queue ≡ next (some digest_job) (record digest_queue { calls = 1 })
unfolding queue_calls
digest_read = refl

-- Without a call between them the two parts move the waiting job to the earlier time, and do nothing
-- where it is not earlier.
digest_moved :
    (Option.map
        (λ j. j.run_at)
        (jobs_table.find_unique 1
          (state_of (ensure_job_match_digest_scheduled 4 4200 4000 digest_queue)).rows)
      ≡ some 4200)
    × (Option.map
          (λ j. j.run_at)
          (jobs_table.find_unique 1
            (state_of (ensure_job_match_digest_scheduled 4 4600 4000 digest_queue)).rows)
        ≡ some 4500)
unfolding queue_calls
digest_moved = (refl, refl)

-- The job that was done waits again.
digest_revived :
    (Option.map
        (λ j. j.status)
        (jobs_table.find_unique 1
          (perform_all queue_settings
            (claim_due "host-1" ∷ succeed_job 1 "host-1" ∷ [])
            digest_queue).rows)
      ≡ some BackgroundJobStatus.success)
    × (Option.map
          (λ j. j.status)
          (jobs_table.find_unique 1 (perform_all queue_settings digest_calls digest_queue).rows)
        ≡ some BackgroundJobStatus.pending)
unfolding queue_calls
digest_revived = (refl, refl)

demo-spared : All (λ c. spares 3 c ≡ true) demo_calls
demo-spared = (refl, (refl, (refl, (refl, tt))))

perform_all-settled_example :
    jobs_table.find_unique 3 (perform_all queue_settings demo_calls demo_queue).rows ≡ some done_job
perform_all-settled_example =
    perform_all-settled jobs_table queue_settings demo_calls demo_queue 3 done_job refl demo-spared
      refl

same_worker : is_held 2 "host-1" held_job ≡ true
unfolding same_text
same_worker = refl

other_worker : same_text "host-1" "host-2" ≡ false
unfolding same_text
other_worker = refl

demo-foreign : All (λ c. is_foreign_to "host-1" c ≡ true) demo_calls
unfolding same_text
demo-foreign = (refl, (refl, (refl, (refl, tt))))

perform_all-held_example :
    jobs_table.find_unique 2 (perform_all queue_settings demo_calls demo_queue).rows ≡ some held_job
perform_all-held_example =
    perform_all-held jobs_table queue_settings demo_calls demo_queue "host-1" 2 held_job same_worker
      demo-foreign refl

abbrev after_claim : QueueState jobs_table
after_claim = state_of (claim_due_jobs queue_settings "host-1" demo_queue)

abbrev claimed_job : BackgroundJob
claimed_job = lock 5000 "host-1" waiting_job

first_claim :
    claim_due_jobs queue_settings "host-1" demo_queue ≡ next (claimed_job ∷ []) after_claim
unfolding queue_calls
first_claim = refl

abbrev new_jobs : List QueueCall
new_jobs = succeed_job 1 "host-2" ∷ enqueue "AI_MONTHLY_RESET" [] (some 4000) (some 3) none ∷ []

foreign-new_jobs : All (λ c. is_foreign_to "host-1" c ≡ true) new_jobs
unfolding same_text
foreign-new_jobs = (refl, (refl, tt))

abbrev before_second : QueueState jobs_table
before_second = perform_all queue_settings new_jobs after_claim

abbrev after_second : QueueState jobs_table
after_second = state_of (claim_due_jobs queue_settings "host-2" before_second)

abbrev second_job : BackgroundJob
second_job = lock 5003 "host-2" (new_job "AI_MONTHLY_RESET" [] 4000 3 5002 4)

second_claim :
    claim_due_jobs queue_settings "host-2" before_second ≡ next (second_job ∷ []) after_second
unfolding queue_calls
second_claim = refl

claim_due_jobs-disjoint_example :
    All (λ j. All (λ k. j.id ≢ k.id) (second_job ∷ [])) (claimed_job ∷ [])
claim_due_jobs-disjoint_example =
    claim_due_jobs-disjoint jobs_table queue_settings "host-1" "host-2" other_worker demo_queue
      after_claim after_second (claimed_job ∷ []) (second_job ∷ []) new_jobs first_claim
      foreign-new_jobs second_claim

-- Job 2 has its last attempt.
mark_failure-result_example :
    (w' : QueueState jobs_table) × (mark_failure queue_settings 2 7 8
        (plain_error "timeout")
        "host-1"
        demo_queue
      ≡ next tt w')
    × AfterFailure jobs_table queue_settings 2 none held_job demo_queue w'
mark_failure-result_example =
    mark_failure-result jobs_table queue_settings 2 "host-1" (plain_error "timeout") held_job
      demo_queue (λ n. refl) same_worker refl
