-- ===== src/Queue/Calls.antt =====
-- src/jobs/worker.ts, src/jobs/enqueue.ts and src/services/jobMatchNotifier.ts: the calls of their
-- functions that any number of workers and requests make, in the order in which the database sees
-- them.
use home_hero_backend.Prelude.{
  All, Bool-cases, List, Option, String, [], inl, inr, none, some, true, ℕ, ◌&&◌, ◌∷◌, ◌≡◌,
}
use home_hero_backend.Db.{Table}
use home_hero_backend.Http.{Fields}
use home_hero_backend.Http.Keeps.{
  Keeps, Keeps-after, Keeps-bind, Keeps-pure, Keeps-try_catch, state_of,
}
use home_hero_backend.Queue.Digest.{is_moved, moved, place_digest}
use home_hero_backend.Queue.Model.{
  BackgroundJob, has_stale_lease, is_one_of, is_waiting, lock, new_job, release,
}
use home_hero_backend.Queue.Rules.{
  OfRows, create_job-Keeps, current_time-Keeps, find_jobs-Keeps, transaction-Keeps,
  update_job-Keeps, update_jobs-Keeps,
}
use home_hero_backend.Queue.Settling.{Settleable, mark_failure-Keeps, mark_success-Keeps}
use home_hero_backend.Queue.State.{QueueSettings, QueueState}
use home_hero_backend.Queue.Worker.{
  JobError, claim_due_jobs, enqueue_background_job, lock_candidates, mark_failure, mark_success,
  release_stale_leases,
}

-- `fail` is `markFailure` with the attempts that the worker read when it claimed the job.
pub data QueueCall : Type 0 where
  release_leases : QueueCall
  claim_due : String → QueueCall
  succeed_job : ℕ → String → QueueCall
  fail_job : ℕ → ℕ → ℕ → JobError → String → QueueCall
  enqueue : String → Fields → Option ℕ → Option ℕ → Option String → QueueCall
  -- The part of `ensureJobMatchDigestScheduled` after its read, whatever that gave.
  place_digest_job : ℕ → ℕ → ℕ → Option BackgroundJob → QueueCall

module _ {table : Table BackgroundJob (λ j. j.id)} (settings : QueueSettings) where
  -- The state after a call, whether it failed or not.
  unfoldable pub perform : QueueCall → QueueState table → QueueState table
  perform release_leases w = state_of (release_stale_leases settings w)
  perform (claim_due worker) w = state_of (claim_due_jobs settings worker w)
  perform (succeed_job id worker) w = state_of (mark_success id worker w)
  perform (fail_job id attempts max_attempts err worker) w =
      state_of (mark_failure settings id attempts max_attempts err worker w)
  perform (enqueue kind payload run_at max_attempts request_id) w =
      state_of (enqueue_background_job kind payload run_at max_attempts request_id w)
  perform (place_digest_job provider_id run_at now existing) w =
      state_of (place_digest provider_id run_at now existing w)

  unfoldable pub perform_all : List QueueCall → QueueState table → QueueState table
  perform_all [] w = w
  perform_all (c ∷ cs) w = perform_all cs (perform c w)

module _ (table : Table BackgroundJob (λ j. j.id)) (P : table.Rows → Type 0) where
  -- What a property has to satisfy to stay true at a call.
  abbrev pub StableAt : QueueCall → Type 0
  StableAt release_leases =
      (now lease_ms : ℕ) (s : table.Rows)
      → P s
      → P (table.update_many (has_stale_lease now lease_ms) release s)
  StableAt (claim_due worker) =
      (now : ℕ) (cs : List BackgroundJob) (s : table.Rows)
      → P s
      → P (table.update_many (λ j. is_one_of cs j && is_waiting j.status) (lock now worker) s)
  StableAt (succeed_job id worker) = Settleable table P id worker
  StableAt (fail_job id attempts max_attempts err worker) = Settleable table P id worker
  StableAt (enqueue kind payload run_at max_attempts request_id) =
      (payload' : Fields) (run_at' max_attempts' now : ℕ) (s : table.Rows)
      → P s
      → P (table.create (new_job kind payload' run_at' max_attempts' now (table.next_id s)) s)
  StableAt (place_digest_job provider_id run_at now none) =
      (payload : Fields) (run_at' created_at : ℕ) (s : table.Rows)
      → P s
      → P (
          table.create (new_job "JOB_MATCH_DIGEST" payload run_at' 8 created_at (table.next_id s))
            s)
  StableAt (place_digest_job provider_id run_at now (some existing)) =
      is_moved run_at existing ≡ true
      → (s : table.Rows) → P s
      → P (table.update existing.id (moved run_at) s)

  place_digest-Keeps :
      (provider_id run_at now : ℕ) (existing : Option BackgroundJob)
      → StableAt (place_digest_job provider_id run_at now existing)
      → Keeps
          (OfRows table P)
          (Unit {0})
          (place_digest {table = table} provider_id run_at now existing)
  unfolding place_digest
  place_digest-Keeps provider_id run_at now none ok =
      Keeps-bind (current_time-Keeps P) λ at. create_job-Keeps P _ (ok _ _ at)
  place_digest-Keeps provider_id run_at now (some existing) ok =
      elim (Bool-cases (is_moved run_at existing)) [
        | inl e ↦ rw e (update_job-Keeps P _ _ (ok e))
        | inr e ↦ rw e (Keeps-pure _)
      ]

  module _ (settings : QueueSettings) where
    release_stale_leases-Keeps :
        StableAt release_leases
        → Keeps (OfRows table P) (Unit {0}) (release_stale_leases {table = table} settings)
    unfolding release_stale_leases
    release_stale_leases-Keeps ok = Keeps-bind (current_time-Keeps P) λ now.
        Keeps-bind (update_jobs-Keeps P _ _ (ok now settings.processing_lease_ms))
          λ count. Keeps-pure _

    lock_candidates-Keeps :
        (worker : String) (now : ℕ) (cs : List BackgroundJob)
        → StableAt (claim_due worker)
        → Keeps
            (OfRows table P)
            (List BackgroundJob)
            (lock_candidates {table = table} worker now cs)
    unfolding lock_candidates
    lock_candidates-Keeps worker now [] ok = Keeps-pure _
    lock_candidates-Keeps worker now (c ∷ cs) ok =
        Keeps-bind (update_jobs-Keeps P _ _ (ok now (c ∷ cs)))
          λ count. Keeps-bind (find_jobs-Keeps P _) λ claimed. Keeps-pure _

    claim_due_jobs-Keeps :
        (worker : String)
        → StableAt (claim_due worker)
        → Keeps
            (OfRows table P)
            (List BackgroundJob)
            (claim_due_jobs {table = table} settings worker)
    unfolding claim_due_jobs
    claim_due_jobs-Keeps worker ok = Keeps-bind (current_time-Keeps P) λ now.
        transaction-Keeps P
          (Keeps-bind (find_jobs-Keeps P _) λ found. lock_candidates-Keeps worker now _ ok)

    enqueue-Keeps :
        (kind : String) (payload : Fields) (run_at max_attempts : Option ℕ)
        (request_id : Option String)
        → StableAt (enqueue kind payload run_at max_attempts request_id)
        → Keeps
            (OfRows table P)
            (Unit {0})
            (enqueue_background_job {table = table} kind payload run_at max_attempts request_id)
    unfolding enqueue_background_job
    enqueue-Keeps kind payload run_at max_attempts request_id ok =
        Keeps-bind (current_time-Keeps P)
          λ now. Keeps-try_catch (create_job-Keeps P _ (ok _ _ _ now)) λ err. Keeps-pure _

    perform-Keeps :
        (c : QueueCall) (w : QueueState table)
        → StableAt c
        → P w.rows
        → P (perform settings c w).rows
    unfolding perform
    perform-Keeps release_leases w ok h = Keeps-after (release_stale_leases-Keeps ok) w h
    perform-Keeps (claim_due worker) w ok h = Keeps-after (claim_due_jobs-Keeps worker ok) w h
    perform-Keeps (succeed_job id worker) w ok h =
        Keeps-after (mark_success-Keeps table P id worker settings ok) w h
    perform-Keeps (fail_job id attempts max_attempts err worker) w ok h =
        Keeps-after (mark_failure-Keeps table P id worker settings ok attempts max_attempts err) w h
    perform-Keeps (enqueue kind payload run_at max_attempts request_id) w ok h =
        Keeps-after (enqueue-Keeps kind payload run_at max_attempts request_id ok) w h
    perform-Keeps (place_digest_job provider_id run_at now existing) w ok h =
        Keeps-after (place_digest-Keeps provider_id run_at now existing ok) w h

    pub perform_all-Keeps :
        (cs : List QueueCall) (w : QueueState table)
        → All StableAt cs
        → P w.rows
        → P (perform_all settings cs w).rows
    unfolding perform_all
    perform_all-Keeps [] w ok h = h
    perform_all-Keeps (c ∷ cs) w (ok, oks) h =
        perform_all-Keeps cs (perform settings c w) oks (perform-Keeps c w ok h)
