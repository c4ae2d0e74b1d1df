-- ===== src/Queue/Invariants.antt =====
-- src/jobs/worker.ts: what is true of the queue along any calls of any number of workers.
use home_hero_backend.Prelude.{
  All, All-imp, All-of, Bool, List, Option, String, arith, false, none, not, refl, some, subst, sym,
  true, ℕ, ◌&&◌, ◌==◌, ◌≡◌,
}
use home_hero_backend.Db.{Table}
use home_hero_backend.Queue.Calls.{
  QueueCall, StableAt, claim_due, enqueue, fail_job, perform_all, perform_all-Keeps,
  place_digest_job, release_leases, succeed_job,
}
use home_hero_backend.Queue.Digest.{is_moved, moved}
use home_hero_backend.Queue.Model.{
  BackgroundJob, BackgroundJobStatus, is_held, is_locked_by, is_running, is_waiting, lock, release,
}
use home_hero_backend.Queue.Rows.{
  EachRow, EachRow-create, EachRow-update, EachRow-update_many, RowIs, RowIs-create, RowIs-update,
  RowIs-update_many,
}
use home_hero_backend.Queue.Settling.{Settleable}
use home_hero_backend.Queue.State.{QueueSettings, QueueState}
use home_hero_backend.Text.{same_text, same_text_iff}

-- A job is PROCESSING where it has a lock, with the time and the worker of it, and only there.
abbrev pub lock_matches : Bool → Option ℕ → Option String → Bool
lock_matches true (some at) (some worker) = true
lock_matches false none none = true
lock_matches _ _ _ = false

abbrev pub IsWellLocked : BackgroundJob → Type 0
IsWellLocked j = lock_matches (is_running j.status) j.locked_at j.locked_by ≡ true

abbrev pub is_settled : BackgroundJobStatus → Bool
is_settled status = not (is_waiting status) && not (is_running status)

abbrev pub moves_row : ℕ → Option BackgroundJob → Bool
moves_row run_at none = false
moves_row run_at (some existing) = is_moved run_at existing

abbrev names_row : ℕ → Option BackgroundJob → Bool
names_row k none = false
names_row k (some existing) = existing.id == k

-- False of the calls that may touch a job that `worker` holds: its own settlements, the release of
-- stale leases, and the update of the job of a digest.
abbrev pub is_foreign_to : String → QueueCall → Bool
is_foreign_to worker release_leases = false
is_foreign_to worker (claim_due w) = true
is_foreign_to worker (succeed_job id w) = not (same_text worker w)
is_foreign_to worker (fail_job id attempts max_attempts err w) = not (same_text worker w)
is_foreign_to worker (enqueue kind payload run_at max_attempts request_id) = true
is_foreign_to worker (place_digest_job provider_id run_at now existing) =
    not (moves_row run_at existing)

-- False of the update of the job of a digest, where that is the job `k`.
abbrev pub spares : ℕ → QueueCall → Bool
spares k (place_digest_job provider_id run_at now existing) =
    not (moves_row run_at existing && names_row k existing)
spares k _ = true

locked_by_one :
    (o : Option String) (worker w : String)
    → is_locked_by worker o ≡ true
    → not (same_text worker w) ≡ true
    → is_locked_by w o ≡ false
locked_by_one none worker w e differ = absurd (cc)
locked_by_one (some v) worker w e differ =
    subst (λ z. same_text z w ≡ false) (sym ((same_text_iff v worker).0 e)) (ground arith)

unheld :
    (k : ℕ) (j : BackgroundJob) (id : ℕ) (worker w : String)
    → is_held k worker j ≡ true
    → not (same_text worker w) ≡ true
    → is_held id w j ≡ false
unheld k j id worker w e differ =
    let other = locked_by_one j.locked_by worker w (ground arith) differ in ground (arith, other)

other_row : (b at : Bool) → b ≡ true → not (b && at) ≡ true → at ≡ false
other_row b at hit spared = ground arith

module _ (table : Table BackgroundJob (λ j. j.id)) where
  WellLocked-Settleable :
      (id : ℕ) (worker : String) → Settleable table (EachRow table IsWellLocked) id worker
  WellLocked-Settleable id worker = record {
    freed = λ f frees s h.
        EachRow-update_many table IsWellLocked _ f s (λ j. (frees j).0)
          (λ j q. rw ((frees j).1, (frees j).2, (frees j).3) refl) h;
  }

  WellLocked-stable : (c : QueueCall) → StableAt table (EachRow table IsWellLocked) c
  WellLocked-stable release_leases = λ now lease s h.
      EachRow-update_many table IsWellLocked _ release s (λ j. refl) (λ j q. refl) h
  WellLocked-stable (claim_due worker) = λ now cs s h.
      EachRow-update_many table IsWellLocked _ (lock now worker) s (λ j. refl) (λ j q. refl) h
  WellLocked-stable (succeed_job id worker) = WellLocked-Settleable id worker
  WellLocked-stable (fail_job id attempts max_attempts err worker) = WellLocked-Settleable id worker
  WellLocked-stable (enqueue kind payload run_at max_attempts request_id) =
      λ p r m now s h. EachRow-create table IsWellLocked _ s refl refl h
  WellLocked-stable (place_digest_job provider_id run_at now none) =
      λ p r at s h. EachRow-create table IsWellLocked _ s refl refl h
  WellLocked-stable (place_digest_job provider_id run_at now (some existing)) =
      λ _ s h. EachRow-update table IsWellLocked _ (moved run_at) s (λ j. refl) (λ j q. refl) h

  -- A row is not met by the updates of a call.
  RowIs-Settleable :
      (k : ℕ) (j : BackgroundJob) (id : ℕ) (worker : String)
      → is_held id worker j ≡ false
      → Settleable table (RowIs table k j) id worker
  RowIs-Settleable k j id worker off = record {
    freed = λ f frees s h. RowIs-update_many table k j _ f s (λ r. (frees r).0) off h;
  }

  settled-stable :
      (k : ℕ) (j : BackgroundJob)
      → is_settled j.status ≡ true
      → (c : QueueCall) → spares k c ≡ true
      → StableAt table (RowIs table k j) c
  settled-stable k j e release_leases spared =
      λ now lease s h. RowIs-update_many table k j _ release s (λ r. refl) (ground arith) h
  settled-stable k j e (claim_due worker) spared =
      λ now cs s h. RowIs-update_many table k j _ (lock now worker) s (λ r. refl) (ground arith) h
  settled-stable k j e (succeed_job id worker) spared =
      RowIs-Settleable k j id worker (ground arith)
  settled-stable k j e (fail_job id attempts max_attempts err worker) spared =
      RowIs-Settleable k j id worker (ground arith)
  settled-stable k j e (enqueue kind payload run_at max_attempts request_id) spared =
      λ p r m now s h. RowIs-create table k j _ s refl h
  settled-stable k j e (place_digest_job provider_id run_at now none) spared =
      λ p r at s h. RowIs-create table k j _ s refl h
  settled-stable k j e (place_digest_job provider_id run_at now (some existing)) spared = λ hit s h.
      RowIs-update table k j _ (moved run_at) s (λ r. refl)
        (other_row (is_moved run_at existing) (existing.id == k) hit spared) h

  held-stable :
      (k : ℕ) (j : BackgroundJob) (worker : String)
      → is_held k worker j ≡ true
      → (c : QueueCall) → is_foreign_to worker c ≡ true
      → StableAt table (RowIs table k j) c
  held-stable k j worker e release_leases foreign = absurd (cc)
  held-stable k j worker e (claim_due w) foreign =
      λ now cs s h. RowIs-update_many table k j _ (lock now w) s (λ r. refl) (ground arith) h
  held-stable k j worker e (succeed_job id w) foreign =
      RowIs-Settleable k j id w (unheld k j id worker w e foreign)
  held-stable k j worker e (fail_job id attempts max_attempts err w) foreign =
      RowIs-Settleable k j id w (unheld k j id worker w e foreign)
  held-stable k j worker e (enqueue kind payload run_at max_attempts request_id) foreign =
      λ p r m now s h. RowIs-create table k j _ s refl h
  held-stable k j worker e (place_digest_job provider_id run_at now none) foreign =
      λ p r at s h. RowIs-create table k j _ s refl h
  held-stable k j worker e (place_digest_job provider_id run_at now (some existing)) foreign =
      λ hit s h. absurd (ground (arith, hit, foreign))

  module _ (settings : QueueSettings) where
    -- If each job is PROCESSING just where it has the time and the worker of a lock, then it is so
    -- after any sequence, by any workers and requests, of `releaseStaleLeases`, `claimDueJobs`,
    -- `markSuccess`, `markFailure`, `enqueueBackgroundJob` and the write of
    -- `ensureJobMatchDigestScheduled` after any read, whichever of them fail.
    pub perform_all-WellLocked :
        (cs : List QueueCall) (w : QueueState table)
        → EachRow table IsWellLocked w.rows
        → EachRow table IsWellLocked (perform_all settings cs w).rows
    perform_all-WellLocked cs w h =
        perform_all-Keeps table (EachRow table IsWellLocked) settings cs w
          (All-of cs WellLocked-stable) h

    -- A job that is SUCCESS, FAILED or DEAD has the same row after any sequence, by any workers and
    -- requests, of `releaseStaleLeases`, `claimDueJobs`, `markSuccess`, `markFailure`,
    -- `enqueueBackgroundJob` and the write of `ensureJobMatchDigestScheduled` after any read,
    -- whichever of them fail, unless such a write moves the job itself, which it had read before.
    pub perform_all-settled :
        (cs : List QueueCall) (w : QueueState table) (k : ℕ) (j : BackgroundJob)
        → is_settled j.status ≡ true
        → All (λ c. spares k c ≡ true) cs
        → table.find_unique k w.rows ≡ some j
        → table.find_unique k (perform_all settings cs w).rows ≡ some j
    perform_all-settled cs w k j e spared row =
        perform_all-Keeps table (RowIs table k j) settings cs w
          (All-imp cs (settled-stable k j e) spared) row

    -- The row of a job that a worker holds is the same after any sequence of `claimDueJobs` by any
    -- workers, of `markSuccess` and `markFailure` of any job by other workers, of
    -- `enqueueBackgroundJob`, and of those writes of `ensureJobMatchDigestScheduled` that move no
    -- job, whichever of them fail.
    pub perform_all-held :
        (cs : List QueueCall) (w : QueueState table) (worker : String) (k : ℕ) (j : BackgroundJob)
        → is_held k worker j ≡ true
        → All (λ c. is_foreign_to worker c ≡ true) cs
        → table.find_unique k w.rows ≡ some j
        → table.find_unique k (perform_all settings cs w).rows ≡ some j
    perform_all-held cs w worker k j e foreign row =
        perform_all-Keeps table (RowIs table k j) settings cs w
          (All-imp cs (held-stable k j worker e) foreign) row
