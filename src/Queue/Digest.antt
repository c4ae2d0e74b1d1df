-- ===== src/Queue/Digest.antt =====
-- src/services/jobMatchNotifier.ts: how it puts the job of a provider's digest into the queue.
use home_hero_backend.Prelude.{
  Bool, List, Option, [], false, if◌then◌else◌, leb, ltb, none, not, some, ℕ, ◌&&◌, ◌==◌, ◌||◌, ◌∷◌,
}
use home_hero_backend.Db.{Table}
use home_hero_backend.Http.{Fields, Value, pure, ◌>>=◌}
use home_hero_backend.Queue.Model.{
  BackgroundJob, BackgroundJobStatus, by_run_at, is_running, is_waiting, new_job,
}
use home_hero_backend.Queue.State.{QueueWork, create_job, current_time, find_jobs, update_job}
use home_hero_backend.Text.{same_text}

-- `payload: { path: ["providerId"], equals: providerId }`.
abbrev names_provider : ℕ → Fields → Bool
names_provider provider_id [] = false
names_provider provider_id ((k, Value.num n) ∷ fs) =
    if same_text k "providerId" then n == provider_id else names_provider provider_id fs
names_provider provider_id ((k, v) ∷ fs) =
    if same_text k "providerId" then false else names_provider provider_id fs

unfoldable pub is_digest_of : ℕ → BackgroundJob → Bool
is_digest_of provider_id j =
    same_text j.kind "JOB_MATCH_DIGEST"
    && (is_waiting j.status || is_running j.status)
    && names_provider provider_id j.payload

-- The job that was read is put to the earlier time.
abbrev pub is_moved : ℕ → BackgroundJob → Bool
is_moved run_at existing = not (is_running existing.status) && not (leb existing.run_at run_at)

abbrev pub moved : ℕ → BackgroundJob → BackgroundJob
moved run_at j = record j {
  run_at = run_at;
  status = BackgroundJobStatus.pending;
  locked_at = none;
  locked_by = none;
  last_error = none;
}

abbrev first_job : List BackgroundJob → Option BackgroundJob
first_job [] = none
first_job (j ∷ js) = some j

module _ {table : Table BackgroundJob (λ j. j.id)} where
  -- The read.
  unfoldable pub find_digest : ℕ → QueueWork table (Option BackgroundJob)
  find_digest provider_id = do
    found ← find_jobs (is_digest_of provider_id)
    pure (first_job (by_run_at found))

  -- What follows the read, with what it gave: other calls may come between.
  unfoldable pub place_digest : ℕ → ℕ → ℕ → Option BackgroundJob → QueueWork table (Unit {0})
  place_digest provider_id run_at now none = do
    created_at ← current_time
    create_job (
        new_job "JOB_MATCH_DIGEST" (("providerId", Value.num provider_id) ∷ [])
          (if ltb run_at now then now else run_at) 8 created_at)
  place_digest provider_id run_at now (some existing) =
      if is_moved run_at existing then update_job existing.id (moved run_at) else pure tt

  -- The two parts in a row.
  unfoldable pub ensure_job_match_digest_scheduled : ℕ → ℕ → ℕ → QueueWork table (Unit {0})
  ensure_job_match_digest_scheduled provider_id run_at now = do
    existing ← find_digest provider_id
    place_digest provider_id run_at now existing
