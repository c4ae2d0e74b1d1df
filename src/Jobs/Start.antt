-- ===== src/Jobs/Start.antt =====
-- src/routes/jobStart.ts: POST /jobs/:id/start.
pub mod Outcome
pub mod Granted
use home_hero_backend.Prelude.{Bool, [], not, ℕ, ◌∷◌}
use home_hero_backend.Http.{Value, interpolate, pure, reply_if, run, some_or_reply, ◌>>=◌, ◌>>◌}
use home_hero_backend.Jobs.Model.{
  AuthUser, Job, awarded, in_progress, is_id, job_status_name, provider, same_role, same_status,
}
use home_hero_backend.Jobs.Request.{AuthRequest, Zod}
use home_hero_backend.Jobs.World.{
  Content, Db, Json, M, Reply, World, audit_security_event, create_notification,
  enqueue_webhook_event, error, find_job, update_job,
}

-- `data: { status: "IN_PROGRESS" }`.
abbrev pub start_job : Job → Job
start_job job = record job { status = in_progress }

module _ (db : Db) (zod : Zod) (audits : Bool) (now : ℕ) where
  start_announce : ℕ → AuthUser → Job → Job → M db Reply
  start_announce job_id user job updated_job = do
    create_notification job.consumer_id "JOB_STARTED"
        (Content.line (interpolate ("Work started on \"" ∷ job.title ∷ "\"." ∷ [])))
    create_notification user.user_id "JOB_STARTED"
        (Content.line (interpolate ("You started \"" ∷ job.title ∷ "\"." ∷ [])))
    audit_security_event audits "job.started" (
        ("targetType", Value.text "JOB")
        ∷ ("targetId", Value.decimal job.id)
        ∷ ("jobId", Value.num job.id)
        ∷ ("previousStatus", Value.text (job_status_name job.status))
        ∷ ("newStatus", Value.text (job_status_name updated_job.status))
        ∷ [])
    enqueue_webhook_event "job.status_changed" (
        ("jobId", Value.num job_id)
        ∷ ("consumerId", Value.num job.consumer_id)
        ∷ ("previousStatus", Value.text (job_status_name job.status))
        ∷ ("newStatus", Value.text (job_status_name updated_job.status))
        ∷ ("jobTitle", Value.text job.title)
        ∷ ("changedAt", Value.date now)
        ∷ [])
    pure (record {
      status = 200;
      body =
          ("message", Json.value (Value.text "Job started.")) ∷ ("job", Json.job updated_job) ∷ [];
    })

  start_body : AuthRequest zod.Raw → M db Reply
  start_body req = do
    user ← some_or_reply req.user (error 401 "Not authenticated")
    reply_if (not (same_role user.role provider))
        (error 403 "Only the awarded provider can start a job.")
    job_id ← some_or_reply (zod.id_param req.params) (error 400 "Invalid id parameter")
    found ← find_job job_id
    job ← some_or_reply found (error 404 "Job not found.")
    reply_if (not (same_status job.status awarded)) (
        error 400
          (interpolate ("Job is not AWARDED (current: " ∷ job_status_name job.status ∷ ")." ∷ [])))
    reply_if (not (is_id job.awarded_provider_id user.user_id))
        (error 403 "Only the awarded provider can start this job.")
    updated_job ← update_job job_id start_job
    start_announce job_id user job updated_job

  unfoldable pub post_job_start : AuthRequest zod.Raw → World db → Reply × World db
  unfolding start_body start_announce
  post_job_start req = run (error 500 "Internal server error while starting job.") (start_body req)
