-- ===== src/Jobs/Completion.antt =====
-- src/routes/jobCompletion.ts: POST /jobs/:id/mark-complete and POST /jobs/:id/confirm-complete.
pub mod MarkOutcome
pub mod ConfirmOutcome
pub mod TwoParty
pub mod MarkGranted
pub mod ConfirmGranted
use home_hero_backend.Prelude.{Bool, [], if◌then◌else◌, none, not, some, ℕ, ◌&&◌, ◌==◌, ◌∷◌}
use home_hero_backend.Http.{
  Value, interpolate, pure, reply_if, run, some_or_reply, text_or_null, try_catch, ◌>>=◌, ◌>>◌,
}
use home_hero_backend.Jobs.Guards.{can_confirm_complete, can_mark_complete}
use home_hero_backend.Jobs.Model.{
  Job, completed, completed_pending_confirmation, consumer, is_id, job_status_name, present,
  provider, same_role,
}
use home_hero_backend.Jobs.Participants.{provider_or_accepted, resolve_participants}
use home_hero_backend.Jobs.Request.{AuthRequest, Zod}
use home_hero_backend.Jobs.World.{
  Content, Db, Json, M, Reply, World, audit_security_event, create_notification,
  enqueue_webhook_event, error, missing_column_to, update_job,
}

completion_not_enabled : Reply
completion_not_enabled = record {
  status = 501;
  body =
      (
        "error",
        Json.value (
            Value.text
              "Completion confirmation is not enabled on this server yet. Apply DB migrations and redeploy."),
      )
      ∷ ("code", Json.value (Value.text "JOB_COMPLETION_NOT_ENABLED"))
      ∷ [];
}

-- `isConsumer ? providerId : job.consumerId`, for the participant who marks the job complete.
abbrev pub other_participant : Job → ℕ → ℕ → ℕ
other_participant job provider_id me =
    if me == job.consumer_id then provider_id else job.consumer_id

abbrev pub mark_job : ℕ → Job → Job
mark_job pending_for_user_id job = record job {
  status = completed_pending_confirmation;
  completion_pending_for_user_id = some pending_for_user_id;
  completed_at = none;
}

abbrev pub confirm_job : ℕ → Job → Job
confirm_job now job = record job {
  status = completed;
  completion_pending_for_user_id = none;
  completed_at = some now;
}

module _ (db : Db) (zod : Zod) (audits : Bool) (now : ℕ) where
  completion_status_changed : ℕ → Job → Job → M db (Unit {0})
  completion_status_changed job_id job updated_job = enqueue_webhook_event "job.status_changed" (
      ("jobId", Value.num job_id)
      ∷ ("consumerId", Value.num job.consumer_id)
      ∷ ("previousStatus", Value.text (job_status_name job.status))
      ∷ ("newStatus", Value.text (job_status_name updated_job.status))
      ∷ ("jobTitle", Value.text job.title)
      ∷ ("changedAt", Value.date now)
      ∷ [])

  mark_announce : ℕ → ℕ → ℕ → Job → Job → M db Reply
  mark_announce job_id me pending_for_user_id job updated_job = do
    audit_security_event audits "job.completion_marked" (
        ("targetType", Value.text "JOB")
        ∷ ("targetId", Value.decimal job_id)
        ∷ ("jobId", Value.num job_id)
        ∷ ("previousStatus", Value.text (job_status_name job.status))
        ∷ ("newStatus", Value.text (job_status_name updated_job.status))
        ∷ ("completionPendingForUserId", Value.num pending_for_user_id)
        ∷ [])
    create_notification pending_for_user_id "JOB_COMPLETION_CONFIRM_REQUIRED" (
        Content.line (
          interpolate
            ("Job \"" ∷ job.title ∷ "\" was marked complete. Please confirm completion." ∷ [])))
    create_notification me "JOB_COMPLETION_MARKED" (
        Content.line (
          interpolate
            ("You marked \"" ∷ job.title ∷ "\" complete. Waiting for confirmation." ∷ [])))
    completion_status_changed job_id job updated_job
    pure (record {
      status = 200;
      body =
          (
            "message",
            Json.value
                (Value.text "Completion requested. Waiting for the other participant to confirm."),
          )
          ∷ ("job", Json.job updated_job)
          ∷ [];
    })

  mark_body : AuthRequest zod.Raw → M db Reply
  mark_body req = do
    user ← some_or_reply req.user (error 401 "Not authenticated")
    reply_if (not (same_role user.role consumer) && not (same_role user.role provider))
        (error 403 "Only consumers or providers can mark complete.")
    job_id ← some_or_reply (zod.id_param req.params) (error 400 "Invalid id parameter")
    (found, resolved_id) ←
        try_catch (resolve_participants job_id) (missing_column_to completion_not_enabled)
    job ← some_or_reply found (error 404 "Job not found.")
    provider_id ←
        some_or_reply (present resolved_id) (error 400 "No awarded provider for this job.")
    reply_if (not (user.user_id == job.consumer_id) && not (user.user_id == provider_id))
        (error 403 "Not allowed.")
    reply_if (not (can_mark_complete job.status)) (
        error 400 (
          interpolate
            ("Job cannot be marked complete from status " ∷ job_status_name job.status ∷ "." ∷ [])))
    updated_job ← update_job job_id (mark_job (other_participant job provider_id user.user_id))
    mark_announce job_id user.user_id (other_participant job provider_id user.user_id) job
        updated_job

  unfoldable pub post_job_mark_complete : AuthRequest zod.Raw → World db → Reply × World db
  unfolding mark_body mark_announce completion_status_changed completion_not_enabled
      can_mark_complete resolve_participants provider_or_accepted
  post_job_mark_complete req =
      run (error 500 "Internal server error while marking complete.") (mark_body req)

  confirm_announce : ℕ → ℕ → Job → Job → M db Reply
  confirm_announce job_id provider_id job updated_job = do
    audit_security_event audits "job.completed" (
        ("targetType", Value.text "JOB")
        ∷ ("targetId", Value.decimal job_id)
        ∷ ("jobId", Value.num job_id)
        ∷ ("previousStatus", Value.text (job_status_name job.status))
        ∷ ("newStatus", Value.text (job_status_name updated_job.status))
        ∷ ("completedAt", Value.iso_date now)
        ∷ [])
    create_notification job.consumer_id "JOB_COMPLETED"
        (Content.line (interpolate ("Job \"" ∷ job.title ∷ "\" is completed." ∷ [])))
    create_notification provider_id "JOB_COMPLETED"
        (Content.line (interpolate ("Job \"" ∷ job.title ∷ "\" is completed." ∷ [])))
    enqueue_webhook_event "job.completed" (
        ("jobId", Value.num job_id)
        ∷ ("consumerId", Value.num job.consumer_id)
        ∷ ("providerId", Value.num provider_id)
        ∷ ("previousStatus", Value.text (job_status_name job.status))
        ∷ ("newStatus", Value.text (job_status_name updated_job.status))
        ∷ ("title", Value.text job.title)
        ∷ ("location", text_or_null job.location)
        ∷ ("createdAt", Value.date job.created_at)
        ∷ ("completedAt", Value.date now)
        ∷ [])
    completion_status_changed job_id job updated_job
    pure (record {
      status = 200;
      body =
          ("message", Json.value (Value.text "Job completed."))
          ∷ ("job", Json.job updated_job)
          ∷ [];
    })

  confirm_body : AuthRequest zod.Raw → M db Reply
  confirm_body req = do
    user ← some_or_reply req.user (error 401 "Not authenticated")
    reply_if (not (same_role user.role consumer) && not (same_role user.role provider))
        (error 403 "Only consumers or providers can confirm completion.")
    job_id ← some_or_reply (zod.id_param req.params) (error 400 "Invalid id parameter")
    (found, resolved_id) ←
        try_catch (resolve_participants job_id) (missing_column_to completion_not_enabled)
    job ← some_or_reply found (error 404 "Job not found.")
    provider_id ←
        some_or_reply (present resolved_id) (error 400 "No awarded provider for this job.")
    reply_if (not (user.user_id == job.consumer_id) && not (user.user_id == provider_id))
        (error 403 "Not allowed.")
    reply_if (not (can_confirm_complete job.status)) (
        error 400 (
          interpolate
            ("Job cannot be confirmed from status " ∷ job_status_name job.status ∷ "." ∷ [])))
    reply_if (not (is_id job.completion_pending_for_user_id user.user_id))
        (error 403 "You are not the user who needs to confirm completion.")
    updated_job ← update_job job_id (confirm_job now)
    confirm_announce job_id provider_id job updated_job

  unfoldable pub post_job_confirm_complete : AuthRequest zod.Raw → World db → Reply × World db
  unfolding confirm_body confirm_announce completion_status_changed completion_not_enabled
      can_confirm_complete resolve_participants provider_or_accepted
  post_job_confirm_complete req =
      run (error 500 "Internal server error while confirming completion.") (confirm_body req)
