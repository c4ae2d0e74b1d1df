-- ===== src/Jobs/Disputes.antt =====
-- src/routes/jobDisputes.ts: POST /jobs/:jobId/disputes and POST /admin/disputes/:id/resolve.
pub mod OpenOutcome
pub mod ResolveOutcome
pub mod OpenGranted
pub mod ResolveGranted
use home_hero_backend.Prelude.{Bool, Option, String, [], map, none, not, some, ℕ, ◌&&◌, ◌==◌, ◌∷◌}
use home_hero_backend.Http.{
  Value, date_or_null, interpolate, pure, reply_if, run, some_or_reply, text_or_null, ◌>>=◌, ◌>>◌,
}
use home_hero_backend.Jobs.Cancellation.{participants}
use home_hero_backend.Jobs.Guards.{can_open_dispute}
use home_hero_backend.Jobs.Model.{
  AuthUser, Bid, Dispute, DisputeStatus, Job, JobStatus, User, admin, cancelled, completed,
  consumer, dispute_status_name, disputed, is_id, is_resolved, is_some, job_status_name, provider,
  resolved, same_role, same_status,
}
use home_hero_backend.Jobs.Participants.{accepted_of, provider_of}
use home_hero_backend.Jobs.Request.{
  AuthRequest, Resolution, ResolveBody, Zod, to_cancelled, to_completed,
}
use home_hero_backend.Jobs.World.{
  Content, Db, Effect, Json, M, Reply, World, audit_security_event, create_dispute, emit_each,
  enqueue_webhook_event, error, find_dispute, find_first_bid, find_first_dispute, find_job,
  find_users, notification, update_dispute, update_job, valid_or_reply,
}
use home_hero_backend.Text.{non_empty, trim}

abbrev pub dispute_job : Job → Job
dispute_job job = record job { status = disputed }

-- `where: { jobId, status: { in: ["OPEN", "INVESTIGATING"] } }`.
abbrev pub is_active_of : ℕ → Dispute → Bool
is_active_of job_id d = d.job_id == job_id && not (is_resolved d.status)

-- `description?.trim() || null`.
abbrev trimmed_description : Option String → Option String
trimmed_description none = none
trimmed_description (some s) = non_empty (trim s)

-- The row that `create` makes, with the defaults of the schema.
abbrev pub new_dispute : ℕ → ℕ → ℕ → String → Option String → ℕ → Dispute
new_dispute now job_id me reason_code description id = record {
  id = id;
  job_id = job_id;
  opened_by_user_id = me;
  reason_code = reason_code;
  description = description;
  status = DisputeStatus.opened;
  created_at = now;
  resolved_at = none;
  resolution_notes = none;
  resolved_by_admin_id = none;
  resolution_job_status = none;
}

-- `typeof job.awardedProviderId === "number" ? job.awardedProviderId : acceptedBid?.providerId ?? null`.
abbrev pub dispute_provider : Option ℕ → Option Bid → Option ℕ
dispute_provider (some id) accepted_bid = some id
dispute_provider none accepted_bid = provider_of accepted_bid

abbrev pub resolution_status : Resolution → JobStatus
resolution_status to_completed = completed
resolution_status to_cancelled = cancelled

abbrev pub resolve_dispute : ℕ → ℕ → ResolveBody → Dispute → Dispute
resolve_dispute now admin_id body d = record d {
  status = resolved;
  resolved_at = some now;
  resolution_notes = some body.resolution_notes;
  resolved_by_admin_id = some admin_id;
  resolution_job_status = some (resolution_status body.job_status);
}

abbrev pub set_status : JobStatus → Job → Job
set_status status job = record job { status = status }

module _ (db : Db) (zod : Zod) (audits : Bool) (now : ℕ) where
  dispute_status_changed : ℕ → Job → Job → M db (Unit {0})
  dispute_status_changed job_id job updated_job = enqueue_webhook_event "job.status_changed" (
      ("jobId", Value.num job_id)
      ∷ ("consumerId", Value.num job.consumer_id)
      ∷ ("previousStatus", Value.text (job_status_name job.status))
      ∷ ("newStatus", Value.text (job_status_name updated_job.status))
      ∷ ("jobTitle", Value.text job.title)
      ∷ ("changedAt", Value.date now)
      ∷ [])

  -- The notification of an administrator.
  admin_notice : ℕ → ℕ → Job → Dispute → Job → User → Effect
  admin_notice job_id me job d updated_job a = notification a.id "ADMIN_JOB_DISPUTED" (
      Content.fields (
        ("jobId", Value.num job_id)
        ∷ ("disputeId", Value.num d.id)
        ∷ ("jobTitle", Value.text job.title)
        ∷ ("previousStatus", Value.text (job_status_name job.status))
        ∷ ("newStatus", Value.text (job_status_name updated_job.status))
        ∷ ("openedByUserId", Value.num me)
        ∷ ("reasonCode", Value.text d.reason_code)
        ∷ []))

  open_announce : ℕ → ℕ → Job → Option ℕ → Dispute → Job → M db Reply
  open_announce job_id me job provider_id d updated_job = do
    emit_each (
        map
          (λ uid.
            notification uid "JOB_DISPUTED"
              (Content.line (interpolate ("A dispute was opened for \"" ∷ job.title ∷ "\"." ∷ []))))
          (participants job.consumer_id provider_id))
    admins ← find_users (λ u. same_role u.role admin)
    emit_each (map (admin_notice job_id me job d updated_job) admins)
    audit_security_event audits "job.disputed" (
        ("targetType", Value.text "JOB")
        ∷ ("targetId", Value.decimal job_id)
        ∷ ("jobId", Value.num job_id)
        ∷ ("previousStatus", Value.text (job_status_name job.status))
        ∷ ("newStatus", Value.text (job_status_name updated_job.status))
        ∷ ("disputeId", Value.num d.id)
        ∷ ("openedByUserId", Value.num me)
        ∷ ("reasonCode", Value.text d.reason_code)
        ∷ [])
    dispute_status_changed job_id job updated_job
    enqueue_webhook_event "dispute.created" (
        ("disputeId", Value.num d.id)
        ∷ ("jobId", Value.num job.id)
        ∷ ("jobTitle", Value.text job.title)
        ∷ ("openedByUserId", Value.num me)
        ∷ ("reasonCode", Value.text d.reason_code)
        ∷ ("status", Value.text (dispute_status_name d.status))
        ∷ ("createdAt", Value.date d.created_at)
        ∷ [])
    pure (record { status = 201; body = ("dispute", Json.dispute d) ∷ [] })

  open_body : AuthRequest zod.Raw → M db Reply
  open_body req = do
    user ← some_or_reply req.user (error 401 "Not authenticated")
    reply_if (not (same_role user.role consumer) && not (same_role user.role provider))
        (error 403 "Only consumers or providers can open disputes.")
    job_id ← some_or_reply (zod.id_param req.params) (error 400 "Invalid jobId parameter")
    body ← valid_or_reply (zod.dispute_fields req.body)
    found ← find_job job_id
    job ← some_or_reply found (error 404 "Job not found.")
    reply_if (not (can_open_dispute job.status)) (
        error 400 (
          interpolate (
            "Disputes can only be opened for IN_PROGRESS, COMPLETED_PENDING_CONFIRMATION, or COMPLETED jobs. Current status: "
            ∷ job_status_name job.status
            ∷ "."
            ∷ [])))
    accepted_bid ← find_first_bid (accepted_of job_id)
    reply_if
        (not (job.consumer_id == user.user_id)
          && not (is_id (dispute_provider job.awarded_provider_id accepted_bid) user.user_id))
        (error 403 "Not allowed.")
    existing_open ← find_first_dispute (is_active_of job_id)
    reply_if (is_some existing_open) (error 409 "A dispute is already open for this job.")
    d ← create_dispute (
        new_dispute now job_id user.user_id body.reason_code (trimmed_description body.description))
    updated_job ← update_job job_id dispute_job
    open_announce job_id user.user_id job (dispute_provider job.awarded_provider_id accepted_bid) d
        updated_job

  unfoldable pub post_job_disputes : AuthRequest zod.Raw → World db → Reply × World db
  unfolding open_body open_announce dispute_status_changed admin_notice can_open_dispute
  post_job_disputes req =
      run (error 500 "Internal server error while opening dispute.") (open_body req)

  resolve_announce : AuthUser → ResolveBody → Job → Option ℕ → Dispute → Job → M db Reply
  resolve_announce user body job provider_id d updated_job = do
    emit_each (
        map
          (λ uid. notification uid "DISPUTE_RESOLVED" (
            Content.fields (
              ("jobId", Value.num job.id)
              ∷ ("disputeId", Value.num d.id)
              ∷ ("jobTitle", Value.text job.title)
              ∷ ("jobStatus", Value.text (job_status_name updated_job.status))
              ∷ ("resolutionNotes", text_or_null d.resolution_notes)
              ∷ [])))
          (participants job.consumer_id provider_id))
    audit_security_event audits "dispute.resolved" (
        ("targetType", Value.text "DISPUTE")
        ∷ ("targetId", Value.decimal d.id)
        ∷ ("disputeId", Value.num d.id)
        ∷ ("jobId", Value.num job.id)
        ∷ ("previousJobStatus", Value.text (job_status_name job.status))
        ∷ ("newJobStatus", Value.text (job_status_name updated_job.status))
        ∷ ("resolutionJobStatus", Value.text (job_status_name (resolution_status body.job_status)))
        ∷ ("resolvedByAdminId", Value.num user.user_id)
        ∷ [])
    dispute_status_changed job.id job updated_job
    enqueue_webhook_event "dispute.resolved" (
        ("disputeId", Value.num d.id)
        ∷ ("jobId", Value.num job.id)
        ∷ ("status", Value.text (dispute_status_name d.status))
        ∷ ("resolvedAt", date_or_null d.resolved_at)
        ∷ ("resolutionNotes", text_or_null d.resolution_notes)
        ∷ ("resolutionJobStatus", Value.text (job_status_name (resolution_status body.job_status)))
        ∷ [])
    pure (record {
      status = 200;
      body =
          ("dispute", Json.dispute d)
          ∷ (
            "job",
            Json.object (
                ("id", Value.num updated_job.id)
                ∷ ("status", Value.text (job_status_name updated_job.status))
                ∷ []),
          )
          ∷ [];
    })

  resolve_body : AuthRequest zod.Raw → M db Reply
  resolve_body req = do
    user ← some_or_reply req.user (error 401 "Not authenticated")
    reply_if (not (same_role user.role admin)) (error 403 "Admin only.")
    dispute_id ← some_or_reply (zod.id_param req.params) (error 400 "Invalid dispute id")
    body ← valid_or_reply (zod.resolve_fields req.body)
    found_dispute ← find_dispute dispute_id
    d ← some_or_reply found_dispute (error 404 "Dispute not found.")
    reply_if (is_resolved d.status) (error 409 "Dispute is already resolved.")
    found ← find_job d.job_id
    job ← some_or_reply found (error 404 "Job not found.")
    reply_if (not (same_status job.status disputed)) (
        error 400 (
          interpolate (
            "Cannot resolve dispute unless job is DISPUTED (current: "
            ∷ job_status_name job.status
            ∷ ")."
            ∷ [])))
    accepted_bid ← find_first_bid (accepted_of job.id)
    updated_dispute ← update_dispute dispute_id (resolve_dispute now user.user_id body)
    updated_job ← update_job job.id (set_status (resolution_status body.job_status))
    resolve_announce user body job (dispute_provider job.awarded_provider_id accepted_bid)
        updated_dispute updated_job

  unfoldable pub post_admin_resolve_dispute : AuthRequest zod.Raw → World db → Reply × World db
  unfolding resolve_body resolve_announce dispute_status_changed
  post_admin_resolve_dispute req =
      run (error 500 "Internal server error while resolving dispute.") (resolve_body req)
