-- ===== src/Jobs/Cancellation.antt =====
-- src/routes/jobCancellation.ts: POST /jobs/:jobId/cancel, and the labels of
-- src/services/jobCancellationReasons.ts.
pub mod Outcome
pub mod Granted
use mathlib.Core.Option
use text.Mathlib.Text.{◌==◌ as str_eq}
use home_hero_backend.Prelude.{
  Bool, List, Option, String, [], if◌then◌else◌, ltb, map, none, not, some, ℕ, ◌&&◌, ◌==◌, ◌∷◌,
}
use home_hero_backend.Http.{
  Value, date_or_null, interpolate, num_or_null, pure, reply_if, respond, run, some_or_reply,
  text_or_null, try_catch, ◌>>=◌, ◌>>◌,
}
use home_hero_backend.Jobs.Award.{decline_bid}
use home_hero_backend.Jobs.Guards.{can_cancel_job}
use home_hero_backend.Jobs.Model.{
  AuthUser, Job, admin, awarded, cancelled, consumer, in_progress, is_id, job_status_name,
  optional_id, provider, same_role, same_status, truthy,
}
use home_hero_backend.Jobs.Participants.{provider_or_accepted, resolve_participants}
use home_hero_backend.Jobs.Request.{AuthRequest, CancelBody, Parsed, Zod, invalid, valid}
use home_hero_backend.Jobs.World.{
  Content, Db, Json, M, Reply, World, audit_security_event, emit_all, enqueue_webhook_event, error,
  missing_column_to, notification, transaction, update_bids, update_job,
}
use home_hero_backend.Text.{length16, non_empty, trim}

-- `JOB_CANCELLATION_REASON_LABELS`.
reason_labels : List (String × String)
reason_labels =
    ("CHANGE_OF_PLANS", "Change of plans")
    ∷ ("HIRED_SOMEONE_ELSE", "Hired someone else")
    ∷ ("TOO_EXPENSIVE", "Too expensive")
    ∷ ("SCHEDULING_CONFLICT", "Scheduling conflict")
    ∷ ("NO_SHOW", "No show")
    ∷ ("UNRESPONSIVE", "Unresponsive")
    ∷ ("SAFETY_CONCERN", "Safety concern")
    ∷ ("DUPLICATE_JOB", "Duplicate job")
    ∷ ("OTHER", "Other")
    ∷ []

label_or_code : List (String × String) → String → String
label_or_code [] code = code
label_or_code ((k, label) ∷ labels) code =
    if str_eq k code then label else label_or_code labels code

cancellation_reason_label : Option String → Option String
unfolding label_or_code reason_labels non_empty
cancellation_reason_label none = none
cancellation_reason_label (some code) = Option.map (label_or_code reason_labels) (non_empty code)

-- `reasonDetails?.trim() ? reasonDetails.trim() : null`.
pub trimmed_or_null : Option String → Option String
trimmed_or_null none = none
trimmed_or_null (some s) = non_empty (trim s)

pub text_or_empty : Option String → String
text_or_empty none = ""
text_or_empty (some s) = s

-- `bodySchema`'s `superRefine`: the reason OTHER needs details.
unfoldable pub cancel_refine : CancelBody → Parsed CancelBody
cancel_refine val =
    if str_eq val.reason_code "OTHER" && ltb (length16 (trim (text_or_empty val.reason_details))) 3
    then invalid (some "reasonDetails is required when reasonCode is OTHER.")
    else valid val

unfoldable pub cancel_parse : Parsed CancelBody → Parsed CancelBody
unfolding cancel_refine
cancel_parse (valid val) = cancel_refine val
cancel_parse (invalid message) = invalid message

-- `if (!parsedBody.success) return res.status(400)...` with all issues.
valid_or_details : {db : Db} {A : Type 0} → Parsed A → M db A
valid_or_details (valid a) w = pure a w
valid_or_details (invalid message) w =
    respond
      (record {
        status = 400;
        body =
            ("error", Json.value (Value.text "Invalid request body"))
            ∷ ("details", Json.value (Value.issues message))
            ∷ [];
      })
      w

cancellation_not_enabled : Reply
cancellation_not_enabled = record {
  status = 501;
  body =
      (
        "error",
        Json.value (
            Value.text
              "Cancellation metadata is not enabled on this server yet. Apply DB migrations and redeploy."),
      )
      ∷ ("code", Json.value (Value.text "JOB_CANCELLATION_NOT_ENABLED"))
      ∷ [];
}

-- `isConsumer`, `isProvider` and `isAdmin`.
abbrev pub cancels_as_consumer : AuthUser → Job → Bool
cancels_as_consumer user job = same_role user.role consumer && user.user_id == job.consumer_id

abbrev pub cancels_as_provider : AuthUser → Option ℕ → Bool
cancels_as_provider user provider_id =
    same_role user.role provider && truthy provider_id && is_id provider_id user.user_id

abbrev cancelled_by_role : AuthUser → Option ℕ → String
cancelled_by_role user provider_id =
    if same_role user.role admin
    then "ADMIN"
    else if cancels_as_provider user provider_id
    then "PROVIDER"
    else "CONSUMER"

abbrev pub cancel_job : ℕ → ℕ → String → Option String → Job → Job
cancel_job now me reason_code details job = record job {
  status = cancelled;
  cancelled_at = some now;
  cancelled_by_user_id = some me;
  cancellation_reason_code = some reason_code;
  cancellation_reason_details = details;
}

-- The set of the consumer and the provider, in the order of insertion.
abbrev pub participants : ℕ → Option ℕ → List ℕ
participants consumer_id provider_id =
    if truthy provider_id && not (is_id provider_id consumer_id)
    then consumer_id ∷ optional_id provider_id
    else consumer_id ∷ []

-- `updatedJob.cancelledAt ?? now`.
abbrev cancelled_date : Job → ℕ → Value
cancelled_date job now = elim job.cancelled_at [ none ↦ Value.date now | some t ↦ Value.date t ]

module _ (db : Db) (zod : Zod) (audits : Bool) (now : ℕ) where
  cancel_transaction : ℕ → ℕ → CancelBody → M db Job
  cancel_transaction job_id me body = transaction (do
    update_bids (λ b. b.job_id == job_id) decline_bid
    updated_job ←
        update_job job_id (cancel_job now me body.reason_code (trimmed_or_null body.reason_details))
    pure updated_job)

  cancel_announce : ℕ → AuthUser → Option ℕ → CancelBody → Job → Job → M db Reply
  cancel_announce job_id user provider_id body job updated_job = do
    emit_all (
        map
          (λ id.
            notification id "JOB_CANCELLED"
              (Content.line (interpolate ("Job \"" ∷ job.title ∷ "\" was cancelled." ∷ []))))
          (participants job.consumer_id provider_id))
    audit_security_event audits "job.cancelled" (
        ("targetType", Value.text "JOB")
        ∷ ("targetId", Value.decimal job_id)
        ∷ ("jobId", Value.num job_id)
        ∷ ("previousStatus", Value.text (job_status_name job.status))
        ∷ ("newStatus", Value.text (job_status_name updated_job.status))
        ∷ ("cancelledByRole", Value.text (cancelled_by_role user provider_id))
        ∷ ("cancelledByUserId", Value.num user.user_id)
        ∷ ("awardedProviderId", num_or_null provider_id)
        ∷ ("reasonCode", Value.text body.reason_code)
        ∷ [])
    enqueue_webhook_event "job.cancelled" (
        ("jobId", Value.num updated_job.id)
        ∷ ("consumerId", Value.num job.consumer_id)
        ∷ ("providerId", num_or_null provider_id)
        ∷ ("previousStatus", Value.text (job_status_name job.status))
        ∷ ("newStatus", Value.text (job_status_name updated_job.status))
        ∷ ("title", Value.text updated_job.title)
        ∷ ("location", text_or_null updated_job.location)
        ∷ ("createdAt", Value.date updated_job.created_at)
        ∷ ("cancelledAt", cancelled_date updated_job now)
        ∷ ("cancelledByRole", Value.text (cancelled_by_role user provider_id))
        ∷ ("cancelledByUserId", Value.num user.user_id)
        ∷ ("reasonCode", Value.text body.reason_code)
        ∷ (
          "reasonLabel",
          text_or_null (cancellation_reason_label updated_job.cancellation_reason_code),
        )
        ∷ [])
    enqueue_webhook_event "job.status_changed" (
        ("jobId", Value.num updated_job.id)
        ∷ ("consumerId", Value.num job.consumer_id)
        ∷ ("providerId", num_or_null provider_id)
        ∷ ("previousStatus", Value.text (job_status_name job.status))
        ∷ ("newStatus", Value.text (job_status_name updated_job.status))
        ∷ ("title", Value.text updated_job.title)
        ∷ ("changedAt", cancelled_date updated_job now)
        ∷ [])
    pure (record {
      status = 200;
      body =
          ("message", Json.value (Value.text "Job cancelled successfully."))
          ∷ (
            "job",
            Json.object (
                ("id", Value.num updated_job.id)
                ∷ ("title", Value.text updated_job.title)
                ∷ ("location", text_or_null updated_job.location)
                ∷ ("status", Value.text (job_status_name updated_job.status))
                ∷ ("createdAt", Value.date updated_job.created_at)
                ∷ ("cancelledAt", date_or_null updated_job.cancelled_at)
                ∷ ("cancelledByUserId", num_or_null updated_job.cancelled_by_user_id)
                ∷ ("cancellationReasonCode", text_or_null updated_job.cancellation_reason_code)
                ∷ (
                  "cancellationReasonDetails",
                  text_or_null updated_job.cancellation_reason_details,
                )
                ∷ (
                  "cancellationReasonLabel",
                  text_or_null (cancellation_reason_label updated_job.cancellation_reason_code),
                )
                ∷ []),
          )
          ∷ [];
    })

  cancel_body : AuthRequest zod.Raw → M db Reply
  cancel_body req = do
    user ← some_or_reply req.user (error 401 "Not authenticated")
    reply_if
        (not (same_role user.role consumer)
          && not (same_role user.role provider)
          && not (same_role user.role admin))
        (error 403 "Not allowed.")
    job_id ← some_or_reply (zod.id_param req.params) (error 400 "Invalid jobId parameter")
    body ← valid_or_details (cancel_parse (zod.cancel_fields req.body))
    (found, provider_id) ←
        try_catch (resolve_participants job_id) (missing_column_to cancellation_not_enabled)
    job ← some_or_reply found (error 404 "Job not found.")
    reply_if
        (not (cancels_as_consumer user job)
          && not (cancels_as_provider user provider_id)
          && not (same_role user.role admin))
        (error 403 "Not allowed.")
    reply_if (not (can_cancel_job job.status)) (
        error 400 (
          interpolate (
            "Only jobs that are OPEN, AWARDED, or IN_PROGRESS can be cancelled. Current status: "
            ∷ job_status_name job.status
            ∷ "."
            ∷ [])))
    reply_if
        (cancels_as_provider user provider_id
          && not (same_status job.status awarded)
          && not (same_status job.status in_progress))
        (error 400 (
          interpolate
            ("Providers cannot cancel jobs in status " ∷ job_status_name job.status ∷ "." ∷ [])))
    updated_job ← cancel_transaction job_id user.user_id body
    cancel_announce job_id user provider_id body job updated_job

  unfoldable pub post_job_cancel : AuthRequest zod.Raw → World db → Reply × World db
  unfolding cancel_body cancel_announce cancel_transaction cancel_parse text_or_empty
      cancellation_reason_label cancellation_not_enabled can_cancel_job trimmed_or_null
      valid_or_details resolve_participants provider_or_accepted
  post_job_cancel req =
      run (error 500 "Internal server error while cancelling job.") (cancel_body req)
