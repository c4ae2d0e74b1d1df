-- ===== src/Jobs/Award.antt =====
-- src/routes/jobAward.ts: POST /jobs/:jobId/award.
pub mod Outcome
pub mod Granted
use home_hero_backend.Prelude.{
  Bool, Option, [], if◌then◌else◌, none, not, some, ℕ, ◌&&◌, ◌+◌, ◌==◌, ◌∷◌,
}
use home_hero_backend.Http.{
  Value, interpolate, pure, reply_if, run, some_or_reply, try_catch, ◌>>=◌, ◌>>◌,
}
use home_hero_backend.Jobs.Model.{
  Bid, Job, JobStatus, accepted, awarded, consumer, declined, is_pending, job_status_name,
  same_role, same_status, truthy,
}
use home_hero_backend.Jobs.Request.{AuthRequest, AwardBody, Parsed, Zod, invalid, valid}
use home_hero_backend.Jobs.World.{
  Content, Db, Json, M, Reply, World, audit_security_event, create_notification,
  enqueue_webhook_event, error, find_bid, find_first_bid, find_job, missing_column_to, transaction,
  update_bid, update_bids, update_job, valid_or_reply,
}

-- `bodySchema`'s `superRefine`: exactly one of the two identifiers.
unfoldable pub award_refine : AwardBody → Parsed AwardBody
award_refine val =
    let count = (if truthy val.bid_id then 1 else 0) + (if truthy val.provider_id then 1 else 0) in
    if count == 1 then valid val else invalid (some "Provide exactly one of bidId or providerId.")

unfoldable pub award_parse : Parsed AwardBody → Parsed AwardBody
unfolding award_refine
award_parse (valid val) = award_refine val
award_parse (invalid message) = invalid message

award_not_enabled : Reply
award_not_enabled = record {
  status = 501;
  body =
      (
        "error",
        Json.value (
            Value.text
              "Awarding is not enabled on this server yet. Apply DB migrations and redeploy."),
      )
      ∷ ("code", Json.value (Value.text "JOB_AWARD_NOT_ENABLED"))
      ∷ [];
}

-- `data: { status: "AWARDED", awardedProviderId, awardedAt }`.
abbrev pub award_job : ℕ → ℕ → Job → Job
award_job provider_id now job = record job {
  status = awarded;
  awarded_provider_id = some provider_id;
  awarded_at = some now;
}

abbrev pub accept_bid : Bid → Bid
accept_bid bid = record bid { status = accepted }

abbrev pub decline_bid : Bid → Bid
decline_bid bid = record bid { status = declined }

module _ (db : Db) (zod : Zod) (audits : Bool) (now : ℕ) where
  -- By `bidId` where it is given, and else by the pair of the job and the provider.
  resolve_bid : ℕ → Option ℕ → Option ℕ → M db (Option Bid)
  resolve_bid job_id (some bid_id) provider_id = find_bid bid_id
  resolve_bid job_id none (some provider_id) =
      find_first_bid (λ b. b.job_id == job_id && b.provider_id == provider_id)
  resolve_bid job_id none none = pure none

  -- The transaction: accept the bid, decline the job's other pending bids, award the job.
  award_transaction : Job → Bid → M db (Bid × Job)
  award_transaction job bid = transaction (do
    accepted_bid ← update_bid bid.id accept_bid
    update_bids (λ b. b.job_id == job.id && not (b.id == bid.id) && is_pending b.status) decline_bid
    updated_job ← update_job job.id (award_job bid.provider_id now)
    pure (accepted_bid, updated_job))

  -- What follows the transaction.
  award_announce : Job → Bid → Bid → Job → M db Reply
  award_announce job bid accepted_bid updated_job = do
    create_notification bid.provider_id "JOB_AWARDED"
        (Content.line (interpolate ("You were awarded for \"" ∷ job.title ∷ "\"." ∷ [])))
    create_notification job.consumer_id "JOB_AWARDED"
        (Content.line (interpolate ("You awarded a provider for \"" ∷ job.title ∷ "\"." ∷ [])))
    audit_security_event audits "job.awarded" (
        ("targetType", Value.text "JOB")
        ∷ ("targetId", Value.decimal job.id)
        ∷ ("jobId", Value.num job.id)
        ∷ ("previousStatus", Value.text (job_status_name job.status))
        ∷ ("newStatus", Value.text (job_status_name updated_job.status))
        ∷ ("awardedProviderId", Value.num bid.provider_id)
        ∷ ("bidId", Value.num bid.id)
        ∷ [])
    enqueue_webhook_event "bid.accepted" (
        ("bidId", Value.num accepted_bid.id)
        ∷ ("jobId", Value.num job.id)
        ∷ ("consumerId", Value.num job.consumer_id)
        ∷ ("providerId", Value.num bid.provider_id)
        ∷ ("amount", Value.num bid.amount)
        ∷ ("jobTitle", Value.text job.title)
        ∷ ("acceptedAt", Value.date now)
        ∷ [])
    enqueue_webhook_event "job.status_changed" (
        ("jobId", Value.num updated_job.id)
        ∷ ("consumerId", Value.num job.consumer_id)
        ∷ ("previousStatus", Value.text (job_status_name job.status))
        ∷ ("newStatus", Value.text (job_status_name updated_job.status))
        ∷ ("jobTitle", Value.text job.title)
        ∷ ("changedAt", Value.date now)
        ∷ [])
    pure (record {
      status = 200;
      body =
          ("message", Json.value (Value.text "Provider awarded. Job is now AWARDED."))
          ∷ ("job", Json.job updated_job)
          ∷ ("acceptedBid", Json.bid accepted_bid)
          ∷ [];
    })

  award_body : AuthRequest zod.Raw → M db Reply
  award_body req = do
    user ← some_or_reply req.user (error 401 "Not authenticated")
    reply_if (not (same_role user.role consumer)) (error 403 "Only consumers can award a provider.")
    job_id ← some_or_reply (zod.id_param req.params) (error 400 "Invalid jobId parameter")
    body ← valid_or_reply (award_parse (zod.award_fields req.body))
    found ← try_catch (find_job job_id) (missing_column_to award_not_enabled)
    job ← some_or_reply found (error 404 "Job not found.")
    reply_if (not (job.consumer_id == user.user_id)) (error 403 "You do not own this job.")
    reply_if (not (same_status job.status JobStatus.opened)) (
        error 400
          (interpolate ("Job is not OPEN (current: " ∷ job_status_name job.status ∷ ")." ∷ [])))
    candidate ← resolve_bid job_id body.bid_id body.provider_id
    bid ← some_or_reply candidate (error 404 "Bid not found for this job.")
    reply_if (not (bid.job_id == job.id)) (error 404 "Bid not found for this job.")
    (accepted_bid, updated_job) ← award_transaction job bid
    award_announce job bid accepted_bid updated_job

  unfoldable pub post_job_award : AuthRequest zod.Raw → World db → Reply × World db
  unfolding award_body award_announce award_transaction resolve_bid award_parse award_not_enabled
  post_job_award req =
      run (error 500 "Internal server error while awarding provider.") (award_body req)
