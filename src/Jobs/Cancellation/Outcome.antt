-- ===== src/Jobs/Cancellation/Outcome.antt =====
-- What POST /jobs/:jobId/cancel does, on every path: the specification of
-- src/routes/jobCancellation.ts.
use home_hero_backend.Prelude.{
  Bool, List, Option, String, [], arith, false, inl, inr, map, none, not, refl, some, suc, zero, ℕ,
  ◌&&◌, ◌++◌, ◌==◌, ◌∷◌, ◌≡◌, ◌≢◌, ◌⊎◌,
}
use home_hero_backend.Http.{pure, respond, ◌>>=◌}
use home_hero_backend.Http.Rules.{
  Ends, pure_rule, reply_if_rule, run_rule, some_or_reply_rule, stops,
}
use home_hero_backend.Jobs.Award.{decline_bid}
use home_hero_backend.Jobs.Cancellation.{
  cancel_announce, cancel_body, cancel_job, cancel_parse, cancel_transaction,
  cancellation_not_enabled, cancels_as_consumer, cancels_as_provider, participants, post_job_cancel,
  trimmed_or_null, valid_or_details,
}
use home_hero_backend.Jobs.Guards.{can_cancel_job}
use home_hero_backend.Jobs.Model.{
  AuthUser, Job, JobStatus, admin, awarded, consumer, in_progress, provider, same_role, same_status,
}
use home_hero_backend.Jobs.Participants.{designated, resolve_participants_rule}
use home_hero_backend.Jobs.Request.{AuthRequest, CancelBody, Parsed, Zod, invalid, valid}
use home_hero_backend.Jobs.Rules.{
  Sent, audit_rule, audited, emit_all_rule, emit_rule, optional, outbox_laws, posted, summary,
  to_user, transaction_rule,
}
use home_hero_backend.Jobs.Rules.Queries.{update_bids_rule, update_job_rule}
use home_hero_backend.Jobs.World.{
  Content, Db, Effect, M, Reply, World, enqueue_webhook_event, error, notification,
}

-- The calls to the injected functions that follow a cancellation, in order.
abbrev pub cancel_calls : Bool → List ℕ → List Sent
cancel_calls audits users =
    map (λ id. to_user id "JOB_CANCELLED") users
    ++ (optional audits (audited "job.cancelled")
        ++ posted "job.cancelled" ∷ posted "job.status_changed" ∷ [])

internal : Reply
internal = error 500 "Internal server error while cancelling job."

map-summary :
    (type : String) (content : Content) (ids : List ℕ)
    → map summary (map (λ id. notification id type content) ids) ≡ map (λ id. to_user id type) ids
map-summary type content [] = refl
map-summary type content (id ∷ ids) = rw (map-summary type content ids)

-- Who may cancel: the consumer of the job, its provider once it is awarded, and an administrator.
abbrev pub MayCancel : AuthUser → Job → Option ℕ → Type 0
MayCancel user job provider_id =
    ((user.role ≡ consumer) × (user.user_id ≡ job.consumer_id))
    ⊎ ((user.role ≡ provider)
        × (provider_id ≡ some user.user_id)
        × ((job.status ≡ awarded) ⊎ (job.status ≡ in_progress)))
    ⊎ (user.role ≡ admin)

abbrev pub IsLive : JobStatus → Type 0
IsLive status = (status ≡ JobStatus.opened) ⊎ (status ≡ awarded) ⊎ (status ≡ in_progress)

can_cancel_job-IsLive : (s : JobStatus) → not (can_cancel_job s) ≡ false → IsLive s
unfolding can_cancel_job
can_cancel_job-IsLive s h = ground arith

tests-MayCancel :
    (user : AuthUser) (job : Job) (p : Option ℕ)
    → not (cancels_as_consumer user job)
        && not (cancels_as_provider user p)
        && not (same_role user.role admin)
      ≡ false
    → cancels_as_provider user p
        && not (same_status job.status awarded)
        && not (same_status job.status in_progress)
      ≡ false
    → MayCancel user job p
tests-MayCancel user job none h k = ground arith
tests-MayCancel user job (some zero) h k = ground arith
tests-MayCancel user job (some (suc n)) h k = ground arith

module _ (db : Db) (zod : Zod) (audits : Bool) (now : ℕ) where
  pub record Entitled (req : AuthRequest zod.Raw) (w : World db) (user : AuthUser) (job_id : ℕ)
      (job : Job) (body : CancelBody) : Type 0 where
    pub sender : req.user ≡ some user
    pub named_job : zod.id_param req.params ≡ some job_id
    pub body_valid : cancel_parse (zod.cancel_fields req.body) ≡ valid body
    pub job_row : db.jobs.find_unique job_id w.jobs ≡ some job
    pub job_live : IsLive job.status
    pub may_cancel : MayCancel user job (designated db w job_id)

  -- The answer is 200 after all calls, or 500 where one of them failed.
  abbrev pub Answered : List ℕ → Reply → List Effect → List Effect → Type 0
  Answered users r before after =
      (r.status ≡ 500)
      ⊎ ((r.status ≡ 200) × (map summary after ≡ map summary before ++ cancel_calls audits users))

  -- The state after it, but for the outbox.
  abbrev pub cancel_state : AuthUser → ℕ → CancelBody → World db → World db
  cancel_state user job_id body w = record w {
    bids = db.bids.update_many (λ b. b.job_id == job_id) decline_bid w.bids;
    jobs =
        db.jobs.update job_id
          (cancel_job now user.user_id body.reason_code (trimmed_or_null body.reason_details))
          w.jobs;
  }

  -- Every request is refused with only the count of calls changed, or cancels the job and
  -- declines all its bids.
  pub data Outcome (req : AuthRequest zod.Raw) (w : World db) : Reply → World db → Type 0 where
    refused :
        {r : Reply} {calls : ℕ} → r.status ≢ 200 → Outcome req w r (record w { calls = calls })
    granted :
        {r : Reply} {user : AuthUser} {job_id : ℕ} {job : Job} {body : CancelBody}
        {outbox : List Effect} {calls : ℕ}
        → Entitled req w user job_id job body
        → Answered (participants job.consumer_id (designated db w job_id)) r w.outbox outbox
        → Outcome req w r
            (record (cancel_state user job_id body w) { outbox = outbox; calls = calls })

  valid_or_details_rule :
      {E K : Reply → World db → Type 0} (p : Parsed CancelBody) (f : CancelBody → M db Reply)
      (w : World db)
      → ((r : Reply) → r.status ≡ 400 → E r w)
      → ((a : CancelBody) → p ≡ valid a → Ends internal E K (f a w))
      → Ends internal E K ((valid_or_details p >>= f) w)
  unfolding valid_or_details ◌>>=◌ pure respond
  valid_or_details_rule (valid a) f w stop go = go a refl
  valid_or_details_rule (invalid m) f w stop go = stops _ w (stop _ refl)

  announce_rule :
      (E : Reply → World db → Type 0) (job_id : ℕ) (user : AuthUser) (p : Option ℕ)
      (body : CancelBody) (job j : Job) (w : World db)
      → ((r : Reply) (o : List Effect) (n : ℕ)
          → Answered (participants job.consumer_id p) r w.outbox o
          → E r (record w { outbox = o; calls = n }))
      → Ends internal E E (cancel_announce db zod audits now job_id user p body job j w)
  unfolding cancel_announce enqueue_webhook_event internal
  announce_rule E job_id user p body job j w done =
      emit_all_rule _ _ _ (λ _ _. done _ _ _ (inl refl))
        λ n. audit_rule _ _ _ _ _ (done _ _ _ (inl refl)) (
          emit_rule _ _ _ (done _ _ _ (inl refl)) (
            emit_rule _ _ _ (done _ _ _ (inl refl))
              (pure_rule _ _ (done _ _ _ (inr (refl, simp (outbox_laws, map-summary)))))))

  cancel_rule :
      (req : AuthRequest zod.Raw) (w : World db)
      → Ends internal (Outcome req w) (Outcome req w) (cancel_body db zod audits now req w)
  unfolding cancel_body internal cancellation_not_enabled can_cancel_job cancel_transaction
  cancel_rule req w =
      some_or_reply_rule _ _ _ _ (λ _. refused (omega arith))
        λ user hu.
          reply_if_rule _ _ _ _ (λ _. refused (omega arith))
            λ hr.
              some_or_reply_rule _ _ _ _ (λ _. refused (omega arith))
                λ job_id hn.
                  valid_or_details_rule _ _ _ (λ _ e. refused (omega arith))
                    λ body hb.
                      resolve_participants_rule _ _ _ _ (λ _. refused (omega arith))
                        (λ _. refused (omega arith))
                        λ _.
                          some_or_reply_rule _ _ _ _ (λ _. refused (omega arith))
                            λ job hj.
                              reply_if_rule _ _ _ _ (λ _. refused (omega arith))
                                λ hm.
                                  reply_if_rule _ _ _ _ (λ _. refused (omega arith))
                                    λ hs.
                                      reply_if_rule _ _ _ _ (λ _. refused (omega arith))
                                        λ hp. transaction_rule _ _ _ (
                                          update_bids_rule _ _ _ _ (λ n. refused (omega arith))
                                            (update_job_rule _ _ _ _ (λ n. refused (omega arith))
                                              λ j _. pure_rule _ _ (
                                                announce_rule _ _ _ _ _ _ _ _ λ r o n a.
                                                  granted {user = user} {job = job} {body = body}
                                                    (record {
                                                      sender = hu;
                                                      named_job = hn;
                                                      body_valid = hb;
                                                      job_row = hj;
                                                      job_live =
                                                          can_cancel_job-IsLive job.status hs;
                                                      may_cancel =
                                                          tests-MayCancel user job
                                                            (designated db w job_id) hm hp;
                                                    })
                                                    a)))

  -- For every request, state and set of failing calls: either the answer of the cancel handler is
  -- not 200 and nothing changed but the count of calls; or the sender may cancel the named job
  -- (its consumer, its provider once it is awarded, or an admin) in its present status: then all
  -- bids of the job are declined and the job is cancelled with the reason given, in one step, and
  -- the answer is 200 after the calls in order, or 500.
  pub post_job_cancel-Outcome :
      (req : AuthRequest zod.Raw) (w : World db)
      → Outcome req w
          (post_job_cancel db zod audits now req w).0
          (post_job_cancel db zod audits now req w).1
  unfolding post_job_cancel internal
  post_job_cancel-Outcome req w = run_rule (cancel_body db zod audits now req) w (cancel_rule req w)
