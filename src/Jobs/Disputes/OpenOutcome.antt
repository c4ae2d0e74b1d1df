-- ===== src/Jobs/Disputes/OpenOutcome.antt =====
-- What POST /jobs/:jobId/disputes does, on every path: the specification of
-- `createPostJobDisputesHandler` in src/routes/jobDisputes.ts.
use home_hero_backend.Prelude.{
  Bool, List, Option, String, [], arith, false, inl, inr, map, none, not, refl, some, true, ℕ, ◌&&◌,
  ◌++◌, ◌==◌, ◌∷◌, ◌≡◌, ◌≢◌, ◌⊎◌,
}
use home_hero_backend.Http.Rules.{Ends, pure_rule, reply_if_rule, run_rule, some_or_reply_rule}
use home_hero_backend.Jobs.Cancellation.{participants}
use home_hero_backend.Jobs.Disputes.{
  admin_notice, dispute_job, dispute_provider, is_active_of, new_dispute, open_announce, open_body,
  post_job_disputes, dispute_status_changed, trimmed_description,
}
use home_hero_backend.Jobs.Guards.{can_open_dispute}
use home_hero_backend.Jobs.Model.{AuthUser, Dispute, Job, User, admin, is_id, same_role}
use home_hero_backend.Jobs.Participants.{accepted_of}
use home_hero_backend.Jobs.Request.{AuthRequest, DisputeBody, Zod, valid}
use home_hero_backend.Jobs.Rules.{
  Sent, audit_rule, audited, emit_each_rule, emit_rule, optional, outbox_laws, posted, summary,
  to_user, valid_or_reply_rule,
}
use home_hero_backend.Jobs.Rules.Queries.{
  create_dispute_rule, find_first_bid_rule, find_first_dispute_rule, find_job_rule, find_users_rule,
  update_job_rule,
}
use home_hero_backend.Jobs.World.{
  Content, Db, Effect, Reply, World, enqueue_webhook_event, error, notification,
}

-- The calls to the injected functions that follow, in order.
abbrev pub open_calls : Bool → List ℕ → List ℕ → List Sent
open_calls audits users admins =
    map (λ id. to_user id "JOB_DISPUTED") users
    ++ (map (λ id. to_user id "ADMIN_JOB_DISPUTED") admins
        ++ (optional audits (audited "job.disputed")
            ++ posted "job.status_changed" ∷ posted "dispute.created" ∷ []))

internal : Reply
internal = error 500 "Internal server error while opening dispute."

map-user :
    (type : String) (content : Content) (ids : List ℕ)
    → map summary (map (λ id. notification id type content) ids) ≡ map (λ id. to_user id type) ids
map-user type content [] = refl
map-user type content (id ∷ ids) = rw (map-user type content ids)

tests-participant :
    (job : Job) (user : AuthUser) (p : Option ℕ)
    → not (job.consumer_id == user.user_id) && not (is_id p user.user_id) ≡ false
    → (job.consumer_id ≡ user.user_id) ⊎ (p ≡ some user.user_id)
tests-participant job user p h = ground arith

module _ (db : Db) (zod : Zod) (audits : Bool) (now : ℕ) where
  map-admin :
      (n me : ℕ) (job : Job) (d : Dispute) (j : Job) (admins : List User)
      → map summary (map (admin_notice db zod audits now n me job d j) admins)
        ≡ map (λ id. to_user id "ADMIN_JOB_DISPUTED") (map (λ u. u.id) admins)
  unfolding admin_notice
  map-admin n me job d j [] = refl
  map-admin n me job d j (a ∷ admins) = rw (map-admin n me job d j admins)

  -- The provider of the job, as this handler finds it.
  abbrev pub provider_at : World db → ℕ → Job → Option ℕ
  provider_at w job_id job =
      dispute_provider job.awarded_provider_id (db.bids.find_first (accepted_of job_id) w.bids)

  pub record Entitled (req : AuthRequest zod.Raw) (w : World db) (user : AuthUser) (job_id : ℕ)
      (job : Job) (body : DisputeBody) : Type 0 where
    pub sender : req.user ≡ some user
    pub sender_role : user.role ≢ admin
    pub named_job : zod.id_param req.params ≡ some job_id
    pub body_valid : zod.dispute_fields req.body ≡ valid body
    pub job_row : db.jobs.find_unique job_id w.jobs ≡ some job
    pub job_disputable : can_open_dispute job.status ≡ true
    pub participant :
        (job.consumer_id ≡ user.user_id) ⊎ (provider_at w job_id job ≡ some user.user_id)
    pub none_active : db.disputes.find_first (is_active_of job_id) w.disputes ≡ none

  abbrev pub opened_dispute : World db → AuthUser → ℕ → DisputeBody → Dispute
  opened_dispute w user job_id body =
      new_dispute now job_id user.user_id body.reason_code (trimmed_description body.description)
        (db.disputes.next_id w.disputes)

  -- The answer is 201 after all calls, or 500 where one of them failed.
  abbrev pub Answered : List ℕ → List ℕ → Reply → List Effect → List Effect → Type 0
  Answered users admins r before after =
      (r.status ≡ 500)
      ⊎ ((r.status ≡ 201)
          × (map summary after ≡ map summary before ++ open_calls audits users admins))

  -- Every request is refused with only the count of calls changed; or opens a dispute and answers
  -- 500 before the job was touched; or opens a dispute and puts the job under it.
  pub data Outcome (req : AuthRequest zod.Raw) (w : World db) : Reply → World db → Type 0 where
    refused :
        {r : Reply} {calls : ℕ} → r.status ≢ 201 → Outcome req w r (record w { calls = calls })
    interrupted :
        {r : Reply} {user : AuthUser} {job_id : ℕ} {job : Job} {body : DisputeBody} {calls : ℕ}
        → Entitled req w user job_id job body
        → r.status ≡ 500
        → Outcome req w r (record w {
          disputes = db.disputes.create (opened_dispute w user job_id body) w.disputes;
          calls = calls;
        })
    granted :
        {r : Reply} {user : AuthUser} {job_id : ℕ} {job : Job} {body : DisputeBody}
        {outbox : List Effect} {calls : ℕ}
        → Entitled req w user job_id job body
        → Answered
            (participants job.consumer_id (provider_at w job_id job))
            (map (λ u. u.id) (db.users.find_many (λ u. same_role u.role admin) w.users))
            r
            w.outbox
            outbox
        → Outcome req w r (record w {
          disputes = db.disputes.create (opened_dispute w user job_id body) w.disputes;
          jobs = db.jobs.update job_id dispute_job w.jobs;
          outbox = outbox;
          calls = calls;
        })

  announce_rule :
      (E : Reply → World db → Type 0) (job_id me : ℕ) (job : Job) (p : Option ℕ) (d : Dispute)
      (j : Job) (w : World db)
      → ((r : Reply) (o : List Effect) (n : ℕ)
          → Answered
              (participants job.consumer_id p)
              (map (λ u. u.id) (db.users.find_many (λ u. same_role u.role admin) w.users))
              r
              w.outbox
              o
          → E r (record w { outbox = o; calls = n }))
      → Ends internal E E (open_announce db zod audits now job_id me job p d j w)
  unfolding open_announce dispute_status_changed enqueue_webhook_event internal
  announce_rule E job_id me job p d j w done =
      emit_each_rule _ _ _ (λ _ _. done _ _ _ (inl refl))
        λ n. find_users_rule _ _ _ (done _ _ _ (inl refl)) (
          emit_each_rule _ _ _ (λ _ _. done _ _ _ (inl refl))
            λ n'. audit_rule _ _ _ _ _ (done _ _ _ (inl refl)) (
              emit_rule _ _ _ (done _ _ _ (inl refl)) (
                emit_rule _ _ _ (done _ _ _ (inl refl)) (
                  pure_rule _ _
                    (done _ _ _ (inr (refl, simp (outbox_laws, map-user, map-admin))))))))

  open_rule :
      (req : AuthRequest zod.Raw) (w : World db)
      → Ends internal (Outcome req w) (Outcome req w) (open_body db zod audits now req w)
  unfolding open_body internal
  open_rule req w =
      some_or_reply_rule _ _ _ _ (λ _. refused (omega arith))
        λ user hu.
          reply_if_rule _ _ _ _ (λ _. refused (omega arith))
            λ hr.
              some_or_reply_rule _ _ _ _ (λ _. refused (omega arith))
                λ job_id hn.
                  valid_or_reply_rule _ _ _ (λ _ e. refused (omega arith))
                    λ body hb. find_job_rule _ _ _ (refused (omega arith)) (
                      some_or_reply_rule _ _ _ _ (λ _. refused (omega arith))
                        λ job hj.
                          reply_if_rule _ _ _ _ (λ _. refused (omega arith))
                            λ hs. find_first_bid_rule _ _ _ (refused (omega arith)) (
                              reply_if_rule _ _ _ _ (λ _. refused (omega arith))
                                λ hm. find_first_dispute_rule _ _ _ (refused (omega arith)) (
                                  reply_if_rule _ _ _ _ (λ _. refused (omega arith))
                                    λ hd.
                                      let ent : Entitled req w user job_id job body = record {
                                        sender = hu;
                                        sender_role = ground arith;
                                        named_job = hn;
                                        body_valid = hb;
                                        job_row = hj;
                                        job_disputable = ground arith;
                                        participant =
                                            tests-participant job user (provider_at w job_id job)
                                              hm;
                                        none_active = ground arith;
                                      } in
                                      create_dispute_rule _ _ _ (refused (omega arith)) (
                                        update_job_rule _ _ _ _
                                          (interrupted {user = user} {job = job} {body = body} ent
                                            refl)
                                          λ j _. announce_rule _ _ _ _ _ _ _ _ λ r o n a.
                                            granted {user = user} {job = job} {body = body} ent
                                              a))))

  -- For every request, state and set of failing calls, the handler that opens a dispute ends in
  -- one of three ways: the answer is not 201 and nothing changed but the count of calls; or the
  -- request was one to grant (a participant, a job in a status that allows it, no active dispute),
  -- and the dispute is made, but the answer is 500 and the job keeps its status; or the dispute is
  -- made, the job is DISPUTED, and the answer is 201 after the calls in order, or 500.
  pub post_job_disputes-Outcome :
      (req : AuthRequest zod.Raw) (w : World db)
      → Outcome req w
          (post_job_disputes db zod audits now req w).0
          (post_job_disputes db zod audits now req w).1
  unfolding post_job_disputes internal
  post_job_disputes-Outcome req w = run_rule (open_body db zod audits now req) w (open_rule req w)
