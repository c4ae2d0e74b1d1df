-- ===== src/Jobs/Disputes/ResolveOutcome.antt =====
-- What POST /admin/disputes/:id/resolve does, on every path: the specification of
-- `createPostAdminResolveDisputeHandler` in src/routes/jobDisputes.ts.
use home_hero_backend.Prelude.{
  Bool, List, Option, String, [], arith, inl, inr, map, refl, some, ℕ, ◌++◌, ◌∷◌, ◌≡◌, ◌≢◌, ◌⊎◌,
}
use home_hero_backend.Http.Rules.{Ends, pure_rule, reply_if_rule, run_rule, some_or_reply_rule}
use home_hero_backend.Jobs.Cancellation.{participants}
use home_hero_backend.Jobs.Disputes.{
  dispute_provider, post_admin_resolve_dispute, resolution_status, resolve_announce, resolve_body,
  resolve_dispute, set_status, dispute_status_changed,
}
use home_hero_backend.Jobs.Model.{AuthUser, Dispute, Job, admin, disputed, resolved}
use home_hero_backend.Jobs.Participants.{accepted_of}
use home_hero_backend.Jobs.Request.{AuthRequest, ResolveBody, Zod, valid}
use home_hero_backend.Jobs.Rules.{
  Sent, audit_rule, audited, emit_each_rule, emit_rule, optional, outbox_laws, posted, summary,
  to_user, valid_or_reply_rule,
}
use home_hero_backend.Jobs.Rules.Queries.{
  find_dispute_rule, find_first_bid_rule, find_job_rule, update_dispute_rule, update_job_rule,
}
use home_hero_backend.Jobs.World.{
  Content, Db, Effect, Reply, World, enqueue_webhook_event, error, notification,
}

-- The calls to the injected functions that follow, in order.
abbrev pub resolve_calls : Bool → List ℕ → List Sent
resolve_calls audits users =
    map (λ id. to_user id "DISPUTE_RESOLVED") users
    ++ (optional audits (audited "dispute.resolved")
        ++ posted "job.status_changed" ∷ posted "dispute.resolved" ∷ [])

internal : Reply
internal = error 500 "Internal server error while resolving dispute."

map-user :
    (type : String) (content : Content) (ids : List ℕ)
    → map summary (map (λ id. notification id type content) ids) ≡ map (λ id. to_user id type) ids
map-user type content [] = refl
map-user type content (id ∷ ids) = rw (map-user type content ids)

module _ (db : Db) (zod : Zod) (audits : Bool) (now : ℕ) where
  abbrev pub provider_at : World db → Job → Option ℕ
  provider_at w job =
      dispute_provider job.awarded_provider_id (db.bids.find_first (accepted_of job.id) w.bids)

  pub record Entitled (req : AuthRequest zod.Raw) (w : World db) (user : AuthUser) (dispute_id : ℕ)
      (d : Dispute) (job : Job) (body : ResolveBody) : Type 0 where
    pub sender : req.user ≡ some user
    pub sender_role : user.role ≡ admin
    pub named_dispute : zod.id_param req.params ≡ some dispute_id
    pub body_valid : zod.resolve_fields req.body ≡ valid body
    pub dispute_row : db.disputes.find_unique dispute_id w.disputes ≡ some d
    pub dispute_active : d.status ≢ resolved
    pub job_row : db.jobs.find_unique d.job_id w.jobs ≡ some job
    pub job_disputed : job.status ≡ disputed

  -- The answer is 200 after all calls, or 500 where one of them failed.
  abbrev pub Answered : List ℕ → Reply → List Effect → List Effect → Type 0
  Answered users r before after =
      (r.status ≡ 500)
      ⊎ ((r.status ≡ 200) × (map summary after ≡ map summary before ++ resolve_calls audits users))

  -- Every request is refused with only the count of calls changed; or resolves the dispute and
  -- answers 500 before the job was touched; or resolves the dispute and the job.
  pub data Outcome (req : AuthRequest zod.Raw) (w : World db) : Reply → World db → Type 0 where
    refused :
        {r : Reply} {calls : ℕ} → r.status ≢ 200 → Outcome req w r (record w { calls = calls })
    interrupted :
        {r : Reply} {user : AuthUser} {dispute_id : ℕ} {d : Dispute} {job : Job}
        {body : ResolveBody} {calls : ℕ}
        → Entitled req w user dispute_id d job body
        → r.status ≡ 500
        → Outcome req w r (record w {
          disputes =
              db.disputes.update dispute_id (resolve_dispute now user.user_id body) w.disputes;
          calls = calls;
        })
    granted :
        {r : Reply} {user : AuthUser} {dispute_id : ℕ} {d : Dispute} {job : Job}
        {body : ResolveBody} {outbox : List Effect} {calls : ℕ}
        → Entitled req w user dispute_id d job body
        → Answered (participants job.consumer_id (provider_at w job)) r w.outbox outbox
        → Outcome req w r (record w {
          disputes =
              db.disputes.update dispute_id (resolve_dispute now user.user_id body) w.disputes;
          jobs = db.jobs.update job.id (set_status (resolution_status body.job_status)) w.jobs;
          outbox = outbox;
          calls = calls;
        })

  announce_rule :
      (E : Reply → World db → Type 0) (user : AuthUser) (body : ResolveBody) (job : Job)
      (p : Option ℕ) (d : Dispute) (j : Job) (w : World db)
      → ((r : Reply) (o : List Effect) (n : ℕ)
          → Answered (participants job.consumer_id p) r w.outbox o
          → E r (record w { outbox = o; calls = n }))
      → Ends internal E E (resolve_announce db zod audits now user body job p d j w)
  unfolding resolve_announce dispute_status_changed enqueue_webhook_event internal
  announce_rule E user body job p d j w done =
      emit_each_rule _ _ _ (λ _ _. done _ _ _ (inl refl))
        λ n. audit_rule _ _ _ _ _ (done _ _ _ (inl refl)) (
          emit_rule _ _ _ (done _ _ _ (inl refl)) (
            emit_rule _ _ _ (done _ _ _ (inl refl))
              (pure_rule _ _ (done _ _ _ (inr (refl, simp (outbox_laws, map-user)))))))

  resolve_rule :
      (req : AuthRequest zod.Raw) (w : World db)
      → Ends internal (Outcome req w) (Outcome req w) (resolve_body db zod audits now req w)
  unfolding resolve_body internal
  resolve_rule req w =
      some_or_reply_rule _ _ _ _ (λ _. refused (omega arith))
        λ user hu.
          reply_if_rule _ _ _ _ (λ _. refused (omega arith))
            λ hr.
              some_or_reply_rule _ _ _ _ (λ _. refused (omega arith))
                λ dispute_id hn.
                  valid_or_reply_rule _ _ _ (λ _ e. refused (omega arith))
                    λ body hb. find_dispute_rule _ _ _ (refused (omega arith)) (
                      some_or_reply_rule _ _ _ _ (λ _. refused (omega arith))
                        λ d hd.
                          reply_if_rule _ _ _ _ (λ _. refused (omega arith))
                            λ hs. find_job_rule _ _ _ (refused (omega arith)) (
                              some_or_reply_rule _ _ _ _ (λ _. refused (omega arith))
                                λ job hj.
                                  reply_if_rule _ _ _ _ (λ _. refused (omega arith))
                                    λ hs'. find_first_bid_rule _ _ _ (refused (omega arith)) (
                                      let ent : Entitled req w user dispute_id d job body = record {
                                        sender = hu;
                                        sender_role = ground arith;
                                        named_dispute = hn;
                                        body_valid = hb;
                                        dispute_row = hd;
                                        dispute_active = λ e. ground arith;
                                        job_row = hj;
                                        job_disputed = ground arith;
                                      } in
                                      update_dispute_rule _ _ _ _ (refused (omega arith)) λ d' hd'.
                                        update_job_rule _ _ _ _
                                          (interrupted {user = user} {d = d} {job = job}
                                            {body = body} ent refl)
                                          λ j _. announce_rule _ _ _ _ _ _ _ _ λ r o n a.
                                            granted {user = user} {d = d} {job = job} {body = body}
                                              ent a)))

  -- For every request, state and set of failing calls, the handler that resolves a dispute ends in
  -- one of three ways: the answer is not 200 and nothing changed but the count of calls; or the
  -- request was one to grant (an admin, an unresolved dispute of a DISPUTED job), and the dispute
  -- is resolved, but the answer is 500 and the job keeps its status; or the dispute is resolved,
  -- the job has the status asked for, and the answer is 200 after the calls in order, or 500.
  pub post_admin_resolve_dispute-Outcome :
      (req : AuthRequest zod.Raw) (w : World db)
      → Outcome req w
          (post_admin_resolve_dispute db zod audits now req w).0
          (post_admin_resolve_dispute db zod audits now req w).1
  unfolding post_admin_resolve_dispute internal
  post_admin_resolve_dispute-Outcome req w =
      run_rule (resolve_body db zod audits now req) w (resolve_rule req w)
