-- ===== src/Jobs/Start/Outcome.antt =====
-- What POST /jobs/:id/start does, on every path: the specification of src/routes/jobStart.ts.
use home_hero_backend.Prelude.{
  Bool, List, [], arith, inl, inr, map, refl, some, ℕ, ◌++◌, ◌∷◌, ◌≡◌, ◌≢◌, ◌⊎◌,
}
use home_hero_backend.Http.Rules.{Ends, pure_rule, reply_if_rule, run_rule, some_or_reply_rule}
use home_hero_backend.Jobs.Model.{AuthUser, Job, awarded, provider}
use home_hero_backend.Jobs.Request.{AuthRequest, Zod}
use home_hero_backend.Jobs.Rules.{
  Sent, audit_rule, audited, emit_rule, optional, outbox_laws, posted, summary, to_user,
}
use home_hero_backend.Jobs.Rules.Queries.{find_job_rule, update_job_rule}
use home_hero_backend.Jobs.Start.{post_job_start, start_announce, start_body, start_job}
use home_hero_backend.Jobs.World.{
  Db, Effect, Reply, World, create_notification, enqueue_webhook_event, error,
}

-- The calls to the injected functions that follow a start, in order.
abbrev pub start_calls : Bool → ℕ → ℕ → List Sent
start_calls audits provider_id consumer_id =
    to_user consumer_id "JOB_STARTED"
    ∷ to_user provider_id "JOB_STARTED"
    ∷ (optional audits (audited "job.started") ++ posted "job.status_changed" ∷ [])

internal : Reply
internal = error 500 "Internal server error while starting job."

module _ (db : Db) (zod : Zod) (audits : Bool) (now : ℕ) where
  pub record Entitled (req : AuthRequest zod.Raw) (w : World db) (user : AuthUser) (job_id : ℕ)
      (job : Job) : Type 0 where
    pub sender : req.user ≡ some user
    pub sender_role : user.role ≡ provider
    pub named_job : zod.id_param req.params ≡ some job_id
    pub job_row : db.jobs.find_unique job_id w.jobs ≡ some job
    pub job_awarded : job.status ≡ awarded
    pub awarded_to_sender : job.awarded_provider_id ≡ some user.user_id

  -- The answer is 200 after all calls, or 500 where one of them failed.
  abbrev pub Answered : AuthUser → Job → Reply → List Effect → List Effect → Type 0
  Answered user job r before after =
      (r.status ≡ 500)
      ⊎ ((r.status ≡ 200)
          × (map summary after
              ≡ map summary before ++ start_calls audits user.user_id job.consumer_id))

  -- Every request is refused with only the count of calls changed, or starts the job.
  pub data Outcome (req : AuthRequest zod.Raw) (w : World db) : Reply → World db → Type 0 where
    refused :
        {r : Reply} {calls : ℕ} → r.status ≢ 200 → Outcome req w r (record w { calls = calls })
    granted :
        {r : Reply} {user : AuthUser} {job_id : ℕ} {job : Job} {outbox : List Effect} {calls : ℕ}
        → Entitled req w user job_id job
        → Answered user job r w.outbox outbox
        → Outcome req w r (record w {
          jobs = db.jobs.update job_id start_job w.jobs;
          outbox = outbox;
          calls = calls;
        })

  announce_rule :
      (E : Reply → World db → Type 0) (n : ℕ) (user : AuthUser) (job j : Job) (w : World db)
      → ((r : Reply) (o : List Effect) (n : ℕ)
          → Answered user job r w.outbox o
          → E r (record w { outbox = o; calls = n }))
      → Ends internal E E (start_announce db zod audits now n user job j w)
  unfolding start_announce create_notification enqueue_webhook_event internal
  announce_rule E n user job j w done = emit_rule _ _ _ (done _ _ _ (inl refl)) (
      emit_rule _ _ _ (done _ _ _ (inl refl)) (
        audit_rule _ _ _ _ _ (done _ _ _ (inl refl)) (
          emit_rule _ _ _ (done _ _ _ (inl refl))
            (pure_rule _ _ (done _ _ _ (inr (refl, simp outbox_laws)))))))

  start_rule :
      (req : AuthRequest zod.Raw) (w : World db)
      → Ends internal (Outcome req w) (Outcome req w) (start_body db zod audits now req w)
  unfolding start_body internal
  start_rule req w =
      some_or_reply_rule _ _ _ _ (λ _. refused (omega arith))
        λ user hu.
          reply_if_rule _ _ _ _ (λ _. refused (omega arith))
            λ hr.
              some_or_reply_rule _ _ _ _ (λ _. refused (omega arith))
                λ job_id hn. find_job_rule _ _ _ (refused (omega arith)) (
                  some_or_reply_rule _ _ _ _ (λ _. refused (omega arith))
                    λ job hj.
                      reply_if_rule _ _ _ _ (λ _. refused (omega arith))
                        λ hs.
                          reply_if_rule _ _ _ _ (λ _. refused (omega arith))
                            λ ha. update_job_rule _ _ _ _ (refused (omega arith)) λ j _.
                              announce_rule _ _ _ _ _ _ λ r o n a.
                                granted {user = user} {job = job}
                                  (record {
                                    sender = hu;
                                    sender_role = ground arith;
                                    named_job = hn;
                                    job_row = hj;
                                    job_awarded = ground arith;
                                    awarded_to_sender = ground arith;
                                  })
                                  a)

  -- For every request, state and set of failing calls: either the answer of the start handler is
  -- not 200 and nothing changed but the count of calls; or the sender is the awarded provider of
  -- the named AWARDED job: then the job is IN_PROGRESS, nothing else in the tables changed, and
  -- the answer is 200 after the notifications, the audit and the event in order, or 500.
  pub post_job_start-Outcome :
      (req : AuthRequest zod.Raw) (w : World db)
      → Outcome req w
          (post_job_start db zod audits now req w).0
          (post_job_start db zod audits now req w).1
  unfolding post_job_start internal
  post_job_start-Outcome req w = run_rule (start_body db zod audits now req) w (start_rule req w)
