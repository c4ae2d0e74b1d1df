-- ===== src/Jobs/Completion/ConfirmOutcome.antt =====
-- What POST /jobs/:id/confirm-complete does, on every path: the specification of
-- `createPostJobConfirmCompleteHandler` in src/routes/jobCompletion.ts.
use home_hero_backend.Prelude.{
  Bool, List, [], arith, inl, inr, map, refl, some, ℕ, ◌++◌, ◌∷◌, ◌≡◌, ◌≢◌, ◌⊎◌,
}
use home_hero_backend.Http.Rules.{Ends, pure_rule, reply_if_rule, run_rule, some_or_reply_rule}
use home_hero_backend.Jobs.Completion.{
  completion_not_enabled, confirm_announce, confirm_body, confirm_job, post_job_confirm_complete,
  completion_status_changed,
}
use home_hero_backend.Jobs.Guards.{can_confirm_complete}
use home_hero_backend.Jobs.Model.{AuthUser, Job, admin, completed_pending_confirmation, present}
use home_hero_backend.Jobs.Participants.{designated, resolve_participants_rule}
use home_hero_backend.Jobs.Request.{AuthRequest, Zod}
use home_hero_backend.Jobs.Rules.{
  Sent, audit_rule, audited, emit_rule, optional, outbox_laws, posted, summary, to_user,
}
use home_hero_backend.Jobs.Rules.Queries.{update_job_rule}
use home_hero_backend.Jobs.World.{
  Db, Effect, Reply, World, create_notification, enqueue_webhook_event, error,
}

-- The calls to the injected functions that follow, in order.
abbrev pub confirm_calls : Bool → ℕ → ℕ → List Sent
confirm_calls audits consumer_id provider_id =
    optional audits (audited "job.completed")
    ++ (to_user consumer_id "JOB_COMPLETED"
        ∷ to_user provider_id "JOB_COMPLETED"
        ∷ posted "job.completed"
        ∷ posted "job.status_changed"
        ∷ [])

internal : Reply
internal = error 500 "Internal server error while confirming completion."

module _ (db : Db) (zod : Zod) (audits : Bool) (now : ℕ) where
  pub record Entitled (req : AuthRequest zod.Raw) (w : World db) (user : AuthUser) (job_id : ℕ)
      (job : Job) (provider_id : ℕ) : Type 0 where
    pub sender : req.user ≡ some user
    pub sender_role : user.role ≢ admin
    pub named_job : zod.id_param req.params ≡ some job_id
    pub job_row : db.jobs.find_unique job_id w.jobs ≡ some job
    pub job_pending : job.status ≡ completed_pending_confirmation
    pub job_provider : present (designated db w job_id) ≡ some provider_id
    pub pending_for_sender : job.completion_pending_for_user_id ≡ some user.user_id
    pub participant : (user.user_id ≡ job.consumer_id) ⊎ (user.user_id ≡ provider_id)

  -- The answer is 200 after all calls, or 500 where one of them failed.
  abbrev pub Answered : ℕ → ℕ → Reply → List Effect → List Effect → Type 0
  Answered consumer_id provider_id r before after =
      (r.status ≡ 500)
      ⊎ ((r.status ≡ 200)
          × (map summary after
              ≡ map summary before ++ confirm_calls audits consumer_id provider_id))

  -- Every request is refused with only the count of calls changed, or completes the
  -- job.
  pub data Outcome (req : AuthRequest zod.Raw) (w : World db) : Reply → World db → Type 0 where
    refused :
        {r : Reply} {calls : ℕ} → r.status ≢ 200 → Outcome req w r (record w { calls = calls })
    granted :
        {r : Reply} {user : AuthUser} {job_id : ℕ} {job : Job} {provider_id : ℕ}
        {outbox : List Effect} {calls : ℕ}
        → Entitled req w user job_id job provider_id
        → Answered job.consumer_id provider_id r w.outbox outbox
        → Outcome req w r (record w {
          jobs = db.jobs.update job_id (confirm_job now) w.jobs;
          outbox = outbox;
          calls = calls;
        })

  announce_rule :
      (E : Reply → World db → Type 0) (job_id provider_id : ℕ) (job j : Job) (w : World db)
      → ((r : Reply) (o : List Effect) (n : ℕ)
          → Answered job.consumer_id provider_id r w.outbox o
          → E r (record w { outbox = o; calls = n }))
      → Ends internal E E (confirm_announce db zod audits now job_id provider_id job j w)
  unfolding confirm_announce completion_status_changed create_notification enqueue_webhook_event
      internal
  announce_rule E job_id provider_id job j w done = audit_rule _ _ _ _ _ (done _ _ _ (inl refl)) (
      emit_rule _ _ _ (done _ _ _ (inl refl)) (
        emit_rule _ _ _ (done _ _ _ (inl refl)) (
          emit_rule _ _ _ (done _ _ _ (inl refl)) (
            emit_rule _ _ _ (done _ _ _ (inl refl))
              (pure_rule _ _ (done _ _ _ (inr (refl, simp outbox_laws))))))))

  confirm_rule :
      (req : AuthRequest zod.Raw) (w : World db)
      → Ends internal (Outcome req w) (Outcome req w) (confirm_body db zod audits now req w)
  unfolding confirm_body internal completion_not_enabled can_confirm_complete
  confirm_rule req w =
      some_or_reply_rule _ _ _ _ (λ _. refused (omega arith))
        λ user hu.
          reply_if_rule _ _ _ _ (λ _. refused (omega arith))
            λ hr.
              some_or_reply_rule _ _ _ _ (λ _. refused (omega arith))
                λ job_id hn.
                  resolve_participants_rule _ _ _ _ (λ _. refused (omega arith))
                    (λ _. refused (omega arith))
                    λ _.
                      some_or_reply_rule _ _ _ _ (λ _. refused (omega arith))
                        λ job hj.
                          some_or_reply_rule _ _ _ _ (λ _. refused (omega arith))
                            λ provider_id hp.
                              reply_if_rule _ _ _ _ (λ _. refused (omega arith))
                                λ hm.
                                  reply_if_rule _ _ _ _ (λ _. refused (omega arith))
                                    λ hs.
                                      reply_if_rule _ _ _ _ (λ _. refused (omega arith))
                                        λ hw. update_job_rule _ _ _ _ (refused (omega arith)) λ j _.
                                          announce_rule _ _ _ _ _ _ λ r o n a.
                                            granted {user = user} {job = job}
                                              {provider_id = provider_id}
                                              (record {
                                                sender = hu;
                                                sender_role = ground arith;
                                                named_job = hn;
                                                job_row = hj;
                                                job_pending = ground arith;
                                                job_provider = hp;
                                                pending_for_sender = ground arith;
                                                participant = ground arith;
                                              })
                                              a

  -- For every request, state and set of failing calls: either the answer of the confirm handler is
  -- not 200 and nothing changed but the count of calls; or the named job waited for the
  -- confirmation of the sender, who takes part in it: then the job is COMPLETED, nothing else in
  -- the tables changed, and the answer is 200 after the calls in order, or 500.
  pub post_job_confirm_complete-Outcome :
      (req : AuthRequest zod.Raw) (w : World db)
      → Outcome req w
          (post_job_confirm_complete db zod audits now req w).0
          (post_job_confirm_complete db zod audits now req w).1
  unfolding post_job_confirm_complete internal
  post_job_confirm_complete-Outcome req w =
      run_rule (confirm_body db zod audits now req) w (confirm_rule req w)
