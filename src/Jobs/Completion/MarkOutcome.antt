-- ===== src/Jobs/Completion/MarkOutcome.antt =====
-- What POST /jobs/:id/mark-complete does, on every path: the specification of
-- `createPostJobMarkCompleteHandler` in src/routes/jobCompletion.ts.
use home_hero_backend.Prelude.{
  Bool, List, [], arith, inl, inr, map, refl, some, ℕ, ◌++◌, ◌∷◌, ◌≡◌, ◌≢◌, ◌⊎◌,
}
use home_hero_backend.Http.Rules.{Ends, pure_rule, reply_if_rule, run_rule, some_or_reply_rule}
use home_hero_backend.Jobs.Completion.{
  completion_not_enabled, mark_announce, mark_body, mark_job, other_participant,
  post_job_mark_complete, completion_status_changed,
}
use home_hero_backend.Jobs.Guards.{can_mark_complete}
use home_hero_backend.Jobs.Model.{AuthUser, Job, admin, in_progress, present}
use home_hero_backend.Jobs.Participants.{designated, resolve_participants_rule}
use home_hero_backend.Jobs.Request.{AuthRequest, Zod}
use home_hero_backend.Jobs.Rules.{
  Sent, audit_rule, audited, emit_rule, optional, outbox_laws, posted, summary, to_user,
}
use home_hero_backend.Jobs.Rules.Queries.{update_job_rule}
use home_hero_backend.Jobs.World.{
  Db, Effect, Reply, World, create_notification, enqueue_webhook_event, error,
}

-- The calls to the injected functions that follow, in order.
abbrev pub mark_calls : Bool → ℕ → ℕ → List Sent
mark_calls audits pending_for_user_id me =
    optional audits (audited "job.completion_marked")
    ++ (to_user pending_for_user_id "JOB_COMPLETION_CONFIRM_REQUIRED"
        ∷ to_user me "JOB_COMPLETION_MARKED"
        ∷ posted "job.status_changed"
        ∷ [])

internal : Reply
internal = error 500 "Internal server error while marking complete."

module _ (db : Db) (zod : Zod) (audits : Bool) (now : ℕ) where
  pub record Entitled (req : AuthRequest zod.Raw) (w : World db) (user : AuthUser) (job_id : ℕ)
      (job : Job) (provider_id : ℕ) : Type 0 where
    pub sender : req.user ≡ some user
    pub sender_role : user.role ≢ admin
    pub named_job : zod.id_param req.params ≡ some job_id
    pub job_row : db.jobs.find_unique job_id w.jobs ≡ some job
    pub job_in_progress : job.status ≡ in_progress
    pub job_provider : present (designated db w job_id) ≡ some provider_id
    pub participant : (user.user_id ≡ job.consumer_id) ⊎ (user.user_id ≡ provider_id)

  -- The answer is 200 after all calls, or 500 where one of them failed.
  abbrev pub Answered : ℕ → ℕ → Reply → List Effect → List Effect → Type 0
  Answered pending_for_user_id me r before after =
      (r.status ≡ 500)
      ⊎ ((r.status ≡ 200)
          × (map summary after ≡ map summary before ++ mark_calls audits pending_for_user_id me))

  -- Every request is refused with only the count of calls changed, or puts the job before the
  -- other participant.
  pub data Outcome (req : AuthRequest zod.Raw) (w : World db) : Reply → World db → Type 0 where
    refused :
        {r : Reply} {calls : ℕ} → r.status ≢ 200 → Outcome req w r (record w { calls = calls })
    granted :
        {r : Reply} {user : AuthUser} {job_id : ℕ} {job : Job} {provider_id : ℕ}
        {outbox : List Effect} {calls : ℕ}
        → Entitled req w user job_id job provider_id
        → Answered (other_participant job provider_id user.user_id) user.user_id r w.outbox outbox
        → Outcome req w r (record w {
          jobs =
              db.jobs.update job_id
                (mark_job (other_participant job provider_id user.user_id))
                w.jobs;
          outbox = outbox;
          calls = calls;
        })

  announce_rule :
      (E : Reply → World db → Type 0) (job_id me pending_id : ℕ) (job j : Job) (w : World db)
      → ((r : Reply) (o : List Effect) (n : ℕ)
          → Answered pending_id me r w.outbox o
          → E r (record w { outbox = o; calls = n }))
      → Ends internal E E (mark_announce db zod audits now job_id me pending_id job j w)
  unfolding mark_announce completion_status_changed create_notification enqueue_webhook_event
      internal
  announce_rule E job_id me pending_id job j w done = audit_rule _ _ _ _ _ (done _ _ _ (inl refl)) (
      emit_rule _ _ _ (done _ _ _ (inl refl)) (
        emit_rule _ _ _ (done _ _ _ (inl refl)) (
          emit_rule _ _ _ (done _ _ _ (inl refl))
            (pure_rule _ _ (done _ _ _ (inr (refl, simp outbox_laws)))))))

  mark_rule :
      (req : AuthRequest zod.Raw) (w : World db)
      → Ends internal (Outcome req w) (Outcome req w) (mark_body db zod audits now req w)
  unfolding mark_body internal completion_not_enabled can_mark_complete
  mark_rule req w =
      some_or_reply_rule _ _ _ _ (λ _. refused (omega arith))
        λ user hu.
          reply_if_rule _ _ _ _ (λ _. refused (omega arith))
            λ hr.
              some_or_reply_rule _ _ _ _ (λ _. refused (omega arith))
                λ job_id hn.
                  resolve_participants_rule _ _ _ _ (λ _. refused (omega arith))
                    (λ _. refused (omega arith))
                    λ _.
                      some_or_reply_rule _ _ _ _ (λ _. refused (omega arith))
                        λ job hj.
                          some_or_reply_rule _ _ _ _ (λ _. refused (omega arith))
                            λ provider_id hp.
                              reply_if_rule _ _ _ _ (λ _. refused (omega arith))
                                λ hm.
                                  reply_if_rule _ _ _ _ (λ _. refused (omega arith))
                                    λ hs. update_job_rule _ _ _ _ (refused (omega arith)) λ j _.
                                      announce_rule _ _ _ _ _ _ _ λ r o n a.
                                        granted {user = user} {job = job}
                                          {provider_id = provider_id}
                                          (record {
                                            sender = hu;
                                            sender_role = ground arith;
                                            named_job = hn;
                                            job_row = hj;
                                            job_in_progress = ground arith;
                                            job_provider = hp;
                                            participant = ground arith;
                                          })
                                          a

  -- For every request, state and set of failing calls: either the answer of the mark handler is
  -- not 200 and nothing changed but the count of calls; or the sender takes part in the named job,
  -- which was IN_PROGRESS: then the job waits for the confirmation of the other participant,
  -- nothing else in the tables changed, and the answer is 200 after the calls in order, or 500.
  pub post_job_mark_complete-Outcome :
      (req : AuthRequest zod.Raw) (w : World db)
      → Outcome req w
          (post_job_mark_complete db zod audits now req w).0
          (post_job_mark_complete db zod audits now req w).1
  unfolding post_job_mark_complete internal
  post_job_mark_complete-Outcome req w =
      run_rule (mark_body db zod audits now req) w (mark_rule req w)
