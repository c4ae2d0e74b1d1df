-- ===== src/Jobs/Award/Outcome.antt =====
-- What POST /jobs/:jobId/award does, on every path: the specification of src/routes/jobAward.ts.
use home_hero_backend.Prelude.{
  Bool, List, Option, [], ap, arith, inl, inr, map, none, not, refl, some, subst, sym, ℕ, ◌&&◌,
  ◌++◌, ◌==◌, ◌∷◌, ◌≡◌, ◌≢◌, ◌⊎◌,
}
use home_hero_backend.Http.{◌>>=◌}
use home_hero_backend.Http.Rules.{
  Ends, bind_rule, pure_rule, reply_if_rule, run_rule, some_or_reply_rule,
}
use home_hero_backend.Jobs.Award.{
  accept_bid, award_announce, award_body, award_job, award_not_enabled, award_parse,
  award_transaction, decline_bid, post_job_award, resolve_bid,
}
use home_hero_backend.Jobs.Model.{AuthUser, Bid, Job, JobStatus, consumer, is_pending}
use home_hero_backend.Jobs.Request.{AuthRequest, AwardBody, Zod, valid}
use home_hero_backend.Jobs.Rules.{
  Sent, audit_rule, audited, called, emit_rule, optional, outbox_laws, posted, summary, to_user,
  transaction_rule, valid_or_reply_rule,
}
use home_hero_backend.Jobs.Rules.Queries.{
  find_bid_rule, find_first_bid_rule, find_job_or_rule, update_bid_rule, update_bids_rule,
  update_job_rule,
}
use home_hero_backend.Jobs.World.{
  Db, Effect, M, Reply, World, create_notification, enqueue_webhook_event, error,
}

-- The calls to the injected functions that follow an award, in order.
abbrev pub award_calls : Bool → ℕ → ℕ → List Sent
award_calls audits provider_id consumer_id =
    to_user provider_id "JOB_AWARDED"
    ∷ to_user consumer_id "JOB_AWARDED"
    ∷ (optional audits (audited "job.awarded")
        ++ posted "bid.accepted" ∷ posted "job.status_changed" ∷ [])

-- The bids of the job that are declined when `bid` is accepted.
abbrev pub other_pending : Job → Bid → Bid → Bool
other_pending job bid b = b.job_id == job.id && not (b.id == bid.id) && is_pending b.status

-- The request names this bid, by its key or by its provider.
abbrev pub Names : Option ℕ → Option ℕ → Bid → Type 0
Names bid_id provider_id bid = (bid_id ≡ some bid.id) ⊎ (provider_id ≡ some bid.provider_id)

internal : Reply
internal = error 500 "Internal server error while awarding provider."

module _ (db : Db) (zod : Zod) (audits : Bool) (now : ℕ) where
  -- What makes a request an award of a job to a bid.
  pub record Entitled (req : AuthRequest zod.Raw) (w : World db) (user : AuthUser)
      (body : AwardBody) (job : Job) (bid : Bid) : Type 0 where
    pub sender : req.user ≡ some user
    pub sender_role : user.role ≡ consumer
    pub owner : job.consumer_id ≡ user.user_id
    pub named_job : zod.id_param req.params ≡ some job.id
    pub job_row : db.jobs.find_unique job.id w.jobs ≡ some job
    pub job_open : job.status ≡ JobStatus.opened
    pub body_valid : award_parse (zod.award_fields req.body) ≡ valid body
    pub named_bid : Names body.bid_id body.provider_id bid
    pub bid_row : db.bids.find_unique bid.id w.bids ≡ some bid
    pub bid_job : bid.job_id ≡ job.id

  -- The state after it, but for the outbox.
  abbrev pub award_state : Job → Bid → World db → World db
  award_state job bid w = record w {
    jobs = db.jobs.update job.id (award_job bid.provider_id now) w.jobs;
    bids =
        db.bids.update_many (other_pending job bid) decline_bid
          (db.bids.update bid.id accept_bid w.bids);
  }

  -- The answer is 200 after all calls, or 500 where one of them failed.
  abbrev pub Answered : Job → Bid → Reply → List Effect → List Effect → Type 0
  Answered job bid r before after =
      (r.status ≡ 500)
      ⊎ ((r.status ≡ 200)
          × (map summary after
              ≡ map summary before ++ award_calls audits bid.provider_id job.consumer_id))

  -- Every request is refused with only the count of calls changed, or awards the job.
  pub data Outcome (req : AuthRequest zod.Raw) (w : World db) : Reply → World db → Type 0 where
    refused :
        {r : Reply} {calls : ℕ} → r.status ≢ 200 → Outcome req w r (record w { calls = calls })
    granted :
        {r : Reply} {user : AuthUser} {body : AwardBody} {job : Job} {bid : Bid}
        {outbox : List Effect} {calls : ℕ}
        → Entitled req w user body job bid
        → Answered job bid r w.outbox outbox
        → Outcome req w r (record (award_state job bid w) { outbox = outbox; calls = calls })

  announce_rule :
      (E : Reply → World db → Type 0) (job : Job) (bid b : Bid) (j : Job) (w : World db)
      → ((r : Reply) (o : List Effect) (n : ℕ)
          → Answered job bid r w.outbox o
          → E r (record w { outbox = o; calls = n }))
      → Ends internal E E (award_announce db zod audits now job bid b j w)
  unfolding award_announce create_notification enqueue_webhook_event internal
  announce_rule E job bid b j w done = emit_rule _ _ _ (done _ _ _ (inl refl)) (
      emit_rule _ _ _ (done _ _ _ (inl refl)) (
        audit_rule _ _ _ _ _ (done _ _ _ (inl refl)) (
          emit_rule _ _ _ (done _ _ _ (inl refl)) (
            emit_rule _ _ _ (done _ _ _ (inl refl))
              (pure_rule _ _ (done _ _ _ (inr (refl, simp outbox_laws))))))))

  resolve_rule :
      {E K : Reply → World db → Type 0} (job_id : ℕ) (b p : Option ℕ) (f : Option Bid → M db Reply)
      (w : World db)
      → E internal (called w)
      → ((o : Option Bid) (n : ℕ)
          → ((bid : Bid)
              → o ≡ some bid
              → Names b p bid × (db.bids.find_unique bid.id w.bids ≡ some bid))
          → Ends internal E K (f o (record w { calls = n })))
      → Ends internal E K ((resolve_bid db zod audits now job_id b p >>= f) w)
  unfolding resolve_bid
  resolve_rule job_id (some b) p f w stop go = find_bid_rule _ _ _ stop (
      go _ _ λ bid e.
        let same = sym (db.bids.find_key b w.bids e) in
        (inl (ap some same), subst (λ i. db.bids.find_unique i w.bids ≡ some bid) same e))
  resolve_rule job_id none (some p) f w stop go = find_first_bid_rule _ _ _ stop (
      go _ _ λ bid e.
        let (passes, row) = db.bids.find_first_sound _ w.bids e in (inr (ground arith), row))
  resolve_rule job_id none none f w stop go = bind_rule _ _ _ (pure_rule _ _ (go _ _ λ bid e. cc))

  award_rule :
      (req : AuthRequest zod.Raw) (w : World db)
      → Ends internal (Outcome req w) (Outcome req w) (award_body db zod audits now req w)
  unfolding award_body internal award_transaction award_not_enabled
  award_rule req w =
      some_or_reply_rule _ _ _ _ (λ _. refused (omega arith))
        λ user hu.
          reply_if_rule _ _ _ _ (λ _. refused (omega arith))
            λ hr.
              some_or_reply_rule _ _ _ _ (λ _. refused (omega arith))
                λ n_job hn.
                  valid_or_reply_rule _ _ _ (λ _ _. refused (omega arith))
                    λ body hp.
                      find_job_or_rule _ _ _ _ (refused (omega arith)) (refused (omega arith)) (
                        some_or_reply_rule _ _ _ _ (λ _. refused (omega arith))
                          λ job hj.
                            reply_if_rule _ _ _ _ (λ _. refused (omega arith))
                              λ ho.
                                reply_if_rule _ _ _ _ (λ _. refused (omega arith))
                                  λ hs.
                                    resolve_rule _ _ _ _ _ (refused (omega arith)) λ found calls h.
                                      some_or_reply_rule _ _ _ _ (λ _. refused (omega arith))
                                        λ bid e.
                                          reply_if_rule _ _ _ _ (λ _. refused (omega arith))
                                            λ hb. transaction_rule _ _ _ (
                                              update_bid_rule _ _ _ _ (λ n. refused (omega arith))
                                                λ b _.
                                                  update_bids_rule _ _ _ _
                                                    (λ n. refused (omega arith))
                                                    (update_job_rule _ _ _ _
                                                      (λ n. refused (omega arith))
                                                      λ j _. pure_rule _ _ (
                                                        announce_rule _ _ _ _ _ _ λ r o n a.
                                                          let key =
                                                            sym
                                                            (db.jobs.find_key n_job w.jobs hj) in
                                                          let (named, row) = h bid e in
                                                          granted {user = user} {body = body}
                                                            {job = job} {bid = bid}
                                                            (record {
                                                            sender = hu;
                                                            sender_role = ground arith;
                                                            owner = ground arith;
                                                            named_job =
                                                            subst
                                                            (λ i. zod.id_param req.params ≡ some i)
                                                            key hn;
                                                            job_row =
                                                            subst
                                                            (λ i.
                                                            db.jobs.find_unique i w.jobs ≡ some job)
                                                            key hj;
                                                            job_open = ground arith;
                                                            body_valid = hp;
                                                            named_bid = named;
                                                            bid_row = row;
                                                            bid_job = ground arith;
                                                            })
                                                            a))))

  -- For every request, state and set of failing calls: either the answer of the award handler is
  -- not 200 and nothing changed but the count of calls; or the sender is the consumer that owns
  -- the named job, the job was OPEN, and the named bid is a bid of it: then the bid is accepted,
  -- the job's other pending bids are declined and the job is awarded to the bid's provider, all in
  -- one step, and the answer is 200 after the five (four without an audit function) calls in
  -- order, or 500.
  pub post_job_award-Outcome :
      (req : AuthRequest zod.Raw) (w : World db)
      → Outcome req w
          (post_job_award db zod audits now req w).0
          (post_job_award db zod audits now req w).1
  unfolding post_job_award internal
  post_job_award-Outcome req w = run_rule (award_body db zod audits now req) w (award_rule req w)
