-- ===== src/Exchange/Serving.antt =====
-- src/routes/contactExchange.ts: the calls of the three handlers, each of which is a step.
-- A request to one of the three routes, at a time.
use home_hero_backend.Prelude.{Bool, Option, arith, none, not, refl, some, ℕ, ◌&&◌, ◌==◌, ◌≡◌}
use home_hero_backend.Exchange.Handlers.{
  get_contact_exchange, is_pending_for, may_exchange, post_contact_decide, post_contact_request,
  show_contacts, unavailable,
}
use home_hero_backend.Exchange.Model.{
  ContactRequest, ExchangeDb, ExchangeInput, ExchangeReply, ExchangeState, decided,
}
use home_hero_backend.Exchange.Rules.{
  create_request_rule, load_contact_rule, load_job_rule, load_newest_rule, log_security_event_rule,
  reply_some_rule, update_request_rule,
}
use home_hero_backend.Exchange.Steps.{
  ExchangeStep, asks, decides, newest_found, none_pending, stays,
}
use home_hero_backend.Http.{Exit, pure}
use home_hero_backend.Http.Keeps.{state_of}
use home_hero_backend.Http.Rules.{Ends, goes, reply_if_rule, some_or_reply_rule, stops, throws}
use home_hero_backend.Jobs.Model.{Job}

pub data ExchangeCall : Type 0 where
  ask : ℕ → ExchangeInput → ExchangeCall
  decide : ℕ → ExchangeInput → ExchangeCall
  view : ℕ → ExchangeInput → ExchangeCall

module _ (db : ExchangeDb) where
  module _ (cooldown_ms : ℕ) (logs : Bool) (now : ℕ) (req : ExchangeInput)
      (w : ExchangeState db) where
    abbrev Stepped : ExchangeReply → ExchangeState db → Type 0
    Stepped r w' = (w'.jobs ≡ w.jobs) × ExchangeStep db w.jobs req w.requests w'.requests

    post_contact_request_rule :
        Ends unavailable Stepped Stepped (post_contact_request db cooldown_ms logs now req w)
    unfolding post_contact_request pure
    post_contact_request_rule =
        some_or_reply_rule req.user _ _ w (λ _. (refl, stays))
          λ user signed.
            some_or_reply_rule req.job_id _ _ w (λ _. (refl, stays))
              λ job_id _.
                load_job_rule job_id _ w (refl, stays)
                  (some_or_reply_rule (db.jobs.find_unique job_id w.jobs) _ _ _ (λ _. (refl, stays))
                    λ job there.
                      some_or_reply_rule job.awarded_provider_id _ _ _ (λ _. (refl, stays))
                        λ provider_id given.
                          reply_if_rule (not (may_exchange job user)) _ _ _ (λ _. (refl, stays))
                            λ may.
                              load_newest_rule _ _ _ (refl, stays)
                                (reply_some_rule _ _ _ _ (λ _ _. (refl, stays))
                                  λ free.
                                    load_newest_rule _ _ _ (refl, stays)
                                      (reply_some_rule _ _ _ _ (λ _ _. (refl, stays))
                                        λ _.
                                          create_request_rule _ _ _ (refl, stays)
                                            (let step =
                                                asks user job_id now
                                                  (record {
                                                    signed_in = signed;
                                                    job = job;
                                                    provider_id = provider_id;
                                                    there = there;
                                                    awarded_to = given;
                                                    permitted = ground arith;
                                                  })
                                                  (none_pending db job_id w.requests free) in
                                              log_security_event_rule logs _ _ _ (refl, step)
                                                λ _ _. goes _ _ (refl, step)))))

    post_contact_decide_rule :
        Ends unavailable Stepped Stepped (post_contact_decide db cooldown_ms logs now req w)
    unfolding post_contact_decide pure
    post_contact_decide_rule =
        some_or_reply_rule req.user _ _ w (λ _. (refl, stays))
          λ user signed.
            some_or_reply_rule req.job_id _ _ w (λ _. (refl, stays))
              λ job_id _.
                some_or_reply_rule req.decision _ _ w (λ _. (refl, stays))
                  λ decision _.
                    load_job_rule job_id _ w (refl, stays)
                      (some_or_reply_rule (db.jobs.find_unique job_id w.jobs) _ _ _
                        (λ _. (refl, stays))
                        λ job there.
                          some_or_reply_rule job.awarded_provider_id _ _ _ (λ _. (refl, stays))
                            λ provider_id given.
                              reply_if_rule (not (may_exchange job user)) _ _ _ (λ _. (refl, stays))
                                λ may.
                                  load_newest_rule _ _ _ (refl, stays)
                                    (some_or_reply_rule _ _ _ _ (λ _. (refl, stays))
                                      λ r found.
                                        let (meets, row) =
                                          newest_found db
                                            (λ q.
                                              is_pending_for job_id q
                                              && not (q.requested_by_user_id == user.user_id))
                                            w.requests found in
                                        let step =
                                          decides user job_id now decision r
                                            (record {
                                              signed_in = signed;
                                              job = job;
                                              provider_id = provider_id;
                                              there = there;
                                              awarded_to = given;
                                              permitted = ground arith;
                                            })
                                            row (ground arith) (ground arith) in
                                        update_request_rule r (decided decision now) _ _
                                          (refl, stays)
                                          (log_security_event_rule logs _ _ _ (refl, step)
                                            λ _ _. goes _ _ (refl, step))))

    show_contacts_rule :
        (job_id : ℕ) (job : Job) (latest approval : Option ContactRequest) (provider_id : Option ℕ)
        (w' : ExchangeState db)
        → Stepped unavailable w'
        → Ends unavailable Stepped Stepped
            (show_contacts db cooldown_ms logs now job_id job latest approval provider_id w')
    unfolding show_contacts pure
    show_contacts_rule job_id job latest (some a) (some p) w' h =
        load_contact_rule job.consumer_id _ w' h (load_contact_rule p _ _ h (goes _ _ h))
    show_contacts_rule job_id job latest (some a) none w' h = goes _ _ h
    show_contacts_rule job_id job latest none o w' h = goes _ _ h

    get_contact_exchange_rule :
        Ends unavailable Stepped Stepped (get_contact_exchange db cooldown_ms logs now req w)
    unfolding get_contact_exchange
    get_contact_exchange_rule =
        some_or_reply_rule req.user _ _ w (λ _. (refl, stays))
          λ user _.
            some_or_reply_rule req.job_id _ _ w (λ _. (refl, stays))
              λ job_id _.
                load_job_rule job_id _ w (refl, stays)
                  (some_or_reply_rule (db.jobs.find_unique job_id w.jobs) _ _ _ (λ _. (refl, stays))
                    λ job _.
                      reply_if_rule (not (may_exchange job user)) _ _ _ (λ _. (refl, stays))
                        λ _.
                          load_newest_rule _ _ _ (refl, stays)
                            (load_newest_rule _ _ _ (refl, stays)
                              (show_contacts_rule job_id job _ _ job.awarded_provider_id _
                                (refl, stays))))

module _ (db : ExchangeDb) (cooldown_ms : ℕ) (logs : Bool) where
  -- The state after a call, whichever its exit.
  unfoldable pub serve : ExchangeCall → ExchangeState db → ExchangeState db
  serve (ask now req) w = state_of (post_contact_request db cooldown_ms logs now req w)
  serve (decide now req) w = state_of (post_contact_decide db cooldown_ms logs now req w)
  serve (view now req) w = state_of (get_contact_exchange db cooldown_ms logs now req w)

  abbrev pub input_of : ExchangeCall → ExchangeInput
  input_of (ask now req) = req
  input_of (decide now req) = req
  input_of (view now req) = req

  state_of-ExchangeStep :
      (req : ExchangeInput) (w : ExchangeState db)
      (x : Exit ExchangeReply (ExchangeState db) ExchangeReply)
      → Ends unavailable
          (λ _ w'. (w'.jobs ≡ w.jobs) × ExchangeStep db w.jobs req w.requests w'.requests)
          (λ _ w'. (w'.jobs ≡ w.jobs) × ExchangeStep db w.jobs req w.requests w'.requests)
          x
      → ((state_of x).jobs ≡ w.jobs) × ExchangeStep db w.jobs req w.requests (state_of x).requests
  state_of-ExchangeStep req w _ (goes a w' h) = h
  state_of-ExchangeStep req w _ (stops r w' h) = h
  state_of-ExchangeStep req w _ (throws e w' h) = h

  -- Whatever a handler answers, and whichever of its calls fail, the requests are as they were, or
  -- a side of an awarded job or an admin asked for one where none waits for the job, or such a user
  -- approved or rejected one that waits and that another user asked for. The jobs stay.
  pub serve-ExchangeStep :
      (c : ExchangeCall) (w : ExchangeState db)
      → ((serve c w).jobs ≡ w.jobs)
        × ExchangeStep db w.jobs (input_of c) w.requests (serve c w).requests
  unfolding serve
  serve-ExchangeStep (ask now req) w =
      state_of-ExchangeStep req w _ (post_contact_request_rule db cooldown_ms logs now req w)
  serve-ExchangeStep (decide now req) w =
      state_of-ExchangeStep req w _ (post_contact_decide_rule db cooldown_ms logs now req w)
  serve-ExchangeStep (view now req) w =
      state_of-ExchangeStep req w _ (get_contact_exchange_rule db cooldown_ms logs now req w)
