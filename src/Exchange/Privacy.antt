-- ===== src/Exchange/Privacy.antt =====
-- src/routes/contactExchange.ts: to whom contact details are shown.
use mathlib.Core.Option.{some-injective}
use home_hero_backend.Prelude.{
  Bool, Option, arith, false, none, not, refl, some, subst, sym, true, ℕ, ◌&&◌, ◌==◌, ◌≡◌,
}
use home_hero_backend.Exchange.Handlers.{
  get_contact_exchange, may_exchange, show_contacts, unavailable,
}
use home_hero_backend.Exchange.Model.{
  ContactRequest, ExchangeBody, ExchangeDb, ExchangeInput, ExchangeReply, ExchangeState, contacts,
  is_approved_request,
}
use home_hero_backend.Exchange.Rules.{load_contact_rule, load_job_rule, load_newest_rule}
use home_hero_backend.Exchange.Steps.{newest_found}
use home_hero_backend.Http.{Exit, next, pure, reply, thrown}
use home_hero_backend.Http.Rules.{Ends, goes, reply_if_rule, some_or_reply_rule, stops, throws}
use home_hero_backend.Jobs.Model.{AuthUser, Job}

abbrev pub shows_contacts : ExchangeBody → Bool
shows_contacts (contacts job_id status latest consumer_row provider_row) = true
shows_contacts _ = false

-- What is answered, early or at the end; nothing where the handler throws.
abbrev pub answer_of :
    {db : ExchangeDb} → Exit ExchangeReply (ExchangeState db) ExchangeReply → Option ExchangeReply
answer_of (next r w) = some r
answer_of (reply r w) = some r
answer_of (thrown e w) = none

module _ (db : ExchangeDb) (cooldown_ms : ℕ) (logs : Bool) (now : ℕ) (req : ExchangeInput)
    (w : ExchangeState db) where
  -- The one that asks is a side of the job or an admin, and a request for the job was approved.
  pub record MaySee : Type 0 where
    pub user : AuthUser
    pub job_id : ℕ
    pub job : Job
    pub approval : ContactRequest
    pub signed_in : req.user ≡ some user
    pub asked_for : req.job_id ≡ some job_id
    pub there : db.jobs.find_unique job_id w.jobs ≡ some job
    pub permitted : may_exchange job user ≡ true
    pub agreed : db.requests.find_unique approval.id w.requests ≡ some approval
    pub approves : (approval.job_id == job_id && is_approved_request approval.status) ≡ true

  abbrev Private : ExchangeReply → ExchangeState db → Type 0
  Private r w' = shows_contacts r.body ≡ true → MaySee

  show_contacts-Private :
      (user : AuthUser) (job_id : ℕ) (job : Job) (latest approval : Option ContactRequest)
      (provider_id : Option ℕ) (w' : ExchangeState db)
      → ((a : ContactRequest) → approval ≡ some a → MaySee)
      → Ends unavailable Private Private
          (show_contacts db cooldown_ms logs now job_id job latest approval provider_id w')
  unfolding show_contacts pure
  show_contacts-Private user job_id job latest (some a) (some p) w' may =
      load_contact_rule job.consumer_id _ w' (λ shown. absurd (cc))
        (load_contact_rule p _ _ (λ shown. absurd (cc)) (goes _ _ (λ shown. may a refl)))
  show_contacts-Private user job_id job latest (some a) none w' may =
      goes _ _ (λ shown. absurd (cc))
  show_contacts-Private user job_id job latest none o w' may = goes _ _ (λ shown. absurd (cc))

  get_contact_exchange-Private :
      Ends unavailable Private Private (get_contact_exchange db cooldown_ms logs now req w)
  unfolding get_contact_exchange
  get_contact_exchange-Private =
      some_or_reply_rule req.user _ _ w (λ _ shown. absurd (cc))
        λ user signed.
          some_or_reply_rule req.job_id _ _ w (λ _ shown. absurd (cc))
            λ job_id asked.
              load_job_rule job_id _ w (λ shown. absurd (cc))
                (some_or_reply_rule (db.jobs.find_unique job_id w.jobs) _ _ _
                  (λ _ shown. absurd (cc))
                  λ job there.
                    reply_if_rule (not (may_exchange job user)) _ _ _ (λ _ shown. absurd (cc))
                      λ may.
                        load_newest_rule _ _ _ (λ shown. absurd (cc))
                          (load_newest_rule _ _ _ (λ shown. absurd (cc))
                            (show_contacts-Private user job_id job _ _ job.awarded_provider_id _
                              λ a found.
                                let (meets, row) =
                                  newest_found db
                                    (λ r. r.job_id == job_id && is_approved_request r.status)
                                    w.requests found in
                                record {
                                  user = user;
                                  job_id = job_id;
                                  job = job;
                                  approval = a;
                                  signed_in = signed;
                                  asked_for = asked;
                                  there = there;
                                  permitted = ground arith;
                                  agreed = row;
                                  approves = meets;
                                })))

  private_answer :
      (x : Exit ExchangeReply (ExchangeState db) ExchangeReply) {answer : ExchangeReply}
      → Ends unavailable Private Private x
      → answer_of x ≡ some answer
      → shows_contacts answer.body ≡ true
      → MaySee
  private_answer _ {answer} (goes a w' h) e shown = h (
      subst (λ (r : ExchangeReply). shows_contacts r.body ≡ true) (sym (some-injective a answer e))
        shown)
  private_answer _ {answer} (stops r w' h) e shown = h (
      subst (λ (r : ExchangeReply). shows_contacts r.body ≡ true) (sym (some-injective r answer e))
        shown)
  private_answer _ (throws m w' h) e shown = absurd (cc)

  -- If the answer shows the contact details of a job, the one that asked is a side of the job or an
  -- admin, and a request of the job was approved.
  pub get_contact_exchange-private :
      (answer : ExchangeReply)
      → answer_of (get_contact_exchange db cooldown_ms logs now req w) ≡ some answer
      → shows_contacts answer.body ≡ true
      → MaySee
  get_contact_exchange-private answer e shown =
      private_answer _ get_contact_exchange-Private e shown
