-- ===== src/Exchange/Steps.antt =====
-- src/routes/contactExchange.ts: what the requests of a job may become.
use home_hero_backend.Prelude.{
  All-both, Bool, Bool-cases, false, inl, inr, none, some, true, ℕ, ◌==◌, ◌≡◌,
}
use home_hero_backend.Exchange.Handlers.{is_pending_for, may_exchange}
use home_hero_backend.Exchange.Model.{
  ContactRequest, Decision, ExchangeDb, ExchangeInput, decided, new_request, newest,
}
use home_hero_backend.Exchange.Rules.{newest-All, newest-none}
use home_hero_backend.Jobs.Model.{AuthUser, Job}

module _ (db : ExchangeDb) where
  -- Nobody's request for the job waits.
  abbrev pub NonePending : ℕ → db.requests.Rows → Type 0
  NonePending job_id s =
      (k : ℕ) (r : ContactRequest)
      → db.requests.find_unique k s ≡ some r
      → is_pending_for job_id r ≡ false

  -- The user of the request is a side of the job, or an admin, and the job has a provider.
  pub record Permitted (jobs : db.jobs.Rows) (req : ExchangeInput) (user : AuthUser) (job_id : ℕ)
      : Type 0 where
    pub signed_in : req.user ≡ some user
    pub job : Job
    pub provider_id : ℕ
    pub there : db.jobs.find_unique job_id jobs ≡ some job
    pub awarded_to : job.awarded_provider_id ≡ some provider_id
    pub permitted : may_exchange job user ≡ true

  -- The ways in which a call changes the requests.
  pub data ExchangeStep (jobs : db.jobs.Rows) (req : ExchangeInput) (s : db.requests.Rows)
      : db.requests.Rows → Type 0 where
    stays : ExchangeStep jobs req s s
    -- A new request waits, where none did for the job.
    asks :
        (user : AuthUser) (job_id now : ℕ)
        → Permitted jobs req user job_id
        → NonePending job_id s
        → ExchangeStep jobs req s
            (db.requests.create (new_request job_id user.user_id now (db.requests.next_id s)) s)
    -- A request that waits is approved or rejected by another user than asked.
    decides :
        (user : AuthUser) (job_id now : ℕ) (decision : Decision) (r : ContactRequest)
        → Permitted jobs req user job_id
        → db.requests.find_unique r.id s ≡ some r
        → is_pending_for job_id r ≡ true
        → (r.requested_by_user_id == user.user_id) ≡ false
        → ExchangeStep jobs req s (db.requests.update r.id (decided decision now) s)

  pub none_pending :
      (job_id : ℕ) (s : db.requests.Rows)
      → newest (db.requests.find_many (is_pending_for job_id) s) ≡ none
      → NonePending job_id s
  none_pending job_id s e k r row = elim (Bool-cases (is_pending_for job_id r)) [
    | inl waits ↦
        absurd
          (db.requests.find_many_complete (is_pending_for job_id) s k row waits (newest-none _ e))
    | inr no_more ↦ no_more
  ]

  pub newest_found :
      (p : ContactRequest → Bool) (s : db.requests.Rows) {r : ContactRequest}
      → newest (db.requests.find_many p s) ≡ some r
      → (p r ≡ true) × (db.requests.find_unique r.id s ≡ some r)
  newest_found p s e =
      newest-All (λ r. (p r ≡ true) × (db.requests.find_unique r.id s ≡ some r)) _
        (All-both (λ r. p r ≡ true) (λ r. db.requests.find_unique r.id s ≡ some r) _
          (db.requests.find_many_sound p s) (db.requests.find_many_rows p s))
        e
