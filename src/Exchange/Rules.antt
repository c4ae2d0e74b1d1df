-- ===== src/Exchange/Rules.antt =====
-- The rules of Http/Rules for the calls of src/routes/contactExchange.ts.
use mathlib.Core.Option.{some-injective}
use home_hero_backend.Prelude.{
  All, Bool, Bool-cases, List, Option, Option-cases, [], arith, false, inl, inr, ltb, none, refl,
  some, subst, true, ℕ, ◌++◌, ◌+◌, ◌∷◌, ◌≡◌,
}
use home_hero_backend.Exchange.Handlers.{reply_some}
use home_hero_backend.Exchange.Model.{
  Contact, ContactRequest, ExchangeDb, ExchangeReply, ExchangeState, Exchanging, SecurityEvent,
  create_request, later_request, load_contact, load_job, load_newest, log_security_event, newest,
  request_call, update_request,
}
use home_hero_backend.Http.{◌>>=◌}
use home_hero_backend.Http.Rules.{Ends, stops, throws}
use home_hero_backend.Jobs.Model.{Job}

abbrev pub answered : {db : ExchangeDb} → ExchangeState db → ExchangeState db
answered w = record w { calls = w.calls + 1 }

module _ {db : ExchangeDb} {internal : ExchangeReply}
    {E : ExchangeReply → ExchangeState db → Type 0} {A : Type 0}
    {K : A → ExchangeState db → Type 0} where
  pub request_call_rule :
      {B : Type 0} (result : ExchangeState db → B) (effect : ExchangeState db → ExchangeState db)
      (f : B → Exchanging db A) (w : ExchangeState db)
      → E internal (answered w)
      → Ends internal E K (f (result w) (effect (answered w)))
      → Ends internal E K ((request_call result effect >>= f) w)
  unfolding ◌>>=◌ request_call
  request_call_rule result effect f w stop go = elim (Option-cases (w.faults w.calls)) [
    | inl e ↦ rw (e, ◌>>=◌, request_call) go
    | inr (m, e) ↦ rw (e, ◌>>=◌, request_call) (throws m _ stop)
  ]

  pub load_job_rule :
      (i : ℕ) (f : Option Job → Exchanging db A) (w : ExchangeState db)
      → E internal (answered w)
      → Ends internal E K (f (db.jobs.find_unique i w.jobs) (answered w))
      → Ends internal E K ((load_job i >>= f) w)
  unfolding load_job
  load_job_rule i f w stop go =
      request_call_rule (λ v. db.jobs.find_unique i v.jobs) (λ v. v) f w stop go

  pub load_newest_rule :
      (p : ContactRequest → Bool) (f : Option ContactRequest → Exchanging db A)
      (w : ExchangeState db)
      → E internal (answered w)
      → Ends internal E K (f (newest (db.requests.find_many p w.requests)) (answered w))
      → Ends internal E K ((load_newest p >>= f) w)
  unfolding load_newest
  load_newest_rule p f w stop go =
      request_call_rule (λ v. newest (db.requests.find_many p v.requests)) (λ v. v) f w stop go

  pub load_contact_rule :
      (i : ℕ) (f : Option Contact → Exchanging db A) (w : ExchangeState db)
      → E internal (answered w)
      → Ends internal E K (f (db.users.find_unique i w.users) (answered w))
      → Ends internal E K ((load_contact i >>= f) w)
  unfolding load_contact
  load_contact_rule i f w stop go =
      request_call_rule (λ v. db.users.find_unique i v.users) (λ v. v) f w stop go

  pub create_request_rule :
      (make : ℕ → ContactRequest) (f : ContactRequest → Exchanging db A) (w : ExchangeState db)
      → E internal (answered w)
      → Ends internal E K (
          f (make (db.requests.next_id w.requests)) (record w {
            requests = db.requests.create (make (db.requests.next_id w.requests)) w.requests;
            calls = w.calls + 1;
          }))
      → Ends internal E K ((create_request make >>= f) w)
  unfolding create_request
  create_request_rule make f w stop go =
      request_call_rule (λ v. make (db.requests.next_id v.requests))
        (λ v. record v {
          requests = db.requests.create (make (db.requests.next_id v.requests)) v.requests;
        })
        f w stop go

  pub update_request_rule :
      (r : ContactRequest) (g : ContactRequest → ContactRequest)
      (f : ContactRequest → Exchanging db A) (w : ExchangeState db)
      → E internal (answered w)
      → Ends internal E K (
          f
            (g r)
            (record w { requests = db.requests.update r.id g w.requests; calls = w.calls + 1 }))
      → Ends internal E K ((update_request r g >>= f) w)
  unfolding update_request
  update_request_rule r g f w stop go =
      request_call_rule (λ v. g r)
        (λ v. record v { requests = db.requests.update r.id g v.requests }) f w stop go

  -- An event is written down, or no function was injected; the rows stay.
  pub log_security_event_rule :
      (logs : Bool) (event : SecurityEvent) (f : Unit {0} → Exchanging db A) (w : ExchangeState db)
      → E internal (answered w)
      → ((events : List SecurityEvent) (calls : ℕ)
          → Ends internal E K (f tt (record w { events = events; calls = calls })))
      → Ends internal E K ((log_security_event logs event >>= f) w)
  unfolding log_security_event ◌>>=◌
  log_security_event_rule true event f w stop go =
      request_call_rule (λ v. tt) (λ v. record v { events = v.events ++ event ∷ [] }) f w stop
        (go (w.events ++ event ∷ []) (w.calls + 1))
  log_security_event_rule false event f w stop go = go w.events w.calls

  pub reply_some_rule :
      {B : Type 0} (o : Option B) (r : B → ExchangeReply) (f : Unit {0} → Exchanging db A)
      (w : ExchangeState db)
      → ((b : B) → o ≡ some b → E (r b) w)
      → (o ≡ none → Ends internal E K (f tt w))
      → Ends internal E K ((reply_some o r >>= f) w)
  unfolding reply_some ◌>>=◌
  reply_some_rule none r f w stop go = go refl
  reply_some_rule (some b) r f w stop go = stops (r b) w (stop b refl)

-- What a row that was found is.
module _ (P : ContactRequest → Type 0) where
  later_request-All :
      (r : ContactRequest) (o : Option ContactRequest) {q : ContactRequest}
      → P r
      → ((x : ContactRequest) → o ≡ some x → P x)
      → later_request r o ≡ some q
      → P q
  later_request-All r none {q} h old e = subst P (some-injective r q e) h
  later_request-All r (some x) {q} h old e = elim (Bool-cases (ltb r.created_at x.created_at)) [
    | inl later ↦ subst P (some-injective x q (ground arith)) (old x refl)
    | inr other ↦ subst P (some-injective r q (ground arith)) h
  ]

  pub newest-All :
      (rs : List ContactRequest) {q : ContactRequest} → All P rs → newest rs ≡ some q → P q
  unfolding newest
  newest-All [] h e = absurd (cc)
  newest-All (r ∷ rs) (h, hs) e = later_request-All r (newest rs) h (λ x f. newest-All rs hs f) e

later_request-found :
    (r : ContactRequest) (o : Option ContactRequest) → later_request r o ≡ none → ⊥
later_request-found r none e = absurd (cc)
later_request-found r (some x) e = elim (Bool-cases (ltb r.created_at x.created_at)) [
  | inl later ↦ absurd (ground arith)
  | inr other ↦ absurd (ground arith)
]

pub newest-none : (rs : List ContactRequest) → newest rs ≡ none → rs ≡ []
unfolding newest
newest-none [] e = refl
newest-none (r ∷ rs) e = absurd (later_request-found r (newest rs) e)
