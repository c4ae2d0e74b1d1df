-- ===== src/Exchange/Model.antt =====
-- The rows, the answers and the calls of src/routes/contactExchange.ts.
use home_hero_backend.Prelude.{
  Bool, List, Option, String, [], false, if◌then◌else◌, ltb, none, some, true, ℕ, ◌++◌, ◌+◌, ◌∷◌,
}
use home_hero_backend.Db.{Table}
use home_hero_backend.Http.{Exit, Handler, Response, next}
use home_hero_backend.Jobs.Model.{AuthUser, Job, JobStatus}

pub data RequestStatus : Type 0 where
  pending approved rejected : RequestStatus

pub record ContactRequest : Type 0 where
  pub id : ℕ
  pub job_id : ℕ
  pub requested_by_user_id : ℕ
  pub status : RequestStatus
  pub created_at : ℕ
  pub decided_at : Option ℕ

pub record Contact : Type 0 where
  pub id : ℕ
  pub name : String
  pub email : String
  pub phone : Option String

pub data Decision : Type 0 where
  approve reject : Decision

-- What the schema library makes of the parameters and the body.
pub record ExchangeInput : Type 0 where
  pub user : Option AuthUser
  pub job_id : Option ℕ
  pub decision : Option Decision

pub data ExchangeBody : Type 0 where
  failure : String → Option String → ExchangeBody
  already_pending : ContactRequest → ExchangeBody
  cooling_down : ℕ → ExchangeBody
  request_body : ContactRequest → ExchangeBody
  not_approved : ℕ → JobStatus → Option ContactRequest → ExchangeBody
  contacts : ℕ → JobStatus → Option ContactRequest → Option Contact → Option Contact → ExchangeBody

abbrev pub ExchangeReply : Type 0
ExchangeReply = Response ExchangeBody

pub record ExchangeDb : Type 1 where
  pub jobs : Table Job (λ j. j.id)
  pub users : Table Contact (λ u. u.id)
  pub requests : Table ContactRequest (λ r. r.id)

-- The arguments of `logSecurityEvent`, in short.
pub record SecurityEvent : Type 0 where
  pub action : String
  pub job_id : ℕ
  pub actor_id : ℕ
  pub request_id : ℕ

pub record ExchangeState (db : ExchangeDb) : Type 0 where
  pub jobs : db.jobs.Rows
  pub users : db.users.Rows
  pub requests : db.requests.Rows
  pub events : List SecurityEvent
  -- The calls to the outside that throw, by their number.
  pub faults : ℕ → Option String
  pub calls : ℕ

abbrev pub Exchanging : ExchangeDb → Type 0 → Type 0
Exchanging db A = Handler ExchangeReply (ExchangeState db) A

abbrev pub is_open_request : RequestStatus → Bool
is_open_request RequestStatus.pending = true
is_open_request _ = false

abbrev pub is_approved_request : RequestStatus → Bool
is_approved_request RequestStatus.approved = true
is_approved_request _ = false

abbrev pub new_request : ℕ → ℕ → ℕ → ℕ → ContactRequest
new_request job_id actor_id now id = record {
  id = id;
  job_id = job_id;
  requested_by_user_id = actor_id;
  status = RequestStatus.pending;
  created_at = now;
  decided_at = none;
}

abbrev pub status_for : Decision → RequestStatus
status_for approve = RequestStatus.approved
status_for reject = RequestStatus.rejected

abbrev pub decided : Decision → ℕ → ContactRequest → ContactRequest
decided decision now r = record r { status = status_for decision; decided_at = some now }

abbrev pub later_request : ContactRequest → Option ContactRequest → Option ContactRequest
later_request r none = some r
later_request r (some q) = if ltb r.created_at q.created_at then some q else some r

-- `findFirst` with `orderBy: { createdAt: "desc" }`.
unfoldable pub newest : List ContactRequest → Option ContactRequest
newest [] = none
newest (r ∷ rs) = later_request r (newest rs)

module _ {db : ExchangeDb} where
  unfoldable pub request_call :
      {A : Type 0}
      → (ExchangeState db → A)
      → (ExchangeState db → ExchangeState db)
      → Exchanging db A
  request_call result effect w = elim (w.faults w.calls) [
    | none ↦ next (result w) (effect (record w { calls = w.calls + 1 }))
    | some e ↦ Exit.thrown e (record w { calls = w.calls + 1 })
  ]

  unfoldable pub load_job : ℕ → Exchanging db (Option Job)
  unfolding request_call
  load_job i = request_call (λ w. db.jobs.find_unique i w.jobs) (λ w. w)

  unfoldable pub load_contact : ℕ → Exchanging db (Option Contact)
  unfolding request_call
  load_contact i = request_call (λ w. db.users.find_unique i w.users) (λ w. w)

  unfoldable pub load_newest : (ContactRequest → Bool) → Exchanging db (Option ContactRequest)
  unfolding request_call
  load_newest p = request_call (λ w. newest (db.requests.find_many p w.requests)) (λ w. w)

  unfoldable pub create_request : (ℕ → ContactRequest) → Exchanging db ContactRequest
  unfolding request_call
  create_request make =
      request_call (λ w. make (db.requests.next_id w.requests))
        (λ w. record w {
          requests = db.requests.create (make (db.requests.next_id w.requests)) w.requests;
        })

  -- `update`, of the row that was found just before.
  unfoldable pub update_request :
      ContactRequest → (ContactRequest → ContactRequest) → Exchanging db ContactRequest
  unfolding request_call
  update_request r f =
      request_call (λ w. f r) (λ w. record w { requests = db.requests.update r.id f w.requests })

  -- `logSecurityEvent?.(...)`.
  unfoldable pub log_security_event : Bool → SecurityEvent → Exchanging db (Unit {0})
  unfolding request_call
  log_security_event true event =
      request_call (λ w. tt) (λ w. record w { events = w.events ++ event ∷ [] })
  log_security_event false event = λ w. next tt w
