-- ===== src/Jobs/World.antt =====
-- What a job handler acts on: the tables behind the database client, the injected functions
-- (`createNotification`, `enqueueWebhookEvent`, `auditSecurityEvent`) as an outbox of the calls
-- made, and an oracle of the calls that throw.
use text.Mathlib.Text.{find?}
use home_hero_backend.Prelude.{
  Bool, List, Option, String, [], false, if◌then◌else◌, none, some, true, ℕ, ◌&&◌, ◌++◌, ◌+◌, ◌∷◌,
}
use home_hero_backend.Db.{Table}
use home_hero_backend.Http.{
  Exit, Fields, Handler, Response, Value, next, pure, reply, reply_if, respond, run, some_or_reply,
  throw, thrown, try_catch, ◌>>=◌,
}
use home_hero_backend.Jobs.Model.{Bid, Dispute, Job, User}
use home_hero_backend.Jobs.Request.{Parsed, invalid, issue_message, valid}

pub record Db : Type 1 where
  pub jobs : Table Job (λ j. j.id)
  pub bids : Table Bid (λ b. b.id)
  pub disputes : Table Dispute (λ d. d.id)
  pub users : Table User (λ u. u.id)

pub data Content : Type 0 where
  line : String → Content
  fields : Fields → Content

pub data Effect : Type 0 where
  notification : ℕ → String → Content → Effect
  audit : String → Fields → Effect
  webhook : String → Fields → Effect

pub data Json : Type 0 where
  value : Value → Json
  job : Job → Json
  bid : Bid → Json
  dispute : Dispute → Json
  object : Fields → Json

abbrev pub Reply : Type 0
Reply = Response (List (String × Json))

abbrev pub error : ℕ → String → Reply
error code message = record { status = code; body = ("error", value (Value.text message)) ∷ [] }

pub record World (db : Db) : Type 0 where
  pub jobs : db.jobs.Rows
  pub bids : db.bids.Rows
  pub disputes : db.disputes.Rows
  pub users : db.users.Rows
  pub outbox : List Effect
  -- `faults n` is the message with which the call number `n` to the outside throws, if it does.
  pub faults : ℕ → Option String
  pub calls : ℕ

abbrev pub M : Db → Type 0 → Type 0
M db A = Handler Reply (World db) A

module _ {db : Db} where
  -- A call to the outside: it throws with no effect, or has its effect.
  unfoldable pub external : {A : Type 0} → (World db → A) → (World db → World db) → M db A
  external result effect w = elim (w.faults w.calls) [
    | none ↦ next (result w) (effect (record w { calls = w.calls + 1 }))
    | some e ↦ thrown e (record w { calls = w.calls + 1 })
  ]

  -- `prisma.$transaction`: if it does not come to its end, the tables are as they were before.
  unfoldable pub transaction : {A : Type 0} → M db A → M db A
  transaction m w = elim (m w) [
    | next a w' ↦ next a w'
    | reply r w' ↦ reply r (record w { calls = w'.calls })
    | thrown e w' ↦ thrown e (record w { calls = w'.calls })
  ]

  unfoldable pub find_job : ℕ → M db (Option Job)
  unfolding external
  find_job i = external (λ w. db.jobs.find_unique i w.jobs) (λ w. w)

  unfoldable pub find_bid : ℕ → M db (Option Bid)
  unfolding external
  find_bid i = external (λ w. db.bids.find_unique i w.bids) (λ w. w)

  unfoldable pub find_first_bid : (Bid → Bool) → M db (Option Bid)
  unfolding external
  find_first_bid p = external (λ w. db.bids.find_first p w.bids) (λ w. w)

  unfoldable pub find_dispute : ℕ → M db (Option Dispute)
  unfolding external
  find_dispute i = external (λ w. db.disputes.find_unique i w.disputes) (λ w. w)

  unfoldable pub find_first_dispute : (Dispute → Bool) → M db (Option Dispute)
  unfolding external
  find_first_dispute p = external (λ w. db.disputes.find_first p w.disputes) (λ w. w)

  unfoldable pub find_users : (User → Bool) → M db (List User)
  unfolding external
  find_users p = external (λ w. db.users.find_many p w.users) (λ w. w)

  -- `update` answers with the new row, and throws where the row is missing.
  abbrev pub written :
      {A : Type 0} → Option A → (A → A) → World db → World db → Exit Reply (World db) A
  written none f before after = thrown "Record to update not found." before
  written (some a) f before after = next (f a) after

  unfoldable pub update_job : ℕ → (Job → Job) → M db Job
  update_job i f w =
      let w' = record w { calls = w.calls + 1 } in
      elim (w.faults w.calls) [
        | none ↦
            written (db.jobs.find_unique i w.jobs) f w'
              (record w' { jobs = db.jobs.update i f w.jobs })
        | some e ↦ thrown e w'
      ]

  unfoldable pub update_bid : ℕ → (Bid → Bid) → M db Bid
  update_bid i f w =
      let w' = record w { calls = w.calls + 1 } in
      elim (w.faults w.calls) [
        | none ↦
            written (db.bids.find_unique i w.bids) f w'
              (record w' { bids = db.bids.update i f w.bids })
        | some e ↦ thrown e w'
      ]

  unfoldable pub update_dispute : ℕ → (Dispute → Dispute) → M db Dispute
  update_dispute i f w =
      let w' = record w { calls = w.calls + 1 } in
      elim (w.faults w.calls) [
        | none ↦
            written (db.disputes.find_unique i w.disputes) f w'
              (record w' { disputes = db.disputes.update i f w.disputes })
        | some e ↦ thrown e w'
      ]

  unfoldable pub update_bids : (Bid → Bool) → (Bid → Bid) → M db (Unit {0})
  unfolding external
  update_bids p f = external (λ w. tt) (λ w. record w { bids = db.bids.update_many p f w.bids })

  -- `create`, where `make` completes the given fields by the new key.
  unfoldable pub create_dispute : (ℕ → Dispute) → M db Dispute
  unfolding external
  create_dispute make =
      external (λ w. make (db.disputes.next_id w.disputes))
        (λ w. record w {
          disputes = db.disputes.create (make (db.disputes.next_id w.disputes)) w.disputes;
        })

  unfoldable pub emit : Effect → M db (Unit {0})
  unfolding external
  emit e = external (λ w. tt) (λ w. record w { outbox = w.outbox ++ e ∷ [] })

  unfoldable pub create_notification : ℕ → String → Content → M db (Unit {0})
  unfolding emit
  create_notification user type content = emit (notification user type content)

  unfoldable pub enqueue_webhook_event : String → Fields → M db (Unit {0})
  unfolding emit
  enqueue_webhook_event type payload = emit (webhook type payload)

  -- `auditSecurityEvent?.(...)`: nothing where the function was not injected.
  unfoldable pub audit_security_event : Bool → String → Fields → M db (Unit {0})
  unfolding emit
  audit_security_event true type metadata = emit (audit type metadata)
  audit_security_event false type metadata = λ w. next tt w

module _ {db : Db} where
  -- `for (...) await createNotification(...)`.
  unfoldable pub emit_each : List Effect → M db (Unit {0})
  emit_each [] = pure tt
  emit_each (e ∷ es) = emit e >>= λ _. emit_each es

  -- `Promise.all` over calls: each is made, and a failure of one is thrown when all are done.
  unfoldable pub fail_after :
      String → Exit Reply (World db) (Unit {0}) → Exit Reply (World db) (Unit {0})
  fail_after m (next a w) = thrown m w
  fail_after m (reply r w) = reply r w
  fail_after m (thrown e w) = thrown m w

  unfoldable pub emit_all : List Effect → M db (Unit {0})
  unfolding fail_after
  emit_all [] w = pure tt w
  emit_all (e ∷ es) w = elim (emit e w) [
    | next a w' ↦ emit_all es w'
    | reply r w' ↦ reply r w'
    | thrown m w' ↦ fail_after m (emit_all es w')
  ]

-- `String.prototype.includes`.
abbrev pub includes : String → String → Bool
includes s part = elim (find? s part) [ none ↦ false | some _ ↦ true ]

unfoldable pub is_missing_db_column_error : String → Bool
is_missing_db_column_error message = includes message "does not exist" && includes message "column"

-- `if (isMissingDbColumnError(err)) return answer; throw err;`
unfoldable pub missing_column_to : {db : Db} {A : Type 0} → Reply → String → M db A
unfolding respond throw
missing_column_to answer message =
    if is_missing_db_column_error message then respond answer else throw message

-- `if (!parsed.success) return res.status(400)...` with the first issue's message.
unfoldable pub valid_or_reply : {db : Db} {A : Type 0} → Parsed A → M db A
unfolding respond pure
valid_or_reply (valid a) = pure a
valid_or_reply (invalid message) = respond (error 400 (issue_message message))

-- For the tests: to unfold this is to unfold the calls above.
unfoldable pub handler_calls : Unit {0}
unfolding pure respond throw ◌>>=◌ reply_if some_or_reply run try_catch external transaction
    find_job find_bid find_first_bid find_dispute find_first_dispute find_users update_job
    update_bid update_dispute update_bids create_dispute emit audit_security_event
    create_notification enqueue_webhook_event missing_column_to valid_or_reply emit_each emit_all
    is_missing_db_column_error
handler_calls = tt
