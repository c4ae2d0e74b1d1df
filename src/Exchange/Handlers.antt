-- ===== src/Exchange/Handlers.antt =====
-- src/routes/contactExchange.ts: the three handlers. What is thrown leaves the handler.
use home_hero_backend.Prelude.{
  Bool, Option, String, if◌then◌else◌, leb, ltb, none, not, some, ℕ, ◌&&◌, ◌+◌, ◌-◌, ◌/◌, ◌==◌,
  ◌||◌,
}
use home_hero_backend.Exchange.Model.{
  ContactRequest, ExchangeDb, ExchangeInput, ExchangeReply, Exchanging, already_pending, contacts,
  cooling_down, create_request, decided, failure, is_approved_request, is_open_request,
  load_contact, load_job, load_newest, log_security_event, new_request, not_approved, request_body,
  update_request,
}
use home_hero_backend.Http.{Handler, pure, reply_if, respond, some_or_reply, ◌>>=◌, ◌>>◌}
use home_hero_backend.Jobs.Model.{AuthUser, Job, admin, is_id, same_role}
use home_hero_backend.Webhooks.State.{updated}

abbrev refuse : ℕ → String → Option String → ExchangeReply
refuse status message code = record { status = status; body = failure message code }

abbrev pub unavailable : ExchangeReply
unavailable =
    refuse 400 "Contact exchange is only available after a provider is awarded."
      (some "CONTACT_EXCHANGE_NOT_AVAILABLE")

abbrev pub is_exchange_admin : AuthUser → Bool
is_exchange_admin user = same_role user.role admin

-- `isParticipant`, where a missing provider is nobody.
abbrev pub is_participant : Job → AuthUser → Bool
is_participant job user =
    user.user_id == job.consumer_id || is_id job.awarded_provider_id user.user_id

abbrev pub may_exchange : Job → AuthUser → Bool
may_exchange job user = is_participant job user || is_exchange_admin user

abbrev pub is_pending_for : ℕ → ContactRequest → Bool
is_pending_for job_id r = r.job_id == job_id && is_open_request r.status

-- `Math.ceil((cooldownMs - ageMs) / 1000)`, while less than the cooldown has passed.
unfoldable pub cooldown_left : ℕ → ℕ → Option ContactRequest → Option ℕ
cooldown_left cooldown_ms now none = none
cooldown_left cooldown_ms now (some r) =
    if leb r.created_at now && ltb (now - r.created_at) cooldown_ms
    then some ((cooldown_ms - (now - r.created_at) + 999) / 1000)
    else none

-- `if (o) return r(o);`
unfoldable pub reply_some : {R W A : Type 0} → Option A → (A → R) → Handler R W (Unit {0})
unfolding respond pure
reply_some none r w = pure tt w
reply_some (some a) r w = respond (r a) w

module _ (db : ExchangeDb) (cooldown_ms : ℕ) (logs : Bool) (now : ℕ) where
  unfoldable pub post_contact_request : ExchangeInput → Exchanging db ExchangeReply
  post_contact_request req = do
    user ← some_or_reply req.user (refuse 401 "Not authenticated" none)
    job_id ← some_or_reply req.job_id (refuse 400 "Invalid job id" none)
    found ← load_job job_id
    job ← some_or_reply found (refuse 404 "Job not found" none)
    provider_id ← some_or_reply job.awarded_provider_id unavailable
    reply_if (not (may_exchange job user)) (refuse 403 "Not allowed" none)
    open_request ← load_newest (is_pending_for job_id)
    reply_some open_request (λ r. record { status = 409; body = already_pending r })
    last_by_actor ← load_newest (λ r. r.job_id == job_id && r.requested_by_user_id == user.user_id)
    reply_some (cooldown_left cooldown_ms now last_by_actor)
        (λ seconds. record { status = 429; body = cooling_down seconds })
    created ← create_request (new_request job_id user.user_id now)
    log_security_event logs (record {
      action = "contact_exchange.requested";
      job_id = job_id;
      actor_id = user.user_id;
      request_id = created.id;
    })
    pure (record { status = 201; body = request_body created })

  unfoldable pub post_contact_decide : ExchangeInput → Exchanging db ExchangeReply
  post_contact_decide req = do
    user ← some_or_reply req.user (refuse 401 "Not authenticated" none)
    job_id ← some_or_reply req.job_id (refuse 400 "Invalid job id" none)
    decision ← some_or_reply req.decision (refuse 400 "Invalid body" none)
    found ← load_job job_id
    job ← some_or_reply found (refuse 404 "Job not found" none)
    provider_id ← some_or_reply job.awarded_provider_id unavailable
    reply_if (not (may_exchange job user)) (refuse 403 "Not allowed" none)
    open_request ←
        load_newest (λ r. is_pending_for job_id r && not (r.requested_by_user_id == user.user_id))
    request ← some_or_reply open_request (
        refuse 404 "No pending contact exchange request to decide."
          (some "CONTACT_EXCHANGE_NOT_PENDING"))
    updated ← update_request request (decided decision now)
    log_security_event logs (record {
      action = "contact_exchange.decided";
      job_id = job_id;
      actor_id = user.user_id;
      request_id = updated.id;
    })
    pure (record { status = 200; body = request_body updated })

  -- The contacts of both, where a request was approved; the two reads of `Promise.all` change
  -- nothing, and are made one after the other here.
  unfoldable pub show_contacts :
      ℕ
      → Job
      → Option ContactRequest
      → Option ContactRequest
      → Option ℕ
      → Exchanging db ExchangeReply
  show_contacts job_id job latest (some approval) (some provider_id) = do
    of_consumer ← load_contact job.consumer_id
    of_provider ← load_contact provider_id
    pure (record { status = 200; body = contacts job_id job.status latest of_consumer of_provider })
  show_contacts job_id job latest _ _ =
      pure (record { status = 200; body = not_approved job_id job.status latest })

  -- Of the approved request only whether there is one is used.
  unfoldable pub get_contact_exchange : ExchangeInput → Exchanging db ExchangeReply
  get_contact_exchange req = do
    user ← some_or_reply req.user (refuse 401 "Not authenticated" none)
    job_id ← some_or_reply req.job_id (refuse 400 "Invalid job id" none)
    found ← load_job job_id
    job ← some_or_reply found (refuse 404 "Job not found" none)
    reply_if (not (may_exchange job user)) (refuse 403 "Not allowed" none)
    latest ← load_newest (λ r. r.job_id == job_id)
    approval ← load_newest (λ r. r.job_id == job_id && is_approved_request r.status)
    show_contacts job_id job latest approval job.awarded_provider_id
