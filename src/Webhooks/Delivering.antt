-- ===== src/Webhooks/Delivering.antt =====
-- src/webhooks/worker.ts: what the handling of one delivery does to the deliveries.
-- An update that changes neither the key nor the count of attempts.
use home_hero_backend.Prelude.{Option, String, none, refl, some, ℕ, ◌&&◌, ◌==◌, ◌≡◌}
use home_hero_backend.Webhooks.Keeps.{
  Keeps, Keeps-alert, Keeps-bind, Keeps-create_attempt, Keeps-draw, Keeps-fetch, Keeps-if,
  Keeps-pure, Keeps-random_uuid, Keeps-read_clock, Keeps-try_catch, Keeps-update_attempt,
  Keeps-update_deliveries, Keeps-update_delivery,
}
use home_hero_backend.Webhooks.Model.{Attempt, Delivery, Endpoint, bury, is_processing}
use home_hero_backend.Webhooks.State.{Hooks, Posted, Runtime, Settings, update_delivery}
use home_hero_backend.Webhooks.Worker.{
  AttemptResult, dead_letter, delay_of, deliver, fail_and_reschedule, fail_permanent,
  finish_attempt, handle_one, is_enabled, override_of, post_and_settle, settle_exception,
  settle_http_error, settle_success, skip_disabled,
}

abbrev pub SameCount : (Delivery → Delivery) → Type 0
SameCount f = (d : Delivery) → ((f d).id ≡ d.id) × ((f d).attempts ≡ d.attempts)

module _ (hooks : Hooks) (P : hooks.deliveries.Rows → Type 0) where
  -- `P` outlives such updates of the rows under one key.
  pub record Local (i : ℕ) : Type 0 where
    pub one :
        (f : Delivery → Delivery)
        → SameCount f
        → (s : hooks.deliveries.Rows) → P s
        → P (hooks.deliveries.update i f s)
    pub many :
        (f : Delivery → Delivery)
        → SameCount f
        → (s : hooks.deliveries.Rows) → P s
        → P (hooks.deliveries.update_many (λ d. d.id == i && is_processing d.status) f s)

module _ (hooks : Hooks) (runtime : Runtime) (settings : Settings)
    (P : hooks.deliveries.Rows → Type 0) where
  update_Keeps :
      (i : ℕ) (f : Delivery → Delivery)
      → Local hooks P i
      → SameCount f
      → Keeps hooks P (update_delivery i f)
  update_Keeps i f local same = Keeps-update_delivery i f (local.one f same)

  fail_permanent-Keeps :
      (i : ℕ) (err : String)
      → Local hooks P i
      → Keeps hooks P (fail_permanent hooks runtime settings i err)
  unfolding fail_permanent
  fail_permanent-Keeps i err local =
      Keeps-bind Keeps-read_clock λ now. update_Keeps _ _ local λ d. (refl, refl)

  finish_attempt-Keeps :
      (a : Attempt) (result : AttemptResult)
      → Keeps hooks P (finish_attempt hooks runtime settings a result)
  unfolding finish_attempt
  finish_attempt-Keeps a result = Keeps-bind Keeps-read_clock λ now. Keeps-update_attempt _ _

  dead_letter-Keeps :
      (i n : ℕ) (err : String) (now : ℕ)
      → Local hooks P i
      → Keeps hooks P (dead_letter hooks runtime settings i n err now)
  unfolding dead_letter
  dead_letter-Keeps i n err now local =
      Keeps-bind (Keeps-update_deliveries _ _ (local.many (bury err now) λ d. (refl, refl)))
        λ count. Keeps-if _ (Keeps-alert _) (Keeps-pure _)

  delay_of-Keeps : (n : ℕ) (o : Option ℕ) → Keeps hooks P (delay_of hooks runtime settings n o)
  unfolding delay_of
  delay_of-Keeps n none = Keeps-bind Keeps-draw λ jitter. Keeps-pure _
  delay_of-Keeps n (some ms) = Keeps-pure _

  fail_and_reschedule-Keeps :
      (i n : ℕ) (err : String) (o : Option ℕ)
      → Local hooks P i
      → Keeps hooks P (fail_and_reschedule hooks runtime settings i n err o)
  unfolding fail_and_reschedule
  fail_and_reschedule-Keeps i n err o local = Keeps-bind Keeps-read_clock λ now.
      Keeps-if _ (dead_letter-Keeps i n err now local) (
        Keeps-bind (delay_of-Keeps n o)
          λ delay. Keeps-bind Keeps-read_clock λ later. update_Keeps _ _ local λ d. (refl, refl))

  settle_success-Keeps :
      (d : Delivery) (a : Attempt) (result : Posted)
      → Local hooks P d.id
      → Keeps hooks P (settle_success hooks runtime settings d a result)
  unfolding settle_success
  settle_success-Keeps d a result local = Keeps-bind Keeps-read_clock λ delivered.
      Keeps-bind Keeps-read_clock λ attempted.
        Keeps-bind (update_Keeps _ _ local λ x. (refl, refl)) λ _. finish_attempt-Keeps a _

  override_of-Keeps : (result : Posted) → Keeps hooks P (override_of hooks runtime settings result)
  unfolding override_of
  override_of-Keeps result =
      Keeps-if _ (Keeps-bind Keeps-read_clock λ now. Keeps-pure _) (Keeps-pure _)

  settle_http_error-Keeps :
      (d : Delivery) (a : Attempt) (result : Posted)
      → Local hooks P d.id
      → Keeps hooks P (settle_http_error hooks runtime settings d a result)
  unfolding settle_http_error
  settle_http_error-Keeps d a result local = Keeps-bind Keeps-read_clock λ now.
      Keeps-bind (update_Keeps _ _ local λ x. (refl, refl)) λ _.
        Keeps-bind (finish_attempt-Keeps a _) λ _. Keeps-if _ (fail_permanent-Keeps d.id _ local) (
          Keeps-bind (override_of-Keeps result)
            λ o. fail_and_reschedule-Keeps d.id d.attempts _ o local)

  settle_exception-Keeps :
      (d : Delivery) (a : Attempt) (message : String)
      → Local hooks P d.id
      → Keeps hooks P (settle_exception hooks runtime settings d a message)
  unfolding settle_exception
  settle_exception-Keeps d a message local = Keeps-bind (finish_attempt-Keeps a _) λ _.
      Keeps-bind Keeps-read_clock λ now. Keeps-bind (update_Keeps _ _ local λ x. (refl, refl)) λ _.
        Keeps-if _ (fail_permanent-Keeps d.id _ local)
          (fail_and_reschedule-Keeps d.id d.attempts _ none local)

  deliver-Keeps :
      (d : Delivery) (e : Endpoint) (request_id : String)
      → Local hooks P d.id
      → Keeps hooks P (deliver hooks runtime settings d e request_id)
  unfolding deliver post_and_settle
  deliver-Keeps d e request_id local = Keeps-bind Keeps-read_clock λ started.
      Keeps-bind (Keeps-create_attempt _) λ a. Keeps-bind Keeps-read_clock λ now.
        Keeps-try_catch
          (Keeps-bind (Keeps-fetch runtime _) λ result.
            Keeps-if _ (settle_success-Keeps d a result local)
              (settle_http_error-Keeps d a result local))
          λ message. settle_exception-Keeps d a message local

  skip_disabled-Keeps :
      (i : ℕ) → Local hooks P i → Keeps hooks P (skip_disabled hooks runtime settings i)
  unfolding skip_disabled
  skip_disabled-Keeps i local =
      Keeps-bind Keeps-read_clock λ now. update_Keeps _ _ local λ d. (refl, refl)

  pub handle_one-Keeps :
      (d : Delivery) (o : Option Endpoint)
      → Local hooks P d.id
      → Keeps hooks P (handle_one hooks runtime settings d o)
  unfolding handle_one
  handle_one-Keeps d o local = Keeps-bind Keeps-random_uuid λ uuid. go (is_enabled o) _
    where
      go :
          (e : Option Endpoint) (request_id : String)
          → Keeps hooks P (elim e [
            | none ↦ skip_disabled hooks runtime settings d.id
            | some x ↦ deliver hooks runtime settings d x request_id
          ])
      go none request_id = skip_disabled-Keeps d.id local
      go (some e) request_id = deliver-Keeps d e request_id local
