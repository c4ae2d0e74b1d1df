-- ===== src/Payments/Purchases/Once.antt =====
-- src/services/addonPurchasesV2.ts: the events of payments in any order and any number.
use home_hero_backend.Prelude.{
  Bool, List, String, [], any, ap, arith, false, if◌then◌else◌, refl, sym, ℕ, ◌&&◌, ◌++◌, ◌+◌, ◌||◌,
  ◌∙◌, ◌∷◌, ◌≡◌,
}
use home_hero_backend.Payments.Addons.{ParsedAddon, PaymentIntent, parse_addon_succeeded}
use home_hero_backend.Payments.Ledger.{Ledger}
use home_hero_backend.Payments.Platform.{Texts}
use home_hero_backend.Payments.Purchases.{handle_payment_failed, handle_payment_succeeded}
use home_hero_backend.Payments.Purchases.Giving.{
  failure_keeps, give_all, give_all-append, given_for, given_once, is_addon, is_paid,
  paid_after_success, success_gives, success_pays, success_tells, times_given, times_given-append,
  was_granted,
}
use home_hero_backend.Text.{same_text}

pub data PaymentEvent : Type 0 where
  payment_succeeded : PaymentIntent → PaymentEvent
  payment_failed : PaymentIntent → PaymentEvent

module _ (texts : Texts) where
  abbrev pub handle_event : PaymentEvent → Ledger → Ledger
  handle_event (payment_succeeded intent) s = (handle_payment_succeeded texts intent s).1
  handle_event (payment_failed intent) s = (handle_payment_failed texts intent s).1

  unfoldable pub handle_events : List PaymentEvent → Ledger → Ledger
  handle_events [] s = s
  handle_events (e ∷ es) s = handle_events es (handle_event e s)

  -- The answer to the event tells that the add-on of the payment `id` was granted.
  abbrev event_grants : String → PaymentEvent → Ledger → Bool
  event_grants id (payment_succeeded intent) s =
      same_text intent.id id && was_granted (handle_payment_succeeded texts intent s).0
  event_grants id (payment_failed intent) s = false

  -- How often the answers tell it.
  unfoldable pub times_granted : String → List PaymentEvent → Ledger → ℕ
  times_granted id [] s = 0
  times_granted id (e ∷ es) s =
      (if event_grants id e s then 1 else 0) + times_granted id es (handle_event e s)

  -- A success of the payment `id`, for an add-on.
  abbrev pub pays_for : String → PaymentEvent → Bool
  pays_for id (payment_succeeded intent) =
      same_text intent.id id && is_addon (parse_addon_succeeded texts intent)
  pays_for id (payment_failed intent) = false

  abbrev given_by : (String → Bool) → PaymentEvent → List (String × ParsedAddon)
  given_by paid (payment_succeeded intent) =
      given_for (parse_addon_succeeded texts intent) intent.id (paid intent.id)
  given_by paid (payment_failed intent) = []

  abbrev paid_by : (String → Bool) → PaymentEvent → String → Bool
  paid_by paid (payment_succeeded intent) =
      paid_after_success (parse_addon_succeeded texts intent) intent.id paid
  paid_by paid (payment_failed intent) = paid

  -- The add-ons of the first success of each payment that is not paid yet.
  unfoldable pub first_payments : (String → Bool) → List PaymentEvent → List (String × ParsedAddon)
  first_payments paid [] = []
  first_payments paid (e ∷ es) = given_by paid e ++ first_payments (paid_by paid e) es

  event_gives :
      (e : PaymentEvent) (s : Ledger)
      → (handle_event e s).entitlements ≡ give_all (given_by (is_paid s) e) s.entitlements
  unfolding handle_payment_succeeded handle_payment_failed give_all
  event_gives (payment_succeeded intent) s = success_gives intent s _ (s.purchases intent.id)
  event_gives (payment_failed intent) s =
      (failure_keeps intent s _ (s.purchases intent.id) "" refl).1

  event_pays : (e : PaymentEvent) (s : Ledger) → is_paid (handle_event e s) ≡ paid_by (is_paid s) e
  unfolding handle_payment_succeeded handle_payment_failed
  event_pays (payment_succeeded intent) s = λ i id.
      success_pays intent s (parse_addon_succeeded texts intent) (s.purchases intent.id) id refl i
  event_pays (payment_failed intent) s = λ i id.
      (failure_keeps intent s (parse_addon_succeeded texts intent) (s.purchases intent.id) id
          refl).0
        i

  event_tells :
      (id : String) (e : PaymentEvent) (s : Ledger)
      → (if event_grants id e s then 1 else 0) ≡ times_given id (given_by (is_paid s) e)
  unfolding handle_payment_succeeded times_given
  event_tells id (payment_succeeded intent) s = success_tells intent s _ _ id
  event_tells id (payment_failed intent) s = refl

  handle_events-gives :
      (es : List PaymentEvent) (s : Ledger)
      → (handle_events es s).entitlements ≡ give_all (first_payments (is_paid s) es) s.entitlements
  unfolding handle_events first_payments give_all
  handle_events-gives [] s = refl
  handle_events-gives (e ∷ es) s =
      handle_events-gives es (handle_event e s)
      ∙ ap (λ paid. give_all (first_payments paid es) (handle_event e s).entitlements)
          (event_pays e s)
      ∙ ap (give_all (first_payments (paid_by (is_paid s) e) es)) (event_gives e s)
      ∙ sym (give_all-append (given_by (is_paid s) e) _ s.entitlements)

  times_granted-given :
      (id : String) (es : List PaymentEvent) (s : Ledger)
      → times_granted id es s ≡ times_given id (first_payments (is_paid s) es)
  unfolding times_granted first_payments times_given
  times_granted-given id [] s = refl
  times_granted-given id (e ∷ es) s =
      let rest =
        times_granted-given id es (handle_event e s)
        ∙ ap (λ paid. times_given id (first_payments paid es)) (event_pays e s) in
      rw (event_tells id e s, rest) (sym (times_given-append id (given_by (is_paid s) e) _))

  event_once :
      (id : String) (e : PaymentEvent) (paid : String → Bool) (later : Bool)
      → times_given id (given_by paid e) + (if paid_by paid e id then 0 else if later then 1 else 0)
        ≡ (if paid id then 0 else if pays_for id e || later then 1 else 0)
  unfolding times_given
  event_once id (payment_succeeded intent) paid later =
      given_once id (parse_addon_succeeded texts intent) intent.id paid later
  event_once id (payment_failed intent) paid later = omega arith

  first_payments-once :
      (id : String) (paid : String → Bool) (es : List PaymentEvent)
      → times_given id (first_payments paid es)
        ≡ (if paid id then 0 else if any (pays_for id) es then 1 else 0)
  unfolding first_payments times_given
  first_payments-once id paid [] = ground arith
  first_payments-once id paid (e ∷ es) =
      times_given-append id (given_by paid e) _
      ∙ ap (λ n. times_given id (given_by paid e) + n) (first_payments-once id (paid_by paid e) es)
      ∙ event_once id e paid (any (pays_for id) es)

  -- However often, and in whatever order, the payment service sends its events: what the providers
  -- are entitled to after them is what they were before, with the add-on of the first success of
  -- each payment given once more; an add-on is given exactly once for a payment that was not
  -- SUCCEEDED before and of which a success is among the events, and else not at all; and the
  -- answers tell as often that it was granted.
  pub handle_events-once :
      (id : String) (es : List PaymentEvent) (s : Ledger)
      → ((handle_events es s).entitlements
          ≡ give_all (first_payments (is_paid s) es) s.entitlements)
        × (times_given id (first_payments (is_paid s) es)
            ≡ (if is_paid s id then 0 else if any (pays_for id) es then 1 else 0))
        × (times_granted id es s ≡ times_given id (first_payments (is_paid s) es))
  handle_events-once id es s =
      (handle_events-gives es s, first_payments-once id (is_paid s) es, times_granted-given id es s)
