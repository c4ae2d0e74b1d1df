-- ===== src/Payments/Tests.antt =====
-- Payments run on small ledgers, and the theorems of src/services/providerEntitlements.ts and
-- src/services/addonPurchasesV2.ts at those inputs.
use mathlib.Core.Option
use home_hero_backend.Prelude.{
  All, List, String, [], any, ap, false, if◌then◌else◌, length, ltb, none, refl, some, suc, true,
  zero, ℕ, ◌-◌, ◌==◌, ◌∷◌, ◌≡◌,
}
use home_hero_backend.Http.{interpolate}
use home_hero_backend.Payments.Addons.{
  AddonRequest, PaymentIntent, addon_metadata, compute_addon_amount_cents, normalize_addon_request,
  pack_text, pack_v2, parse_addon_succeeded, read_pack_size, type_from_text, zip_v2, zips_legacy,
  zips_of,
}
use home_hero_backend.Payments.Addons.RoundTrip.{paid_for, parse-payment_intent_for}
use home_hero_backend.Payments.Leads.{
  UtcMonth, consume_from, consume_lead_if_available, ensure_subscription_usage_is_current,
  get_usage_month_key,
}
use home_hero_backend.Payments.Leads.Consuming.{consume_lead_if_available-exact, leads_left}
use home_hero_backend.Payments.Ledger.{Ledger, SubscriptionTier, new_entitlement}
use home_hero_backend.Payments.Platform.{Numeral, TextLaws, Texts, not_a_number, whole}
use home_hero_backend.Payments.Purchases.{
  answer_failure, answer_success, create_addon_payment_intent, granted_entitlement,
  handle_payment_failed, handle_payment_succeeded, payment_intent_for,
}
use home_hero_backend.Payments.Purchases.Giving.{give_all, is_paid, times_given}
use home_hero_backend.Payments.Purchases.Once.{
  PaymentEvent, first_payments, handle_events, handle_events-once, payment_failed,
  payment_succeeded, pays_for, times_granted,
}
use home_hero_backend.Payments.Zips.{
  distinct, is_comma, is_not_empty, join_codes, joined, normalize_zip_code, normalize_zip_codes,
  read_zip_codes, split_codes, without,
}
use home_hero_backend.Payments.Zips.Joining.{lacks_comma}
use home_hero_backend.Text.{
  is_space, keep_before, length16, non_empty, same_text, trim, trim_end, trim_start,
}
use home_hero_backend.Text.Laws.{trim_idem}

-- Numbers written with strokes, and texts in capitals.
abbrev strokes : ℕ → String
strokes zero = "1"
strokes (suc n) = String.◌∷◌ "1" (strokes n)

abbrev count_after : String → ℕ
count_after String.[] = 0
count_after (String.◌∷◌ c s) = suc (count_after s)

abbrev count_strokes : String → Numeral
count_strokes String.[] = not_a_number
count_strokes (String.◌∷◌ c s) = whole (count_after s)

abbrev demo_texts : Texts
demo_texts = record { to_upper = λ s. s; decimal = strokes; number = count_strokes }

count_after-strokes : (n : ℕ) → count_after (strokes n) ≡ suc n
count_after-strokes zero = refl
count_after-strokes (suc n) = ap suc (count_after-strokes n)

count_strokes-strokes : (n : ℕ) → count_strokes (strokes n) ≡ whole n
count_strokes-strokes zero = refl
count_strokes-strokes (suc n) = ap whole (count_after-strokes n)

trim_end-strokes : (n : ℕ) → trim_end (strokes n) ≡ strokes n
unfolding trim_end keep_before is_space
trim_end-strokes zero = refl
trim_end-strokes (suc zero) = refl
trim_end-strokes (suc (suc n)) = rw (trim_end-strokes (suc n)) refl

trim-strokes : (n : ℕ) → trim (strokes n) ≡ strokes n
unfolding trim trim_start is_space
trim-strokes zero = trim_end-strokes 0
trim-strokes (suc n) = trim_end-strokes (suc n)

non_empty-strokes : (n : ℕ) → non_empty (strokes n) ≡ some (strokes n)
unfolding non_empty
non_empty-strokes zero = refl
non_empty-strokes (suc n) = refl

demo_laws : TextLaws demo_texts
demo_laws = record {
  to_upper-to_upper = λ s. refl;
  trim-to_upper = trim_idem;
  number-decimal = count_strokes-strokes;
  trim-decimal = trim-strokes;
  non_empty-decimal = non_empty-strokes;
}

-- For the tests: to unfold this is to unfold the functions on texts and payments.
unfoldable payment_calls : Unit {0}
unfolding trim trim_start trim_end keep_before is_space non_empty same_text length16 distinct
    without joined join_codes split_codes is_comma is_not_empty normalize_zip_code
    normalize_zip_codes read_zip_codes normalize_addon_request pack_text addon_metadata
    type_from_text read_pack_size parse_addon_succeeded compute_addon_amount_cents
    payment_intent_for create_addon_payment_intent granted_entitlement answer_success answer_failure
    handle_payment_succeeded handle_payment_failed times_granted handle_events get_usage_month_key
    ensure_subscription_usage_is_current consume_from consume_lead_if_available lacks_comma
    interpolate
payment_calls = tt

abbrev zips_request : AddonRequest
zips_request = zips_legacy (" 94107" ∷ "10001" ∷ "94107" ∷ [])

zips_without_commas :
    All (λ z. lacks_comma z ≡ true) (zips_of (normalize_addon_request demo_texts zips_request))
unfolding payment_calls
zips_without_commas = (refl, (refl, tt))

parse-payment_intent_for_example :
    parse_addon_succeeded demo_texts
      (payment_intent_for demo_texts "pi_1" 8 (normalize_addon_request demo_texts zips_request))
    ≡ some (paid_for demo_texts 8 (normalize_addon_request demo_texts zips_request))
parse-payment_intent_for_example =
    parse-payment_intent_for demo_texts demo_laws "pi_1" 7 zips_request zips_without_commas

-- One code with a comma is paid for as one, and granted as two.
two_codes_for_one :
    (compute_addon_amount_cents (normalize_addon_request demo_texts (zip_v2 "94107,10001")) ≡ 200)
    × (Option.map
          (λ a. length a.zip_codes)
          (parse_addon_succeeded demo_texts (
            payment_intent_for demo_texts "pi_2" 8
              (normalize_addon_request demo_texts (zip_v2 "94107,10001"))))
        ≡ some 2)
unfolding payment_calls
two_codes_for_one = (refl, refl)

abbrev pack_intent : PaymentIntent
pack_intent =
    payment_intent_for demo_texts "pi_3" 8 (normalize_addon_request demo_texts (pack_v2 25))

abbrev no_rows : Ledger
no_rows = record {
  subscriptions = λ user. none;
  entitlements = λ user. none;
  purchases = λ id. none;
}

-- Sent twice, after a failure of the payment.
abbrev demo_events : List PaymentEvent
demo_events =
    payment_failed pack_intent
    ∷ payment_succeeded pack_intent
    ∷ payment_succeeded pack_intent
    ∷ payment_failed pack_intent
    ∷ []

granted_run :
    (times_granted demo_texts "pi_3" demo_events no_rows ≡ 1)
    × (Option.map
          (λ e. e.lead_credits)
          ((handle_events demo_texts demo_events no_rows).entitlements 8)
        ≡ some 25)
unfolding payment_calls
granted_run = (refl, refl)

handle_events-once_example :
    ((handle_events demo_texts demo_events no_rows).entitlements
      ≡ give_all (first_payments demo_texts (is_paid no_rows) demo_events) no_rows.entitlements)
    × (times_given "pi_3" (first_payments demo_texts (is_paid no_rows) demo_events) ≡ (
        if is_paid no_rows "pi_3"
        then 0
        else if any (pays_for demo_texts "pi_3") demo_events
        then 1
        else 0))
    × (times_granted demo_texts "pi_3" demo_events no_rows
        ≡ times_given "pi_3" (first_payments demo_texts (is_paid no_rows) demo_events))
handle_events-once_example = handle_events-once demo_texts "pi_3" demo_events no_rows

abbrev november : UtcMonth
november = record { year = 1; month = 10 }

-- The subscription is of another month: its leads start again.
abbrev demo_ledger : Ledger
demo_ledger = record {
  subscriptions = λ user. some (record {
    tier = SubscriptionTier.free;
    usage_month_key = "11-1";
    leads_used_this_month = 5;
    extra_lead_credits_this_month = 0;
  });
  entitlements = λ user. some (record new_entitlement { lead_credits = 2 });
  purchases = λ id. none;
}

leads_run :
    leads_left
      (get_usage_month_key demo_texts november)
      8
      (consume_lead_if_available demo_texts november 8 demo_ledger).1
    ≡ 6
unfolding payment_calls
leads_run = refl

consume_lead_if_available-exact_example :
    ((consume_lead_if_available demo_texts november 8 demo_ledger).0.ok
      ≡ ltb 0 (leads_left (get_usage_month_key demo_texts november) 8 demo_ledger))
    × (leads_left
          (get_usage_month_key demo_texts november)
          8
          (consume_lead_if_available demo_texts november 8 demo_ledger).1
        ≡ leads_left (get_usage_month_key demo_texts november) 8 demo_ledger - 1)
    × ((consume_lead_if_available demo_texts november 8
          demo_ledger).0.entitlements.remaining_leads_this_month
        ≡ leads_left (get_usage_month_key demo_texts november) 8 demo_ledger - 1)
    × ((other : ℕ)
        → (8 == other) ≡ false
        → leads_left
            (get_usage_month_key demo_texts november)
            other
            (consume_lead_if_available demo_texts november 8 demo_ledger).1
          ≡ leads_left (get_usage_month_key demo_texts november) other demo_ledger)
consume_lead_if_available-exact_example =
    consume_lead_if_available-exact demo_texts november 8 demo_ledger
