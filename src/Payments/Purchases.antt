-- ===== src/Payments/Purchases.antt =====
-- src/services/addonPurchasesV2.ts: a purchase, and the events of its payment.
pub mod Giving
pub mod Once
use home_hero_backend.Prelude.{
  Bool, Option, String, [], false, if◌then◌else◌, inl, inr, none, not, some, true, ℕ, ◌++◌, ◌+◌,
  ◌⊎◌,
}
use home_hero_backend.Payments.Addons.{
  AddonRequest, AddonType, NormalizedAddon, ParsedAddon, PaymentIntent, addon_metadata,
  compute_addon_amount_cents, normalize_addon_request, pack_of, parse_addon_succeeded, type_of,
  zip_addon, zips_of,
}
use home_hero_backend.Payments.Ledger.{
  AddonPurchase, Ledger, ProviderEntitlement, PurchaseStatus, new_entitlement, or_created, put,
  put_text,
}
use home_hero_backend.Payments.Platform.{Texts}
use home_hero_backend.Payments.Zips.{distinct}

-- Why `createProviderAddonPaymentIntentV2` throws.
pub data PurchaseError : Type 0 where
  user_not_found zip_code_required : PurchaseError

module _ (texts : Texts) where
  -- `id` is that of the payment intent that the payment service makes; `known` is whether the user
  -- is there. The intent is what the payment service was asked for, and comes back in its events.
  unfoldable pub payment_intent_for : String → ℕ → NormalizedAddon → PaymentIntent
  payment_intent_for id provider_id a = record {
    id = id;
    amount = compute_addon_amount_cents a;
    currency = "usd";
    metadata = addon_metadata texts provider_id a;
  }

  abbrev purchase_of : ℕ → NormalizedAddon → PurchaseStatus → AddonPurchase
  purchase_of provider_id a status = record {
    provider_id = provider_id;
    addon_type = type_of a;
    zip_codes = zips_of a;
    pack_size = pack_of a;
    amount_cents = compute_addon_amount_cents a;
    currency = "usd";
    status = status;
  }

  abbrev lacks_zip : NormalizedAddon → Bool
  lacks_zip (zip_addon []) = true
  lacks_zip _ = false

  unfoldable pub create_addon_payment_intent :
      Bool → String → ℕ → AddonRequest → Ledger → (PurchaseError ⊎ PaymentIntent) × Ledger
  create_addon_payment_intent known id provider_id input s =
      let a = normalize_addon_request texts input in
      if not known
      then (inl user_not_found, s)
      else if lacks_zip a
      then (inl zip_code_required, s)
      else (
        inr (payment_intent_for id provider_id a),
        record s {
          purchases = put_text id (purchase_of provider_id a PurchaseStatus.pending) s.purchases;
        },
      )

abbrev pub is_succeeded : PurchaseStatus → Bool
is_succeeded PurchaseStatus.succeeded = true
is_succeeded _ = false

abbrev pub with_status : PurchaseStatus → AddonPurchase → AddonPurchase
with_status status p = record p { status = status }

abbrev pub bought : ParsedAddon → AddonPurchase
bought a = record {
  provider_id = a.provider_id;
  addon_type = a.addon_type;
  zip_codes = a.zip_codes;
  pack_size = a.pack_size;
  amount_cents = a.amount_cents;
  currency = a.currency;
  status = PurchaseStatus.succeeded;
}

-- `packSize ?? 0`.
abbrev quantity : Option ℕ → ℕ
quantity none = 0
quantity (some n) = n

-- What a paid add-on gives.
unfoldable pub granted_entitlement : ParsedAddon → ProviderEntitlement → ProviderEntitlement
granted_entitlement a e = elim a.addon_type [
  | AddonType.verification_badge ↦ record e { verification_badge = true }
  | AddonType.featured_zip ↦ record e {
    featured_zip_codes = distinct (e.featured_zip_codes ++ a.zip_codes);
  }
  | AddonType.lead_pack ↦ record e { lead_credits = e.lead_credits + quantity a.pack_size }
]

abbrev pub grant : ParsedAddon → Ledger → Ledger
grant a s = record s {
  entitlements =
      put a.provider_id
        (granted_entitlement a (or_created new_entitlement (s.entitlements a.provider_id)))
        s.entitlements;
}

-- The purchase is SUCCEEDED, and the add-on granted.
abbrev pub marked :
    PaymentIntent → ParsedAddon → Ledger → AddonPurchase → Option (Bool × ℕ) × Ledger
marked intent a s p = (
  some (true, a.provider_id),
  grant a (record s { purchases = put_text intent.id p s.purchases }),
)

-- With the add-on of the metadata and the row of the purchase: it is marked where it is not
-- SUCCEEDED yet, or made where there is none; only then is the add-on granted. The answer is
-- whether it was, and to whom; none for a payment of another kind.
unfoldable pub answer_success :
    PaymentIntent → Ledger → Option ParsedAddon → Option AddonPurchase → Option (Bool × ℕ) × Ledger
answer_success intent s none row = (none, s)
answer_success intent s (some a) none = marked intent a s (bought a)
answer_success intent s (some a) (some p) =
    if is_succeeded p.status
    then (some (false, a.provider_id), s)
    else marked intent a s (with_status PurchaseStatus.succeeded p)

abbrev pub fail_purchase : AddonPurchase → AddonPurchase
fail_purchase p = if is_succeeded p.status then p else with_status PurchaseStatus.failed p

unfoldable pub answer_failure :
    PaymentIntent → Ledger → Option ParsedAddon → Option AddonPurchase → Option ℕ × Ledger
answer_failure intent s none row = (none, s)
answer_failure intent s (some a) none = (some a.provider_id, s)
answer_failure intent s (some a) (some p) =
    (some a.provider_id, record s { purchases = put_text intent.id (fail_purchase p) s.purchases })

module _ (texts : Texts) where
  unfoldable pub handle_payment_succeeded : PaymentIntent → Ledger → Option (Bool × ℕ) × Ledger
  handle_payment_succeeded intent s =
      answer_success intent s (parse_addon_succeeded texts intent) (s.purchases intent.id)

  unfoldable pub handle_payment_failed : PaymentIntent → Ledger → Option ℕ × Ledger
  handle_payment_failed intent s =
      answer_failure intent s (parse_addon_succeeded texts intent) (s.purchases intent.id)
