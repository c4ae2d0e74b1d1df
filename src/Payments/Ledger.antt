-- ===== src/Payments/Ledger.antt =====
-- The rows of prisma/schema.prisma that src/services/providerEntitlements.ts and
-- src/services/addonPurchasesV2.ts keep. Each of their operations on several rows is one
-- transaction, so a throw leaves the rows as they were, and only whole operations are modelled.
use home_hero_backend.Prelude.{
  Bool, List, Option, String, [], false, if◌then◌else◌, none, some, ℕ, ◌==◌,
}
use home_hero_backend.Payments.Addons.{AddonType}
use home_hero_backend.Text.{same_text}

pub data SubscriptionTier : Type 0 where
  free basic pro : SubscriptionTier

-- The counts are increased, set to 0, and decreased only where they are positive, so that they are
-- never negative and `Math.max(0, n)` of one is `n`.
pub record Subscription : Type 0 where
  pub tier : SubscriptionTier
  pub usage_month_key : String
  pub leads_used_this_month : ℕ
  pub extra_lead_credits_this_month : ℕ

pub record ProviderEntitlement : Type 0 where
  pub verification_badge : Bool
  pub featured_zip_codes : List String
  pub lead_credits : ℕ

pub data PurchaseStatus : Type 0 where
  pending succeeded failed : PurchaseStatus

pub record AddonPurchase : Type 0 where
  pub provider_id : ℕ
  pub addon_type : AddonType
  pub zip_codes : List String
  pub pack_size : Option ℕ
  pub amount_cents : ℕ
  pub currency : String
  pub status : PurchaseStatus

-- Subscriptions and entitlements by the user that they are unique for, purchases by the payment
-- intent.
pub record Ledger : Type 0 where
  pub subscriptions : ℕ → Option Subscription
  pub entitlements : ℕ → Option ProviderEntitlement
  pub purchases : String → Option AddonPurchase

abbrev pub put : {A : Type 0} → ℕ → A → (ℕ → Option A) → ℕ → Option A
put k a rows j = if k == j then some a else rows j

abbrev pub put_text : {A : Type 0} → String → A → (String → Option A) → String → Option A
put_text k a rows j = if same_text k j then some a else rows j

-- `upsert({ update: {}, create })`: the row that is there, or the new one.
abbrev pub or_created : {A : Type 0} → A → Option A → A
or_created a none = a
or_created a (some b) = b

abbrev pub new_entitlement : ProviderEntitlement
new_entitlement = record { verification_badge = false; featured_zip_codes = []; lead_credits = 0 }
