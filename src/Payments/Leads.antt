-- ===== src/Payments/Leads.antt =====
-- src/services/providerEntitlements.ts: the leads that a provider has left, and the use of one.
pub mod Consuming
use home_hero_backend.Prelude.{
  Bool, String, [], false, if◌then◌else◌, ltb, true, ℕ, ◌+◌, ◌-◌, ◌==◌, ◌∷◌,
}
use home_hero_backend.Http.{interpolate}
use home_hero_backend.Jobs.Cancellation.Outcome.{refused}
use home_hero_backend.Payments.Ledger.{
  Ledger, ProviderEntitlement, Subscription, SubscriptionTier, new_entitlement, or_created, put,
}
use home_hero_backend.Payments.Platform.{Texts}
use home_hero_backend.Text.{length16, same_text}

-- `getUTCFullYear` and `getUTCMonth` of a date; months count from 0.
pub record UtcMonth : Type 0 where
  pub year : ℕ
  pub month : ℕ

pub record LeadEntitlements : Type 0 where
  pub tier : SubscriptionTier
  pub usage_month_key : String
  pub base_lead_limit_this_month : ℕ
  pub extra_lead_credits_this_month : ℕ
  pub leads_used_this_month : ℕ
  pub addon_lead_credits : ℕ
  pub remaining_leads_this_month : ℕ

-- `padStart(2, "0")`.
abbrev pad_start : String → String
pad_start s = if ltb (length16 s) 2 then Prim.Native.String.◌++◌ "0" s else s

unfoldable pub get_usage_month_key : Texts → UtcMonth → String
get_usage_month_key texts now =
    interpolate (texts.decimal now.year ∷ "-" ∷ pad_start (texts.decimal (now.month + 1)) ∷ [])

abbrev pub get_base_lead_limit_for_tier : SubscriptionTier → ℕ
get_base_lead_limit_for_tier SubscriptionTier.free = 5
get_base_lead_limit_for_tier SubscriptionTier.basic = 100
get_base_lead_limit_for_tier SubscriptionTier.pro = 1000000

abbrev pub new_subscription : String → Subscription
new_subscription key = record {
  tier = SubscriptionTier.free;
  usage_month_key = key;
  leads_used_this_month = 0;
  extra_lead_credits_this_month = 0;
}

-- The counts start again in a new month.
abbrev pub rolled_over : String → Subscription → Subscription
rolled_over key sub = if same_text sub.usage_month_key key then sub else (record sub {
  usage_month_key = key;
  leads_used_this_month = 0;
  extra_lead_credits_this_month = 0;
})

abbrev pub current_subscription : String → ℕ → Ledger → Subscription
current_subscription key user s =
    rolled_over key (or_created (new_subscription key) (s.subscriptions user))

unfoldable pub ensure_subscription_usage_is_current : String → ℕ → Ledger → Subscription × Ledger
ensure_subscription_usage_is_current key user s =
    let sub = current_subscription key user s in
    (sub, record s { subscriptions = put user sub s.subscriptions })

abbrev pub get_lead_entitlements_from_subscription : Subscription → LeadEntitlements
get_lead_entitlements_from_subscription sub = record {
  tier = sub.tier;
  usage_month_key = sub.usage_month_key;
  base_lead_limit_this_month = get_base_lead_limit_for_tier sub.tier;
  extra_lead_credits_this_month = sub.extra_lead_credits_this_month;
  leads_used_this_month = sub.leads_used_this_month;
  addon_lead_credits = 0;
  remaining_leads_this_month =
      get_base_lead_limit_for_tier sub.tier
      + sub.extra_lead_credits_this_month
      - sub.leads_used_this_month;
}

abbrev with_addon : ℕ → LeadEntitlements → LeadEntitlements
with_addon credits e = record e {
  addon_lead_credits = credits;
  remaining_leads_this_month = e.remaining_leads_this_month + credits;
}

abbrev use_lead : Subscription → Subscription
use_lead sub = record sub { leads_used_this_month = sub.leads_used_this_month + 1 }

-- The result's `ok` and `entitlements`, and the two rows in the end.
pub record LeadUse : Type 0 where
  pub ok : Bool
  pub entitlements : LeadEntitlements
  pub subscription : Subscription
  pub addon : ProviderEntitlement

-- The capacity of the month is used first, and then a credit that was bought.
unfoldable pub consume_from : Subscription → ProviderEntitlement → LeadUse
consume_from sub addon =
    let base = get_lead_entitlements_from_subscription sub in
    let entitlements = with_addon addon.lead_credits base in
    let less = record addon { lead_credits = addon.lead_credits - 1 } in
    let refused : LeadUse = record {
      ok = false;
      entitlements = entitlements;
      subscription = sub;
      addon = addon;
    } in
    if entitlements.remaining_leads_this_month == 0
    then refused
    else if ltb 0 base.remaining_leads_this_month
    then (record {
      ok = true;
      entitlements =
          with_addon addon.lead_credits (get_lead_entitlements_from_subscription (use_lead sub));
      subscription = use_lead sub;
      addon = addon;
    })
    else if addon.lead_credits == 0
    then refused
    else (record {
      ok = true;
      entitlements = with_addon less.lead_credits base;
      subscription = sub;
      addon = less;
    })

unfoldable pub consume_lead_if_available : Texts → UtcMonth → ℕ → Ledger → LeadUse × Ledger
unfolding ensure_subscription_usage_is_current
consume_lead_if_available texts now user s =
    let (sub, s') = ensure_subscription_usage_is_current (get_usage_month_key texts now) user s in
    let used = consume_from sub (or_created new_entitlement (s'.entitlements user)) in
    (
      used,
      record s' {
        subscriptions = put user used.subscription s'.subscriptions;
        entitlements = put user used.addon s'.entitlements;
      },
    )
