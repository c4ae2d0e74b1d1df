-- ===== src/Payments/Leads/Consuming.antt =====
-- src/services/providerEntitlements.ts: a lead is used where one is left, and no other.
use home_hero_backend.Prelude.{
  ==_iff, Bool-cases, String, arith, false, inl, inr, ltb, refl, true, ℕ, ◌+◌, ◌-◌, ◌==◌, ◌∙◌, ◌≡◌,
}
use home_hero_backend.Payments.Leads.{
  UtcMonth, consume_from, consume_lead_if_available, current_subscription,
  get_base_lead_limit_for_tier, get_usage_month_key, new_subscription, rolled_over,
}
use home_hero_backend.Payments.Ledger.{
  Ledger, ProviderEntitlement, Subscription, new_entitlement, or_created,
}
use home_hero_backend.Payments.Platform.{Texts}
use home_hero_backend.Text.{same_text, same_text_iff}

-- The leads that a user has left in a month: those of the subscription, which starts again in a
-- new month, and the credits bought.
abbrev pub left_of : Subscription → ℕ
left_of sub =
    get_base_lead_limit_for_tier sub.tier
    + sub.extra_lead_credits_this_month
    - sub.leads_used_this_month

abbrev pub leads_left : String → ℕ → Ledger → ℕ
leads_left key user s =
    left_of (current_subscription key user s)
    + (or_created new_entitlement (s.entitlements user)).lead_credits

abbrev remaining : Subscription → ProviderEntitlement → ℕ
remaining sub addon = left_of sub + addon.lead_credits

consume_from-ok :
    (sub : Subscription) (addon : ProviderEntitlement)
    → (consume_from sub addon).ok ≡ ltb 0 (remaining sub addon)
unfolding consume_from
consume_from-ok sub addon = ground arith

consume_from-left :
    (sub : Subscription) (addon : ProviderEntitlement)
    → (remaining (consume_from sub addon).subscription (consume_from sub addon).addon
        ≡ remaining sub addon - 1)
      × ((consume_from sub addon).entitlements.remaining_leads_this_month ≡ remaining sub addon - 1)
      × ((consume_from sub addon).subscription.usage_month_key ≡ sub.usage_month_key)
unfolding consume_from
consume_from-left sub addon = (ground arith, ground arith, ground arith)

-- The month of a subscription that was rolled over is the current one, and of such a subscription
-- nothing changes.
rolled_over-key : (key : String) (sub : Subscription) → (rolled_over key sub).usage_month_key ≡ key
rolled_over-key key sub = elim (Bool-cases (same_text sub.usage_month_key key)) [
  | inl e ↦ rw e ((same_text_iff sub.usage_month_key key).0 e)
  | inr e ↦ rw e refl
]

rolled_over-current :
    (key : String) (sub : Subscription) → sub.usage_month_key ≡ key → rolled_over key sub ≡ sub
rolled_over-current key sub e = rw ((same_text_iff sub.usage_month_key key).1 e) refl

module _ (texts : Texts) (now : UtcMonth) where
  -- With the leads that a user has left in the month of a date, `consumeLeadIfAvailable` succeeds
  -- just where there is one; then the user has one less, and else none as before; the answer tells
  -- what is left; and the leads of other users stay.
  pub consume_lead_if_available-exact :
      (user : ℕ) (s : Ledger)
      → ((consume_lead_if_available texts now user s).0.ok
          ≡ ltb 0 (leads_left (get_usage_month_key texts now) user s))
        × (leads_left
              (get_usage_month_key texts now)
              user
              (consume_lead_if_available texts now user s).1
            ≡ leads_left (get_usage_month_key texts now) user s - 1)
        × ((consume_lead_if_available texts now user s).0.entitlements.remaining_leads_this_month
            ≡ leads_left (get_usage_month_key texts now) user s - 1)
        × ((other : ℕ)
            → (user == other) ≡ false
            → leads_left
                (get_usage_month_key texts now)
                other
                (consume_lead_if_available texts now user s).1
              ≡ leads_left (get_usage_month_key texts now) other s)
  unfolding consume_lead_if_available
  consume_lead_if_available-exact user s =
      let key = get_usage_month_key texts now in
      let sub = current_subscription key user s in
      let addon = or_created new_entitlement (s.entitlements user) in
      let (left, told, same) = consume_from-left sub addon in
      let month =
        same ∙ rolled_over-key key (or_created (new_subscription key) (s.subscriptions user)) in
      let self : (user == user) ≡ true = (==_iff user user).1 refl in
      (
        consume_from-ok sub addon,
        rw (self, rolled_over-current key (consume_from sub addon).subscription month) left,
        told,
        λ other off. rw off refl,
      )
