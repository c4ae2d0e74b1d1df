-- ===== src/Payments/Purchases/Giving.antt =====
-- src/services/addonPurchasesV2.ts: what one event of a payment gives, and what it pays.
use home_hero_backend.Prelude.{
  Bool, Bool-cases, List, Option, String, [], ap, arith, false, if◌then◌else◌, inl, inr, none, refl,
  some, sym, true, ℕ, ◌&&◌, ◌++◌, ◌+◌, ◌||◌, ◌∙◌, ◌∷◌, ◌≡◌,
}
use home_hero_backend.Payments.Addons.{ParsedAddon, PaymentIntent}
use home_hero_backend.Payments.Ledger.{
  AddonPurchase, Ledger, ProviderEntitlement, PurchaseStatus, new_entitlement, or_created, put,
  put_text,
}
use home_hero_backend.Payments.Purchases.{
  answer_failure, answer_success, bought, fail_purchase, granted_entitlement, is_succeeded,
  with_status,
}
use home_hero_backend.Text.{same_text, same_text_iff}

abbrev pub was_granted : Option (Bool × ℕ) → Bool
was_granted none = false
was_granted (some (yes_granted, provider_id)) = yes_granted

abbrev pub is_paid_row : Option AddonPurchase → Bool
is_paid_row none = false
is_paid_row (some p) = is_succeeded p.status

-- Whether the purchase of a payment is SUCCEEDED.
abbrev pub is_paid : Ledger → String → Bool
is_paid s id = is_paid_row (s.purchases id)

-- One more payment among those that are paid.
abbrev pub and_paid : String → (String → Bool) → String → Bool
and_paid key paid id = same_text key id || paid id

-- What is given for add-ons, each with its payment, one after the other.
unfoldable pub give_all :
    List (String × ParsedAddon) → (ℕ → Option ProviderEntitlement) → ℕ → Option ProviderEntitlement
give_all [] rows = rows
give_all ((id, a) ∷ gs) rows = give_all gs (
    put a.provider_id (granted_entitlement a (or_created new_entitlement (rows a.provider_id)))
      rows)

-- How often a payment is among them.
unfoldable pub times_given : String → List (String × ParsedAddon) → ℕ
times_given id [] = 0
times_given id ((key, a) ∷ gs) = (if same_text key id then 1 else 0) + times_given id gs

paid_after_put :
    (key : String) (p : AddonPurchase) (rows : String → Option AddonPurchase) (id : String)
    → is_succeeded p.status ≡ true
    → is_paid_row (put_text key p rows id) ≡ (same_text key id || is_paid_row (rows id))
paid_after_put key p rows id paid = elim (Bool-cases (same_text key id)) [
  | inl same ↦ rw same paid
  | inr off ↦ rw off refl
]

-- A failure leaves the purchases that are paid.
paid_after_failure :
    (key : String) (p : AddonPurchase) (rows : String → Option AddonPurchase) (id : String)
    → rows key ≡ some p
    → is_paid_row (put_text key (fail_purchase p) rows id) ≡ is_paid_row (rows id)
paid_after_failure key p rows id there = elim (Bool-cases (same_text key id)) [
  | inl same ↦
      rw (same, sym ((same_text_iff key id).0 same), there)
        (elim (Bool-cases (is_succeeded p.status)) [ inl e ↦ rw e e | inr e ↦ rw e refl ])
  | inr off ↦ rw off refl
]

pub give_all-append :
    (gs hs : List (String × ParsedAddon)) (rows : ℕ → Option ProviderEntitlement)
    → give_all (gs ++ hs) rows ≡ give_all hs (give_all gs rows)
unfolding give_all
give_all-append [] hs rows = refl
give_all-append ((id, a) ∷ gs) hs rows = give_all-append gs hs _

pub times_given-append :
    (id : String) (gs hs : List (String × ParsedAddon))
    → times_given id (gs ++ hs) ≡ times_given id gs + times_given id hs
unfolding times_given
times_given-append id [] hs = omega arith
times_given-append id ((key, a) ∷ gs) hs = rw (times_given-append id gs hs) (omega arith)

-- What a success gives for an add-on, where it is not paid for yet.
abbrev pub given_for : Option ParsedAddon → String → Bool → List (String × ParsedAddon)
given_for none id b = []
given_for (some a) id true = []
given_for (some a) id false = (id, a) ∷ []

abbrev pub paid_after_success : Option ParsedAddon → String → (String → Bool) → String → Bool
paid_after_success none id paid = paid
paid_after_success (some a) id paid = and_paid id paid

abbrev pub is_addon : Option ParsedAddon → Bool
is_addon none = false
is_addon (some a) = true

-- A success, by the row of its payment.
pub success_gives :
    (intent : PaymentIntent) (s : Ledger) (o : Option ParsedAddon) (row : Option AddonPurchase)
    → (answer_success intent s o row).1.entitlements
      ≡ give_all (given_for o intent.id (is_paid_row row)) s.entitlements
unfolding answer_success give_all
success_gives intent s none row = refl
success_gives intent s (some a) none = refl
success_gives intent s (some a) (some p) = go (is_succeeded p.status) refl
  where
    go :
        (b : Bool)
        → is_succeeded p.status ≡ b
        → (answer_success intent s (some a) (some p)).1.entitlements
          ≡ give_all (given_for (some a) intent.id b) s.entitlements
    go true e = rw e refl
    go false e = rw e refl

pub success_pays :
    (intent : PaymentIntent) (s : Ledger) (o : Option ParsedAddon) (row : Option AddonPurchase)
    (id : String)
    → s.purchases intent.id ≡ row
    → is_paid (answer_success intent s o row).1 id ≡ paid_after_success o intent.id (is_paid s) id
unfolding answer_success
success_pays intent s none row id there = refl
success_pays intent s (some a) none id there =
    paid_after_put intent.id (bought a) s.purchases id refl
success_pays intent s (some a) (some p) id there = elim (Bool-cases (is_succeeded p.status)) [
  | inl e ↦ rw e (elim (Bool-cases (same_text intent.id id)) [
    | inl same ↦ rw same (
        ap (λ k. is_paid s k) (sym ((same_text_iff intent.id id).0 same))
        ∙ ap is_paid_row there
        ∙ e)
    | inr off ↦ rw off refl
  ])
  | inr e ↦
      rw e (paid_after_put intent.id (with_status PurchaseStatus.succeeded p) s.purchases id refl)
]

-- The answer tells what was given.
pub success_tells :
    (intent : PaymentIntent) (s : Ledger) (o : Option ParsedAddon) (row : Option AddonPurchase)
    (id : String)
    → (if same_text intent.id id && was_granted (answer_success intent s o row).0 then 1 else 0)
      ≡ times_given id (given_for o intent.id (is_paid_row row))
unfolding answer_success times_given
success_tells intent s none row id = ground arith
success_tells intent s (some a) none id = ground arith
success_tells intent s (some a) (some p) id = elim (Bool-cases (is_succeeded p.status)) [
  | inl e ↦ rw e (ground arith)
  | inr e ↦ rw e (ground arith)
]

pub failure_keeps :
    (intent : PaymentIntent) (s : Ledger) (o : Option ParsedAddon) (row : Option AddonPurchase)
    (id : String)
    → s.purchases intent.id ≡ row
    → (is_paid (answer_failure intent s o row).1 id ≡ is_paid s id)
      × ((answer_failure intent s o row).1.entitlements ≡ s.entitlements)
unfolding answer_failure
failure_keeps intent s none row id there = (refl, refl)
failure_keeps intent s (some a) none id there = (refl, refl)
failure_keeps intent s (some a) (some p) id there =
    (paid_after_failure intent.id p s.purchases id there, refl)

-- One payment more, and what is counted of it.
pub given_once :
    (id : String) (o : Option ParsedAddon) (key : String) (paid : String → Bool) (later : Bool)
    → times_given id (given_for o key (paid key))
        + (if paid_after_success o key paid id then 0 else if later then 1 else 0)
      ≡ (if paid id then 0 else if (same_text key id && is_addon o) || later then 1 else 0)
unfolding times_given
given_once id none key paid later = ground arith
given_once id (some a) key paid later = elim (Bool-cases (same_text key id)) [
  | inl same ↦
      rw (same, (same_text_iff key id).0 same)
        (elim (Bool-cases (paid id)) [
          | inl e ↦ rw e (ground arith)
          | inr e ↦ rw (e, (same_text_iff id id).1 refl) (ground arith)
        ])
  | inr off ↦ rw off (elim (Bool-cases (paid key)) [
    | inl e ↦ rw e (ground arith)
    | inr e ↦ rw (e, off) (ground arith)
  ])
]
