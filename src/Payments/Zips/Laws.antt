-- ===== src/Payments/Zips/Laws.antt =====
-- src/services/addonPurchasesV2.ts: the codes of a `Set`, and lists on which `map` and `filter` do
-- nothing.
use home_hero_backend.Prelude.{
  All, Bool, Bool-cases, List, String, [], any, ap, arith, false, inl, inr, map, refl, select, true,
  ◌∷◌, ◌≡◌,
}
use home_hero_backend.Payments.Zips.{distinct, without}
use home_hero_backend.Text.{same_text}

-- `Array.prototype.includes`.
abbrev is_in : String → List String → Bool
is_in s ts = any (λ t. same_text t s) ts

IsDistinct : List String → Type 0
IsDistinct [] = Unit
IsDistinct (s ∷ ss) = (is_in s ss ≡ false) × IsDistinct ss

module _ (P : String → Type 0) where
  All-without : (s : String) (ts : List String) → All P ts → All P (without s ts)
  unfolding without
  All-without s [] h = tt
  All-without s (t ∷ ts) (h, hs) = elim (Bool-cases (same_text t s)) [
    | inl e ↦ rw e (All-without s ts hs)
    | inr e ↦ rw e (h, All-without s ts hs)
  ]

  pub All-distinct : (ss : List String) → All P ss → All P (distinct ss)
  unfolding distinct
  All-distinct [] h = tt
  All-distinct (s ∷ ss) (h, hs) = (h, All-without s (distinct ss) (All-distinct ss hs))

-- A code that is not there is not there without another, and one that is taken out is not there.
is_in-without :
    (s t : String) (us : List String) → is_in s us ≡ false → is_in s (without t us) ≡ false
unfolding without
is_in-without s t [] h = refl
is_in-without s t (u ∷ us) h = elim (Bool-cases (same_text u t)) [
  | inl e ↦ rw e (is_in-without s t us (ground arith))
  | inr e ↦ rw e (
      let rest = is_in-without s t us (ground arith) in
      let here : same_text u s ≡ false = ground arith in rw (here, rest) refl)
]

is_in-taken : (s : String) (us : List String) → is_in s (without s us) ≡ false
unfolding without
is_in-taken s [] = refl
is_in-taken s (u ∷ us) = elim (Bool-cases (same_text u s)) [
  | inl e ↦ rw e (is_in-taken s us)
  | inr e ↦ rw (e, e) (is_in-taken s us)
]

without-IsDistinct : (s : String) (us : List String) → IsDistinct us → IsDistinct (without s us)
unfolding without IsDistinct
without-IsDistinct s [] h = tt
without-IsDistinct s (u ∷ us) (h, hs) = elim (Bool-cases (same_text u s)) [
  | inl e ↦ rw e (without-IsDistinct s us hs)
  | inr e ↦ rw e (is_in-without u s us h, without-IsDistinct s us hs)
]

distinct-IsDistinct : (ss : List String) → IsDistinct (distinct ss)
unfolding distinct IsDistinct
distinct-IsDistinct [] = tt
distinct-IsDistinct (s ∷ ss) =
    (is_in-taken s (distinct ss), without-IsDistinct s (distinct ss) (distinct-IsDistinct ss))

-- Where a code is not, taking it out changes nothing.
without-other : (s : String) (us : List String) → is_in s us ≡ false → without s us ≡ us
unfolding without
without-other s [] h = refl
without-other s (u ∷ us) h =
    let here : same_text u s ≡ false = ground arith in
    rw here (ap (λ ts. u ∷ ts) (without-other s us (ground arith)))

distinct_fixed : (ss : List String) → IsDistinct ss → distinct ss ≡ ss
unfolding distinct IsDistinct
distinct_fixed [] h = refl
distinct_fixed (s ∷ ss) (h, hs) =
    rw (distinct_fixed ss hs) (ap (λ ts. s ∷ ts) (without-other s ss h))

pub distinct_idem : (ss : List String) → distinct (distinct ss) ≡ distinct ss
distinct_idem ss = distinct_fixed (distinct ss) (distinct-IsDistinct ss)

module _ {A : Type 0} where
  pub map_fixed : (f : A → A) (xs : List A) → All (λ x. f x ≡ x) xs → map f xs ≡ xs
  map_fixed f [] h = refl
  map_fixed f (x ∷ xs) (h, hs) = rw h (ap (λ ys. x ∷ ys) (map_fixed f xs hs))

  pub select-All : (p : A → Bool) (xs : List A) → All (λ x. p x ≡ true) xs → select p xs ≡ xs
  select-All p [] h = refl
  select-All p (x ∷ xs) (h, hs) = rw h (ap (λ ys. x ∷ ys) (select-All p xs hs))

  pub All-select :
      (P : A → Type 0) (p : A → Bool) (xs : List A)
      → All P xs
      → All (λ x. P x × (p x ≡ true)) (select p xs)
  All-select P p [] h = tt
  All-select P p (x ∷ xs) (h, hs) = elim (Bool-cases (p x)) [
    | inl e ↦ rw e ((h, e), All-select P p xs hs)
    | inr e ↦ rw e (All-select P p xs hs)
  ]

  pub All-map : (P : A → Type 0) (f : A → A) (xs : List A) → ((x : A) → P (f x)) → All P (map f xs)
  All-map P f [] h = tt
  All-map P f (x ∷ xs) h = (h x, All-map P f xs h)
