-- ===== src/Payments/Zips/Joining.antt =====
-- src/services/addonPurchasesV2.ts: what is read back from normalized codes that were joined.
-- No comma in a code.
use home_hero_backend.Prelude.{
  All, All-imp, Bool, List, String, [], ap, arith, false, map, not, refl, select, true, ◌&&◌, ◌∙◌,
  ◌∷◌, ◌≡◌,
}
use home_hero_backend.Payments.Platform.{TextLaws, Texts}
use home_hero_backend.Payments.Zips.{
  distinct, is_comma, is_not_empty, join_codes, joined, normalize_zip_code, normalize_zip_codes,
  read_zip_codes, split_codes,
}
use home_hero_backend.Payments.Zips.Laws.{
  All-distinct, All-map, All-select, distinct_idem, map_fixed, select-All,
}
use home_hero_backend.Text.{trim, trim_end, trim_start}

unfoldable pub lacks_comma : String → Bool
lacks_comma String.[] = true
lacks_comma (String.◌∷◌ c s) = not (is_comma c) && lacks_comma s

split-joined :
    (s rest : String) → lacks_comma s ≡ true → split_codes (joined s rest) ≡ s ∷ split_codes rest
unfolding split_codes joined lacks_comma is_comma
split-joined String.[] rest h = refl
split-joined (String.◌∷◌ c s) rest h =
    let here : is_comma c ≡ false = ground arith in
    rw (here, split-joined s rest (ground arith)) refl

split-one : (s : String) → lacks_comma s ≡ true → split_codes s ≡ s ∷ []
unfolding split_codes lacks_comma
split-one String.[] h = refl
split-one (String.◌∷◌ c s) h =
    let here : is_comma c ≡ false = ground arith in rw (here, split-one s (ground arith)) refl

-- Codes without commas are split as they were joined; the split of none is one empty text.
pub split-join :
    (s : String) (ss : List String)
    → All (λ t. lacks_comma t ≡ true) (s ∷ ss)
    → split_codes (join_codes (s ∷ ss)) ≡ s ∷ ss
unfolding join_codes
split-join s [] (h, hs) = split-one s h
split-join s (t ∷ ts) (h, hs) =
    split-joined s (join_codes (t ∷ ts)) h ∙ ap (λ us. s ∷ us) (split-join t ts hs)

module _ (texts : Texts) (laws : TextLaws texts) where
  -- A code that was normalized is not empty, and is trimmed and normalized already.
  abbrev IsNormal : String → Type 0
  IsNormal z = (normalize_zip_code texts z ≡ z) × (trim z ≡ z) × (is_not_empty z ≡ true)

  normalize_zip_code_fixed :
      (z : String)
      → (normalize_zip_code texts (normalize_zip_code texts z) ≡ normalize_zip_code texts z)
        × (trim (normalize_zip_code texts z) ≡ normalize_zip_code texts z)
  unfolding normalize_zip_code
  normalize_zip_code_fixed z = (
    ap texts.to_upper (laws.trim-to_upper z) ∙ laws.to_upper-to_upper (trim z),
    laws.trim-to_upper z,
  )

  normalize_zip_codes-IsNormal : (zs : List String) → All IsNormal (normalize_zip_codes texts zs)
  unfolding normalize_zip_codes
  normalize_zip_codes-IsNormal zs = All-distinct IsNormal _ (
      All-imp _ (λ z ((fixed, trimmed), full). (fixed, trimmed, full))
        (All-select (λ z. (normalize_zip_code texts z ≡ z) × (trim z ≡ z)) is_not_empty
          (map (normalize_zip_code texts) zs)
          (All-map (λ z. (normalize_zip_code texts z ≡ z) × (trim z ≡ z)) (normalize_zip_code texts)
            zs normalize_zip_code_fixed)))

  normal_codes_fixed :
      (ys : List String)
      → All IsNormal ys
      → distinct ys ≡ ys
      → normalize_zip_codes texts (select is_not_empty (map trim ys)) ≡ ys
  unfolding normalize_zip_codes
  normal_codes_fixed ys normal same =
      let full = select-All is_not_empty ys (All-imp ys (λ z k. k.2) normal) in
      rw
        (
          map_fixed trim ys (All-imp ys (λ z k. k.1) normal),
          full,
          map_fixed (normalize_zip_code texts) ys (All-imp ys (λ z k. k.0) normal),
          full,
        )
        same

  -- Normal codes that are distinct and without commas are read back from their joined text.
  read_joined :
      (ys : List String)
      → All IsNormal ys
      → distinct ys ≡ ys
      → All (λ z. lacks_comma z ≡ true) ys
      → read_zip_codes texts (join_codes ys) ≡ ys
  unfolding read_zip_codes normalize_zip_codes join_codes split_codes is_not_empty distinct trim
      trim_start trim_end
  read_joined [] normal same h = refl
  read_joined (y ∷ ys) normal same h =
      ap (λ us. normalize_zip_codes texts (select is_not_empty (map trim us))) (split-join y ys h)
      ∙ normal_codes_fixed (y ∷ ys) normal same

  pub read-join :
      (zs : List String)
      → All (λ z. lacks_comma z ≡ true) (normalize_zip_codes texts zs)
      → read_zip_codes texts (join_codes (normalize_zip_codes texts zs))
        ≡ normalize_zip_codes texts zs
  unfolding normalize_zip_codes
  read-join zs h =
      read_joined (normalize_zip_codes texts zs) (normalize_zip_codes-IsNormal zs)
        (distinct_idem (select is_not_empty (map (normalize_zip_code texts) zs))) h
