-- ===== src/Payments/Zips.antt =====
-- The ZIP codes of src/services/addonPurchasesV2.ts: normalized, without repetitions, and joined
-- by commas in the metadata of a payment.
pub mod Laws
pub mod Joining
use Prim.Native.Char.{Char, code}
use home_hero_backend.Prelude.{
  Bool, List, String, [], false, if◌then◌else◌, map, select, true, ◌==◌, ◌∷◌,
}
use home_hero_backend.Payments.Platform.{Texts}
use home_hero_backend.Text.{same_text, trim}

unfoldable pub is_comma : Char → Bool
is_comma c = code c == 44

-- `filter(Boolean)`.
unfoldable pub is_not_empty : String → Bool
is_not_empty String.[] = false
is_not_empty (String.◌∷◌ c s) = true

-- The values of a `Set` in the order in which they were first added.
unfoldable pub without : String → List String → List String
without s [] = []
without s (t ∷ ts) = let rest = without s ts in if same_text t s then rest else t ∷ rest

unfoldable pub distinct : List String → List String
unfolding without
distinct [] = []
distinct (s ∷ ss) = s ∷ without s (distinct ss)

-- A text, a comma and another text.
unfoldable pub joined : String → String → String
joined String.[] rest = String.◌∷◌ "," rest
joined (String.◌∷◌ c s) rest = String.◌∷◌ c (joined s rest)

-- `join(",")`.
unfoldable pub join_codes : List String → String
unfolding joined
join_codes [] = ""
join_codes (s ∷ []) = s
join_codes (s ∷ t ∷ ts) = joined s (join_codes (t ∷ ts))

-- One more character of the first piece.
abbrev pub in_front : Char → List String → List String
in_front c [] = String.◌∷◌ c "" ∷ []
in_front c (s ∷ ss) = String.◌∷◌ c s ∷ ss

-- `split(",")`.
unfoldable pub split_codes : String → List String
split_codes String.[] = "" ∷ []
split_codes (String.◌∷◌ c s) =
    let rest = split_codes s in if is_comma c then "" ∷ rest else in_front c rest

module _ (texts : Texts) where
  unfoldable pub normalize_zip_code : String → String
  normalize_zip_code zip = texts.to_upper (trim zip)

  unfoldable pub normalize_zip_codes : List String → List String
  normalize_zip_codes zs = distinct (select is_not_empty (map normalize_zip_code zs))

  -- The codes that the metadata carries.
  unfoldable pub read_zip_codes : String → List String
  read_zip_codes s = normalize_zip_codes (select is_not_empty (map trim (split_codes s)))
