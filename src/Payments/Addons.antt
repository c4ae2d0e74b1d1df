-- ===== src/Payments/Addons.antt =====
-- src/services/addonPurchasesV2.ts: the requests, their prices, and the metadata of a payment.
pub mod RoundTrip
use mathlib.Core.Option
use home_hero_backend.Prelude.{
  List, Option, String, [], if◌then◌else◌, length, max, min, none, some, suc, ℕ, ◌*◌, ◌∷◌,
}
use home_hero_backend.Payments.Platform.{Numeral, Texts, below_zero, infinite, not_a_number, whole}
use home_hero_backend.Payments.Zips.{join_codes, normalize_zip_codes, read_zip_codes}
use home_hero_backend.Text.{non_empty, same_text, trim}

pub data AddonType : Type 0 where
  verification_badge featured_zip lead_pack : AddonType

-- A request of either form. Quantities are whole numbers, as the route's schema has them.
pub data AddonRequest : Type 0 where
  badge_v2 : AddonRequest
  zip_v2 : String → AddonRequest
  pack_v2 : ℕ → AddonRequest
  extra_leads_legacy : ℕ → AddonRequest
  badge_legacy : AddonRequest
  zips_legacy : List String → AddonRequest

pub data NormalizedAddon : Type 0 where
  badge_addon : NormalizedAddon
  zip_addon : List String → NormalizedAddon
  pack_addon : ℕ → NormalizedAddon

abbrev pub type_of : NormalizedAddon → AddonType
type_of badge_addon = AddonType.verification_badge
type_of (zip_addon zs) = AddonType.featured_zip
type_of (pack_addon n) = AddonType.lead_pack

abbrev pub zips_of : NormalizedAddon → List String
zips_of badge_addon = []
zips_of (zip_addon zs) = zs
zips_of (pack_addon n) = []

abbrev pub pack_of : NormalizedAddon → Option ℕ
pack_of badge_addon = none
pack_of (zip_addon zs) = none
pack_of (pack_addon n) = some n

-- `Math.max(1, Math.min(100_000, n))`.
abbrev pub clamp_pack : ℕ → ℕ
clamp_pack n = max 1 (min 100000 n)

abbrev pub type_text : AddonType → String
type_text AddonType.verification_badge = "VERIFICATION_BADGE"
type_text AddonType.featured_zip = "FEATURED_ZIP"
type_text AddonType.lead_pack = "LEAD_PACK"

unfoldable pub type_from_text : String → Option AddonType
type_from_text s =
    if same_text s "VERIFICATION_BADGE"
    then some AddonType.verification_badge
    else if same_text s "FEATURED_ZIP"
    then some AddonType.featured_zip
    else if same_text s "LEAD_PACK"
    then some AddonType.lead_pack
    else none

-- The prices, in cents.
unfoldable pub compute_addon_amount_cents : NormalizedAddon → ℕ
compute_addon_amount_cents badge_addon = 1000
compute_addon_amount_cents (zip_addon zs) = max 1 (length zs) * 200
compute_addon_amount_cents (pack_addon n) = max 1 n * 50

-- A missing entry is none.
pub record AddonMetadata : Type 0 where
  pub kind : Option String
  pub provider_id : Option String
  pub addon_type : Option String
  pub addon_zip_codes : Option String
  pub addon_pack_size : Option String

pub record PaymentIntent : Type 0 where
  pub id : String
  pub amount : ℕ
  pub currency : String
  pub metadata : AddonMetadata

pub record ParsedAddon : Type 0 where
  pub provider_id : ℕ
  pub addon_type : AddonType
  pub zip_codes : List String
  pub pack_size : Option ℕ
  pub amount_cents : ℕ
  pub currency : String

-- `String(x ?? "")`.
abbrev pub text_or_empty : Option String → String
text_or_empty none = ""
text_or_empty (some s) = s

-- `Number.isFinite(n) && n > 0`.
abbrev pub positive : Numeral → Option ℕ
positive (whole (suc n)) = some (suc n)
positive _ = none

-- `Math.max(1, Math.min(100_000, Math.floor(n)))`. NaN stays NaN, of which nothing is granted and
-- which JSON writes as null; so does none.
abbrev pub clamp_numeral : Numeral → Option ℕ
clamp_numeral (whole n) = some (clamp_pack n)
clamp_numeral below_zero = some 1
clamp_numeral infinite = some 100000
clamp_numeral not_a_number = none

-- `String(currency ?? "usd") || "usd"`.
abbrev pub currency_or_usd : String → String
currency_or_usd String.[] = "usd"
currency_or_usd (String.◌∷◌ c s) = String.◌∷◌ c s

module _ (texts : Texts) where
  unfoldable pub normalize_addon_request : AddonRequest → NormalizedAddon
  normalize_addon_request badge_v2 = badge_addon
  normalize_addon_request (zip_v2 zip) = zip_addon (normalize_zip_codes texts (zip ∷ []))
  normalize_addon_request (pack_v2 n) = pack_addon (clamp_pack n)
  normalize_addon_request (extra_leads_legacy n) = pack_addon (clamp_pack n)
  normalize_addon_request badge_legacy = badge_addon
  normalize_addon_request (zips_legacy zs) = zip_addon (normalize_zip_codes texts zs)

  unfoldable pub pack_text : Option ℕ → String
  pack_text none = ""
  pack_text (some n) = texts.decimal n

  unfoldable pub addon_metadata : ℕ → NormalizedAddon → AddonMetadata
  unfolding pack_text
  addon_metadata provider_id a = record {
    kind = some "ADDON_V2";
    provider_id = some (texts.decimal provider_id);
    addon_type = some (type_text (type_of a));
    addon_zip_codes = some (join_codes (zips_of a));
    addon_pack_size = some (pack_text (pack_of a));
  }

  unfoldable pub read_pack_size : String → Option ℕ
  read_pack_size s = elim (non_empty (trim s)) [
    | none ↦ none
    | some raw ↦ clamp_numeral (texts.number raw)
  ]

  -- `Number(undefined)` is NaN.
  abbrev pub read_number : Option String → Numeral
  read_number none = not_a_number
  read_number (some s) = texts.number s

  unfoldable pub parse_addon_succeeded : PaymentIntent → Option ParsedAddon
  parse_addon_succeeded intent =
      let md = intent.metadata in
      if same_text (text_or_empty md.kind) "ADDON_V2"
      then elim (positive (read_number md.provider_id)) [
        | none ↦ none
        | some provider_id ↦ elim (type_from_text (text_or_empty md.addon_type)) [
          | none ↦ none
          | some addon_type ↦ some (record {
            provider_id = provider_id;
            addon_type = addon_type;
            zip_codes = read_zip_codes texts (text_or_empty md.addon_zip_codes);
            pack_size = read_pack_size (text_or_empty md.addon_pack_size);
            amount_cents = intent.amount;
            currency = currency_or_usd intent.currency;
          })
        ]
      ]
      else none
