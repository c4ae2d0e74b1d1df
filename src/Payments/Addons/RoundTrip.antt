-- ===== src/Payments/Addons/RoundTrip.antt =====
-- src/services/addonPurchasesV2.ts: what a payment was made for is what its events are read as.
use home_hero_backend.Prelude.{All, String, [], ap, arith, refl, some, suc, true, ℕ, ◌∙◌, ◌∷◌, ◌≡◌}
use home_hero_backend.Payments.Addons.{
  AddonRequest, AddonType, NormalizedAddon, ParsedAddon, addon_metadata, badge_legacy, badge_v2,
  clamp_pack, compute_addon_amount_cents, extra_leads_legacy, normalize_addon_request, pack_of,
  pack_text, pack_v2, parse_addon_succeeded, read_pack_size, type_from_text, type_of, type_text,
  zip_v2, zips_legacy, zips_of,
}
use home_hero_backend.Payments.Platform.{TextLaws, Texts}
use home_hero_backend.Payments.Purchases.{payment_intent_for}
use home_hero_backend.Payments.Zips.{
  distinct, is_not_empty, join_codes, normalize_zip_codes, read_zip_codes, split_codes,
}
use home_hero_backend.Payments.Zips.Joining.{lacks_comma, read-join}
use home_hero_backend.Text.{non_empty, same_text, trim, trim_end, trim_start}

module _ (texts : Texts) where
  -- What was bought, as the events of the payment tell it.
  abbrev pub paid_for : ℕ → NormalizedAddon → ParsedAddon
  paid_for provider_id a = record {
    provider_id = provider_id;
    addon_type = type_of a;
    zip_codes = zips_of a;
    pack_size = pack_of a;
    amount_cents = compute_addon_amount_cents a;
    currency = "usd";
  }

  type_round_trip : (t : AddonType) → type_from_text (type_text t) ≡ some t
  unfolding type_from_text same_text
  type_round_trip AddonType.verification_badge = refl
  type_round_trip AddonType.featured_zip = refl
  type_round_trip AddonType.lead_pack = refl

  module _ (laws : TextLaws texts) where
    clamp_clamp : (n : ℕ) → clamp_pack (clamp_pack n) ≡ clamp_pack n
    clamp_clamp n = omega arith

    read_decimal : (n : ℕ) → read_pack_size texts (texts.decimal n) ≡ some (clamp_pack n)
    unfolding read_pack_size
    read_decimal n =
        rw (laws.trim-decimal n, read_pack_size, laws.non_empty-decimal n, laws.number-decimal n)
          refl

    pack_round_trip :
        (input : AddonRequest)
        → read_pack_size texts (pack_text texts (pack_of (normalize_addon_request texts input)))
          ≡ pack_of (normalize_addon_request texts input)
    unfolding normalize_addon_request pack_text read_pack_size trim trim_start trim_end non_empty
    pack_round_trip badge_v2 = refl
    pack_round_trip (zip_v2 z) = refl
    pack_round_trip (pack_v2 n) = read_decimal (clamp_pack n) ∙ ap some (clamp_clamp n)
    pack_round_trip (extra_leads_legacy n) = read_decimal (clamp_pack n) ∙ ap some (clamp_clamp n)
    pack_round_trip badge_legacy = refl
    pack_round_trip (zips_legacy zs) = refl

    no_zips : read_zip_codes texts "" ≡ []
    unfolding read_zip_codes normalize_zip_codes split_codes is_not_empty distinct trim trim_start
        trim_end
    no_zips = refl

    zips_round_trip :
        (input : AddonRequest)
        → All (λ z. lacks_comma z ≡ true) (zips_of (normalize_addon_request texts input))
        → read_zip_codes texts (join_codes (zips_of (normalize_addon_request texts input)))
          ≡ zips_of (normalize_addon_request texts input)
    unfolding normalize_addon_request join_codes
    zips_round_trip badge_v2 h = no_zips
    zips_round_trip (zip_v2 z) h = read-join texts laws (z ∷ []) h
    zips_round_trip (pack_v2 n) h = no_zips
    zips_round_trip (extra_leads_legacy n) h = no_zips
    zips_round_trip badge_legacy h = no_zips
    zips_round_trip (zips_legacy zs) h = read-join texts laws zs h

    -- Where no ZIP code has a comma, the events of the payment that is made for a request are read
    -- as what was asked for: the same provider, add-on, codes, number of leads and price.
    pub parse-payment_intent_for :
        (id : String) (p : ℕ) (input : AddonRequest)
        → All (λ z. lacks_comma z ≡ true) (zips_of (normalize_addon_request texts input))
        → parse_addon_succeeded texts
            (payment_intent_for texts id (suc p) (normalize_addon_request texts input))
          ≡ some (paid_for (suc p) (normalize_addon_request texts input))
    unfolding parse_addon_succeeded payment_intent_for addon_metadata same_text
    parse-payment_intent_for id p input h =
        rw
          (
            laws.number-decimal (suc p),
            type_round_trip (type_of (normalize_addon_request texts input)),
            zips_round_trip input h,
            pack_round_trip input,
          )
          refl
