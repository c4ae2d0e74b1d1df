-- ===== src/Ssrf/Safe.antt =====
-- src/utils/ssrfGuard.ts: which URLs `validateAndNormalizeWebhookUrl` lets pass.
use home_hero_backend.Prelude.{
  Bool, List, Option, String, [], any, ap, arith, false, if◌then◌else◌, inl, inr, none, not, refl,
  some, sym, true, ◌==◌, ◌||◌, ◌↔◌, ◌∙◌, ◌∷◌, ◌≡◌, ◌≢◌, ◌⊎◌,
}
use home_hero_backend.Ssrf.Address.{Net, is_private_ip}
use home_hero_backend.Ssrf.Blocks.{in_blocks, is_private_ip-in_blocks}
use home_hero_backend.Ssrf.Guard.{
  ParsedUrl, Resolver, check_hostname, check_records, check_text, check_url, is_allowed_protocol,
  is_disallowed_hostname, is_refused_address, validate_and_normalize_webhook_url,
}
use home_hero_backend.Text.{non_empty, same_text, trim}

-- A refused name, or an address in a refused block.
abbrev is_inside : Net → String → Bool
is_inside net addr = is_disallowed_hostname net addr || in_blocks net addr

-- The host is an address outside the blocks, or a name with records that are all outside.
pub data LeadsOutside (net : Net) (resolver : Resolver) (hostname : String) : Type 0 where
  literal :
      (net.is_ip hostname == 0) ≡ false
      → in_blocks net hostname ≡ false
      → LeadsOutside net resolver hostname
  resolved :
      (record_1 : String) (records : List String)
      → (net.is_ip hostname == 0) ≡ true
      → resolver.lookup hostname ≡ some (record_1 ∷ records)
      → any (is_inside net) (record_1 ∷ records) ≡ false
      → LeadsOutside net resolver hostname

pub record IsSafe (net : Net) (resolver : Resolver) (is_prod : Bool) (url href : String)
    : Type 0 where
  pub not_blank : trim url ≢ ""
  pub parsed : ParsedUrl
  pub is_parsed : resolver.parse_url (trim url) ≡ some parsed
  pub same_href : parsed.href ≡ href
  pub allowed : is_allowed_protocol is_prod parsed.protocol ≡ true
  pub named : same_text parsed.hostname "" ≡ false
  pub not_refused : is_disallowed_hostname net parsed.hostname ≡ false
  pub outside : LeadsOutside net resolver parsed.hostname

-- A test that is passed.
passed :
    (b : Bool) (m : String) {href : String} (rest : String ⊎ String)
    → (if b then inl m else rest) ≡ inr href
    → (b ≡ false) × (rest ≡ inr href)
passed true m rest e = absurd (cc)
passed false m rest e = (refl, e)

of_not : (b : Bool) → not b ≡ false → b ≡ true
of_not b h = ground arith

inr_inj : {m href : String} → Path (String ⊎ String) (inr m) (inr href) → m ≡ href
inr_inj e = cc

is_refused_address-is_inside :
    (net : Net) (addr : String) → is_refused_address net addr ≡ is_inside net addr
is_refused_address-is_inside net addr = rw (is_private_ip-in_blocks net addr) refl

any_refused :
    (net : Net) (rs : List String) → any (is_refused_address net) rs ≡ any (is_inside net) rs
any_refused net rs = ap (λ f. any f rs) λ i a. is_refused_address-is_inside net a i

module _ (net : Net) (resolver : Resolver) (parsed : ParsedUrl) (href : String) where
  check_records-resolved :
      (found : Option (List String))
      → (net.is_ip parsed.hostname == 0) ≡ true
      → resolver.lookup parsed.hostname ≡ found
      → check_records net parsed found ≡ inr href
      → (parsed.href ≡ href) × LeadsOutside net resolver parsed.hostname
  check_records-resolved none h there e = absurd (cc)
  check_records-resolved (some []) h there e = absurd (cc)
  check_records-resolved (some (r ∷ rs)) h there e =
      let (fine, same) = passed _ _ _ e in
      (inr_inj same, resolved r rs h there (sym (any_refused net (r ∷ rs)) ∙ fine))

  check_address-outside :
      (is_name : Bool)
      → net.is_ip parsed.hostname == 0 ≡ is_name
      → (if not is_name
          then (if is_private_ip net parsed.hostname
              then inl "URL not allowed"
              else inr parsed.href)
          else check_records net parsed (resolver.lookup parsed.hostname))
        ≡ inr href
      → (parsed.href ≡ href) × LeadsOutside net resolver parsed.hostname
  check_address-outside true h e = check_records-resolved _ h refl e
  check_address-outside false h e =
      let (fine, same) = passed _ _ _ e in
      (inr_inj same, literal h (sym (is_private_ip-in_blocks net parsed.hostname) ∙ fine))

  check_address-passes :
      parsed.href ≡ href
      → LeadsOutside net resolver parsed.hostname
      → (if not (net.is_ip parsed.hostname == 0)
          then (if is_private_ip net parsed.hostname
              then inl "URL not allowed"
              else inr parsed.href)
          else check_records net parsed (resolver.lookup parsed.hostname))
        ≡ inr href
  check_address-passes same (literal h fine) =
      rw (h, is_private_ip-in_blocks net parsed.hostname, fine) (ap inr same)
  check_address-passes same (resolved r rs h there fine) =
      rw (h, there, any_refused net (r ∷ rs), fine) (ap inr same)

module _ (net : Net) (resolver : Resolver) (is_prod : Bool) (url href : String) where
  check_hostname-IsSafe :
      trim url ≢ ""
      → (parsed : ParsedUrl) → resolver.parse_url (trim url) ≡ some parsed
      → is_allowed_protocol is_prod parsed.protocol ≡ true
      → check_hostname net resolver parsed ≡ inr href
      → IsSafe net resolver is_prod url href
  check_hostname-IsSafe not_blank parsed is_parsed allowed e =
      let (named, e₁) = passed _ _ _ e in
      let (not_refused, e₂) = passed _ _ _ e₁ in
      let (same, outside) = check_address-outside net resolver parsed href _ refl e₂ in
      record {
        not_blank = not_blank;
        parsed = parsed;
        is_parsed = is_parsed;
        same_href = same;
        allowed = allowed;
        named = named;
        not_refused = not_refused;
        outside = outside;
      }

  check_url-IsSafe :
      trim url ≢ ""
      → (found : Option ParsedUrl) → resolver.parse_url (trim url) ≡ found
      → check_url net resolver is_prod found ≡ inr href
      → IsSafe net resolver is_prod url href
  check_url-IsSafe not_blank none there e = absurd (cc)
  check_url-IsSafe not_blank (some parsed) there e =
      let (fine, e₁) = passed (not (is_allowed_protocol is_prod parsed.protocol)) _ _ e in
      check_hostname-IsSafe not_blank parsed there (of_not _ fine) e₁

  check_text-IsSafe :
      (text : String)
      → trim url ≡ text
      → check_text net resolver is_prod (non_empty text) ≡ inr href
      → IsSafe net resolver is_prod url href
  unfolding non_empty
  check_text-IsSafe String.[] h e = absurd (cc)
  check_text-IsSafe (String.◌∷◌ c s) h e =
      check_url-IsSafe (λ blank. absurd (cc)) _ (ap resolver.parse_url h) e

  validate-IsSafe :
      validate_and_normalize_webhook_url net resolver is_prod (some url) ≡ inr href
      → IsSafe net resolver is_prod url href
  unfolding validate_and_normalize_webhook_url
  validate-IsSafe e = check_text-IsSafe (trim url) refl e

  check_text-passes :
      (text : String)
      → trim url ≡ text
      → IsSafe net resolver is_prod url href
      → check_text net resolver is_prod (non_empty text) ≡ inr href
  unfolding non_empty
  check_text-passes String.[] h safe = absurd (safe.not_blank h)
  check_text-passes (String.◌∷◌ c s) h safe =
      rw (sym h, safe.is_parsed, safe.allowed, safe.named, safe.not_refused)
        (check_address-passes net resolver safe.parsed href safe.same_href safe.outside)

  -- A URL passes, and `href` is returned, exactly where these hold: the URL is not blank; it is
  -- parsed, and `href` is its text; its protocol is allowed; its host has a name, which is not a
  -- refused one; the host is an address outside the refused blocks, or a name for which there are
  -- records, all of them outside the blocks and not refused.
  pub validate_and_normalize_webhook_url_iff :
      (validate_and_normalize_webhook_url net resolver is_prod (some url) ≡ inr href)
      ↔ IsSafe net resolver is_prod url href
  unfolding validate_and_normalize_webhook_url
  validate_and_normalize_webhook_url_iff = (validate-IsSafe, check_text-passes (trim url) refl)
