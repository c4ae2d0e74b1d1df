-- ===== src/Ssrf/Guard.antt =====
-- src/utils/ssrfGuard.ts: `validateAndNormalizeWebhookUrl`.
use home_hero_backend.Prelude.{
  Bool, List, Option, String, [], any, if◌then◌else◌, inl, inr, none, not, some, ◌==◌, ◌||◌, ◌∷◌,
  ◌⊎◌,
}
use home_hero_backend.Ssrf.Address.{Net, is_private_ip}
use home_hero_backend.Text.{non_empty, same_text, trim}

-- What `new URL` makes of a text; `href` is its `toString()`.
pub record ParsedUrl : Type 0 where
  pub protocol : String
  pub hostname : String
  pub href : String

-- `parse_url` is none where `new URL` throws, and `lookup` where the resolver does.
pub record Resolver : Type 0 where
  pub parse_url : String → Option ParsedUrl
  pub lookup : String → Option (List String)

unfoldable pub is_disallowed_hostname : Net → String → Bool
is_disallowed_hostname net hostname =
    let name = net.to_lower hostname in
    same_text name "localhost"
    || same_text name "127.0.0.1"
    || same_text name "0.0.0.0"
    || same_text name "::1"

unfoldable pub is_allowed_protocol : Bool → String → Bool
is_allowed_protocol is_prod protocol =
    if is_prod
    then same_text protocol "https:"
    else same_text protocol "http:" || same_text protocol "https:"

abbrev not_allowed : String
not_allowed = "URL not allowed"

abbrev pub is_refused_address : Net → String → Bool
is_refused_address net addr = is_disallowed_hostname net addr || is_private_ip net addr

-- The records that the resolver gives.
abbrev pub check_records : Net → ParsedUrl → Option (List String) → String ⊎ String
check_records net parsed none = inl not_allowed
check_records net parsed (some []) = inl not_allowed
check_records net parsed (some (r ∷ rs)) =
    if any (is_refused_address net) (r ∷ rs) then inl not_allowed else inr parsed.href

abbrev pub check_hostname : Net → Resolver → ParsedUrl → String ⊎ String
check_hostname net resolver parsed =
    if same_text parsed.hostname ""
    then inl "url must include a hostname"
    else if is_disallowed_hostname net parsed.hostname
    then inl not_allowed
    else if not (net.is_ip parsed.hostname == 0)
    then (if is_private_ip net parsed.hostname then inl not_allowed else inr parsed.href)
    else check_records net parsed (resolver.lookup parsed.hostname)

abbrev pub check_url : Net → Resolver → Bool → Option ParsedUrl → String ⊎ String
check_url net resolver is_prod none = inl "url must be a valid URL"
check_url net resolver is_prod (some parsed) =
    if not (is_allowed_protocol is_prod parsed.protocol)
    then inl not_allowed
    else check_hostname net resolver parsed

abbrev pub check_text : Net → Resolver → Bool → Option String → String ⊎ String
check_text net resolver is_prod none = inl "url is required"
check_text net resolver is_prod (some text) =
    check_url net resolver is_prod (resolver.parse_url text)

-- The message of the error that is thrown, or the normalized URL; a value that is no text is none.
unfoldable pub validate_and_normalize_webhook_url :
    Net → Resolver → Bool → Option String → String ⊎ String
validate_and_normalize_webhook_url net resolver is_prod none = inl "url is required"
validate_and_normalize_webhook_url net resolver is_prod (some url) =
    check_text net resolver is_prod (non_empty (trim url))
