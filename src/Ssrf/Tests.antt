-- ===== src/Ssrf/Tests.antt =====
-- Runs of the guard, with a small set of the platform's functions.

use Prim.Native.Char.{Char, code}
use home_hero_backend.Prelude.{
  Bool, List, Option, String, [], false, if◌then◌else◌, inl, inr, leb, length, ltb, none, refl,
  some, suc, true, zero, ℕ, ◌%◌, ◌&&◌, ◌*◌, ◌+◌, ◌-◌, ◌/◌, ◌==◌, ◌↔◌, ◌∷◌, ◌≡◌, ◌⊎◌,
}
use home_hero_backend.Http.{interpolate}
use home_hero_backend.Ssrf.Address.{
  Net, at_double_colon, at_last_colon, eight_parts, has_dot, hex_after, is_private_ip,
  is_private_octets, is_private_value, octets_of, parse_ipv6, pieces, value_of_parts, zeros,
}
use home_hero_backend.Ssrf.Guard.{
  ParsedUrl, Resolver, is_allowed_protocol, is_disallowed_hostname,
  validate_and_normalize_webhook_url,
}
use home_hero_backend.Ssrf.Safe.{IsSafe, validate_and_normalize_webhook_url_iff}
use home_hero_backend.Text.{is_space, keep_before, non_empty, same_text, trim, trim_end, trim_start}

abbrev digit_of : Char → Option ℕ
digit_of c = let n = code c in if leb 48 n && leb n 57 then some (n - 48) else none

-- A text of decimal digits.
unfoldable decimal_from : ℕ → String → Option ℕ
decimal_from value String.[] = some value
decimal_from value (String.◌∷◌ c s) = elim (digit_of c) [
  | none ↦ none
  | some d ↦ decimal_from (value * 10 + d) s
]

abbrev hex_texts : List String
hex_texts =
    "0" ∷ "1" ∷ "2" ∷ "3" ∷ "4" ∷ "5" ∷ "6" ∷ "7" ∷ "8" ∷ "9" ∷ "a" ∷ "b" ∷ "c" ∷ "d" ∷ "e" ∷ "f"
    ∷ []

unfoldable text_at : List String → ℕ → String
text_at [] n = ""
text_at (s ∷ ss) zero = s
text_at (s ∷ ss) (suc n) = text_at ss n

-- A number below 16 ^ 4 in base 16, with its first digits where they are not 0.
abbrev base_16_text : ℕ → String
base_16_text n = interpolate (
    (if ltb n 4096 then "" else text_at hex_texts (n / 4096))
    ∷ (if ltb n 256 then "" else text_at hex_texts (n / 256 % 16))
    ∷ (if ltb n 16 then "" else text_at hex_texts (n / 16 % 16))
    ∷ text_at hex_texts (n % 16)
    ∷ [])

abbrev two_or_more : List String → Bool
two_or_more (a ∷ b ∷ ss) = true
two_or_more _ = false

-- The texts that these runs use have a colon in an address of IPv6 and three dots in one of IPv4.
abbrev net : Net
net = record {
  is_ip = λ s. if two_or_more (pieces 58 s) then 6 else if length (pieces 46 s) == 4 then 4 else 0;
  whole_number = decimal_from 0;
  to_lower = λ s. s;
  base_16 = base_16_text;
}

abbrev hooks_url : ParsedUrl
hooks_url = record { protocol = "https:"; hostname = "hooks.test"; href = "https://hooks.test/" }

-- A resolver that knows one URL, whose host has these records.
abbrev resolver_of : List String → Resolver
resolver_of records = record {
  parse_url = λ s. if same_text s "https://hooks.test" then some hooks_url else none;
  lookup = λ s. some records;
}

unfoldable guard_calls : Unit {0}
unfolding pieces octets_of is_private_octets hex_after value_of_parts zeros eight_parts
    at_double_colon at_last_colon has_dot parse_ipv6 is_private_value is_private_ip
    is_disallowed_hostname is_allowed_protocol validate_and_normalize_webhook_url trim trim_start
    trim_end keep_before is_space non_empty same_text decimal_from text_at interpolate
guard_calls = tt

-- The answer to that URL, where its host has these records.
abbrev answer_for : List String → String ⊎ String
answer_for records =
    validate_and_normalize_webhook_url net (resolver_of records) true (some " https://hooks.test ")

public_passes :
    answer_for ("93.184.216.34" ∷ "2606:2800:220:1::1946" ∷ []) ≡ inr "https://hooks.test/"
unfolding guard_calls
public_passes = refl

one_record_inside :
    (answer_for ("93.184.216.34" ∷ "172.31.0.9" ∷ []) ≡ inl "URL not allowed")
    × (answer_for ("fe80::1%eth0" ∷ []) ≡ inl "URL not allowed")
    × (answer_for [] ≡ inl "URL not allowed")
unfolding guard_calls
one_record_inside = (refl, refl, refl)

-- The loopback address, written as an address of IPv6 that stands for one of IPv4, passes, and so
-- does the unspecified address.
mapped_passes :
    (answer_for ("::ffff:127.0.0.1" ∷ []) ≡ inr "https://hooks.test/")
    × (answer_for ("::" ∷ []) ≡ inr "https://hooks.test/")
unfolding guard_calls
mapped_passes = (refl, refl)

validate_and_normalize_webhook_url_iff_example :
    (validate_and_normalize_webhook_url net
        (resolver_of ("93.184.216.34" ∷ "2606:2800:220:1::1946" ∷ []))
        true
        (some " https://hooks.test ")
      ≡ inr "https://hooks.test/")
    ↔ IsSafe net
        (resolver_of ("93.184.216.34" ∷ "2606:2800:220:1::1946" ∷ []))
        true
        " https://hooks.test "
        "https://hooks.test/"
validate_and_normalize_webhook_url_iff_example =
    validate_and_normalize_webhook_url_iff net
      (resolver_of ("93.184.216.34" ∷ "2606:2800:220:1::1946" ∷ [])) true " https://hooks.test "
      "https://hooks.test/"
