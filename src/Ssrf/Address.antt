-- ===== src/Ssrf/Address.antt =====
-- src/utils/ssrfGuard.ts: the addresses of IPv4 and IPv6, and the ranges that are refused.
use Prim.Native.Char.{Char, code}
use home_hero_backend.Prelude.{
  Bool, List, Option, String, [], false, if◌then◌else◌, leb, length, none, select, some, suc, true,
  zero, ℕ, ◌%◌, ◌&&◌, ◌*◌, ◌++◌, ◌+◌, ◌-◌, ◌/◌, ◌==◌, ◌^◌, ◌||◌, ◌∷◌,
}
use home_hero_backend.Http.{interpolate}

-- The platform's functions that the guard calls.
pub record Net : Type 0 where
  -- `isIP`: 4, 6 or 0.
  pub is_ip : String → ℕ
  -- `Number(s)`, where that is a whole number that is not negative.
  pub whole_number : String → Option ℕ
  pub to_lower : String → String
  -- `toString(16)`.
  pub base_16 : ℕ → String

pub record Octets : Type 0 where
  pub first : ℕ
  pub second : ℕ
  pub third : ℕ
  pub fourth : ℕ

-- One more character of the first piece.
abbrev before_pieces : Char → List String → List String
before_pieces c [] = String.◌∷◌ c "" ∷ []
before_pieces c (s ∷ ss) = String.◌∷◌ c s ∷ ss

-- `split(c)`, for one character.
unfoldable pub pieces : ℕ → String → List String
pieces c String.[] = "" ∷ []
pieces c (String.◌∷◌ d s) =
    let rest = pieces c s in if code d == c then "" ∷ rest else before_pieces d rest

abbrev pub octet : Option ℕ → Option ℕ
octet none = none
octet (some n) = if leb n 255 then some n else none

abbrev pub four_octets : Option ℕ → Option ℕ → Option ℕ → Option ℕ → Option Octets
four_octets (some a) (some b) (some c) (some d) =
    some (record { first = a; second = b; third = c; fourth = d })
four_octets _ _ _ _ = none

abbrev pub octets_of_pieces : Net → List String → Option Octets
octets_of_pieces net (a ∷ b ∷ c ∷ d ∷ []) =
    four_octets (octet (net.whole_number a)) (octet (net.whole_number b))
      (octet (net.whole_number c)) (octet (net.whole_number d))
octets_of_pieces net _ = none

-- The four numbers of a text with three dots.
unfoldable pub octets_of : Net → String → Option Octets
octets_of net ip = octets_of_pieces net (pieces 46 ip)

unfoldable pub is_private_octets : Octets → Bool
is_private_octets o =
    o.first == 127
    || o.first == 10
    || (o.first == 172 && leb 16 o.second && leb o.second 31)
    || (o.first == 192 && o.second == 168)
    || (o.first == 169 && o.second == 254)

abbrev pub private_if : Option Octets → Bool
private_if none = false
private_if (some o) = is_private_octets o

abbrev pub is_private_ipv4 : Net → String → Bool
is_private_ipv4 net ip = private_if (octets_of net ip)

-- `ipv4ToHextets`, as numbers.
abbrev hextets : Option Octets → Option (ℕ × ℕ)
hextets none = none
hextets (some o) = some (o.first * 256 + o.second, o.third * 256 + o.fourth)

-- The value of a digit of base 16, small or capital.
abbrev hex_digit : Char → Option ℕ
hex_digit c =
    let n = code c in
    if leb 48 n && leb n 57
    then some (n - 48)
    else if leb 97 n && leb n 102
    then some (n - 87)
    else if leb 65 n && leb n 70
    then some (n - 55)
    else none

abbrev with_digit : ℕ → Option ℕ → Option ℕ
with_digit high none = none
with_digit high (some d) = some (high * 16 + d)

-- `/^[0-9a-f]{1,4}$/i` and `parseInt(part, 16)`; `left` digits may follow.
unfoldable pub hex_after : ℕ → ℕ → String → Option ℕ
hex_after left value String.[] = some value
hex_after zero value (String.◌∷◌ c s) = none
hex_after (suc left) value (String.◌∷◌ c s) = elim (with_digit value (hex_digit c)) [
  | none ↦ none
  | some v ↦ hex_after left v s
]

abbrev hex_part : String → Option ℕ
hex_part String.[] = none
hex_part (String.◌∷◌ c s) = hex_after 4 0 (String.◌∷◌ c s)

abbrev shifted : ℕ → Option ℕ → Option ℕ
shifted value none = none
shifted value (some n) = some (value * 65536 + n)

-- `value = (value << 16n) | n` for each part.
unfoldable pub value_of_parts : ℕ → List String → Option ℕ
value_of_parts value [] = some value
value_of_parts value (p ∷ ps) = elim (shifted value (hex_part p)) [
  | none ↦ none
  | some v ↦ value_of_parts v ps
]

unfoldable pub zeros : ℕ → List String
zeros zero = []
zeros (suc n) = "0" ∷ zeros n

-- The eight parts, from those before and after `::`, which may be missing.
unfoldable pub eight_parts : List String → Option (List String) → Option (List String)
unfolding zeros
eight_parts head none = if length head == 8 then some head else none
eight_parts head (some tail) =
    if leb (length head + length tail) 8
    then some (head ++ (zeros (8 - (length head + length tail)) ++ tail))
    else none

-- The text before the first `::`, and what follows it.
unfoldable pub at_double_colon : String → String × Option String
at_double_colon String.[] = ("", none)
at_double_colon (String.◌∷◌ c String.[]) = (String.◌∷◌ c "", none)
at_double_colon (String.◌∷◌ c (String.◌∷◌ d s)) =
    let (before, after) = at_double_colon (String.◌∷◌ d s) in
    if code c == 58 && code d == 58 then ("", some s) else (String.◌∷◌ c before, after)

abbrev is_full : String → Bool
is_full String.[] = false
is_full (String.◌∷◌ c s) = true

-- `raw ? raw.split(":").filter(Boolean) : []`.
abbrev parts_of : String → List String
parts_of raw = select is_full (pieces 58 raw)

-- `input.split("::")`, of which the first two texts are used.
abbrev split_parts : String × Option String → Option (List String)
split_parts (head, none) = eight_parts (parts_of head) none
split_parts (head, some rest) =
    eight_parts (parts_of head) (some (parts_of (at_double_colon rest).0))

abbrev parse_plain : Option String → Option ℕ
parse_plain none = none
parse_plain (some input) = elim (split_parts (at_double_colon input)) [
  | none ↦ none
  | some parts ↦ value_of_parts 0 parts
]

-- The texts before and after the last colon.
unfoldable pub at_last_colon : String → Option (String × String)
at_last_colon String.[] = none
at_last_colon (String.◌∷◌ c s) = elim (at_last_colon s) [
  | some (before, after) ↦ some (String.◌∷◌ c before, after)
  | none ↦ if code c == 58 then some ("", s) else none
]

unfoldable pub has_dot : String → Bool
has_dot String.[] = false
has_dot (String.◌∷◌ c s) = code c == 46 || has_dot s

-- The two texts of base 16 that stand for an embedded address of IPv4.
abbrev with_hextets : Net → String → Option (ℕ × ℕ) → Option String
with_hextets net before none = none
with_hextets net before (some (hi, lo)) =
    some (interpolate (before ∷ ":" ∷ net.base_16 hi ∷ ":" ∷ net.base_16 lo ∷ []))

abbrev without_ipv4 : Net → Option (String × String) → Option String
without_ipv4 net none = none
without_ipv4 net (some (before, after)) = with_hextets net before (hextets (octets_of net after))

abbrev first_piece : List String → String
first_piece [] = ""
first_piece (s ∷ ss) = s

-- `ip.split("%")[0].toLowerCase()`.
abbrev without_zone : Net → String → String
without_zone net ip = net.to_lower (first_piece (pieces 37 ip))

unfoldable pub parse_ipv6 : Net → String → Option ℕ
parse_ipv6 net ip =
    let input = without_zone net ip in
    parse_plain (if has_dot input then without_ipv4 net (at_last_colon input) else some input)

unfoldable pub is_private_value : ℕ → Bool
is_private_value big =
    let first_byte = big / 2 ^ 120 % 256 in
    let first_16 = big / 2 ^ 112 % 65536 in
    big == 1 || first_byte == 252 || first_byte == 253 || (leb 65152 first_16 && leb first_16 65215)

abbrev pub private_value_if : Option ℕ → Bool
private_value_if none = false
private_value_if (some big) = is_private_value big

abbrev pub is_private_ipv6 : Net → String → Bool
is_private_ipv6 net ip = private_value_if (parse_ipv6 net ip)

unfoldable pub is_private_ip : Net → String → Bool
is_private_ip net ip =
    if net.is_ip ip == 4
    then is_private_ipv4 net ip
    else if net.is_ip ip == 6
    then is_private_ipv6 net ip
    else false
