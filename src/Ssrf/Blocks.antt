-- ===== src/Ssrf/Blocks.antt =====
-- src/utils/ssrfGuard.ts: the tests on the texts of addresses against the refused blocks.
use home_hero_backend.Prelude.{
  Bool, List, Option, String, [], arith, false, if◌then◌else◌, leb, none, refl, some, true, ℕ, ◌==◌,
  ◌∷◌, ◌≡◌, ◌≤◌,
}
use home_hero_backend.Ssrf.Address.{
  Net, Octets, four_octets, is_private_ip, is_private_ipv4, octet, octets_of, octets_of_pieces,
  parse_ipv6, pieces, private_if, private_value_if,
}
use home_hero_backend.Ssrf.Ranges.{
  in_private_ipv4, in_private_ipv6, is_private_octets-in_private_ipv4,
  is_private_value-in_private_ipv6, value_of_octets,
}

abbrev pub in_ipv4_blocks : Option Octets → Bool
in_ipv4_blocks none = false
in_ipv4_blocks (some o) = in_private_ipv4 (value_of_octets o)

abbrev pub in_ipv6_blocks : Option ℕ → Bool
in_ipv6_blocks none = false
in_ipv6_blocks (some value) = in_private_ipv6 value

-- An address of IPv4 or IPv6 whose number is in one of the refused blocks.
abbrev pub in_blocks : Net → String → Bool
in_blocks net ip =
    if net.is_ip ip == 4
    then in_ipv4_blocks (octets_of net ip)
    else if net.is_ip ip == 6
    then in_ipv6_blocks (parse_ipv6 net ip)
    else false

abbrev IsSmall : Option ℕ → Type 0
IsSmall none = Unit {0}
IsSmall (some n) = n ≤ 255

octet-IsSmall : (x : Option ℕ) → IsSmall (octet x)
octet-IsSmall none = tt
octet-IsSmall (some n) = go (leb n 255) refl
  where
    go : (b : Bool) → b ≡ leb n 255 → IsSmall (if b then some n else none)
    go true e = ground arith
    go false e = tt

private_four_octets :
    (a b c d : Option ℕ)
    → IsSmall a
    → IsSmall b
    → IsSmall c
    → IsSmall d
    → private_if (four_octets a b c d) ≡ in_ipv4_blocks (four_octets a b c d)
private_four_octets (some a) (some b) (some c) (some d) h₁ h₂ h₃ h₄ =
    is_private_octets-in_private_ipv4 _ (h₁, h₂, h₃, h₄)
private_four_octets (some a) (some b) (some c) none h₁ h₂ h₃ h₄ = refl
private_four_octets (some a) (some b) none d h₁ h₂ h₃ h₄ = refl
private_four_octets (some a) none c d h₁ h₂ h₃ h₄ = refl
private_four_octets none b c d h₁ h₂ h₃ h₄ = refl

private_octets_of_pieces :
    (net : Net) (ps : List String)
    → private_if (octets_of_pieces net ps) ≡ in_ipv4_blocks (octets_of_pieces net ps)
private_octets_of_pieces net [] = refl
private_octets_of_pieces net (a ∷ []) = refl
private_octets_of_pieces net (a ∷ b ∷ []) = refl
private_octets_of_pieces net (a ∷ b ∷ c ∷ []) = refl
private_octets_of_pieces net (a ∷ b ∷ c ∷ d ∷ []) =
    private_four_octets _ _ _ _ (octet-IsSmall (net.whole_number a))
      (octet-IsSmall (net.whole_number b)) (octet-IsSmall (net.whole_number c))
      (octet-IsSmall (net.whole_number d))
private_octets_of_pieces net (a ∷ b ∷ c ∷ d ∷ e ∷ ps) = refl

is_private_ipv4-in_ipv4_blocks :
    (net : Net) (ip : String) → is_private_ipv4 net ip ≡ in_ipv4_blocks (octets_of net ip)
unfolding octets_of
is_private_ipv4-in_ipv4_blocks net ip = private_octets_of_pieces net (pieces 46 ip)

private_value_blocks : (x : Option ℕ) → private_value_if x ≡ in_ipv6_blocks x
private_value_blocks none = refl
private_value_blocks (some value) = is_private_value-in_private_ipv6 value

-- The guard's test of an address is the test of its number against the blocks.
pub is_private_ip-in_blocks : (net : Net) (ip : String) → is_private_ip net ip ≡ in_blocks net ip
unfolding is_private_ip
is_private_ip-in_blocks net ip =
    rw (is_private_ipv4-in_ipv4_blocks net ip, private_value_blocks (parse_ipv6 net ip)) refl
