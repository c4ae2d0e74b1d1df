-- ===== src/Ssrf/Ranges.antt =====
-- src/utils/ssrfGuard.ts: the refused ranges as blocks of addresses, by their prefixes.
use home_hero_backend.Prelude.{
  Bool, arith, leb, ℕ, ◌%◌, ◌&&◌, ◌*◌, ◌+◌, ◌/◌, ◌==◌, ◌^◌, ◌||◌, ◌≡◌, ◌≤◌,
}
use home_hero_backend.Ssrf.Address.{Octets, is_private_octets, is_private_value}

-- An address whose first bits, all but the last ones, are those of `base`; `size` is the number of
-- the addresses with the same first bits.
abbrev pub in_block : ℕ → ℕ → ℕ → Bool
in_block base size value = value / size == base / size

abbrev pub value_of_octets : Octets → ℕ
value_of_octets o = ((o.first * 256 + o.second) * 256 + o.third) * 256 + o.fourth

-- 127.0.0.0/8, 10.0.0.0/8, 172.16.0.0/12, 192.168.0.0/16 and 169.254.0.0/16.
abbrev pub in_private_ipv4 : ℕ → Bool
in_private_ipv4 value =
    in_block 2130706432 16777216 value
    || in_block 167772160 16777216 value
    || in_block 2886729728 1048576 value
    || in_block 3232235520 65536 value
    || in_block 2851995648 65536 value

abbrev pub AreOctets : Octets → Type 0
AreOctets o = (o.first ≤ 255) × (o.second ≤ 255) × (o.third ≤ 255) × (o.fourth ≤ 255)

tests_of_octets :
    (a b : ℕ)
    → b ≤ 255
    → (a == 127
        || a == 10
        || (a == 172 && leb 16 b && leb b 31)
        || (a == 192 && b == 168)
        || (a == 169 && b == 254))
      ≡ (a == 127
          || a == 10
          || a * 16 + b / 16 == 2753
          || a * 256 + b == 49320
          || a * 256 + b == 43518)
tests_of_octets a b h = ground arith

pub is_private_octets-in_private_ipv4 :
    (o : Octets) → AreOctets o → is_private_octets o ≡ in_private_ipv4 (value_of_octets o)
unfolding is_private_octets
is_private_octets-in_private_ipv4 o (h₁, h₂, h₃, h₄) =
    let by_8 : value_of_octets o / 16777216 ≡ o.first = omega (arith, h₁, h₂, h₃, h₄) in
    let by_16 : value_of_octets o / 65536 ≡ o.first * 256 + o.second =
      omega (arith, h₁, h₂, h₃, h₄) in
    let by_12 : value_of_octets o / 1048576 ≡ o.first * 16 + o.second / 16 =
      omega (arith, h₁, h₂, h₃, h₄) in
    rw (by_8, by_12, by_16) (tests_of_octets o.first o.second h₂)

-- ::1/128, fc00::/7 and fe80::/10: by the first 7 and 10 bits of the 128.
abbrev pub in_private_ipv6 : ℕ → Bool
in_private_ipv6 value =
    value == 1 || value / 2 ^ 121 % 2 ^ 7 == 126 || value / 2 ^ 118 % 2 ^ 10 == 1018

tests_of_top :
    (loopback : Bool) (top : ℕ)
    → (loopback
        || top / 256 % 256 == 252
        || top / 256 % 256 == 253
        || (leb 65152 (top % 65536) && leb (top % 65536) 65215))
      ≡ (loopback || top / 512 % 128 == 126 || top / 64 % 1024 == 1018)
tests_of_top loopback top = ground arith

pub is_private_value-in_private_ipv6 : (value : ℕ) → is_private_value value ≡ in_private_ipv6 value
unfolding is_private_value
is_private_value-in_private_ipv6 value =
    let by_120 : value / 2 ^ 120 ≡ value / 2 ^ 112 / 256 = omega arith in
    let by_121 : value / 2 ^ 121 ≡ value / 2 ^ 112 / 512 = omega arith in
    let by_118 : value / 2 ^ 118 ≡ value / 2 ^ 112 / 64 = omega arith in
    rw (by_120, by_121, by_118) (tests_of_top (value == 1) (value / 2 ^ 112))
