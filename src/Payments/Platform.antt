-- ===== src/Payments/Platform.antt =====
-- The platform's functions on texts that src/services/addonPurchasesV2.ts calls, and what is
-- documented of them.
use home_hero_backend.Prelude.{String, some, ℕ, ◌≡◌}
use home_hero_backend.Text.{non_empty, trim}

-- What `Number` makes of a text, where only whole numbers from 0 on are told apart: one of these,
-- rounded down; one below 0; Infinity; and NaN.
pub data Numeral : Type 0 where
  whole : ℕ → Numeral
  below_zero infinite not_a_number : Numeral

pub record Texts : Type 0 where
  -- `toUpperCase`.
  pub to_upper : String → String
  -- `String(n)` of a whole number.
  pub decimal : ℕ → String
  -- `Number(s)`.
  pub number : String → Numeral

pub record TextLaws (texts : Texts) : Type 0 where
  pub to_upper-to_upper : (s : String) → texts.to_upper (texts.to_upper s) ≡ texts.to_upper s
  pub trim-to_upper : (s : String) → trim (texts.to_upper (trim s)) ≡ texts.to_upper (trim s)
  pub number-decimal : (n : ℕ) → texts.number (texts.decimal n) ≡ whole n
  pub trim-decimal : (n : ℕ) → trim (texts.decimal n) ≡ texts.decimal n
  pub non_empty-decimal : (n : ℕ) → non_empty (texts.decimal n) ≡ some (texts.decimal n)
