-- ===== src/Text.antt =====
-- JavaScript's operations on strings that the source uses: `trim` and `length`.
pub mod Laws
use Prim.Native.Char.{Char, code}
use text.Mathlib.Text
use text.Mathlib.TextEquality.{eq_iff}
use home_hero_backend.Prelude.{
  Bool, Option, String, if◌then◌else◌, leb, ltb, none, some, true, ℕ, ◌&&◌, ◌+◌, ◌-◌, ◌==◌, ◌||◌,
  ◌↔◌, ◌≡◌,
}

-- The white space and line terminators of `trim`.
unfoldable pub is_space : Char → Bool
is_space c =
    let n = code c in
    (leb 9 n && leb n 13)
    || n == 32
    || n == 160
    || n == 5760
    || (leb 8192 n && leb n 8202)
    || n == 8232
    || n == 8233
    || n == 8239
    || n == 8287
    || n == 12288
    || n == 65279

unfoldable pub trim_start : String → String
trim_start String.[] = String.[]
trim_start (String.◌∷◌ c s) = let rest = trim_start s in if is_space c then rest else String.◌∷◌ c s

-- One character before what is left of the text behind it.
unfoldable pub keep_before : Char → String → String
keep_before c String.[] = if is_space c then String.[] else String.◌∷◌ c String.[]
keep_before c (String.◌∷◌ d s) = String.◌∷◌ c (String.◌∷◌ d s)

unfoldable pub trim_end : String → String
trim_end String.[] = String.[]
trim_end (String.◌∷◌ c s) = keep_before c (trim_end s)

-- `String.prototype.trim`.
unfoldable pub trim : String → String
unfolding trim_start trim_end keep_before is_space
trim s = trim_end (trim_start s)

-- `length`, in UTF-16 units.
unfoldable pub length16 : String → ℕ
length16 String.[] = 0
length16 (String.◌∷◌ c s) = (if ltb (code c) 65536 then 1 else 2) + length16 s

-- `s || null`.
unfoldable pub non_empty : String → Option String
non_empty String.[] = none
non_empty (String.◌∷◌ c s) = some (String.◌∷◌ c s)

-- `===` of two texts.
unfoldable pub same_text : String → String → Bool
same_text s t = Text.◌==◌ s t

pub same_text_iff : (s t : String) → (same_text s t ≡ true) ↔ (s ≡ t)
unfolding same_text
same_text_iff s t = eq_iff s t

-- The first characters of a text, up to `n` UTF-16 units; a character that the cut divides is
-- left out.
unfoldable pub slice16 : ℕ → String → String
slice16 n String.[] = String.[]
slice16 n (String.◌∷◌ c s) =
    let size = if ltb (code c) 65536 then 1 else 2 in
    let rest = slice16 (n - size) s in if leb size n then String.◌∷◌ c rest else String.[]
