-- ===== src/Http.antt =====
-- What the request handlers under src/routes share: responses, and a handler as a state-passing
-- computation that goes on, returns a response early, or throws. What was written before an early
-- return or a throw stays written, so each exit carries the state.
pub mod Keeps
pub mod Rules
use home_hero_backend.Prelude.{Bool, List, Option, String, [], false, none, some, true, ℕ, ◌∷◌}

-- A value of a JSON body or payload.
pub data Value : Type 0 where
  null : Value
  num : ℕ → Value
  -- `String(n)` of a whole number.
  decimal : ℕ → Value
  text : String → Value
  flag : Bool → Value
  -- A `Date`, and the text that `toISOString` gives for it.
  date : ℕ → Value
  iso_date : ℕ → Value
  -- The schema library's rendering of the issues of a refused body.
  issues : Option String → Value

abbrev pub num_or_null : Option ℕ → Value
num_or_null none = null
num_or_null (some n) = num n

abbrev pub text_or_null : Option String → Value
text_or_null none = null
text_or_null (some s) = text s

abbrev pub date_or_null : Option ℕ → Value
date_or_null none = null
date_or_null (some n) = date n

abbrev pub Fields : Type 0
Fields = List (String × Value)

-- A template literal.
unfoldable pub interpolate : List String → String
interpolate [] = ""
interpolate (s ∷ parts) = Prim.Native.String.◌++◌ s (interpolate parts)

pub record Response (Body : Type 0) : Type 0 where
  pub status : ℕ
  pub body : Body

pub data Exit (R W A : Type 0) : Type 0 where
  next : A → W → Exit R W A
  reply : R → W → Exit R W A
  thrown : String → W → Exit R W A

abbrev pub Handler : Type 0 → Type 0 → Type 0 → Type 0
Handler R W A = W → Exit R W A

unfoldable pub pure : {R W A : Type 0} → A → Handler R W A
pure a w = next a w

-- `return res.status(...).json(...)`.
unfoldable pub respond : {R W A : Type 0} → R → Handler R W A
respond r w = reply r w

unfoldable pub throw : {R W A : Type 0} → String → Handler R W A
throw e w = thrown e w

infixl 5 ◌>>=◌ ◌>>◌
unfoldable pub ◌>>=◌ : {R W A B : Type 0} → Handler R W A → (A → Handler R W B) → Handler R W B
◌>>=◌ m f w = elim (m w) [
  | next a w' ↦ f a w'
  | reply r w' ↦ reply r w'
  | thrown e w' ↦ thrown e w'
]

abbrev pub ◌>>◌ : {R W B : Type 0} → Handler R W (Unit {0}) → Handler R W B → Handler R W B
m >> k = m >>= λ _. k

-- `if (b) return r;`
unfoldable pub reply_if : {R W : Type 0} → Bool → R → Handler R W (Unit {0})
unfolding respond pure
reply_if true r w = respond r w
reply_if false r w = pure tt w

-- `if (!o) return r;`, with the value of `o` from there on.
unfoldable pub some_or_reply : {R W A : Type 0} → Option A → R → Handler R W A
unfolding respond pure
some_or_reply none r w = respond r w
some_or_reply (some a) r w = pure a w

-- `try { m } catch { return internal; }` around the whole handler.
unfoldable pub run : {R W : Type 0} → R → Handler R W R → W → R × W
run internal m w = elim (m w) [
  | next r w' ↦ (r, w')
  | reply r w' ↦ (r, w')
  | thrown e w' ↦ (internal, w')
]

-- `try { m } catch (err) { h(err) }`.
unfoldable pub try_catch :
    {R W A : Type 0} → Handler R W A → (String → Handler R W A) → Handler R W A
try_catch m h w = elim (m w) [
  | next a w' ↦ next a w'
  | reply r w' ↦ reply r w'
  | thrown e w' ↦ h e w'
]
