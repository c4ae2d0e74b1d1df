-- ===== src/Http/Rules.antt =====
-- Reasoning about handlers: what holds at each of the exits of a computation, and one rule for
-- each way to begin a handler's `do` block.
use home_hero_backend.Prelude.{Bool, Option, String, false, none, refl, some, true, ◌≡◌}
use home_hero_backend.Http.{
  Exit, Handler, next, pure, reply, reply_if, run, some_or_reply, thrown, ◌>>=◌,
}

-- `K` holds of the value and state from which the computation goes on, and `E` of the response
-- and state with which it ends; a throw ends with the response `internal`.
pub data Ends {R W A : Type 0} (internal : R) (E : R → W → Type 0) (K : A → W → Type 0)
    : Exit R W A → Type 0 where
  goes : (a : A) (w : W) → K a w → Ends internal E K (next a w)
  stops : (r : R) (w : W) → E r w → Ends internal E K (reply r w)
  throws : (e : String) (w : W) → E internal w → Ends internal E K (thrown e w)

module _ {R W A : Type 0} {internal : R} {E : R → W → Type 0} {K K' : A → W → Type 0} where
  -- What follows from what holds where the computation goes on.
  pub Ends-weaken :
      (x : Exit R W A)
      → Ends internal E K x
      → ((a : A) (w : W) → K a w → K' a w)
      → Ends internal E K' x
  Ends-weaken _ (goes a w h) f = goes a w (f a w h)
  Ends-weaken _ (stops r w h) f = stops r w h
  Ends-weaken _ (throws e w h) f = throws e w h

module _ {R W : Type 0} {internal : R} {E : R → W → Type 0} where
  pub run_rule :
      (m : Handler R W R) (w : W)
      → Ends internal E E (m w)
      → E (run internal m w).0 (run internal m w).1
  unfolding run
  run_rule m w h = go (m w) h
    where
      go :
          (x : Exit R W R)
          → Ends internal E E x
          → E (run internal (λ _. x) w).0 (run internal (λ _. x) w).1
      go _ (goes r w' h) = h
      go _ (stops r w' h) = h
      go _ (throws e w' h) = h

module _ {R W A : Type 0} {internal : R} {E : R → W → Type 0} {K : A → W → Type 0} where
  -- The first computation, and then the rest from each place where it may go on.
  pub bind_rule :
      {B : Type 0} (m : Handler R W B) (f : B → Handler R W A) (w : W)
      → Ends internal E (λ b w'. Ends internal E K (f b w')) (m w)
      → Ends internal E K ((m >>= f) w)
  unfolding ◌>>=◌
  bind_rule {B} m f w h = go (m w) h
    where
      go :
          (x : Exit R W B)
          → Ends internal E (λ b w'. Ends internal E K (f b w')) x
          → Ends internal E K (((λ _. x) >>= f) w)
      go _ (goes a w' h) = h
      go _ (stops r w' h) = stops r w' h
      go _ (throws e w' h) = throws e w' h

  pub pure_rule : (a : A) (w : W) → K a w → Ends internal E K (pure a w)
  unfolding pure
  pure_rule a w h = goes a w h

  pub reply_if_rule :
      (b : Bool) (r : R) (f : Unit {0} → Handler R W A) (w : W)
      → (b ≡ true → E r w)
      → (b ≡ false → Ends internal E K (f tt w))
      → Ends internal E K ((reply_if b r >>= f) w)
  unfolding reply_if ◌>>=◌
  reply_if_rule true r f w stop go = stops r w (stop refl)
  reply_if_rule false r f w stop go = go refl

  pub some_or_reply_rule :
      {B : Type 0} (o : Option B) (r : R) (f : B → Handler R W A) (w : W)
      → (o ≡ none → E r w)
      → ((b : B) → o ≡ some b → Ends internal E K (f b w))
      → Ends internal E K ((some_or_reply o r >>= f) w)
  unfolding some_or_reply ◌>>=◌
  some_or_reply_rule none r f w stop go = stops r w (stop refl)
  some_or_reply_rule (some b) r f w stop go = go b refl
