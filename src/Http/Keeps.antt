-- ===== src/Http/Keeps.antt =====
-- What stays true of the state through a computation, at each of its exits.
use home_hero_backend.Prelude.{Bool, String, false, if◌then◌else◌, true}
use home_hero_backend.Http.{Exit, Handler, pure, try_catch, ◌>>=◌}
use home_hero_backend.Http.Rules.{Ends, bind_rule, goes, stops, throws}

-- From such a state the computation ends in such a state.
pub record Keeps {W : Type 0} (P : W → Type 0) (A : Type 0) (m : Handler (Unit {0}) W A)
    : Type 0 where
  pub ends : (w : W) → P w → Ends tt (λ _ w'. P w') (λ _ w'. P w') (m w)

-- The state in which a computation ends.
abbrev pub state_of : {R W A : Type 0} → Exit R W A → W
state_of (Exit.next _ w) = w
state_of (Exit.reply _ w) = w
state_of (Exit.thrown _ w) = w

module _ {W : Type 0} {P : W → Type 0} {A : Type 0} where
  pub Keeps-after : {m : Handler (Unit {0}) W A} → Keeps P A m → (w : W) → P w → P (state_of (m w))
  Keeps-after {m} hm w h = go (m w) (hm.ends w h)
    where
      go : (x : Exit (Unit {0}) W A) → Ends tt (λ _ w'. P w') (λ _ w'. P w') x → P (state_of x)
      go _ (goes a w' h) = h
      go _ (stops r w' h) = h
      go _ (throws e w' h) = h

  pub Keeps-bind :
      {B : Type 0} {m : Handler (Unit {0}) W A} {f : A → Handler (Unit {0}) W B}
      → Keeps P A m
      → ((a : A) → Keeps P B (f a))
      → Keeps P B (m >>= f)
  Keeps-bind {B} {m} {f} hm hf = record { ends = λ w h. bind_rule m f w (go (m w) (hm.ends w h)) }
    where
      go :
          (x : Exit (Unit {0}) W A)
          → Ends tt (λ _ w'. P w') (λ _ w'. P w') x
          → Ends tt (λ _ w'. P w') (λ a w'. Ends tt (λ _ w''. P w'') (λ _ w''. P w'') (f a w')) x
      go _ (goes a w' h) = goes a w' ((hf a).ends w' h)
      go _ (stops r w' h) = stops r w' h
      go _ (throws e w' h) = throws e w' h

  pub Keeps-try_catch :
      {m : Handler (Unit {0}) W A} {f : String → Handler (Unit {0}) W A}
      → Keeps P A m
      → ((e : String) → Keeps P A (f e))
      → Keeps P A (try_catch m f)
  unfolding try_catch
  Keeps-try_catch {m} {f} hm hf = record { ends = λ w h. go w (m w) (hm.ends w h) }
    where
      go :
          (w : W) (x : Exit (Unit {0}) W A)
          → Ends tt (λ _ w'. P w') (λ _ w'. P w') x
          → Ends tt (λ _ w'. P w') (λ _ w'. P w') (try_catch (λ _. x) f w)
      go w _ (goes a w' h) = goes a w' h
      go w _ (stops r w' h) = stops r w' h
      go w _ (throws e w' h) = (hf e).ends w' h

  pub Keeps-pure : (a : A) → Keeps P A (pure a)
  unfolding pure
  Keeps-pure a = record { ends = λ w h. goes _ w h }

  pub Keeps-if :
      (b : Bool) {m n : Handler (Unit {0}) W A}
      → Keeps P A m
      → Keeps P A n
      → Keeps P A (if b then m else n)
  Keeps-if true hm hn = hm
  Keeps-if false hm hn = hn
