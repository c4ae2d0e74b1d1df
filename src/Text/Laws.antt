-- ===== src/Text/Laws.antt =====
-- `trim` of a text that was trimmed, and of texts without white space.
use Prim.Native.Char.{Char}
use home_hero_backend.Prelude.{Bool-cases, String, ap, false, inl, inr, refl, ◌∙◌, ◌≡◌}
use home_hero_backend.Text.{is_space, keep_before, trim, trim_end, trim_start}

trim_end-keep_before :
    (c : Char) (r : String) → trim_end r ≡ r → trim_end (keep_before c r) ≡ keep_before c r
unfolding trim_end keep_before
trim_end-keep_before c String.[] h = elim (Bool-cases (is_space c)) [
  | inl e ↦ rw (e, trim_end) refl
  | inr e ↦ rw (e, trim_end, e) refl
]
trim_end-keep_before c (String.◌∷◌ d s) h = rw h refl

trim_end_idem : (s : String) → trim_end (trim_end s) ≡ trim_end s
unfolding trim_end
trim_end_idem String.[] = refl
trim_end_idem (String.◌∷◌ c s) = trim_end-keep_before c (trim_end s) (trim_end_idem s)

trim_start-keep_before :
    (c : Char) (r : String) → is_space c ≡ false → trim_start (keep_before c r) ≡ keep_before c r
unfolding trim_start keep_before
trim_start-keep_before c String.[] h = rw (h, trim_start, h) refl
trim_start-keep_before c (String.◌∷◌ d s) h = rw h refl

trim_start-trim : (s : String) → trim_start (trim_end (trim_start s)) ≡ trim_end (trim_start s)
unfolding trim_start trim_end
trim_start-trim String.[] = refl
trim_start-trim (String.◌∷◌ c s) = elim (Bool-cases (is_space c)) [
  | inl e ↦ rw e (trim_start-trim s)
  | inr e ↦ rw e (trim_start-keep_before c (trim_end s) e)
]

pub trim_idem : (s : String) → trim (trim s) ≡ trim s
unfolding trim
trim_idem s = ap trim_end (trim_start-trim s) ∙ trim_end_idem (trim_start s)
