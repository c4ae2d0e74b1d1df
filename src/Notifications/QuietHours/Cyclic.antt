-- ===== src/Notifications/QuietHours/Cyclic.antt =====
-- src/services/notificationPreferences.ts: the quiet hours as an interval on the circle of a day.
use Prim.Native.Char.{Char, code}
use mathlib.Core.Option.{some-injective}
use mathlib.Core.Option
use home_hero_backend.Prelude.{
  Bool, Bool-cases, Option, String, ap, arith, false, inl, inr, leb, leb→le, ltb, none, refl, some,
  subst, sym, ℕ, ◌%◌, ◌&&◌, ◌*◌, ◌+◌, ◌-◌, ◌<◌, ◌==◌, ◌||◌, ◌∙◌, ◌≡◌, ◌≤◌, ◌⊎◌,
}
use home_hero_backend.Notifications.Preferences.{Preference}
use home_hero_backend.Notifications.QuietHours.{
  ClockTime, Zones, bound_of, bounds_of, clock_text, digit_value, five_characters, four_digits,
  in_range, is_within_quiet_hours, local_minutes, minutes_of, parse_hhmm, quiet_at, quiet_between,
  quiet_bounds, since_midnight, to_minutes_since_midnight,
}
use home_hero_backend.Text.{non_empty, trim}

-- The minutes from one time of the day to the next occurrence of another.
abbrev pub minutes_from : ℕ → ℕ → ℕ
minutes_from a b = (b + 1440 - a) % 1440

-- A time is quiet where the last start of the quiet hours is not as long ago as they last.
abbrev pub in_interval : ℕ → ℕ → ℕ → Bool
in_interval start end t = ltb (minutes_from start t) (minutes_from start end)

minutes_from-cases :
    (a b : ℕ)
    → a < 1440
    → b < 1440
    → ((a ≤ b) × (minutes_from a b ≡ b - a)) ⊎ ((b < a) × (minutes_from a b ≡ b + 1440 - a))
minutes_from-cases a b ha hb = elim (Bool-cases (leb a b)) [
  | inl e ↦ let le = leb→le a b e in inl (le, omega (arith, le))
  | inr e ↦ let lt : b < a = ground arith in inr (lt, omega (arith, lt))
]

quiet_at-in_interval :
    (start end t : ℕ)
    → start < 1440
    → end < 1440
    → t < 1440
    → (start == end) ≡ false
    → quiet_at start end t ≡ in_interval start end t
quiet_at-in_interval start end t hs he ht differ = elim (minutes_from-cases start t hs ht) [
  | inl (le, e) ↦ elim (minutes_from-cases start end hs he) [
    | inl (le', e') ↦ rw (e, e') (ground arith)
    | inr (lt', e') ↦ rw (e, e') (ground arith)
  ]
  | inr (lt, e) ↦ elim (minutes_from-cases start end hs he) [
    | inl (le', e') ↦ rw (e, e') (ground arith)
    | inr (lt', e') ↦ rw (e, e') (ground arith)
  ]
]

IsTimeOfDay : ClockTime → Type 0
IsTimeOfDay t = (t.hours < 24) × (t.minutes < 60)

digit_value-bounded : (c : Char) {n : ℕ} → digit_value c ≡ some n → n < 10
digit_value-bounded c e = ground arith

in_range-IsTimeOfDay :
    (h₁ h₀ m₁ m₀ : ℕ) {t : ClockTime}
    → h₀ < 10
    → m₀ < 10
    → in_range h₁ h₀ m₁ m₀ ≡ some t
    → IsTimeOfDay t
unfolding IsTimeOfDay
in_range-IsTimeOfDay h₁ h₀ m₁ m₀ {t} bh bm e =
    elim (Bool-cases ((leb h₁ 1 || (h₁ == 2 && leb h₀ 3)) && leb m₁ 5)) [
      | inl ok ↦
          let time : ClockTime = record { hours = 10 * h₁ + h₀; minutes = 10 * m₁ + m₀ } in
          let known : in_range h₁ h₀ m₁ m₀ ≡ some time = rw ok refl in
          subst IsTimeOfDay (some-injective time t (sym known ∙ e)) (ground arith, ground arith)
      | inr no_time ↦ absurd (ground arith)
    ]

four_digits-IsTimeOfDay :
    (a b c d : Option ℕ) {t : ClockTime}
    → ((n : ℕ) → b ≡ some n → n < 10)
    → ((n : ℕ) → d ≡ some n → n < 10)
    → four_digits a b c d ≡ some t
    → IsTimeOfDay t
four_digits-IsTimeOfDay (some h₁) (some h₀) (some m₁) (some m₀) hb hd e =
    in_range-IsTimeOfDay h₁ h₀ m₁ m₀ (hb h₀ refl) (hd m₀ refl) e
four_digits-IsTimeOfDay none b c d hb hd e = absurd (cc)
four_digits-IsTimeOfDay (some h₁) none c d hb hd e = absurd (cc)
four_digits-IsTimeOfDay (some h₁) (some h₀) none d hb hd e = absurd (cc)
four_digits-IsTimeOfDay (some h₁) (some h₀) (some m₁) none hb hd e = absurd (cc)

five_characters-IsTimeOfDay :
    (a b c d e : Char) {t : ClockTime} → five_characters a b c d e ≡ some t → IsTimeOfDay t
five_characters-IsTimeOfDay a b c d e {t} h = elim (Bool-cases (code c == 58)) [
  | inl colon ↦
      four_digits-IsTimeOfDay (digit_value a) (digit_value b) (digit_value d) (digit_value e)
        (λ n f. digit_value-bounded b f) (λ n f. digit_value-bounded e f) (ground arith)
  | inr other ↦ absurd (ground arith)
]

clock_text-IsTimeOfDay : (s : String) {t : ClockTime} → clock_text s ≡ some t → IsTimeOfDay t
unfolding clock_text
clock_text-IsTimeOfDay
      (String.◌∷◌ a (String.◌∷◌ b (String.◌∷◌ c (String.◌∷◌ d (String.◌∷◌ e String.[]))))) h =
    five_characters-IsTimeOfDay a b c d e h
clock_text-IsTimeOfDay
      (String.◌∷◌ a (String.◌∷◌ b (String.◌∷◌ c (String.◌∷◌ d (String.◌∷◌ e (String.◌∷◌ f s))))))
      h =
    absurd (cc)
clock_text-IsTimeOfDay String.[] h = absurd (cc)
clock_text-IsTimeOfDay (String.◌∷◌ a String.[]) h = absurd (cc)
clock_text-IsTimeOfDay (String.◌∷◌ a (String.◌∷◌ b String.[])) h = absurd (cc)
clock_text-IsTimeOfDay (String.◌∷◌ a (String.◌∷◌ b (String.◌∷◌ c String.[]))) h = absurd (cc)
clock_text-IsTimeOfDay (String.◌∷◌ a (String.◌∷◌ b (String.◌∷◌ c (String.◌∷◌ d String.[])))) h =
    absurd (cc)

since_midnight-bounded :
    (o : Option ClockTime) {n : ℕ}
    → ((t : ClockTime) → o ≡ some t → IsTimeOfDay t)
    → Option.map since_midnight o ≡ some n
    → n < 1440
unfolding IsTimeOfDay
since_midnight-bounded none times e = absurd (cc)
since_midnight-bounded (some t) {n} times e =
    let (hours, minutes) = times t refl in
    let same : since_midnight t ≡ n = some-injective (since_midnight t) n e in
    subst (λ k. k < 1440) same (omega (arith, hours, minutes))

minutes_of-bounded : (o : Option String) {n : ℕ} → minutes_of o ≡ some n → n < 1440
unfolding to_minutes_since_midnight parse_hhmm
minutes_of-bounded none e = absurd (cc)
minutes_of-bounded (some s) e =
    since_midnight-bounded (clock_text (trim s)) (λ t f. clock_text-IsTimeOfDay (trim s) f) e

pub bound_of-bounded : (o : Option String) {n : ℕ} → bound_of o ≡ some n → n < 1440
bound_of-bounded none e = absurd (cc)
bound_of-bounded (some s) e = minutes_of-bounded (non_empty s) e

-- Two bounds of a day that differ.
pub bounds_of-some :
    (o o' : Option ℕ) {start end : ℕ}
    → bounds_of o o' ≡ some (start, end)
    → (o ≡ some start) × (o' ≡ some end) × ((start == end) ≡ false)
bounds_of-some none o' e = absurd (cc)
bounds_of-some (some a) none e = absurd (cc)
bounds_of-some (some a) (some b) {start} {end} e = elim (Bool-cases (a == b)) [
  | inl same ↦ absurd (ground arith)
  | inr differ ↦
      let known : bounds_of (some a) (some b) ≡ some (a, b) = rw differ refl in
      let pair : (a, b) ≡ (start, end) = some-injective (a, b) (start, end) (sym known ∙ e) in
      let first = ap (λ (p : ℕ × ℕ). p.0) pair in
      let second = ap (λ (p : ℕ × ℕ). p.1) pair in
      (ap some first, ap some second, rw (← first, ← second) differ)
]

abbrev pub IsDayBounds : ℕ → ℕ → Type 0
IsDayBounds start end = (start < 1440) × (end < 1440) × ((start == end) ≡ false)

pub quiet_bounds-IsDayBounds :
    (pref : Preference) {start end : ℕ}
    → quiet_bounds pref ≡ some (start, end)
    → IsDayBounds start end
quiet_bounds-IsDayBounds pref e =
    let (first, second, differ) =
      bounds_of-some (bound_of pref.quiet_hours_start) (bound_of pref.quiet_hours_end) e in
    (
      bound_of-bounded pref.quiet_hours_start first,
      bound_of-bounded pref.quiet_hours_end second,
      differ,
    )

-- The quiet hours of a preference as such an interval.
abbrev pub in_some_interval : Option (ℕ × ℕ) → ℕ → Bool
in_some_interval none t = false
in_some_interval (some (start, end)) t = in_interval start end t

quiet_between-in_some_interval :
    (pref : Preference) (o : Option (ℕ × ℕ)) (t : ℕ)
    → quiet_bounds pref ≡ o
    → t < 1440
    → quiet_between o t ≡ in_some_interval o t
quiet_between-in_some_interval pref none t e day = refl
quiet_between-in_some_interval pref (some (start, end)) t e day =
    let (hs, he, differ) = quiet_bounds-IsDayBounds pref e in
    quiet_at-in_interval start end t hs he day differ

-- Where the clock of the user's zone shows a time of the day, `isWithinQuietHours` says whether it
-- is in the interval on the circle of the day from the start of the quiet hours, with it, to their
-- end, without it, whether or not they go past midnight; two equal bounds, or one that is missing
-- or no time, are no quiet hours.
pub is_within_quiet_hours-in_some_interval :
    (zones : Zones) (pref : Preference) (now : ℕ)
    → local_minutes zones now pref.timezone < 1440
    → is_within_quiet_hours zones pref now
      ≡ in_some_interval (quiet_bounds pref) (local_minutes zones now pref.timezone)
unfolding is_within_quiet_hours
is_within_quiet_hours-in_some_interval zones pref now day =
    quiet_between-in_some_interval pref (quiet_bounds pref) _ refl day
