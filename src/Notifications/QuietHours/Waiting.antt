-- ===== src/Notifications/QuietHours/Waiting.antt =====
-- src/services/notificationPreferences.ts: the minutes until quiet hours end, on a clock of the day.
use home_hero_backend.Prelude.{
  Bool, Bool-cases, arith, false, if◌then◌else◌, inl, inr, leb, ltb, ltb→lt, lt→ltb, not, refl,
  true, ℕ, ◌%◌, ◌&&◌, ◌*◌, ◌+◌, ◌-◌, ◌<◌, ◌==◌, ◌||◌, ◌∙◌, ◌≡◌, ◌≤◌, ◌⊎◌,
}
use home_hero_backend.Notifications.QuietHours.{after_quiet, quiet_at}

-- The minutes until the quiet hours end.
unfoldable pub wait_minutes : ℕ → ℕ → ℕ → ℕ
wait_minutes start end t = if not (ltb start end) && leb start t then 1440 + end - t else end - t

day_cases :
    (m : ℕ) → m < 2880 → ((m < 1440) × (m % 1440 ≡ m)) ⊎ ((1440 ≤ m) × (m % 1440 ≡ m - 1440))
day_cases m h = elim (Bool-cases (ltb m 1440)) [
  | inl e ↦ let lt = ltb→lt m 1440 e in inl (lt, omega (arith, lt))
  | inr e ↦ let le : 1440 ≤ m = ground arith in inr (le, omega (arith, le, h))
]

-- The minutes of a clock of the day, some minutes after a midnight. One that shows the hour after
-- midnight as hour 24 adds a day to it.
abbrev pub clock_minutes : Bool → ℕ → ℕ
clock_minutes from_24 m = if from_24 && ltb (m % 1440) 60 then m % 1440 + 1440 else m % 1440

-- The quiet hours wrap midnight and end in the hour after it.
abbrev pub ends_after_midnight : ℕ → ℕ → Bool
ends_after_midnight start end = ltb end start && ltb end 60

clock_cases :
    (from_24 : Bool) (m : ℕ)
    → ((from_24 ≡ true) × (m % 1440 < 60) × (clock_minutes from_24 m ≡ m % 1440 + 1440))
      ⊎ (clock_minutes from_24 m ≡ m % 1440)
clock_cases false m = inr refl
clock_cases true m = elim (Bool-cases (ltb (m % 1440) 60)) [
  | inl e ↦ inl (refl, ltb→lt _ _ e, rw e refl)
  | inr e ↦ inr (rw e refl)
]

-- What such a clock shows, where no quiet hours end in the hour that it shows as 24.
abbrev pub IsShown : Bool → ℕ → ℕ → ℕ → Type 0
IsShown from_24 start end t =
    (t ≡ clock_minutes from_24 t) × ((from_24 && ends_after_midnight start end) ≡ false)

-- Such a clock shows no minute of the first hour.
after_first_hour : (t : ℕ) → t < 1440 → t ≡ clock_minutes true t → 60 ≤ t
after_first_hour t day shown = elim (Bool-cases (ltb (t % 1440) 60)) [
  | inl e ↦ let same : t ≡ t % 1440 + 1440 = rw e at shown in absurd (omega (arith, day, same))
  | inr e ↦ let same : t % 1440 ≡ t = omega (arith, day) in ground arith
]

ends_later :
    (start end : ℕ)
    → (start == end) ≡ false
    → ltb start end ≡ false
    → ends_after_midnight start end ≡ false
    → 60 ≤ end
ends_later start end differ wraps clear = ground arith

-- In quiet hours that wrap midnight the clock is not past the end of the next day's.
shown_before_end :
    (from_24 : Bool) (start end t : ℕ)
    → end < 1440
    → IsShown from_24 start end t
    → (start == end) ≡ false
    → ltb start end ≡ false
    → t ≤ 1440 + end
shown_before_end false start end t he (shown, clear) differ wraps = omega (arith, shown)
shown_before_end true start end t he (shown, clear) differ wraps =
    elim (Bool-cases (ltb (t % 1440) 60)) [
      | inl e ↦
          let same : t ≡ t % 1440 + 1440 = rw e at shown in
          let late = ends_later start end differ wraps clear in
          let hour = ltb→lt (t % 1440) 60 e in omega (arith, same, hour, late)
      | inr e ↦ let same : t ≡ t % 1440 = rw e at shown in omega (arith, same)
    ]

-- Before the end, on the same day and on the next.
quiet_at_day :
    (from_24 : Bool) (start end t m : ℕ)
    → ltb start end ≡ true
    → end < 1440
    → start ≤ t
    → t ≤ m
    → m ≤ end
    → t ≡ clock_minutes from_24 t
    → quiet_at start end (clock_minutes from_24 m) ≡ ltb m end
quiet_at_day false start end t m e he from later until shown =
    let day : m % 1440 ≡ m = omega (arith, until, he) in rw day (ground arith)
quiet_at_day true start end t m e he from later until shown =
    let day : m % 1440 ≡ m = omega (arith, until, he) in
    let lt = ltb→lt start end e in
    let first = after_first_hour t (omega (arith, later, until, he)) shown in rw day (ground arith)

quiet_at_wrap :
    (from_24 : Bool) (start end m : ℕ)
    → ltb start end ≡ false
    → (start == end) ≡ false
    → start < 1440
    → (from_24 && ends_after_midnight start end) ≡ false
    → quiet_at start end (clock_minutes from_24 m) ≡ (leb start (m % 1440) || ltb (m % 1440) end)
quiet_at_wrap false start end m e differ hs clear = ground arith
quiet_at_wrap true start end m e differ hs clear =
    let late = ends_later start end differ e clear in ground arith

-- While it is quiet, the end is that many minutes away, and before that it stays quiet.
pub quiet_until :
    (from_24 : Bool) (start end t : ℕ)
    → start < 1440
    → end < 1440
    → (start == end) ≡ false
    → IsShown from_24 start end t
    → quiet_at start end t ≡ true
    → (k : ℕ) → k < wait_minutes start end t
    → quiet_at start end (clock_minutes from_24 (t + k)) ≡ true
unfolding wait_minutes
quiet_until from_24 start end t hs he differ (shown, clear) quiet k before =
    elim (Bool-cases (ltb start end)) [
      | inl e ↦
          let from : start ≤ t = ground arith in
          let soon : t + k < end = ground arith in
          quiet_at_day from_24 start end t (t + k) e he from (omega arith) (omega (arith, soon))
            shown
          ∙ lt→ltb (t + k) end soon
      | inr e ↦
          quiet_at_wrap from_24 start end (t + k) e differ hs clear
          ∙ elim (Bool-cases (leb start t)) [
            | inl f ↦ elim (day_cases (t + k) (ground arith)) [
              | inl (lt, m) ↦ rw m (ground arith)
              | inr (le, m) ↦ rw m (ground arith)
            ]
            | inr f ↦ elim (day_cases (t + k) (ground arith)) [
              | inl (lt, m) ↦ rw m (ground arith)
              | inr (le, m) ↦ absurd (ground arith)
            ]
          ]
    ]

pub quiet_over :
    (from_24 : Bool) (start end t : ℕ)
    → start < 1440
    → end < 1440
    → (start == end) ≡ false
    → IsShown from_24 start end t
    → quiet_at start end t ≡ true
    → quiet_at start end (clock_minutes from_24 (t + wait_minutes start end t)) ≡ false
unfolding wait_minutes
quiet_over from_24 start end t hs he differ (shown, clear) quiet =
    elim (Bool-cases (ltb start end)) [
      | inl e ↦
          let from : start ≤ t = ground arith in
          let soon : t ≤ end = ground arith in
          let there : t + wait_minutes start end t ≡ end = ground arith in
          rw there
            (quiet_at_day from_24 start end t end e he from soon (omega arith) shown ∙ ground arith)
      | inr e ↦
          let day : end % 1440 ≡ end = omega (arith, he) in
          let next_day : (1440 + end) % 1440 ≡ end = omega (arith, he) in
          let before = shown_before_end from_24 start end t he (shown, clear) differ e in
          elim (Bool-cases (leb start t)) [
            | inl f ↦
                let there : t + wait_minutes start end t ≡ 1440 + end = ground arith in
                rw there (
                  quiet_at_wrap from_24 start end (1440 + end) e differ hs clear
                  ∙ rw next_day (ground arith))
            | inr f ↦
                let there : t + wait_minutes start end t ≡ end = ground arith in
                rw there
                  (quiet_at_wrap from_24 start end end e differ hs clear ∙ rw day (ground arith))
          ]
    ]

pub wait_minutes-after_quiet :
    (from_24 : Bool) (start end t now : ℕ)
    → end < 1440
    → (start == end) ≡ false
    → IsShown from_24 start end t
    → quiet_at start end t ≡ true
    → after_quiet start end t now ≡ now + wait_minutes start end t * 60000 + 5000
unfolding wait_minutes
wait_minutes-after_quiet from_24 start end t now he differ shown quiet =
    elim (Bool-cases (ltb start end)) [
      | inl e ↦ ground arith
      | inr e ↦ let before = shown_before_end from_24 start end t he shown differ e in ground arith
    ]

pub wait_minutes-bounded :
    (start end t : ℕ)
    → start < 1440
    → end < 1440
    → (start == end) ≡ false
    → wait_minutes start end t ≤ 1440
unfolding wait_minutes
wait_minutes-bounded start end t hs he differ = ground arith
