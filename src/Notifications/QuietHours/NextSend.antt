-- ===== src/Notifications/QuietHours/NextSend.antt =====
-- src/services/notificationPreferences.ts: the time that `getNextAllowedSendAt` gives.
use home_hero_backend.Prelude.{
  Bool, Option, String, ap, arith, false, none, refl, some, sym, true, ℕ, ◌&&◌, ◌*◌, ◌+◌, ◌<◌, ◌∙◌,
  ◌≡◌, ◌≤◌,
}
use home_hero_backend.Notifications.Preferences.{
  PartialPreference, Preference, normalize_preference,
}
use home_hero_backend.Notifications.QuietHours.{
  Zones, get_next_allowed_send_at, is_within_quiet_hours, local_minutes, next_allowed,
  quiet_between, quiet_bounds,
}
use home_hero_backend.Notifications.QuietHours.Cyclic.{quiet_bounds-IsDayBounds}
use home_hero_backend.Notifications.QuietHours.Waiting.{
  IsShown, clock_minutes, ends_after_midnight, quiet_over, quiet_until, wait_minutes,
  wait_minutes-after_quiet, wait_minutes-bounded,
}

-- The clock of the zone runs evenly for the day after `now`; it shows the hour after midnight as
-- hour 0, or always as hour 24.
abbrev pub IsSteady : Zones → Bool → String → ℕ → Type 0
IsSteady zones from_24 timezone now =
    (k : ℕ)
    → k ≤ 1440
    → local_minutes zones (now + k * 60000) timezone
      ≡ clock_minutes from_24 (local_minutes zones now timezone + k)

abbrev pub some_end_after_midnight : Option (ℕ × ℕ) → Bool
some_end_after_midnight none = false
some_end_after_midnight (some (start, end)) = ends_after_midnight start end

-- The answer is the first whole number of minutes after `now` at which it is not quiet, and five
-- seconds.
abbrev pub IsFirstAllowed : Zones → Preference → ℕ → ℕ → Type 0
IsFirstAllowed zones pref now answer =
    (m : ℕ) × (answer ≡ now + m * 60000 + 5000)
    × (is_within_quiet_hours zones pref (now + m * 60000) ≡ false)
    × ((k : ℕ) → k < m → is_within_quiet_hours zones pref (now + k * 60000) ≡ true)

module _ (zones : Zones) (pref : Preference) (now : ℕ) (from_24 : Bool)
    (steady : IsSteady zones from_24 pref.timezone now) where
  abbrev local_now : ℕ
  local_now = local_minutes zones now pref.timezone

  local_shown : local_now ≡ clock_minutes from_24 local_now
  local_shown =
      let at : now + 0 * 60000 ≡ now = omega arith in
      let same : local_now + 0 ≡ local_now = omega arith in
      sym (ap (λ x. local_minutes zones x pref.timezone) at)
      ∙ steady 0 (ground arith)
      ∙ ap (clock_minutes from_24) same

  -- Whether it is quiet some minutes later, by the bounds.
  quiet_later :
      (o : Option (ℕ × ℕ)) (k : ℕ)
      → quiet_bounds pref ≡ o
      → k ≤ 1440
      → is_within_quiet_hours zones pref (now + k * 60000)
        ≡ quiet_between o (clock_minutes from_24 (local_now + k))
  unfolding is_within_quiet_hours
  quiet_later o k e le =
      ap (quiet_between (quiet_bounds pref)) (steady k le)
      ∙ ap (λ p. quiet_between p (clock_minutes from_24 (local_now + k))) e

  next_allowed-first :
      (o : Option (ℕ × ℕ))
      → quiet_bounds pref ≡ o
      → (from_24 && some_end_after_midnight o) ≡ false
      → quiet_between o local_now ≡ true
      → IsFirstAllowed zones pref now (next_allowed o local_now true now)
  next_allowed-first none e clear quiet = absurd (cc)
  next_allowed-first (some (start, end)) e clear quiet =
      let (hs, he, differ) = quiet_bounds-IsDayBounds pref e in
      let wait = wait_minutes start end local_now in
      let bounded = wait_minutes-bounded start end local_now hs he differ in
      let shown : IsShown from_24 start end local_now = (local_shown, clear) in
      (
        wait,
        wait_minutes-after_quiet from_24 start end local_now now he differ shown quiet,
        quiet_later (some (start, end)) wait e bounded
            ∙ quiet_over from_24 start end local_now hs he differ shown quiet,
        λ k before.
            quiet_later (some (start, end)) k e (omega (arith, before, bounded))
            ∙ quiet_until from_24 start end local_now hs he differ shown quiet k before,
      )

next_allowed-not_quiet : (now : ℕ) (o : Option (ℕ × ℕ)) (t : ℕ) → next_allowed o t false now ≡ now
next_allowed-not_quiet now none t = refl
next_allowed-not_quiet now (some (start, end)) t = refl

within :
    (zones : Zones) (pref : Preference) (now : ℕ)
    → is_within_quiet_hours zones pref now ≡ true
    → quiet_between (quiet_bounds pref) (local_minutes zones now pref.timezone) ≡ true
unfolding is_within_quiet_hours
within zones pref now quiet = quiet

-- Where `isWithinQuietHours` says no, `getNextAllowedSendAt` gives the time itself, whatever the
-- clock. Where it says yes, and the clock of the user's zone runs evenly for the next day, it gives
-- the first whole number of minutes later at which `isWithinQuietHours` says no, and five seconds:
-- for a clock that shows the hour after midnight as hour 0, and, unless the quiet hours wrap
-- midnight and end in that hour, for one that shows it as hour 24.
pub get_next_allowed_send_at-first :
    (zones : Zones) (input : Option PartialPreference) (now : ℕ)
    → (is_within_quiet_hours zones (normalize_preference input) now ≡ false
        → get_next_allowed_send_at zones input now ≡ now)
      × ((from_24 : Bool)
          → IsSteady zones from_24 (normalize_preference input).timezone now
          → (from_24 && some_end_after_midnight (quiet_bounds (normalize_preference input))) ≡ false
          → is_within_quiet_hours zones (normalize_preference input) now ≡ true
          → IsFirstAllowed zones
              (normalize_preference input)
              now
              (get_next_allowed_send_at zones input now))
unfolding get_next_allowed_send_at
get_next_allowed_send_at-first zones input now =
    let pref = normalize_preference input in
    (
      (λ quiet. rw quiet (next_allowed-not_quiet now (quiet_bounds pref) _)),
      (λ from_24 steady clear quiet. rw quiet (
          next_allowed-first zones pref now from_24 steady (quiet_bounds pref) refl clear
            (within zones pref now quiet))),
    )
