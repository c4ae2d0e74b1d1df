-- ===== src/Notifications/QuietHours.antt =====
-- src/services/notificationPreferences.ts: the quiet hours, and when they end.
pub mod Cyclic
pub mod Waiting
pub mod NextSend
use Prim.Native.Char.{Char, code}
use mathlib.Core.Option
use home_hero_backend.Prelude.{
  Bool, Option, String, false, if◌then◌else◌, leb, ltb, none, not, some, true, ℕ, ◌&&◌, ◌*◌, ◌+◌,
  ◌-◌, ◌==◌, ◌||◌,
}
use home_hero_backend.Notifications.Preferences.{
  NotificationKind, PartialPreference, Preference, is_kind_enabled, normalize_preference,
}
use home_hero_backend.Text.{non_empty, trim}

pub record ClockTime : Type 0 where
  pub hours : ℕ
  pub minutes : ℕ

-- `\d`, with the value of the digit.
abbrev pub digit_value : Char → Option ℕ
digit_value c = if leb 48 (code c) && leb (code c) 57 then some (code c - 48) else none

-- `/^(?:[01]\d|2[0-3]):[0-5]\d$/` of the four digits.
abbrev pub in_range : ℕ → ℕ → ℕ → ℕ → Option ClockTime
in_range h₁ h₀ m₁ m₀ =
    if (leb h₁ 1 || (h₁ == 2 && leb h₀ 3)) && leb m₁ 5
    then some (record { hours = 10 * h₁ + h₀; minutes = 10 * m₁ + m₀ })
    else none

abbrev pub four_digits : Option ℕ → Option ℕ → Option ℕ → Option ℕ → Option ClockTime
four_digits (some h₁) (some h₀) (some m₁) (some m₀) = in_range h₁ h₀ m₁ m₀
four_digits _ _ _ _ = none

abbrev pub five_characters : Char → Char → Char → Char → Char → Option ClockTime
five_characters a b c d e =
    if code c == 58
    then four_digits (digit_value a) (digit_value b) (digit_value d) (digit_value e)
    else none

abbrev pub ends_there : String → Option ClockTime → Option ClockTime
ends_there String.[] o = o
ends_there (String.◌∷◌ c s) o = none

unfoldable pub clock_text : String → Option ClockTime
clock_text (String.◌∷◌ a (String.◌∷◌ b (String.◌∷◌ c (String.◌∷◌ d (String.◌∷◌ e s))))) =
    ends_there s (five_characters a b c d e)
clock_text _ = none

-- The text is matched without the space around it. The source then splits the text with that
-- space, of which `Number` makes the same numbers.
unfoldable pub parse_hhmm : String → Option ClockTime
unfolding clock_text
parse_hhmm value = clock_text (trim value)

abbrev pub since_midnight : ClockTime → ℕ
since_midnight t = t.hours * 60 + t.minutes

unfoldable pub to_minutes_since_midnight : String → Option ℕ
to_minutes_since_midnight hhmm = Option.map since_midnight (parse_hhmm hhmm)

-- The platform's formatter of a time in a time zone, with the numbers of the hour and the minute,
-- each none where it is missing or no number; it throws where the zone is unknown, which is none.
-- And the hours and minutes of UTC.
pub record Zones : Type 0 where
  pub format_to_parts : ℕ → String → Option (Option ℕ × Option ℕ)
  pub utc_time : ℕ → ClockTime

abbrev minutes_of_parts : ClockTime → Option ℕ × Option ℕ → ℕ
minutes_of_parts utc (some hours, some minutes) = hours * 60 + minutes
minutes_of_parts utc _ = since_midnight utc

unfoldable pub get_local_minutes_since_midnight : Zones → ℕ → String → Option ℕ
get_local_minutes_since_midnight zones now timezone =
    Option.map (minutes_of_parts (zones.utc_time now)) (zones.format_to_parts now timezone)

-- `pref.timezone || DEFAULT_TIMEZONE`.
abbrev zone_or_utc : Option String → String
zone_or_utc none = "UTC"
zone_or_utc (some zone) = zone

-- An unknown zone is as UTC, which every platform knows.
unfoldable pub local_minutes : Zones → ℕ → String → ℕ
unfolding get_local_minutes_since_midnight
local_minutes zones now timezone =
    elim (get_local_minutes_since_midnight zones now (zone_or_utc (non_empty timezone))) [
      | some t ↦ t
      | none ↦ elim (get_local_minutes_since_midnight zones now "UTC") [
        | some t ↦ t
        | none ↦ since_midnight (zones.utc_time now)
      ]
    ]

-- `pref.quietHoursStart ? toMinutesSinceMidnight(pref.quietHoursStart) : null`.
abbrev pub minutes_of : Option String → Option ℕ
minutes_of none = none
minutes_of (some s) = to_minutes_since_midnight s

abbrev pub bound_of : Option String → Option ℕ
bound_of none = none
bound_of (some s) = minutes_of (non_empty s)

-- The two bounds, where there are quiet hours.
abbrev pub bounds_of : Option ℕ → Option ℕ → Option (ℕ × ℕ)
bounds_of (some start) (some end) = if start == end then none else some (start, end)
bounds_of _ _ = none

abbrev pub quiet_at : ℕ → ℕ → ℕ → Bool
quiet_at start end t = if ltb start end then leb start t && ltb t end else leb start t || ltb t end

abbrev pub quiet_bounds : Preference → Option (ℕ × ℕ)
quiet_bounds pref = bounds_of (bound_of pref.quiet_hours_start) (bound_of pref.quiet_hours_end)

abbrev pub quiet_between : Option (ℕ × ℕ) → ℕ → Bool
quiet_between none t = false
quiet_between (some (start, end)) t = quiet_at start end t

unfoldable pub is_within_quiet_hours : Zones → Preference → ℕ → Bool
is_within_quiet_hours zones pref now =
    quiet_between (quiet_bounds pref) (local_minutes zones now pref.timezone)

-- `now.getTime() + minutesUntilEnd * 60_000 + 5_000`. The subtraction from a later time comes
-- last, so that it does not stop at 0.
abbrev pub after_quiet : ℕ → ℕ → ℕ → ℕ → ℕ
after_quiet start end t now =
    if not (ltb start end) && leb start t
    then now + (1440 + end) * 60000 + 5000 - t * 60000
    else now + (end - t) * 60000 + 5000

-- With the bounds, the local minutes, and whether it is quiet.
abbrev pub next_allowed : Option (ℕ × ℕ) → ℕ → Bool → ℕ → ℕ
next_allowed none t quiet now = now
next_allowed (some (start, end)) t false now = now
next_allowed (some (start, end)) t true now = after_quiet start end t now

unfoldable pub get_next_allowed_send_at : Zones → Option PartialPreference → ℕ → ℕ
get_next_allowed_send_at zones pref_input now =
    let pref = normalize_preference pref_input in
    next_allowed (quiet_bounds pref) (local_minutes zones now pref.timezone)
      (is_within_quiet_hours zones pref now) now

unfoldable pub should_send_notification :
    Zones → Option PartialPreference → NotificationKind → ℕ → Bool
should_send_notification zones pref_input kind now =
    let pref = normalize_preference pref_input in
    if not (is_kind_enabled pref kind)
    then false
    else if is_within_quiet_hours zones pref now
    then false
    else true
