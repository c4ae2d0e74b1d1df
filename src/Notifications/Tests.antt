-- ===== src/Notifications/Tests.antt =====
-- Preferences with quiet hours past midnight, and the theorems of
-- src/services/notificationPreferences.ts at them.
use home_hero_backend.Prelude.{arith, false, refl, some, true, ℕ, ◌%◌, ◌*◌, ◌+◌, ◌/◌, ◌<◌, ◌≡◌}
use home_hero_backend.Notifications.Preferences.{
  NotificationKind, PartialPreference, no_preference, normalize_preference,
}
use home_hero_backend.Notifications.Preferences.Normal.{
  IsConsistent, as_partial, normalize_preference-IsConsistent,
}
use home_hero_backend.Notifications.QuietHours.{
  ClockTime, Zones, clock_text, get_local_minutes_since_midnight, get_next_allowed_send_at,
  is_within_quiet_hours, local_minutes, parse_hhmm, quiet_bounds, should_send_notification,
  to_minutes_since_midnight,
}
use home_hero_backend.Notifications.QuietHours.Cyclic.{
  in_some_interval, is_within_quiet_hours-in_some_interval,
}
use home_hero_backend.Notifications.QuietHours.NextSend.{
  IsFirstAllowed, IsSteady, get_next_allowed_send_at-first,
}
use home_hero_backend.Notifications.QuietHours.Waiting.{clock_minutes}
use home_hero_backend.Text.{is_space, keep_before, non_empty, trim, trim_end, trim_start}

-- Every zone is UTC, and the clock started at midnight.
abbrev utc_clock : ℕ → ClockTime
utc_clock now = record { hours = 0; minutes = now / 60000 % 1440 }

abbrev demo_zones : Zones
demo_zones = record {
  format_to_parts = λ now zone. some (some 0, some (now / 60000 % 1440));
  utc_time = utc_clock;
}

abbrev night_owl : PartialPreference
night_owl = record no_preference {
  quiet_hours_start = some " 22:00";
  quiet_hours_end = some "07:30";
  digest_interval_minutes = some 20;
}

-- For the tests: to unfold this is to unfold the functions on preferences.
unfoldable preference_calls : Unit {0}
unfolding trim trim_start trim_end keep_before is_space non_empty clock_text parse_hhmm
    to_minutes_since_midnight get_local_minutes_since_midnight local_minutes is_within_quiet_hours
    get_next_allowed_send_at should_send_notification normalize_preference
preference_calls = tt

-- Ten minutes past eleven in the evening, and noon.
abbrev late : ℕ
late = 83400000

abbrev noon : ℕ
noon = 43200000

quiet_run :
    (quiet_bounds (normalize_preference (some night_owl)) ≡ some (1320, 450))
    × (is_within_quiet_hours demo_zones (normalize_preference (some night_owl)) late ≡ true)
    × (should_send_notification demo_zones (some night_owl) NotificationKind.bid noon ≡ true)
    × (get_next_allowed_send_at demo_zones (some night_owl) late ≡ late + 500 * 60000 + 5000)
unfolding preference_calls
quiet_run = (refl, refl, refl, refl)

in_a_day : local_minutes demo_zones late (normalize_preference (some night_owl)).timezone < 1440
unfolding preference_calls
in_a_day = ground arith

is_within_quiet_hours-in_some_interval_example :
    is_within_quiet_hours demo_zones (normalize_preference (some night_owl)) late
    ≡ in_some_interval
        (quiet_bounds (normalize_preference (some night_owl)))
        (local_minutes demo_zones late (normalize_preference (some night_owl)).timezone)
is_within_quiet_hours-in_some_interval_example =
    is_within_quiet_hours-in_some_interval demo_zones (normalize_preference (some night_owl)) late
      in_a_day

demo_zones-IsSteady :
    IsSteady demo_zones false (normalize_preference (some night_owl)).timezone late
unfolding preference_calls
demo_zones-IsSteady k le = omega arith

get_next_allowed_send_at-first_example :
    IsFirstAllowed demo_zones
      (normalize_preference (some night_owl))
      late
      (get_next_allowed_send_at demo_zones (some night_owl) late)
unfolding preference_calls
get_next_allowed_send_at-first_example =
    (get_next_allowed_send_at-first demo_zones (some night_owl) late).1 false demo_zones-IsSteady
      refl refl

-- The same clock, which shows the hour after midnight as hour 24.
abbrev zones_24 : Zones
zones_24 = record {
  format_to_parts = λ now zone. some (some 0, some (clock_minutes true (now / 60000)));
  utc_time = utc_clock;
}

zones_24-IsSteady : IsSteady zones_24 true (normalize_preference (some night_owl)).timezone late
unfolding preference_calls
zones_24-IsSteady k le = ground arith

-- The first hour after midnight, in a preference to be quiet from midnight to six: on such a clock
-- it is not quiet.
abbrev sleeper : PartialPreference
sleeper = record night_owl { quiet_hours_start = some "00:00"; quiet_hours_end = some "06:00" }

not_quiet_after_midnight :
    (is_within_quiet_hours demo_zones (normalize_preference (some sleeper)) 1800000 ≡ true)
    × (is_within_quiet_hours zones_24 (normalize_preference (some sleeper)) 1800000 ≡ false)
unfolding preference_calls
not_quiet_after_midnight = (refl, refl)

normalize_preference-IsConsistent_example :
    IsConsistent (normalize_preference (some night_owl))
    × (normalize_preference (some (as_partial (normalize_preference (some night_owl))))
        ≡ normalize_preference (some night_owl))
normalize_preference-IsConsistent_example = normalize_preference-IsConsistent (some night_owl)
