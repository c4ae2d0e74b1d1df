-- ===== src/Notifications/Preferences.antt =====
-- src/services/notificationPreferences.ts: the preferences of a user, filled in.
pub mod Normal
use mathlib.Core.Option
use home_hero_backend.Prelude.{
  Bool, Option, String, false, if◌then◌else◌, none, some, true, ℕ, ◌==◌, ◌||◌,
}

pub data DeliveryMode : Type 0 where
  instant digest : DeliveryMode

pub data NotificationKind : Type 0 where
  job_match bid message : NotificationKind

-- A row or a part of one: a field that is missing or null is none, and so is a mode that is neither
-- of the two. The intervals are whole numbers, as the table has them.
pub record PartialPreference : Type 0 where
  pub job_match_enabled : Option Bool
  pub job_match_digest_enabled : Option Bool
  pub job_match_digest_interval_minutes : Option ℕ
  pub job_match_digest_last_sent_at : Option ℕ
  pub match_delivery_mode : Option DeliveryMode
  pub digest_interval_minutes : Option ℕ
  pub bid_enabled : Option Bool
  pub message_enabled : Option Bool
  pub quiet_hours_start : Option String
  pub quiet_hours_end : Option String
  pub timezone : Option String

pub record Preference : Type 0 where
  pub job_match_enabled : Bool
  pub job_match_digest_enabled : Bool
  pub job_match_digest_interval_minutes : ℕ
  pub job_match_digest_last_sent_at : Option ℕ
  pub match_delivery_mode : DeliveryMode
  pub digest_interval_minutes : ℕ
  pub bid_enabled : Bool
  pub message_enabled : Bool
  pub quiet_hours_start : Option String
  pub quiet_hours_end : Option String
  pub timezone : String

-- `a ?? b`.
abbrev pub or_default : {A : Type 0} → A → Option A → A
or_default b none = b
or_default b (some a) = a

abbrev pub first_of : {A : Type 0} → Option A → Option A → Option A
first_of none b = b
first_of (some a) b = some a

abbrev pub is_digest : DeliveryMode → Bool
is_digest DeliveryMode.digest = true
is_digest DeliveryMode.instant = false

abbrev pub is_allowed_interval : ℕ → Bool
is_allowed_interval n = n == 15 || n == 30 || n == 60

abbrev pub normalize_digest_interval_minutes : Option ℕ → ℕ
normalize_digest_interval_minutes none = 15
normalize_digest_interval_minutes (some n) = if is_allowed_interval n then n else 15

abbrev pub delivery_mode_of : Option DeliveryMode → Option Bool → DeliveryMode
delivery_mode_of mode legacy =
    or_default (if or_default false legacy then DeliveryMode.digest else DeliveryMode.instant) mode

abbrev pub no_preference : PartialPreference
no_preference = record {
  job_match_enabled = none;
  job_match_digest_enabled = none;
  job_match_digest_interval_minutes = none;
  job_match_digest_last_sent_at = none;
  match_delivery_mode = none;
  digest_interval_minutes = none;
  bid_enabled = none;
  message_enabled = none;
  quiet_hours_start = none;
  quiet_hours_end = none;
  timezone = none;
}

abbrev pub fill_in : PartialPreference → Preference
fill_in p =
    let mode = delivery_mode_of p.match_delivery_mode p.job_match_digest_enabled in
    let minutes =
      normalize_digest_interval_minutes
        (first_of p.digest_interval_minutes p.job_match_digest_interval_minutes) in
    record {
      job_match_enabled = or_default true p.job_match_enabled;
      job_match_digest_enabled = is_digest mode;
      job_match_digest_interval_minutes = minutes;
      job_match_digest_last_sent_at = p.job_match_digest_last_sent_at;
      match_delivery_mode = mode;
      digest_interval_minutes = minutes;
      bid_enabled = or_default true p.bid_enabled;
      message_enabled = or_default true p.message_enabled;
      quiet_hours_start = p.quiet_hours_start;
      quiet_hours_end = p.quiet_hours_end;
      timezone = or_default "UTC" p.timezone;
    }

-- A missing row is as one without fields.
unfoldable pub normalize_preference : Option PartialPreference → Preference
normalize_preference pref = fill_in (or_default no_preference pref)

abbrev pub is_kind_enabled : Preference → NotificationKind → Bool
is_kind_enabled pref NotificationKind.job_match = pref.job_match_enabled
is_kind_enabled pref NotificationKind.bid = pref.bid_enabled
is_kind_enabled pref NotificationKind.message = pref.message_enabled
