-- ===== src/Notifications/Preferences/Normal.antt =====
-- src/services/notificationPreferences.ts: the preferences that `normalizePreference` gives.
use home_hero_backend.Prelude.{Bool-cases, Option, inl, inr, none, refl, some, true, ℕ, ◌≡◌}
use home_hero_backend.Notifications.Preferences.{
  PartialPreference, Preference, first_of, is_allowed_interval, is_digest, no_preference,
  normalize_digest_interval_minutes, normalize_preference, or_default,
}

-- Filled-in preferences as the fields of a row.
abbrev pub as_partial : Preference → PartialPreference
as_partial p = record {
  job_match_enabled = some p.job_match_enabled;
  job_match_digest_enabled = some p.job_match_digest_enabled;
  job_match_digest_interval_minutes = some p.job_match_digest_interval_minutes;
  job_match_digest_last_sent_at = p.job_match_digest_last_sent_at;
  match_delivery_mode = some p.match_delivery_mode;
  digest_interval_minutes = some p.digest_interval_minutes;
  bid_enabled = some p.bid_enabled;
  message_enabled = some p.message_enabled;
  quiet_hours_start = p.quiet_hours_start;
  quiet_hours_end = p.quiet_hours_end;
  timezone = some p.timezone;
}

-- The old fields and the new ones say the same, and the interval is one of the three.
abbrev pub IsConsistent : Preference → Type 0
IsConsistent p =
    (p.job_match_digest_enabled ≡ is_digest p.match_delivery_mode)
    × (p.job_match_digest_interval_minutes ≡ p.digest_interval_minutes)
    × (is_allowed_interval p.digest_interval_minutes ≡ true)

interval_allowed : (o : Option ℕ) → is_allowed_interval (normalize_digest_interval_minutes o) ≡ true
interval_allowed none = refl
interval_allowed (some n) = elim (Bool-cases (is_allowed_interval n)) [
  | inl e ↦ rw e e
  | inr e ↦ rw e refl
]

-- `normalizePreference` gives preferences whose old and new fields agree, with an interval of 15,
-- 30 or 60 minutes, and changes nothing of such preferences when they come back as a row.
pub normalize_preference-IsConsistent :
    (input : Option PartialPreference)
    → IsConsistent (normalize_preference input)
      × (normalize_preference (some (as_partial (normalize_preference input)))
          ≡ normalize_preference input)
unfolding normalize_preference
normalize_preference-IsConsistent input =
    let row = or_default no_preference input in
    let allowed =
      interval_allowed
        (first_of row.digest_interval_minutes row.job_match_digest_interval_minutes) in
    ((refl, refl, allowed), rw allowed refl)
