-- ===== src/Webhooks/Backoff.antt =====
-- The delays and the kinds of failure of src/webhooks/worker.ts.
use Prim.Native.Char.{Char, code}
use mathlib.Core.Option
use home_hero_backend.Prelude.{
  Bool, Option, String, false, if◌then◌else◌, leb, min, none, some, true, ℕ, ◌&&◌, ◌*◌, ◌+◌, ◌-◌,
  ◌==◌, ◌^◌, ◌||◌,
}
use home_hero_backend.Text.{non_empty}
use home_hero_backend.Webhooks.State.{Runtime}

-- `Math.min(10 * 60_000, 1000 * Math.pow(2, Math.max(0, attempts - 1)))`, and the jitter on it.
unfoldable pub compute_backoff_ms : ℕ → ℕ → ℕ
compute_backoff_ms attempts jitter = min 600000 (1000 * 2 ^ (attempts - 1)) + jitter

unfoldable pub is_permanent_http : ℕ → Bool
is_permanent_http status =
    status == 400
    || status == 401
    || status == 403
    || status == 404
    || status == 410
    || status == 422

-- The case of a letter of ASCII, which is all that the flag `i` ignores in the patterns used.
abbrev lower_code : ℕ → ℕ
lower_code n = if leb 65 n && leb n 90 then n + 32 else n

abbrev same_letter : Char → Char → Bool
same_letter c d = lower_code (code c) == lower_code (code d)

begins_with : String → String → Bool
begins_with s String.[] = true
begins_with String.[] (String.◌∷◌ d part) = false
begins_with (String.◌∷◌ c s) (String.◌∷◌ d part) = same_letter c d && begins_with s part

-- `/part/i.test(s)`, for a text without special characters.
matches : String → String → Bool
matches String.[] part = begins_with String.[] part
matches (String.◌∷◌ c s) part = begins_with (String.◌∷◌ c s) part || matches s part

unfoldable pub is_url_error : String → Bool
unfolding matches begins_with
is_url_error err = matches err "Failed to parse URL" || matches err "Invalid URL"

abbrev time_left : ℕ → ℕ → ℕ
time_left now date = date - now

-- `parseRetryAfterMs`; `now` is the time at which a date is read. A header that is empty is as
-- none.
unfoldable pub parse_retry_after_ms : Runtime → ℕ → Option String → Option ℕ
parse_retry_after_ms runtime now none = none
parse_retry_after_ms runtime now (some raw) = elim (non_empty raw) [
  | none ↦ none
  | some text ↦ elim (runtime.seconds_as_ms text) [
    | some ms ↦ some ms
    | none ↦ Option.map (time_left now) (runtime.date_ms text)
  ]
]
