-- ===== src/Webhooks/Delays.antt =====
-- src/webhooks/worker.ts: bounds of the delays between attempts and between turns of the loop.
use native.Mathlib.Numerals.{unary_clauses}
use native.Mathlib.Nat.{pow-le-pow_right}
use home_hero_backend.Prelude.{arith, min, suc, zero, ℕ, ◌*◌, ◌+◌, ◌-◌, ◌<◌, ◌^◌, ◌≤◌}
use home_hero_backend.Http.{Exit, next, reply, thrown}
use home_hero_backend.Webhooks.Backoff.{compute_backoff_ms}
use home_hero_backend.Webhooks.Loop.{close_turn, pause_after, turn, turns, work_once}
use home_hero_backend.Webhooks.State.{Hooks, Runtime, Settings, State}

one_le_pow : (n : ℕ) → 1 ≤ 2 ^ n
one_le_pow zero = ground arith
one_le_pow (suc n) = let before = one_le_pow n in simp unary_clauses (omega (arith, before))

capped_mono : (a b j : ℕ) → a ≤ b → min 600000 (1000 * a) + j ≤ min 600000 (1000 * b) + j
capped_mono a b j h = omega arith

-- With a jitter below 500 the delay is at least a second, and less than ten minutes and half a
-- second; and it is no shorter after more attempts.
pub compute_backoff_ms-bounds :
    (attempts more jitter : ℕ)
    → jitter < 500
    → (1000 ≤ compute_backoff_ms attempts jitter)
      × (compute_backoff_ms attempts jitter < 600500)
      × (compute_backoff_ms attempts jitter ≤ compute_backoff_ms (attempts + more) jitter)
unfolding compute_backoff_ms
compute_backoff_ms-bounds attempts more jitter h =
    let one = one_le_pow (attempts - 1) in
    (
      omega (arith, one),
      omega (arith, h),
      capped_mono _ _ jitter (pow-le-pow_right (ground arith) (omega arith)),
    )

module _ (hooks : Hooks) (runtime : Runtime) (settings : Settings) where
  close_turn-bounds :
      (backoff : ℕ) (x : Exit (Unit {0}) (State hooks) (Unit {0}))
      → 1000 ≤ backoff
      → backoff ≤ 30000
      → (1000 ≤ (close_turn hooks runtime settings backoff x).0.db_down_backoff_ms)
        × ((close_turn hooks runtime settings backoff x).0.db_down_backoff_ms ≤ 30000)
  unfolding close_turn pause_after
  close_turn-bounds backoff (next _ w) low high = (ground arith, ground arith)
  close_turn-bounds backoff (reply _ w) low high = (ground arith, ground arith)
  close_turn-bounds backoff (thrown message w) low high = (ground arith, ground arith)

  -- The delay after which an unreachable database is tried again stays between 1 and 30 seconds, if
  -- it starts there, along any number of turns, whichever calls fail.
  pub turns-bounds :
      (n backoff : ℕ) (w : State hooks)
      → 1000 ≤ backoff
      → backoff ≤ 30000
      → (1000 ≤ (turns hooks runtime settings n backoff w).0)
        × ((turns hooks runtime settings n backoff w).0 ≤ 30000)
  unfolding turns turn
  turns-bounds zero backoff w low high = (low, high)
  turns-bounds (suc n) backoff w low high =
      let (low', high') = close_turn-bounds backoff (work_once hooks runtime settings w) low high in
      turns-bounds n _ _ low' high'
