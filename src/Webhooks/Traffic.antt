-- ===== src/Webhooks/Traffic.antt =====
-- src/webhooks/worker.ts and src/webhooks/enqueue.ts: what the deliveries keep while events are
-- enqueued between the turns of the loop.
use mathlib.Core.Option.{some-injective}
use home_hero_backend.Prelude.{
  ==_iff, Bool, Bool-cases, List, arith, false, if◌then◌else◌, inl, inr, some, subst, sym, true, ℕ,
  ◌==◌, ◌∙◌, ◌≡◌, ◌≤◌,
}
use home_hero_backend.Webhooks.Invariants.{
  AttemptsBounded, AttemptsBounded-Stable, HasRow, HasRow-Stable, IsIdle,
}
use home_hero_backend.Webhooks.Model.{Delivery}
use home_hero_backend.Webhooks.Running.{Extends, Step, run_steps, run_steps-Keeps}
use home_hero_backend.Webhooks.State.{Hooks, Runtime, Settings, State}

module _ (hooks : Hooks) where
  AttemptsBounded-Extends : (m : ℕ) → Extends hooks (AttemptsBounded hooks m)
  AttemptsBounded-Extends m = record {
    created = λ d s key fresh h k r row.
        go d h k r fresh (hooks.deliveries.next_id s == k)
          (sym (hooks.deliveries.find_create d k s key) ∙ row);
  }
    where
      go :
          {s : hooks.deliveries.Rows} (d : Delivery)
          → AttemptsBounded hooks m s
          → (k : ℕ) (r : Delivery) → d.attempts ≡ 0
          → (b : Bool) → (if b then some d else hooks.deliveries.find_unique k s) ≡ some r
          → r.attempts ≤ m
      go d h k r fresh true e =
          let same : d ≡ r = some-injective d r e in
          subst (λ (x : Delivery). x.attempts ≤ m) same (rw fresh (ground arith))
      go d h k r fresh false e = h k r e

  HasRow-Extends : (k : ℕ) (r : Delivery) → Extends hooks (HasRow hooks k r)
  HasRow-Extends k r = record {
    created = λ d s key fresh h. elim (Bool-cases (hooks.deliveries.next_id s == k)) [
      | inl hit ↦
          let there : hooks.deliveries.find_unique (hooks.deliveries.next_id s) s ≡ some r =
            rw ((==_iff _ k).0 hit) h in
          let none_there = hooks.deliveries.next_id_fresh s in absurd (cc)
      | inr off ↦ hooks.deliveries.find_create d k s key ∙ rw off h
    ];
  }

module _ (hooks : Hooks) (runtime : Runtime) (settings : Settings) where
  -- If no delivery has more attempts than `max_attempts`, none has after any sequence of turns of
  -- the loop and of events that are enqueued, whichever calls fail and whatever the receivers
  -- answer.
  pub run_steps-AttemptsBounded :
      (ss : List Step) (backoff : ℕ) (w : State hooks)
      → AttemptsBounded hooks settings.max_attempts w.deliveries
      → AttemptsBounded hooks settings.max_attempts
          (run_steps hooks runtime settings ss backoff w).1.deliveries
  run_steps-AttemptsBounded ss backoff w h =
      run_steps-Keeps (AttemptsBounded-Extends hooks settings.max_attempts) runtime settings
        (AttemptsBounded-Stable hooks settings) ss backoff w h

  -- A delivery that is SUCCESS, FAILED or DEAD, or PENDING with all its attempts used, has the same
  -- row after any sequence of turns of the loop and of events that are enqueued: it is never
  -- delivered again, and a PENDING one of them never ends.
  pub run_steps-idle :
      (ss : List Step) (backoff : ℕ) (w : State hooks) (k : ℕ) (r : Delivery)
      → IsIdle settings.max_attempts r
      → hooks.deliveries.find_unique k w.deliveries ≡ some r
      → hooks.deliveries.find_unique k (run_steps hooks runtime settings ss backoff w).1.deliveries
        ≡ some r
  run_steps-idle ss backoff w k r idle row =
      run_steps-Keeps (HasRow-Extends hooks k r) runtime settings
        (HasRow-Stable hooks settings k r idle) ss backoff w row
