-- ===== src/Webhooks/Invariants.antt =====
-- src/webhooks/worker.ts: what the loop never does to a delivery.
use mathlib.Core.Option.{some-injective}
use mathlib.Core.Option
use home_hero_backend.Prelude.{
  ==_iff, All, Bool, Bool-cases, List, Option, arith, false, if◌then◌else◌, inl, inr, ltb, none,
  refl, some, subst, sym, true, ℕ, ◌&&◌, ◌+◌, ◌<◌, ◌==◌, ◌∙◌, ◌≡◌, ◌≤◌,
}
use home_hero_backend.Webhooks.Candidates.{Found, Stable, claimed_among, listed}
use home_hero_backend.Webhooks.Claims.{turns-Keeps}
use home_hero_backend.Webhooks.Delivering.{SameCount}
use home_hero_backend.Webhooks.Loop.{turns}
use home_hero_backend.Webhooks.Model.{
  Delivery, claim, is_claimable, is_pending_delivery, is_processing, is_stale, requeue,
}
use home_hero_backend.Webhooks.State.{Hooks, Runtime, Settings, State}
use home_hero_backend.Webhooks.Worker.{ids_of}

-- Neither in progress nor one that a claim takes: settled, or pending with all attempts used.
abbrev pub IsIdle : ℕ → Delivery → Type 0
IsIdle max_attempts d =
    (is_processing d.status ≡ false)
    × ((is_pending_delivery d.status && ltb d.attempts max_attempts) ≡ false)

module _ (hooks : Hooks) where
  -- No delivery was attempted more often than allowed.
  abbrev pub AttemptsBounded : ℕ → hooks.deliveries.Rows → Type 0
  AttemptsBounded max_attempts s =
      (k : ℕ) (d : Delivery) → hooks.deliveries.find_unique k s ≡ some d → d.attempts ≤ max_attempts

  abbrev pub HasRow : ℕ → Delivery → hooks.deliveries.Rows → Type 0
  HasRow k d s = hooks.deliveries.find_unique k s ≡ some d

map-some :
    {A B : Type 0} (f : A → B) (o : Option A) {b : B}
    → Option.map f o ≡ some b
    → (a : A) × (o ≡ some a) × (f a ≡ b)
map-some f none h = absurd (cc)
map-some f (some a) h = (a, refl, ground arith)

bounded_either :
    (m : ℕ) (b : Bool) (x y : Delivery) {d : Delivery}
    → (if b then x else y) ≡ d
    → (b ≡ true → x.attempts ≤ m)
    → y.attempts ≤ m
    → d.attempts ≤ m
bounded_either m true x y e h k = subst (λ (z : Delivery). z.attempts ≤ m) e (h refl)
bounded_either m false x y e h k = subst (λ (z : Delivery). z.attempts ≤ m) e k

module _ (hooks : Hooks) (settings : Settings) where
  bounded_update_many :
      (p : Delivery → Bool) (f : Delivery → Delivery) (s : hooks.deliveries.Rows)
      → ((d : Delivery) → (f d).id ≡ d.id)
      → ((d : Delivery)
          → hooks.deliveries.find_unique d.id s ≡ some d
          → p d ≡ true
          → d.attempts ≤ settings.max_attempts
          → (f d).attempts ≤ settings.max_attempts)
      → AttemptsBounded hooks settings.max_attempts s
      → AttemptsBounded hooks settings.max_attempts (hooks.deliveries.update_many p f s)
  bounded_update_many p f s keeps below h k d row =
      let (before, there, same) =
        map-some _ _ (sym (hooks.deliveries.find_update_many p f k s keeps) ∙ row) in
      let old = h k before there in
      let key = hooks.deliveries.find_key k s there in
      bounded_either settings.max_attempts (p before) _ _ same
        (λ hit. below before (rw key there) hit old) old

  bounded_update :
      (i : ℕ) (f : Delivery → Delivery) (s : hooks.deliveries.Rows)
      → SameCount f
      → AttemptsBounded hooks settings.max_attempts s
      → AttemptsBounded hooks settings.max_attempts (hooks.deliveries.update i f s)
  bounded_update i f s same h k d row =
      go (i == k) (sym (hooks.deliveries.find_update i k f s λ x. (same x).0) ∙ row)
    where
      go :
          (b : Bool)
          → (if b
              then Option.map f (hooks.deliveries.find_unique k s)
              else hooks.deliveries.find_unique k s)
            ≡ some d
          → d.attempts ≤ settings.max_attempts
      go true e =
          let (before, there, changed) = map-some _ _ e in
          subst (λ (z : Delivery). z.attempts ≤ settings.max_attempts) changed
            (rw (same before).1 (h k before there))
      go false e = h k d e

  pub AttemptsBounded-Stable : Stable hooks settings (AttemptsBounded hooks settings.max_attempts)
  AttemptsBounded-Stable = record {
    requeued = λ now s h.
        bounded_update_many (is_stale now) (requeue now) s (λ d. refl) (λ d _ _ old. old) h;
    claimed = λ now lease s ds found h.
        bounded_update_many (claimed_among (ids_of ds)) (claim lease) s (λ d. refl)
          (λ d row hit old. claimed_below now s ds found d row hit) h;
    handled = λ s d h p row. record {
      one = λ f same s h. bounded_update d.id f s same h;
      many = λ f same s h.
          bounded_update_many _ f s (λ x. (same x).0) (λ x _ _ old. rw (same x).1 old) h;
    };
  }
    where
      claimed_below :
          (now : ℕ) (s : hooks.deliveries.Rows) (ds : List Delivery)
          → All (Found hooks (is_claimable settings.max_attempts now) s) ds
          → (d : Delivery) → hooks.deliveries.find_unique d.id s ≡ some d
          → claimed_among (ids_of ds) d ≡ true
          → d.attempts + 1 ≤ settings.max_attempts
      claimed_below now s ds found d row hit =
          let (c, (ok, there), key) = listed _ ds d found (ground arith) in
          let same : c ≡ d = some-injective c d (sym there ∙ rw key row) in
          let below : c.attempts < settings.max_attempts = ground arith in
          let fewer = subst (λ (z : Delivery). z.attempts < settings.max_attempts) same below in
          omega (arith, fewer)

  -- An idle row is not met by the updates of the loop.
  HasRow-update_many :
      (k : ℕ) (r : Delivery) (p : Delivery → Bool) (f : Delivery → Delivery)
      (s : hooks.deliveries.Rows)
      → ((d : Delivery) → (f d).id ≡ d.id)
      → p r ≡ false
      → HasRow hooks k r s
      → HasRow hooks k r (hooks.deliveries.update_many p f s)
  HasRow-update_many k r p f s keeps off row =
      hooks.deliveries.find_update_many p f k s keeps ∙ rw row (rw off refl)

  pub HasRow-Stable :
      (k : ℕ) (r : Delivery)
      → IsIdle settings.max_attempts r
      → Stable hooks settings (HasRow hooks k r)
  HasRow-Stable k r (resting, spent) = record {
    requeued = λ now s h.
        HasRow-update_many k r (is_stale now) (requeue now) s (λ d. refl) (rw resting refl) h;
    claimed = λ now lease s ds found h.
        HasRow-update_many k r (claimed_among (ids_of ds)) (claim lease) s (λ d. refl)
          (unclaimed now s ds found h) h;
    handled = λ s d h p row. record {
      one = λ f same s' h'.
          hooks.deliveries.find_update d.id k f s' (λ x. (same x).0) ∙ rw (other s d h p row) h';
      many = λ f same s' h'.
          HasRow-update_many k r _ f s' (λ x. (same x).0) (rw resting (ground arith)) h';
    };
  }
    where
      other :
          (s : hooks.deliveries.Rows) (d : Delivery)
          → HasRow hooks k r s
          → is_processing d.status ≡ true
          → hooks.deliveries.find_unique d.id s ≡ some d
          → (d.id == k) ≡ false
      other s d h p row = elim (Bool-cases (d.id == k)) [
        | inl hit ↦
            let same : d ≡ r = some-injective d r (sym row ∙ rw ((==_iff d.id k).0 hit) h) in
            let busy = subst (λ (z : Delivery). is_processing z.status ≡ true) same p in absurd (cc)
        | inr off ↦ off
      ]

      unclaimed :
          (now : ℕ) (s : hooks.deliveries.Rows) (ds : List Delivery)
          → All (Found hooks (is_claimable settings.max_attempts now) s) ds
          → HasRow hooks k r s
          → claimed_among (ids_of ds) r ≡ false
      unclaimed now s ds found row = elim (Bool-cases (claimed_among (ids_of ds) r)) [
        | inl hit ↦
            let (c, (ok, there), key) = listed _ ds r found (ground arith) in
            let place = key ∙ hooks.deliveries.find_key k s row in
            let same : c ≡ r = some-injective c r (sym there ∙ rw place row) in
            let claimable =
              subst (λ (z : Delivery). is_claimable settings.max_attempts now z ≡ true) same ok in
            absurd (ground arith)
        | inr off ↦ off
      ]

module _ (hooks : Hooks) (runtime : Runtime) (settings : Settings) where
  -- If no delivery has more attempts than `max_attempts`, none has after any number of turns of the
  -- loop, whichever calls fail and whatever the receivers answer.
  turns-AttemptsBounded :
      (n backoff : ℕ) (w : State hooks)
      → AttemptsBounded hooks settings.max_attempts w.deliveries
      → AttemptsBounded hooks settings.max_attempts
          (turns hooks runtime settings n backoff w).1.deliveries
  turns-AttemptsBounded n backoff w h =
      turns-Keeps hooks runtime settings _ (AttemptsBounded-Stable hooks settings) n backoff w h

  -- A delivery that is SUCCESS, FAILED or DEAD, or PENDING with all its attempts used, has the same
  -- row after any number of turns of the loop: it is never delivered again, and a PENDING one of
  -- them never ends.
  turns-idle :
      (n backoff : ℕ) (w : State hooks) (k : ℕ) (r : Delivery)
      → IsIdle settings.max_attempts r
      → hooks.deliveries.find_unique k w.deliveries ≡ some r
      → hooks.deliveries.find_unique k (turns hooks runtime settings n backoff w).1.deliveries
        ≡ some r
  turns-idle n backoff w k r idle row =
      turns-Keeps hooks runtime settings _ (HasRow-Stable hooks settings k r idle) n backoff w row
