-- ===== src/Webhooks/Candidates.antt =====
-- src/webhooks/worker.ts: the rows that a claim takes, and what a property has to satisfy to stay true
-- along the loop.
-- A row of the table that passes the test.
use home_hero_backend.Prelude.{
  ==_iff, All, Bool, Bool-cases, List, [], arith, inl, inr, some, true, ℕ, ◌&&◌, ◌==◌, ◌∷◌, ◌≡◌,
}
use home_hero_backend.Webhooks.Delivering.{Local}
use home_hero_backend.Webhooks.Model.{
  Delivery, claim, comes_first, in_order, is_claimable, is_pending_delivery, is_processing,
  is_stale, place, requeue,
}
use home_hero_backend.Webhooks.State.{Hooks, Settings}
use home_hero_backend.Webhooks.Worker.{ids_of, is_among}

abbrev pub Found : (hooks : Hooks) → (Delivery → Bool) → hooks.deliveries.Rows → Delivery → Type 0
Found hooks p s d = (p d ≡ true) × (hooks.deliveries.find_unique d.id s ≡ some d)

module _ (P : Delivery → Type 0) where
  pub All-place : (d : Delivery) (ds : List Delivery) → P d → All P ds → All P (place d ds)
  unfolding place
  All-place d [] h hs = (h, tt)
  All-place d (e ∷ es) h (k, ks) = elim (Bool-cases (comes_first d e)) [
    | inl first ↦ rw first (h, (k, ks))
    | inr later ↦ rw later (k, All-place d es h ks)
  ]

  pub All-in_order : (ds : List Delivery) → All P ds → All P (in_order ds)
  unfolding in_order
  All-in_order [] h = tt
  All-in_order (d ∷ ds) (h, hs) = All-place d (in_order ds) h (All-in_order ds hs)

  -- A key among those of a list is the key of one of its elements.
  pub listed :
      (ds : List Delivery) (x : Delivery)
      → All P ds
      → is_among (ids_of ds) x ≡ true
      → (d : Delivery) × P d × (d.id ≡ x.id)
  listed [] x h e = absurd (cc)
  listed (d ∷ ds) x (h, hs) e = elim (Bool-cases (d.id == x.id)) [
    | inl same ↦ (d, h, (==_iff d.id x.id).0 same)
    | inr other ↦ listed ds x hs (ground arith)
  ]

abbrev pub claimed_among : List ℕ → Delivery → Bool
claimed_among ids d = is_among ids d && is_pending_delivery d.status

abbrev pub processing_among : List ℕ → Delivery → Bool
processing_among ids d = is_among ids d && is_processing d.status

module _ (hooks : Hooks) (settings : Settings) (P : hooks.deliveries.Rows → Type 0) where
  -- What a property has to satisfy to stay true along the loop.
  pub record Stable : Type 0 where
    pub requeued :
        (now : ℕ) (s : hooks.deliveries.Rows)
        → P s
        → P (hooks.deliveries.update_many (is_stale now) (requeue now) s)
    pub claimed :
        (now lease : ℕ) (s : hooks.deliveries.Rows) (ds : List Delivery)
        → All (Found hooks (is_claimable settings.max_attempts now) s) ds
        → P s
        → P (hooks.deliveries.update_many (claimed_among (ids_of ds)) (claim lease) s)
    pub handled :
        (s : hooks.deliveries.Rows) (d : Delivery)
        → P s
        → is_processing d.status ≡ true
        → hooks.deliveries.find_unique d.id s ≡ some d
        → Local hooks P d.id
