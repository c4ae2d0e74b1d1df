-- ===== src/Webhooks/CallRules.antt =====
-- The rules of reasoning for the calls of `claimBatch` in src/webhooks/worker.ts.
use home_hero_backend.Prelude.{Bool, List, Option, Option-cases, inl, inr, length, map, ℕ, ◌+◌}
use home_hero_backend.Http.{Exit, ◌>>=◌}
use home_hero_backend.Http.Rules.{Ends, goes, stops, throws}
use home_hero_backend.Webhooks.Model.{Delivery, Endpoint}
use home_hero_backend.Webhooks.State.{
  Hooks, State, Work, call, find_deliveries, find_with_endpoints, in_transaction, read_clock,
  update_deliveries,
}

module _ {hooks : Hooks} {A : Type 0} {E : Unit {0} → State hooks → Type 0}
    {K : A → State hooks → Type 0} where
  pub call_rule :
      {B : Type 0} (result : State hooks → B) (effect : State hooks → State hooks)
      (f : B → Work hooks A) (w : State hooks)
      → E tt (record w { calls = w.calls + 1 })
      → Ends tt E K (f (result w) (effect (record w { calls = w.calls + 1 })))
      → Ends tt E K ((call result effect >>= f) w)
  unfolding ◌>>=◌ call
  call_rule result effect f w stop go = elim (Option-cases (w.faults w.calls)) [
    | inl e ↦ rw (e, ◌>>=◌, call) go
    | inr (m, e) ↦ rw (e, ◌>>=◌, call) (throws m _ stop)
  ]

  pub last_call_rule :
      (result : State hooks → A) (effect : State hooks → State hooks) (w : State hooks)
      → E tt (record w { calls = w.calls + 1 })
      → K (result w) (effect (record w { calls = w.calls + 1 }))
      → Ends tt E K (call result effect w)
  unfolding call
  last_call_rule result effect w stop go = elim (Option-cases (w.faults w.calls)) [
    | inl e ↦ rw (e, call) (goes _ _ go)
    | inr (m, e) ↦ rw (e, call) (throws m _ stop)
  ]

  pub read_clock_rule :
      (f : ℕ → Work hooks A) (w : State hooks)
      → Ends tt E K (f (w.clock w.used) (record w { used = w.used + 1 }))
      → Ends tt E K ((read_clock >>= f) w)
  unfolding ◌>>=◌ read_clock
  read_clock_rule f w go = go

  pub find_deliveries_rule :
      (p : Delivery → Bool) (f : List Delivery → Work hooks A) (w : State hooks)
      → E tt (record w { calls = w.calls + 1 })
      → Ends tt E K
          (f (hooks.deliveries.find_many p w.deliveries) (record w { calls = w.calls + 1 }))
      → Ends tt E K ((find_deliveries p >>= f) w)
  unfolding find_deliveries
  find_deliveries_rule p f w stop go =
      call_rule (λ w. hooks.deliveries.find_many p w.deliveries) (λ w. w) f w stop go

  pub update_deliveries_rule :
      (p : Delivery → Bool) (g : Delivery → Delivery) (f : ℕ → Work hooks A) (w : State hooks)
      → E tt (record w { calls = w.calls + 1 })
      → Ends tt E K (
          f (length (hooks.deliveries.find_many p w.deliveries)) (record w {
            deliveries = hooks.deliveries.update_many p g w.deliveries;
            calls = w.calls + 1;
          }))
      → Ends tt E K ((update_deliveries p g >>= f) w)
  unfolding update_deliveries
  update_deliveries_rule p g f w stop go =
      call_rule (λ w. length (hooks.deliveries.find_many p w.deliveries))
        (λ w. record w { deliveries = hooks.deliveries.update_many p g w.deliveries }) f w stop go

pub find_with_endpoints_rule :
    {hooks : Hooks} {E : Unit {0} → State hooks → Type 0}
    {K : List (Delivery × Option Endpoint) → State hooks → Type 0} (p : Delivery → Bool)
    (w : State hooks)
    → E tt (record w { calls = w.calls + 1 })
    → K
        (map
          (λ d. (d, hooks.endpoints.find_unique d.endpoint_id w.endpoints))
          (hooks.deliveries.find_many p w.deliveries))
        (record w { calls = w.calls + 1 })
    → Ends tt E K (find_with_endpoints p w)
unfolding find_with_endpoints
find_with_endpoints_rule {hooks} p w stop go =
    last_call_rule
      (λ w.
        map (λ d. (d, hooks.endpoints.find_unique d.endpoint_id w.endpoints))
          (hooks.deliveries.find_many p w.deliveries))
      (λ w. w) w stop go

-- If it fails, the deliveries are as they were before the transaction.
pub in_transaction_rule :
    {hooks : Hooks} {A : Type 0} (P : hooks.deliveries.Rows → Type 0) {K : A → State hooks → Type 0}
    (m : Work hooks A) (w : State hooks)
    → P w.deliveries
    → Ends tt (λ _ _. Unit {0}) K (m w)
    → Ends tt (λ _ w'. P w'.deliveries) K (in_transaction m w)
unfolding in_transaction
in_transaction_rule {hooks} {A} P {K} m w before h = go (m w) h
  where
    go :
        (x : Exit (Unit {0}) (State hooks) A)
        → Ends tt (λ _ _. Unit {0}) K x
        → Ends tt (λ _ w'. P w'.deliveries) K (in_transaction (λ _. x) w)
    go _ (goes a w' h) = goes a w' h
    go _ (stops r w' h) = stops r _ before
    go _ (throws e w' h) = throws e _ before
