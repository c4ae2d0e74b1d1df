-- ===== src/Webhooks/Claims.antt =====
-- src/webhooks/worker.ts: what `claimBatch` and a turn of the loop do to the deliveries.
use home_hero_backend.Prelude.{
  All, All-both, All-imp, All-take, List, Option, [], arith, map, some, suc, true, zero, ℕ, ◌∷◌,
  ◌≡◌,
}
use home_hero_backend.Http.{Exit, pure}
use home_hero_backend.Http.Rules.{Ends, bind_rule, goes, stops, throws}
use home_hero_backend.Webhooks.CallRules.{
  find_deliveries_rule, find_with_endpoints_rule, in_transaction_rule, read_clock_rule,
  update_deliveries_rule,
}
use home_hero_backend.Webhooks.Candidates.{All-in_order, Found, Stable, processing_among}
use home_hero_backend.Webhooks.Delivering.{Local, handle_one-Keeps}
use home_hero_backend.Webhooks.Keeps.{
  Keeps, Keeps-bind, Keeps-pure, Keeps-read_clock, Keeps-update_deliveries, Kept,
}
use home_hero_backend.Webhooks.Loop.{close_turn, handle_each, turn, turns, work_once}
use home_hero_backend.Webhooks.Model.{Delivery, Endpoint, is_claimable}
use home_hero_backend.Webhooks.State.{Hooks, Runtime, Settings, State}
use home_hero_backend.Webhooks.Worker.{claim_batch, claim_rows, ids_of, requeue_stale_processing}

module _ (hooks : Hooks) (runtime : Runtime) (settings : Settings)
    (P : hooks.deliveries.Rows → Type 0) (stable : Stable hooks settings P) where
  -- The deliveries of a batch may be handled, as far as `P` goes.
  abbrev Handled : List (Delivery × Option Endpoint) → Type 0
  Handled batch = All (λ c. Local hooks P c.0.id) batch

  Handled-map :
      (endpoints : hooks.endpoints.Rows) (ds : List Delivery)
      → All (λ d. Local hooks P d.id) ds
      → Handled (map (λ d. (d, hooks.endpoints.find_unique d.endpoint_id endpoints)) ds)
  Handled-map endpoints [] h = tt
  Handled-map endpoints (d ∷ ds) (h, hs) = (h, Handled-map endpoints ds hs)

  processing_rows :
      (ids : List ℕ) (s : hooks.deliveries.Rows)
      → P s
      → All (λ d. Local hooks P d.id) (hooks.deliveries.find_many (processing_among ids) s)
  processing_rows ids s h =
      All-imp _ (λ d (p, row). stable.handled s d h (ground arith) row)
        (All-both (λ d. processing_among ids d ≡ true)
          (λ d. hooks.deliveries.find_unique d.id s ≡ some d) _
          (hooks.deliveries.find_many_sound (processing_among ids) s)
          (hooks.deliveries.find_many_rows (processing_among ids) s))

  claim_rows_rule :
      (now lease : ℕ) (ds : List Delivery) (w : State hooks)
      → All (Found hooks (is_claimable settings.max_attempts now) w.deliveries) ds
      → P w.deliveries
      → Ends tt
          (λ _ _. Unit {0})
          (λ batch w'. P w'.deliveries × Handled batch)
          (claim_rows hooks runtime settings lease ds w)
  unfolding claim_rows pure
  claim_rows_rule now lease [] w found h = goes _ _ (h, tt)
  claim_rows_rule now lease (d ∷ ds) w found h =
      let after = stable.claimed now lease w.deliveries (d ∷ ds) found h in
      update_deliveries_rule _ _ _ w tt (
        find_with_endpoints_rule _ _ tt
          (after, Handled-map w.endpoints _ (processing_rows (ids_of (d ∷ ds)) _ after)))

  claim_batch_rule :
      (w : State hooks)
      → P w.deliveries
      → Ends tt
          (λ _ w'. P w'.deliveries)
          (λ batch w'. P w'.deliveries × Handled batch)
          (claim_batch hooks runtime settings w)
  unfolding claim_batch
  claim_batch_rule w h =
      let now = w.clock w.used in
      read_clock_rule _ w (
        in_transaction_rule P _ _ h (
          find_deliveries_rule _ _ _ tt (
            claim_rows_rule now _ _ _
              (All-take _ settings.batch_size _ (
                All-in_order _ _ (
                  All-both (λ d. is_claimable settings.max_attempts now d ≡ true)
                    (λ d. hooks.deliveries.find_unique d.id w.deliveries ≡ some d) _
                    (hooks.deliveries.find_many_sound (is_claimable settings.max_attempts now)
                      w.deliveries)
                    (hooks.deliveries.find_many_rows (is_claimable settings.max_attempts now)
                      w.deliveries))))
              h)))

  handle_each-Keeps :
      (batch : List (Delivery × Option Endpoint))
      → Handled batch
      → Keeps hooks P (handle_each hooks runtime settings batch)
  unfolding handle_each
  handle_each-Keeps [] h = Keeps-pure _
  handle_each-Keeps ((d, o) ∷ batch) (h, hs) =
      Keeps-bind (handle_one-Keeps hooks runtime settings P d o h) λ _. handle_each-Keeps batch hs

  requeue-Keeps : Keeps hooks P (requeue_stale_processing hooks runtime settings)
  unfolding requeue_stale_processing
  requeue-Keeps =
      Keeps-bind Keeps-read_clock
        λ now. Keeps-bind (Keeps-update_deliveries _ _ (stable.requeued now)) λ count. Keeps-pure _

  pub work_once-Keeps : Keeps hooks P (work_once hooks runtime settings)
  unfolding work_once
  work_once-Keeps =
      Keeps-bind requeue-Keeps
        λ _. record { ends = λ w h. bind_rule _ _ w (handle_batch _ (claim_batch_rule w h)) }
    where
      handle_batch :
          (x : Exit (Unit {0}) (State hooks) (List (Delivery × Option Endpoint)))
          → Ends tt (λ _ w'. P w'.deliveries) (λ batch w'. P w'.deliveries × Handled batch) x
          → Ends tt
              (λ _ w'. P w'.deliveries)
              (λ batch w'. Kept hooks P (handle_each hooks runtime settings batch w'))
              x
      handle_batch _ (goes batch w' (h, hs)) =
          goes batch w' ((handle_each-Keeps batch hs).ends w' h)
      handle_batch _ (stops r w' h) = stops r w' h
      handle_batch _ (throws e w' h) = throws e w' h

  pub turn-Keeps :
      (backoff : ℕ) (w : State hooks)
      → P w.deliveries
      → P (turn hooks runtime settings backoff w).1.deliveries
  unfolding turn close_turn
  turn-Keeps backoff w h = go _ (work_once-Keeps.ends w h)
    where
      go :
          (x : Exit (Unit {0}) (State hooks) (Unit {0}))
          → Kept hooks P x
          → P (close_turn hooks runtime settings backoff x).1.deliveries
      go _ (goes a w' h) = h
      go _ (stops r w' h) = h
      go _ (throws e w' h) = h

  -- Such a property stays true through any number of turns of the loop, whichever calls fail.
  pub turns-Keeps :
      (n backoff : ℕ) (w : State hooks)
      → P w.deliveries
      → P (turns hooks runtime settings n backoff w).1.deliveries
  unfolding turns
  turns-Keeps zero backoff w h = h
  turns-Keeps (suc n) backoff w h = turns-Keeps n _ _ (turn-Keeps backoff w h)
