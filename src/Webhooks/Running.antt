-- ===== src/Webhooks/Running.antt =====
-- src/webhooks/worker.ts and src/webhooks/enqueue.ts: the turns of the worker's loop, with the
-- events that the requests enqueue between them.
use home_hero_backend.Prelude.{All, List, Option, String, [], map, refl, ℕ, ◌∷◌, ◌≡◌}
use home_hero_backend.Http.{Exit}
use home_hero_backend.Http.Keeps.{state_of}
use home_hero_backend.Http.Rules.{Ends, Ends-weaken, bind_rule, goes, pure_rule, stops, throws}
use home_hero_backend.Webhooks.Candidates.{Stable}
use home_hero_backend.Webhooks.Claims.{turn-Keeps}
use home_hero_backend.Webhooks.Enqueue.{
  create_all, create_deliveries, data_for, enqueue_for, enqueue_or_log, enqueue_webhook_event,
  find_endpoints,
}
use home_hero_backend.Webhooks.Keeps.{
  Keeps, Keeps-bind, Keeps-call, Keeps-pure, Keeps-read_clock, Keeps-try_catch, Kept,
}
use home_hero_backend.Webhooks.Loop.{turn}
use home_hero_backend.Webhooks.Model.{Delivery, Endpoint}
use home_hero_backend.Webhooks.State.{Hooks, Runtime, Settings, State, read_clock}

pub data Step : Type 0 where
  one_turn : Step
  enqueue_event enqueue_logged : String → Option String → Step

module _ (hooks : Hooks) (runtime : Runtime) (settings : Settings) where
  -- The delay of the loop and the state after one step.
  unfoldable pub step : Step → ℕ → State hooks → ℕ × State hooks
  step one_turn backoff w =
      let (pause, w') = turn hooks runtime settings backoff w in (pause.db_down_backoff_ms, w')
  step (enqueue_event event payload) backoff w =
      (backoff, state_of (enqueue_webhook_event event payload w))
  step (enqueue_logged event payload) backoff w =
      (backoff, state_of (enqueue_or_log event payload w))

  unfoldable pub run_steps : List Step → ℕ → State hooks → ℕ × State hooks
  run_steps [] backoff w = (backoff, w)
  run_steps (s ∷ ss) backoff w = let (backoff', w') = step s backoff w in run_steps ss backoff' w'

-- What `createMany` is given.
abbrev IsNew : (ℕ → Delivery) → Type 0
IsNew make = (i : ℕ) → ((make i).id ≡ i) × ((make i).attempts ≡ 0)

-- The same before the time of the database is known.
abbrev AreData : List (ℕ → ℕ → Delivery) → Type 0
AreData makes = All (λ make. (at : ℕ) → IsNew (make at)) makes

at_time :
    (makes : List (ℕ → ℕ → Delivery)) (at : ℕ)
    → AreData makes
    → All IsNew (map (λ make. make at) makes)
at_time [] at h = tt
at_time (make ∷ ms) at (new, h) = (new at, at_time ms at h)

module _ (hooks : Hooks) (P : hooks.deliveries.Rows → Type 0) where
  -- A new delivery, without attempts, does not end the property.
  pub record Extends : Type 0 where
    pub created :
        (d : Delivery) (s : hooks.deliveries.Rows)
        → d.id ≡ hooks.deliveries.next_id s
        → d.attempts ≡ 0
        → P s
        → P (hooks.deliveries.create d s)

module _ {hooks : Hooks} {P : hooks.deliveries.Rows → Type 0} (extends : Extends hooks P) where
  create_all-Keeps :
      (makes : List (ℕ → Delivery)) (s : hooks.deliveries.Rows)
      → All IsNew makes
      → P s
      → P (create_all hooks makes s)
  unfolding create_all
  create_all-Keeps [] s h p = p
  create_all-Keeps (make ∷ ms) s (new, h) p =
      create_all-Keeps ms _ h (extends.created _ s (new _).0 (new _).1 p)

  Keeps-create_deliveries :
      (makes : List (ℕ → Delivery)) → All IsNew makes → Keeps hooks P (create_deliveries makes)
  unfolding create_deliveries
  Keeps-create_deliveries makes h =
      Keeps-call (λ w. tt) (λ w. record w { deliveries = create_all hooks makes w.deliveries })
        λ w p. create_all-Keeps makes w.deliveries h p

  data_for-AreData :
      (event : String) (payload : Option String) (es : List Endpoint) (w : State hooks)
      → P w.deliveries
      → Ends tt
          (λ _ w'. P w'.deliveries)
          (λ makes w'. AreData makes × P w'.deliveries)
          (data_for event payload es w)
  unfolding data_for read_clock
  data_for-AreData event payload [] w p = pure_rule [] w (tt, p)
  data_for-AreData event payload (e ∷ es) w p = bind_rule read_clock _ w (
      goes _ _ (
        bind_rule (data_for event payload es) _ _ (
          Ends-weaken _ (data_for-AreData event payload es _ p)
            λ rest w' h. pure_rule _ w' (((λ at i. (refl, refl)), h.0), h.1))))

  Keeps-enqueue_for :
      (event : String) (payload : Option String) (es : List Endpoint)
      → Keeps hooks P (enqueue_for event payload es)
  unfolding enqueue_for
  Keeps-enqueue_for event payload [] = Keeps-pure tt
  Keeps-enqueue_for event payload (e ∷ es) = record {
    ends = λ w p. bind_rule (data_for event payload (e ∷ es)) _ w (
        Ends-weaken _ (data_for-AreData event payload (e ∷ es) w p) λ makes w' h.
          (Keeps-bind Keeps-read_clock λ at. Keeps-create_deliveries _ (at_time makes at h.0)).ends
            w' h.1);
  }

  Keeps-enqueue_webhook_event :
      (event : String) (payload : Option String)
      → Keeps hooks P (enqueue_webhook_event event payload)
  unfolding enqueue_webhook_event find_endpoints
  Keeps-enqueue_webhook_event event payload =
      Keeps-bind (Keeps-call _ (λ w. w) λ w p. p) λ es. Keeps-enqueue_for event payload es

  Keeps-enqueue_or_log :
      (event : String) (payload : Option String) → Keeps hooks P (enqueue_or_log event payload)
  unfolding enqueue_or_log
  Keeps-enqueue_or_log event payload =
      Keeps-try_catch (Keeps-enqueue_webhook_event event payload) λ e. Keeps-pure tt

  after_exit :
      {A : Type 0} (x : Exit (Unit {0}) (State hooks) A)
      → Kept hooks P x
      → P (state_of x).deliveries
  after_exit _ (goes a w h) = h
  after_exit _ (stops r w h) = h
  after_exit _ (throws e w h) = h

  module _ (runtime : Runtime) (settings : Settings) (stable : Stable hooks settings P) where
    step-Keeps :
        (s : Step) (backoff : ℕ) (w : State hooks)
        → P w.deliveries
        → P (step hooks runtime settings s backoff w).1.deliveries
    unfolding step
    step-Keeps one_turn backoff w h = turn-Keeps hooks runtime settings P stable backoff w h
    step-Keeps (enqueue_event event payload) backoff w h =
        after_exit _ ((Keeps-enqueue_webhook_event event payload).ends w h)
    step-Keeps (enqueue_logged event payload) backoff w h =
        after_exit _ ((Keeps-enqueue_or_log event payload).ends w h)

    -- Such a property stays true through any steps, whichever calls fail.
    pub run_steps-Keeps :
        (ss : List Step) (backoff : ℕ) (w : State hooks)
        → P w.deliveries
        → P (run_steps hooks runtime settings ss backoff w).1.deliveries
    unfolding run_steps
    run_steps-Keeps [] backoff w h = h
    run_steps-Keeps (s ∷ ss) backoff w h = run_steps-Keeps ss _ _ (step-Keeps s backoff w h)
