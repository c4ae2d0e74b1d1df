-- ===== src/Webhooks/Enqueue.antt =====
-- src/webhooks/enqueue.ts: one delivery of an event for each endpoint that subscribes to it.
use home_hero_backend.Prelude.{Bool, List, Option, String, [], any, map, none, some, ℕ, ◌&&◌, ◌∷◌}
use home_hero_backend.Http.{pure, try_catch, ◌>>=◌}
use home_hero_backend.Text.{same_text}
use home_hero_backend.Webhooks.Model.{Delivery, DeliveryStatus, Endpoint}
use home_hero_backend.Webhooks.State.{Hooks, Work, call, read_clock}

unfoldable pub subscribes : String → Endpoint → Bool
subscribes event e = e.enabled && any (same_text event) e.events

-- An element of `data`, where the clock reads `now`; `id` and `created_at` are the database's.
abbrev pub new_delivery : String → Option String → ℕ → ℕ → ℕ → ℕ → Delivery
new_delivery event payload endpoint_id now created_at id = record {
  id = id;
  endpoint_id = endpoint_id;
  event = event;
  payload = payload;
  status = DeliveryStatus.pending;
  attempts = 0;
  last_error = none;
  next_attempt = some now;
  created_at = created_at;
  delivered_at = none;
  last_attempt_at = none;
  last_status_code = none;
}

-- The rows of `createMany`, each with its key.
unfoldable pub create_all :
    (hooks : Hooks) → List (ℕ → Delivery) → hooks.deliveries.Rows → hooks.deliveries.Rows
create_all hooks [] s = s
create_all hooks (make ∷ ms) s =
    create_all hooks ms (hooks.deliveries.create (make (hooks.deliveries.next_id s)) s)

module _ {hooks : Hooks} where
  unfoldable pub find_endpoints : (Endpoint → Bool) → Work hooks (List Endpoint)
  unfolding call
  find_endpoints p = call (λ w. hooks.endpoints.find_many p w.endpoints) (λ w. w)

  unfoldable pub create_deliveries : List (ℕ → Delivery) → Work hooks (Unit {0})
  unfolding call create_all
  create_deliveries makes =
      call (λ w. tt) (λ w. record w { deliveries = create_all hooks makes w.deliveries })

  -- `endpoints.map`, which reads the clock for each element.
  unfoldable pub data_for :
      String → Option String → List Endpoint → Work hooks (List (ℕ → ℕ → Delivery))
  data_for event payload [] = pure []
  data_for event payload (e ∷ es) = do
    now ← read_clock
    rest ← data_for event payload es
    pure (new_delivery event payload e.id now ∷ rest)

  unfoldable pub enqueue_for : String → Option String → List Endpoint → Work hooks (Unit {0})
  enqueue_for event payload [] = pure tt
  enqueue_for event payload (e ∷ es) = do
    makes ← data_for event payload (e ∷ es)
    created_at ← read_clock
    create_deliveries (map (λ make. make created_at) makes)

  unfoldable pub enqueue_webhook_event : String → Option String → Work hooks (Unit {0})
  enqueue_webhook_event event payload = do
    endpoints ← find_endpoints (subscribes event)
    enqueue_for event payload endpoints

  -- `enqueueWebhookEvent` of src/server.ts, which logs what is thrown.
  unfoldable pub enqueue_or_log : String → Option String → Work hooks (Unit {0})
  unfolding pure
  enqueue_or_log event payload = try_catch (enqueue_webhook_event event payload) λ e. pure tt
