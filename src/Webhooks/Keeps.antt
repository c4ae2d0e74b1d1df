-- ===== src/Webhooks/Keeps.antt =====
-- What stays true of the deliveries through a computation of src/webhooks/worker.ts, whichever
-- calls fail.
-- From such a state the computation ends in such a state, at each of its exits.
use home_hero_backend.Prelude.{
  Bool, Option-cases, String, false, if◌then◌else◌, inl, inr, length, true, ℕ, ◌+◌, ◌⊎◌,
}
use home_hero_backend.Http.{Exit, pure, throw, try_catch, ◌>>=◌}
use home_hero_backend.Http.Rules.{Ends, bind_rule, goes, stops, throws}
use home_hero_backend.Webhooks.Model.{Attempt, Delivery}
use home_hero_backend.Webhooks.State.{
  Alert, Hooks, Outgoing, Posted, Runtime, State, Work, alert, call, create_attempt, draw, fetch,
  random_uuid, read_clock, update_attempt, update_deliveries, update_delivery, updated,
}

pub record KeepsAt (hooks : Hooks) (P : hooks.deliveries.Rows → Type 0) (A : Type 0)
    (m : Work hooks A) : Type 0 where
  pub ends :
      (w : State hooks)
      → P w.deliveries
      → Ends tt (λ _ w'. P w'.deliveries) (λ _ w'. P w'.deliveries) (m w)

module _ (hooks : Hooks) (P : hooks.deliveries.Rows → Type 0) where
  abbrev pub Kept : {A : Type 0} → Exit (Unit {0}) (State hooks) A → Type 0
  Kept x = Ends tt (λ _ w. P w.deliveries) (λ _ w. P w.deliveries) x

  abbrev pub Keeps : {A : Type 0} → Work hooks A → Type 0
  Keeps {A} m = KeepsAt hooks P A m

module _ {hooks : Hooks} {P : hooks.deliveries.Rows → Type 0} {A : Type 0} where
  pub Keeps-bind :
      {B : Type 0} {m : Work hooks A} {f : A → Work hooks B}
      → Keeps hooks P m
      → ((a : A) → Keeps hooks P (f a))
      → Keeps hooks P (m >>= f)
  Keeps-bind {B} {m} {f} hm hf = record { ends = λ w h. bind_rule m f w (go (m w) (hm.ends w h)) }
    where
      go :
          (x : Exit (Unit {0}) (State hooks) A)
          → Kept hooks P x
          → Ends tt (λ _ w'. P w'.deliveries) (λ a w'. Kept hooks P (f a w')) x
      go _ (goes a w' h) = goes a w' ((hf a).ends w' h)
      go _ (stops r w' h) = stops r w' h
      go _ (throws e w' h) = throws e w' h

  pub Keeps-try_catch :
      {m : Work hooks A} {f : String → Work hooks A}
      → Keeps hooks P m
      → ((e : String) → Keeps hooks P (f e))
      → Keeps hooks P (try_catch m f)
  unfolding try_catch
  Keeps-try_catch {m} {f} hm hf = record { ends = λ w h. go w (m w) (hm.ends w h) }
    where
      go :
          (w : State hooks) (x : Exit (Unit {0}) (State hooks) A)
          → Kept hooks P x
          → Kept hooks P (try_catch (λ _. x) f w)
      go w _ (goes a w' h) = goes a w' h
      go w _ (stops r w' h) = stops r w' h
      go w _ (throws e w' h) = (hf e).ends w' h

  pub Keeps-pure : (a : A) → Keeps hooks P (pure a)
  unfolding pure
  Keeps-pure a = record { ends = λ w h. goes _ w h }

  pub Keeps-if :
      (b : Bool) {m n : Work hooks A}
      → Keeps hooks P m
      → Keeps hooks P n
      → Keeps hooks P (if b then m else n)
  Keeps-if true hm hn = hm
  Keeps-if false hm hn = hn

  -- A call, by what its effect does to the deliveries.
  pub Keeps-call :
      (result : State hooks → A) (effect : State hooks → State hooks)
      → ((w : State hooks) → P w.deliveries → P (effect w).deliveries)
      → Keeps hooks P (call result effect)
  unfolding call
  Keeps-call result effect keep = record {
    ends = λ w h. elim (Option-cases (w.faults w.calls)) [
      | inl e ↦ rw (e, call) (goes _ _ (keep (record w { calls = w.calls + 1 }) h))
      | inr (m, e) ↦ rw (e, call) (throws m _ h)
    ];
  }

module _ {hooks : Hooks} {P : hooks.deliveries.Rows → Type 0} where
  pub Keeps-read_clock : Keeps hooks P read_clock
  unfolding read_clock
  Keeps-read_clock = record { ends = λ w h. goes _ _ h }

  pub Keeps-draw : Keeps hooks P draw
  unfolding draw
  Keeps-draw = record { ends = λ w h. goes _ _ h }

  pub Keeps-random_uuid : Keeps hooks P random_uuid
  unfolding random_uuid
  Keeps-random_uuid = record { ends = λ w h. goes _ _ h }

  pub Keeps-alert : (a : Alert) → Keeps hooks P (alert a)
  unfolding alert
  Keeps-alert a = record { ends = λ w h. goes _ _ h }

  pub Keeps-fetch : (runtime : Runtime) (request : Outgoing) → Keeps hooks P (fetch runtime request)
  unfolding fetch pure throw
  Keeps-fetch runtime request = record {
    ends = λ w h. go w h (runtime.post (length w.posts) request);
  }
    where
      go :
          (w : State hooks)
          → P w.deliveries
          → (o : String ⊎ Posted)
          → Kept hooks P (fetch (record runtime { post = λ _ _. o }) request w)
      go w h (inl message) = throws _ _ h
      go w h (inr answer) = goes _ _ h

  pub Keeps-create_attempt : (make : ℕ → Attempt) → Keeps hooks P (create_attempt make)
  unfolding create_attempt
  Keeps-create_attempt make =
      Keeps-call (λ w. make (hooks.attempt_logs.next_id w.attempt_logs))
        (λ w. record w {
          attempt_logs =
              hooks.attempt_logs.create (make (hooks.attempt_logs.next_id w.attempt_logs))
                w.attempt_logs;
        })
        λ w h. h

  pub Keeps-update_attempt : (i : ℕ) (f : Attempt → Attempt) → Keeps hooks P (update_attempt i f)
  unfolding update_attempt
  Keeps-update_attempt i f =
      Keeps-call (λ w. tt)
        (λ w. record w { attempt_logs = hooks.attempt_logs.update i f w.attempt_logs }) λ w h. h

  pub Keeps-update_deliveries :
      (p : Delivery → Bool) (f : Delivery → Delivery)
      → ((s : hooks.deliveries.Rows) → P s → P (hooks.deliveries.update_many p f s))
      → Keeps hooks P (update_deliveries p f)
  unfolding update_deliveries
  Keeps-update_deliveries p f keep =
      Keeps-call (λ w. length (hooks.deliveries.find_many p w.deliveries))
        (λ w. record w { deliveries = hooks.deliveries.update_many p f w.deliveries })
        λ w h. keep w.deliveries h

  pub Keeps-update_delivery :
      (i : ℕ) (f : Delivery → Delivery)
      → ((s : hooks.deliveries.Rows) → P s → P (hooks.deliveries.update i f s))
      → Keeps hooks P (update_delivery i f)
  unfolding update_delivery
  Keeps-update_delivery i f keep = record {
    ends = λ w h. elim (Option-cases (w.faults w.calls)) [
      | inl e ↦ elim (Option-cases (hooks.deliveries.find_unique i w.deliveries)) [
        | inl none_there ↦ rw (e, update_delivery) (rw (none_there, updated) (throws _ _ h))
        | inr (d, there) ↦
            rw (e, update_delivery) (rw (there, updated) (goes _ _ (keep w.deliveries h)))
      ]
      | inr (m, e) ↦ rw (e, update_delivery) (throws m _ h)
    ];
  }
