-- ===== src/Queue/Failures.antt =====
-- src/jobs/worker.ts: what `markFailure` does to a job that its worker holds.
use home_hero_backend.Prelude.{
  Bool-cases, List, Option, Option-cases, String, [], append-nil, arith, inl, inr, leb, length, ltb,
  min, none, refl, some, sym, true, ℕ, ◌%◌, ◌++◌, ◌+◌, ◌<◌, ◌∙◌, ◌∷◌, ◌≡◌, ◌≢◌, ◌≤◌,
}
use home_hero_backend.Db.{Table}
use home_hero_backend.Http.{next, pure, ◌>>=◌}
use home_hero_backend.Http.Rules.{Ends, goes}
use home_hero_backend.Queue.Model.{
  BackgroundJob, BackgroundJobStatus, dead_lettered, is_held, rescheduled, retried,
}
use home_hero_backend.Queue.Rules.{Ends-goes, calm_update_rule}
use home_hero_backend.Queue.State.{
  DeadLetter, QueueSettings, QueueState, capture_message, current_time, random_below, update_jobs,
}
use home_hero_backend.Queue.Worker.{
  JobError, dead_letter_job, exponential_ms, is_reschedule_job_error, jitter_bound, mark_failure,
  message_of, retry_delay_ms, retry_job,
}

-- The row `before` has become `after`, and `sent` was sent to `captureMessage`; `later` is the
-- reading of the clock for the retry.
abbrev pub FailureResult :
    QueueSettings → Option ℕ → ℕ → BackgroundJob → BackgroundJob → List DeadLetter → Type 0
FailureResult settings (some run_at) later before after sent =
    (after.status ≡ BackgroundJobStatus.pending)
    × (after.attempts ≡ before.attempts)
    × (after.run_at ≡ run_at)
    × (sent ≡ [])
FailureResult settings none later before after sent =
    (before.max_attempts ≤ before.attempts + 1
      → (after.status ≡ BackgroundJobStatus.dead) × (length sent ≡ 1))
    × (before.attempts + 1 < before.max_attempts
        → (after.status ≡ BackgroundJobStatus.pending)
          × (sent ≡ [])
          × (later
                + exponential_ms settings.retry_base_ms settings.retry_max_ms (before.attempts + 1)
              ≤ after.run_at)
          × (after.run_at ≤ later + settings.retry_max_ms))
    × (after.attempts ≡ before.attempts + 1)

-- The delay of a retry is between the exponential delay and the longest one.
delay_bounds :
    (base_ms max_ms attempt jitter : ℕ)
    → (exponential_ms base_ms max_ms attempt
        ≤ min max_ms (exponential_ms base_ms max_ms attempt + jitter))
      × (min max_ms (exponential_ms base_ms max_ms attempt + jitter) ≤ max_ms)
unfolding exponential_ms
delay_bounds base_ms max_ms attempt jitter = (omega arith, omega arith)

non_empty_length : {A : Type 0} (xs : List A) → xs ≢ [] → ltb 0 (length xs) ≡ true
non_empty_length [] h = absurd (h refl)
non_empty_length (x ∷ xs) h = ground arith

module _ (table : Table BackgroundJob (λ j. j.id)) (settings : QueueSettings) where
  abbrev pub AfterFailure :
      ℕ → Option ℕ → BackgroundJob → QueueState table → QueueState table → Type 0
  AfterFailure id run_at j w w' =
      (after : BackgroundJob) × (sent : List DeadLetter) × (table.find_unique id w'.rows
        ≡ some after)
      × (w'.captured ≡ w.captured ++ sent)
      × FailureResult settings run_at (w.clock (w.used + 1 + 1)) j after sent

  held_after :
      (id : ℕ) (worker : String) (j : BackgroundJob) (f : BackgroundJob → BackgroundJob)
      (s : table.Rows)
      → ((r : BackgroundJob) → (f r).id ≡ r.id)
      → is_held id worker j ≡ true
      → table.find_unique id s ≡ some j
      → table.find_unique id (table.update_many (is_held id worker) f s) ≡ some (f j)
  held_after id worker j f s keeps held row =
      table.find_update_many (is_held id worker) f id s keeps ∙ rw row (rw held refl)

  module _ (id : ℕ) (worker err : String) (j : BackgroundJob)
      (held : is_held id worker j ≡ true) where
    reschedule_rule :
        (run_at : ℕ) (w : QueueState table)
        → ((n : ℕ) → w.faults n ≡ none)
        → table.find_unique id w.rows ≡ some j
        → Ends tt
            (λ _ _. ⊥)
            (λ _ w'. AfterFailure id (some run_at) j w w')
            ((update_jobs (is_held id worker) (rescheduled j.attempts (w.clock w.used) run_at)
                >>= λ _. pure tt)
              (record w { used = w.used + 1 }))
    unfolding pure
    reschedule_rule run_at w calm row =
        calm_update_rule (is_held id worker) (rescheduled j.attempts (w.clock w.used) run_at) _ _
          (calm _)
          (goes _ _ (
            _,
            [],
            held_after id worker j _ w.rows (λ r. refl) held row,
            sym (append-nil w.captured),
            (refl, refl, refl, refl),
          ))

    dead_letter_rule :
        (w : QueueState table)
        → ((n : ℕ) → w.faults n ≡ none)
        → table.find_unique id w.rows ≡ some j
        → j.max_attempts ≤ j.attempts + 1
        → Ends tt
            (λ _ _. ⊥)
            (λ _ w'. AfterFailure id none j w w')
            (dead_letter_job id
              (j.attempts + 1)
              j.max_attempts
              err
              (w.clock w.used)
              worker
              (record w { used = w.used + 1 }))
    unfolding dead_letter_job capture_message pure
    dead_letter_rule w calm row spent =
        calm_update_rule (is_held id worker) (dead_lettered (j.attempts + 1) err (w.clock w.used)) _
          _ (calm _)
          (rw (non_empty_length _ (table.find_many_complete (is_held id worker) w.rows id row held))
            (goes _ _ (
              _,
              _,
              held_after id worker j _ w.rows (λ r. refl) held row,
              refl,
              ((λ _. (refl, refl)), (λ left. absurd (omega (arith, left, spent))), refl),
            )))

    abbrev exp_ms : ℕ
    exp_ms = exponential_ms settings.retry_base_ms settings.retry_max_ms (j.attempts + 1)

    abbrev jitter_after : QueueState table → ℕ
    jitter_after w = w.draws (w.used + 1) % jitter_bound exp_ms

    abbrev retry_after : QueueState table → BackgroundJob → BackgroundJob
    retry_after w =
        retried (j.attempts + 1) err (w.clock w.used)
          (w.clock (w.used + 1 + 1) + min settings.retry_max_ms (exp_ms + jitter_after w))

    retry_rule :
        (w : QueueState table)
        → ((n : ℕ) → w.faults n ≡ none)
        → table.find_unique id w.rows ≡ some j
        → j.attempts + 1 < j.max_attempts
        → Ends tt
            (λ _ _. ⊥)
            (λ _ w'. AfterFailure id none j w w')
            (retry_job settings id
              (j.attempts + 1)
              err
              (w.clock w.used)
              worker
              (record w { used = w.used + 1 }))
    unfolding retry_job retry_delay_ms random_below current_time pure ◌>>=◌
    retry_rule w calm row left =
        let bounds =
          delay_bounds settings.retry_base_ms settings.retry_max_ms (j.attempts + 1)
            (jitter_after w) in
        calm_update_rule (is_held id worker) (retry_after w) _ _ (calm _) (
          goes _ _ (
            retry_after w j,
            [],
            held_after id worker j (retry_after w) w.rows (λ r. refl) held row,
            sym (append-nil w.captured),
            (
              (λ spent. absurd (omega (arith, left, spent))),
              (λ _. (refl, refl, omega (arith, bounds.0), omega (arith, bounds.1))),
              refl,
            ),
          ))

  mark_failure_rule :
      (id : ℕ) (worker : String) (err : JobError) (j : BackgroundJob) (w : QueueState table)
      → ((n : ℕ) → w.faults n ≡ none)
      → is_held id worker j ≡ true
      → table.find_unique id w.rows ≡ some j
      → Ends tt
          (λ _ _. ⊥)
          (λ _ w'. AfterFailure id (is_reschedule_job_error err) j w w')
          (mark_failure settings id j.attempts j.max_attempts err worker w)
  unfolding mark_failure current_time ◌>>=◌
  mark_failure_rule id worker err j w calm held row =
      elim (Option-cases (is_reschedule_job_error err)) [
        | inr (run_at, e) ↦
            rw e (reschedule_rule id worker (message_of err) j held run_at w calm row)
        | inl e ↦ rw e (elim (Bool-cases (leb j.max_attempts (j.attempts + 1))) [
          | inl spent ↦
              rw spent
                (dead_letter_rule id worker (message_of err) j held w calm row (ground arith))
          | inr left ↦
              rw left (retry_rule id worker (message_of err) j held w calm row (ground arith))
        ])
      ]

  -- Where the database answers and the worker holds the job, `markFailure` succeeds. With an error
  -- that asks for another time the job is PENDING for that time with the attempts it had. With
  -- another error it has one attempt more: it is DEAD and one message is sent where these are all
  -- that it may have, and else it is PENDING, after the exponential delay at least, and the longest
  -- delay at most.
  pub mark_failure-result :
      (id : ℕ) (worker : String) (err : JobError) (j : BackgroundJob) (w : QueueState table)
      → ((n : ℕ) → w.faults n ≡ none)
      → is_held id worker j ≡ true
      → table.find_unique id w.rows ≡ some j
      → (w' : QueueState table) × (mark_failure settings id j.attempts j.max_attempts err worker w
          ≡ next tt w')
        × AfterFailure id (is_reschedule_job_error err) j w w'
  mark_failure-result id worker err j w calm held row =
      let (a, w', e, h) = Ends-goes _ _ (mark_failure_rule id worker err j w calm held row) in
      (w', e, h)
