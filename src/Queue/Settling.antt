-- ===== src/Queue/Settling.antt =====
-- src/jobs/worker.ts: what the two ways to settle a job keep, whichever calls fail.
use home_hero_backend.Prelude.{
  Option, Option-cases, String, false, inl, inr, leb, none, refl, some, ℕ, ◌+◌, ◌≡◌, ◌⊎◌,
}
use home_hero_backend.Db.{Table}
use home_hero_backend.Http.{pure}
use home_hero_backend.Http.Keeps.{Keeps, Keeps-bind, Keeps-if, Keeps-pure, Keeps-try_catch}
use home_hero_backend.Queue.Model.{
  BackgroundJob, dead_lettered, is_held, is_running, rescheduled, retried, succeeded,
}
use home_hero_backend.Queue.Rules.{
  OfRows, capture_message-Keeps, current_time-Keeps, random_below-Keeps, update_jobs-Keeps,
}
use home_hero_backend.Queue.State.{QueueSettings, QueueWork, update_jobs}
use home_hero_backend.Queue.Worker.{
  JobError, dead_letter_job, handle_job, is_reschedule_job_error, mark_failure, mark_success,
  message_of, retry_delay_ms, retry_job, settle_or_keep,
}

module _ (table : Table BackgroundJob (λ j. j.id)) (P : table.Rows → Type 0) (id : ℕ)
    (worker : String) where
  -- What a property has to satisfy to stay true when the worker settles a job: the updates of a
  -- row that it holds, to one that nobody holds.
  pub record Settleable : Type 0 where
    pub freed :
        (f : BackgroundJob → BackgroundJob)
        → ((j : BackgroundJob)
            → ((f j).id ≡ j.id)
              × (is_running (f j).status ≡ false)
              × ((f j).locked_by ≡ none)
              × ((f j).locked_at ≡ none))
        → (s : table.Rows) → P s
        → P (table.update_many (is_held id worker) f s)

  module _ (settings : QueueSettings) (ok : Settleable) where
    settle-Keeps :
        (f : BackgroundJob → BackgroundJob)
        → ((j : BackgroundJob)
            → ((f j).id ≡ j.id)
              × (is_running (f j).status ≡ false)
              × ((f j).locked_by ≡ none)
              × ((f j).locked_at ≡ none))
        → Keeps (OfRows table P) ℕ (update_jobs {table = table} (is_held id worker) f)
    settle-Keeps f frees = update_jobs-Keeps P _ f (ok.freed f frees)

    retry_delay_ms-Keeps :
        (attempt : ℕ) → Keeps (OfRows table P) ℕ (retry_delay_ms {table = table} settings attempt)
    unfolding retry_delay_ms
    retry_delay_ms-Keeps attempt = Keeps-bind (random_below-Keeps P _) λ jitter. Keeps-pure _

    pub mark_success-Keeps :
        Keeps (OfRows table P) (Unit {0}) (mark_success {table = table} id worker)
    unfolding mark_success
    mark_success-Keeps = Keeps-bind (current_time-Keeps P) λ now.
        Keeps-bind (settle-Keeps (succeeded now) λ j. (refl, refl, refl, refl))
          λ count. Keeps-pure _

    pub mark_failure-Keeps :
        (attempts max_attempts : ℕ) (err : JobError)
        → Keeps
            (OfRows table P)
            (Unit {0})
            (mark_failure {table = table} settings id attempts max_attempts err worker)
    unfolding mark_failure dead_letter_job retry_job
    mark_failure-Keeps attempts max_attempts err = Keeps-bind (current_time-Keeps P) λ now.
        elim (Option-cases (is_reschedule_job_error err)) [
          | inr (run_at, e) ↦ rw e (
              Keeps-bind
                (settle-Keeps (rescheduled attempts now run_at) λ j. (refl, refl, refl, refl))
                λ count. Keeps-pure _)
          | inl e ↦ rw e (
              Keeps-if (leb max_attempts (attempts + 1))
                (Keeps-bind
                  (settle-Keeps (dead_lettered (attempts + 1) (message_of err) now)
                    λ j. (refl, refl, refl, refl))
                  λ count. Keeps-if _ (capture_message-Keeps P _) (Keeps-pure _))
                (Keeps-bind (retry_delay_ms-Keeps _) λ delay.
                  Keeps-bind (current_time-Keeps P) λ later.
                    Keeps-bind
                      (settle-Keeps (retried (attempts + 1) (message_of err) now (later + delay))
                        λ j. (refl, refl, refl, refl))
                      λ count. Keeps-pure _))
        ]

    settle_or_keep-Keeps :
        (j : BackgroundJob) (r : Unit {0} ⊎ JobError)
        → j.id ≡ id
        → Keeps (OfRows table P) (Option JobError) (settle_or_keep {table = table} j worker r)
    unfolding settle_or_keep
    settle_or_keep-Keeps j (inl _) e = rw e (Keeps-bind mark_success-Keeps λ _. Keeps-pure _)
    settle_or_keep-Keeps j (inr err) e = Keeps-pure _

    fail_or_end-Keeps :
        (j : BackgroundJob) (failed : Option JobError)
        → j.id ≡ id
        → Keeps (OfRows table P) (Unit {0}) (elim failed [
          | none ↦ pure tt
          | some err ↦
              mark_failure {table = table} settings j.id j.attempts j.max_attempts err worker
        ])
    fail_or_end-Keeps j none e = Keeps-pure _
    fail_or_end-Keeps j (some err) e = rw e (mark_failure-Keeps _ _ err)

    pub handle_job-Keeps :
        {process : QueueWork table (Unit {0} ⊎ JobError)} (j : BackgroundJob)
        → j.id ≡ id
        → Keeps (OfRows table P) (Unit {0} ⊎ JobError) process
        → Keeps (OfRows table P) (Unit {0}) (handle_job {table = table} settings process j worker)
    unfolding handle_job
    handle_job-Keeps j e hp =
        Keeps-bind
          (Keeps-try_catch (Keeps-bind hp λ r. settle_or_keep-Keeps j r e) λ m. Keeps-pure _)
          λ failed. fail_or_end-Keeps j failed e
