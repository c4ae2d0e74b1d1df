-- ===== src/Queue/Claims.antt =====
-- src/jobs/worker.ts: what `claimDueJobs` gives to a worker.
use mathlib.Core.Option.{some-injective}
use home_hero_backend.Prelude.{
  ==_iff, All, All-both, All-imp, Bool, Bool-cases, List, Option, String, [], arith, false, inl,
  inr, none, refl, some, subst, sym, true, ℕ, ◌&&◌, ◌∙◌, ◌∷◌, ◌≡◌, ◌≢◌,
}
use home_hero_backend.Db.{Table}
use home_hero_backend.Http.{next, pure}
use home_hero_backend.Http.Keeps.{state_of}
use home_hero_backend.Http.Rules.{Ends, goes}
use home_hero_backend.Queue.Calls.{QueueCall, claim_due, perform, perform_all}
use home_hero_backend.Queue.Invariants.{is_foreign_to, perform_all-held}
use home_hero_backend.Queue.Model.{
  BackgroundJob, by_run_at, insert_job, is_held, is_locked_by, is_one_of, is_running, is_waiting,
  lock, runs_first,
}
use home_hero_backend.Queue.Rules.{Ends-next, current_time_rule, query_rule, transaction_rule}
use home_hero_backend.Queue.State.{QueueSettings, QueueState, find_jobs, update_jobs}
use home_hero_backend.Queue.Worker.{claim_due_jobs, lock_candidates}
use home_hero_backend.Text.{same_text, same_text_iff}

module _ (Q : BackgroundJob → Type 0) where
  All-insert_job :
      (j : BackgroundJob) (js : List BackgroundJob) → Q j → All Q js → All Q (insert_job j js)
  unfolding insert_job
  All-insert_job j [] h hs = (h, tt)
  All-insert_job j (k ∷ ks) h (q, qs) = elim (Bool-cases (runs_first j k)) [
    | inl first ↦ rw first (h, (q, qs))
    | inr later ↦ rw later (q, All-insert_job j ks h qs)
  ]

  All-by_run_at : (js : List BackgroundJob) → All Q js → All Q (by_run_at js)
  unfolding by_run_at
  All-by_run_at [] h = tt
  All-by_run_at (j ∷ js) (h, hs) = All-insert_job j (by_run_at js) h (All-by_run_at js hs)

-- The job is in the table, PROCESSING and locked by the worker.
abbrev pub HeldIn :
    (table : Table BackgroundJob (λ j. j.id)) → String → table.Rows → BackgroundJob → Type 0
HeldIn table worker s j = (is_held j.id worker j ≡ true) × (table.find_unique j.id s ≡ some j)

module _ (table : Table BackgroundJob (λ j. j.id)) (settings : QueueSettings)
    (worker : String) where
  lock_candidates_rule :
      (now : ℕ) (cs : List BackgroundJob) (w : QueueState table)
      → Ends tt
          (λ _ _. Unit {0})
          (λ js w'. All (HeldIn table worker w'.rows) js)
          (lock_candidates worker now cs w)
  unfolding lock_candidates pure update_jobs find_jobs
  lock_candidates_rule now [] w = goes _ _ tt
  lock_candidates_rule now (c ∷ cs) w =
      query_rule _
        (λ v. record v {
          rows =
              table.update_many (λ j. is_one_of (c ∷ cs) j && is_waiting j.status) (lock now worker)
                v.rows;
        })
        _ w
        (query_rule _ (λ v. v) _ _
          (goes _ _ (
            All-by_run_at _ _ (
              All-imp _ (λ j (hit, row). (held_of (c ∷ cs) j hit, row))
                (All-both (λ j. held_candidate (c ∷ cs) j ≡ true)
                  (λ j. table.find_unique j.id _ ≡ some j) _
                  (table.find_many_sound (held_candidate (c ∷ cs)) _)
                  (table.find_many_rows (held_candidate (c ∷ cs)) _))))))
    where
      held_candidate : List BackgroundJob → BackgroundJob → Bool
      held_candidate ds j = is_one_of ds j && is_running j.status && is_locked_by worker j.locked_by

      held_of :
          (ds : List BackgroundJob) (j : BackgroundJob)
          → held_candidate ds j ≡ true
          → is_held j.id worker j ≡ true
      held_of ds j hit = ground (arith, (==_iff j.id j.id).1 refl)

  claim_due_jobs_rule :
      (w : QueueState table)
      → Ends tt
          (λ _ _. Unit {0})
          (λ js w'. All (HeldIn table worker w'.rows) js)
          (claim_due_jobs settings worker w)
  unfolding claim_due_jobs find_jobs
  claim_due_jobs_rule w =
      current_time_rule _ w
        (transaction_rule _ _ (query_rule _ (λ v. v) _ _ (lock_candidates_rule _ _ _)))

  pub claim_due_jobs-held :
      (w w' : QueueState table) (js : List BackgroundJob)
      → claim_due_jobs settings worker w ≡ next js w'
      → All (HeldIn table worker w'.rows) js
  claim_due_jobs-held w w' js e =
      Ends-next (λ ks v. All (HeldIn table worker v.rows) ks) _ (claim_due_jobs_rule w) e

held_by :
    (j : BackgroundJob) (worker : String)
    → is_held j.id worker j ≡ true
    → is_locked_by worker j.locked_by ≡ true
held_by j worker h = ground arith

same_holder :
    (o : Option String) (v w : String) → is_locked_by v o ≡ true → is_locked_by w o ≡ true → v ≡ w
same_holder none v w h k = absurd (cc)
same_holder (some u) v w h k = sym ((same_text_iff u v).0 h) ∙ (same_text_iff u w).0 k

module _ (table : Table BackgroundJob (λ j. j.id)) (settings : QueueSettings) where
  -- What a worker holds stays as it is when another one claims after other calls.
  held_at_claim :
      (worker other : String) (cs : List QueueCall) (w w' : QueueState table)
      (ks : List BackgroundJob) (j : BackgroundJob)
      → same_text worker other ≡ false
      → All (λ c. is_foreign_to worker c ≡ true) cs
      → claim_due_jobs settings other (perform_all settings cs w) ≡ next ks w'
      → HeldIn table worker w.rows j
      → table.find_unique j.id w'.rows ≡ some j
  unfolding perform_all perform
  held_at_claim worker other cs w w' ks j differ foreign e (held, row) =
      subst (λ x. table.find_unique j.id (state_of {W = QueueState table} x).rows ≡ some j) e
        (perform_all-held table settings (claim_due other ∷ []) _ worker j.id j held (refl, tt)
          (perform_all-held table settings cs w worker j.id j held foreign row))

  -- Two workers never get the same job: when a worker has claimed a batch, and other workers and
  -- requests have claimed, settled and queued jobs since, but no lease was released and no job of a
  -- digest moved, the batch that another worker claims has no job of it.
  pub claim_due_jobs-disjoint :
      (worker other : String)
      → same_text worker other ≡ false
      → (w w₁ w₂ : QueueState table) (js ks : List BackgroundJob) (cs : List QueueCall)
      → claim_due_jobs settings worker w ≡ next js w₁
      → All (λ c. is_foreign_to worker c ≡ true) cs
      → claim_due_jobs settings other (perform_all settings cs w₁) ≡ next ks w₂
      → All (λ j. All (λ k. j.id ≢ k.id) ks) js
  claim_due_jobs-disjoint worker other differ w w₁ w₂ js ks cs e foreign e' =
      All-imp js
        (λ j held.
          All-imp ks (λ k held' same. apart j k held held' same)
            (claim_due_jobs-held table settings other _ w₂ ks e'))
        (claim_due_jobs-held table settings worker w w₁ js e)
    where
      apart :
          (j k : BackgroundJob)
          → HeldIn table worker w₁.rows j
          → HeldIn table other w₂.rows k
          → j.id ≡ k.id
          → ⊥
      apart j k (held, row) (held', row') same =
          let still = held_at_claim worker other cs w₁ w₂ ks j differ foreign e' (held, row) in
          let one : j ≡ k = some-injective j k (sym still ∙ rw same row') in
          let both =
            same_holder k.locked_by worker other
              (subst (λ (z : BackgroundJob). is_locked_by worker z.locked_by ≡ true) one
                (held_by j worker held))
              (held_by k other held') in
          let yes_same = (same_text_iff worker other).1 both in absurd (cc)
