-- ===== src/Jobs/Cancellation/Granted.antt =====
-- The handler of src/routes/jobCancellation.ts where no call fails: a request that meets the
-- conditions is granted.
use home_hero_backend.Jobs.Cancellation.Outcome
use home_hero_backend.Prelude.{
  Bool, List, Option, [], arith, false, inl, inr, none, not, refl, ℕ, ◌&&◌, ◌<◌, ◌∷◌, ◌≡◌,
}
use home_hero_backend.Http.{pure, ◌>>=◌}
use home_hero_backend.Jobs.Cancellation.{
  cancel_announce, cancel_body, cancel_transaction, cancels_as_consumer, cancels_as_provider,
  post_job_cancel, valid_or_details,
}
use home_hero_backend.Jobs.Cancellation.Outcome.{Outcome}
use home_hero_backend.Jobs.Guards.{can_cancel_job}
use home_hero_backend.Jobs.Model.{
  AuthUser, Job, JobStatus, UserRole, admin, awarded, consumer, in_progress, provider, same_role,
  same_status,
}
use home_hero_backend.Jobs.Passing.{
  Passes, Passes-run, Runs, pass_audit, pass_bind, pass_emit, pass_if, pass_pure, pass_some,
  pass_transaction, pass_try, runs,
}
use home_hero_backend.Jobs.Passing.Queries.{
  pass_update_bids, pass_update_job, resolve_participants-Runs,
}
use home_hero_backend.Jobs.Request.{AuthRequest, CancelBody, Parsed, Zod, valid}
use home_hero_backend.Jobs.World.{
  Db, Effect, M, Reply, World, emit, emit_all, enqueue_webhook_event, external,
}

known_role :
    (r : UserRole)
    → (not (same_role r consumer) && not (same_role r provider) && not (same_role r admin)) ≡ false
known_role consumer = refl
known_role provider = refl
known_role admin = refl

-- The tests on the sender and on the status.
MayCancel-allowed :
    (user : AuthUser) (job : Job) (p : Option ℕ)
    → 0 < user.user_id
    → Outcome.MayCancel user job p
    → (not (cancels_as_consumer user job)
        && not (cancels_as_provider user p)
        && not (same_role user.role admin))
      ≡ false
MayCancel-allowed user job p h (inl (r, e)) = rw r (ground (arith, e))
MayCancel-allowed user job p h (inr (inl (r, e, s))) = rw (r, e) (ground (arith, h))
MayCancel-allowed user job p h (inr (inr r)) = rw r (ground arith)

MayCancel-status :
    (user : AuthUser) (job : Job) (p : Option ℕ)
    → Outcome.MayCancel user job p
    → (cancels_as_provider user p
        && not (same_status job.status awarded)
        && not (same_status job.status in_progress))
      ≡ false
MayCancel-status user job p (inl (r, e)) = rw r refl
MayCancel-status user job p (inr (inl (r, e, inl s))) = rw s (ground arith)
MayCancel-status user job p (inr (inl (r, e, inr s))) = rw s (ground arith)
MayCancel-status user job p (inr (inr r)) = rw r refl

live_can_cancel : (s : JobStatus) → Outcome.IsLive s → not (can_cancel_job s) ≡ false
unfolding can_cancel_job
live_can_cancel s (inl e) = rw e refl
live_can_cancel s (inr (inl e)) = rw e refl
live_can_cancel s (inr (inr e)) = rw e refl

emit_all-Runs :
    {db : Db} (es : List Effect) {K : Unit {0} → World db → Type 0} (w : World db)
    → ((n : ℕ) → w.faults n ≡ none)
    → ((o : List Effect) (n : ℕ) → K tt (record w { outbox = o; calls = n }))
    → Runs K (emit_all es w)
unfolding emit_all emit external pure
emit_all-Runs [] w clear h = runs _ _ (h _ _)
emit_all-Runs (e ∷ es) w clear h =
    rw (clear w.calls, emit_all, emit, external) (emit_all-Runs es _ clear h)

module _ (db : Db) (zod : Zod) (audits : Bool) (now : ℕ) where
  pass_details :
      {p : Parsed CancelBody} (f : CancelBody → M db Reply) (w : World db) {b : CancelBody}
      → p ≡ valid b
      → Passes 200 (f b w)
      → Passes 200 ((valid_or_details p >>= f) w)
  unfolding valid_or_details ◌>>=◌ pure
  pass_details f w e h = rw (e, valid_or_details, ◌>>=◌) h

  -- If no call fails, a request to cancel an OPEN, AWARDED or IN_PROGRESS job by one who may cancel
  -- it, and whose identifier is positive, is answered 200.
  pub post_job_cancel-granted :
      (req : AuthRequest zod.Raw) (w : World db) (user : AuthUser) (job_id : ℕ) (job : Job)
      (body : CancelBody)
      → Outcome.Entitled db zod audits now req w user job_id job body
      → 0 < user.user_id
      → ((n : ℕ) → w.faults n ≡ none)
      → (post_job_cancel db zod audits now req w).0.status ≡ 200
  unfolding post_job_cancel cancel_body cancel_transaction cancel_announce enqueue_webhook_event
  post_job_cancel-granted req w user job_id job body e known clear = Passes-run _ _ _ (
      pass_some _ _ _ e.sender (
        pass_if _ _ _ (known_role user.role) (
          pass_some _ _ _ e.named_job (
            pass_details _ _ e.body_valid (
              pass_try _ _ _ _ (
                resolve_participants-Runs job_id _ clear λ n. pass_some _ _ _ e.job_row (
                  pass_if _ _ _ (MayCancel-allowed user job _ known e.may_cancel) (
                    pass_if _ _ _ (live_can_cancel job.status e.job_live) (
                      pass_if _ _ _ (MayCancel-status user job _ e.may_cancel) (
                        pass_transaction _ _ _ (
                          pass_update_bids _ _ _ _ (clear _) (
                            pass_update_job _ _ _ _ (clear _) e.job_row (
                              pass_pure _ _ (
                                pass_bind _ _ _ (
                                  emit_all-Runs _ _ clear λ o k. pass_audit _ _ _ _ _ (clear _) (
                                    pass_emit _ _ _ (clear _) (
                                      pass_emit _ _ _ (clear _)
                                        (pass_pure _ _ refl))))))))))))))))))
