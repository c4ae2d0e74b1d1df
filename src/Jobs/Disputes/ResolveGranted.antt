-- ===== src/Jobs/Disputes/ResolveGranted.antt =====
-- The handler of src/routes/jobDisputes.ts that resolves a dispute, where no call fails: a request
-- that meets the conditions is granted.
use home_hero_backend.Jobs.Disputes.ResolveOutcome
use home_hero_backend.Prelude.{Bool, false, none, refl, some, subst, sym, ℕ, ◌≡◌, ◌≢◌}
use home_hero_backend.Jobs.Disputes.{
  post_admin_resolve_dispute, resolve_announce, resolve_body, dispute_status_changed,
}
use home_hero_backend.Jobs.Model.{
  AuthUser, Dispute, DisputeStatus, Job, investigating, is_resolved, opened, resolved,
}
use home_hero_backend.Jobs.Passing.{
  Passes-run, pass_audit, pass_emit, pass_emit_each, pass_if, pass_pure, pass_some, pass_valid,
}
use home_hero_backend.Jobs.Passing.Queries.{
  pass_find_dispute, pass_find_first_bid, pass_find_job, pass_update_dispute, pass_update_job,
}
use home_hero_backend.Jobs.Request.{AuthRequest, ResolveBody, Zod}
use home_hero_backend.Jobs.World.{Db, World, create_notification, enqueue_webhook_event}

is_resolved-ne : (s : DisputeStatus) → s ≢ resolved → is_resolved s ≡ false
is_resolved-ne resolved h = absurd (h refl)
is_resolved-ne opened h = refl
is_resolved-ne investigating h = refl

module _ (db : Db) (zod : Zod) (audits : Bool) (now : ℕ) where
  -- If no call fails, a request of an admin to resolve an unresolved dispute of a DISPUTED job is
  -- answered 200.
  pub post_admin_resolve_dispute-granted :
      (req : AuthRequest zod.Raw) (w : World db) (user : AuthUser) (dispute_id : ℕ) (d : Dispute)
      (job : Job) (body : ResolveBody)
      → ResolveOutcome.Entitled db zod audits now req w user dispute_id d job body
      → ((n : ℕ) → w.faults n ≡ none)
      → (post_admin_resolve_dispute db zod audits now req w).0.status ≡ 200
  unfolding post_admin_resolve_dispute resolve_body resolve_announce dispute_status_changed
      create_notification enqueue_webhook_event
  post_admin_resolve_dispute-granted req w user dispute_id d job body e clear = Passes-run _ _ _ (
      pass_some _ _ _ e.sender (
        pass_if _ _ _ (rw e.sender_role refl) (
          pass_some _ _ _ e.named_dispute (
            pass_valid _ _ e.body_valid (
              pass_find_dispute _ _ _ (clear _) (
                pass_some _ _ _ e.dispute_row (
                  pass_if _ _ _ (is_resolved-ne d.status e.dispute_active) (
                    pass_find_job _ _ _ (clear _) (
                      pass_some _ _ _ e.job_row (
                        pass_if _ _ _ (rw e.job_disputed refl) (
                          pass_find_first_bid _ _ _ (clear _) (
                            pass_update_dispute _ _ _ _ (clear _) e.dispute_row (
                              pass_update_job _ _ _ _ (clear _) job_there (
                                pass_emit_each _ _ _ clear λ o n. pass_audit _ _ _ _ _ (clear _) (
                                  pass_emit _ _ _ (clear _)
                                    (pass_emit _ _ _ (clear _) (pass_pure _ _ refl)))))))))))))))))
    where
      job_there : db.jobs.find_unique job.id w.jobs ≡ some job
      job_there =
          subst (λ i. db.jobs.find_unique i w.jobs ≡ some job)
            (sym (db.jobs.find_key d.job_id w.jobs e.job_row)) e.job_row
