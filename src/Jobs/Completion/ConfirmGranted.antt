-- ===== src/Jobs/Completion/ConfirmGranted.antt =====
-- The confirm handler of src/routes/jobCompletion.ts where no call fails: a request that meets the
-- conditions is granted.
use home_hero_backend.Jobs.Completion.ConfirmOutcome
use home_hero_backend.Prelude.{Bool, arith, none, refl, ℕ, ◌≡◌}
use home_hero_backend.Jobs.Completion.{
  confirm_announce, confirm_body, post_job_confirm_complete, completion_status_changed,
}
use home_hero_backend.Jobs.Guards.{can_confirm_complete}
use home_hero_backend.Jobs.Model.{AuthUser, Job}
use home_hero_backend.Jobs.Passing.{
  Passes-run, among_two, participant_role, pass_audit, pass_emit, pass_if, pass_pure, pass_some,
  pass_try,
}
use home_hero_backend.Jobs.Passing.Queries.{pass_update_job, resolve_participants-Runs}
use home_hero_backend.Jobs.Request.{AuthRequest, Zod}
use home_hero_backend.Jobs.World.{Db, World, create_notification, enqueue_webhook_event}

module _ (db : Db) (zod : Zod) (audits : Bool) (now : ℕ) where
  -- If no call fails, a request to confirm the completion of a job that waits for its sender is answered 200.
  pub post_job_confirm_complete-granted :
      (req : AuthRequest zod.Raw) (w : World db) (user : AuthUser) (job_id : ℕ) (job : Job)
      (provider_id : ℕ)
      → ConfirmOutcome.Entitled db zod audits now req w user job_id job provider_id
      → ((n : ℕ) → w.faults n ≡ none)
      → (post_job_confirm_complete db zod audits now req w).0.status ≡ 200
  unfolding post_job_confirm_complete confirm_body confirm_announce completion_status_changed
      create_notification enqueue_webhook_event can_confirm_complete
  post_job_confirm_complete-granted req w user job_id job provider_id e clear = Passes-run _ _ _ (
      pass_some _ _ _ e.sender (
        pass_if _ _ _ (participant_role user.role e.sender_role) (
          pass_some _ _ _ e.named_job (
            pass_try _ _ _ _ (
              resolve_participants-Runs job_id _ clear λ n. pass_some _ _ _ e.job_row (
                pass_some _ _ _ e.job_provider (
                  pass_if _ _ _ (among_two e.participant) (
                    pass_if _ _ _ (rw e.job_pending refl) (
                      pass_if _ _ _ (ground (arith, e.pending_for_sender)) (
                        pass_update_job _ _ _ _ (clear _) e.job_row (
                          pass_audit _ _ _ _ _ (clear _) (
                            pass_emit _ _ _ (clear _) (
                              pass_emit _ _ _ (clear _) (
                                pass_emit _ _ _ (clear _)
                                  (pass_emit _ _ _ (clear _) (pass_pure _ _ refl))))))))))))))))
