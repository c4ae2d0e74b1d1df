-- ===== src/Jobs/Completion/MarkGranted.antt =====
-- The mark handler of src/routes/jobCompletion.ts where no call fails: a request that meets the
-- conditions is granted.
use home_hero_backend.Jobs.Completion.MarkOutcome
use home_hero_backend.Prelude.{Bool, none, refl, ℕ, ◌≡◌}
use home_hero_backend.Jobs.Completion.{
  mark_announce, mark_body, post_job_mark_complete, completion_status_changed,
}
use home_hero_backend.Jobs.Guards.{can_mark_complete}
use home_hero_backend.Jobs.Model.{AuthUser, Job}
use home_hero_backend.Jobs.Passing.{
  Passes-run, among_two, participant_role, pass_audit, pass_emit, pass_if, pass_pure, pass_some,
  pass_try,
}
use home_hero_backend.Jobs.Passing.Queries.{pass_update_job, resolve_participants-Runs}
use home_hero_backend.Jobs.Request.{AuthRequest, Zod}
use home_hero_backend.Jobs.World.{Db, World, create_notification, enqueue_webhook_event}

module _ (db : Db) (zod : Zod) (audits : Bool) (now : ℕ) where
  -- If no call fails, a request of a participant to mark an IN_PROGRESS job complete is answered 200.
  pub post_job_mark_complete-granted :
      (req : AuthRequest zod.Raw) (w : World db) (user : AuthUser) (job_id : ℕ) (job : Job)
      (provider_id : ℕ)
      → MarkOutcome.Entitled db zod audits now req w user job_id job provider_id
      → ((n : ℕ) → w.faults n ≡ none)
      → (post_job_mark_complete db zod audits now req w).0.status ≡ 200
  unfolding post_job_mark_complete mark_body mark_announce completion_status_changed
      create_notification enqueue_webhook_event can_mark_complete
  post_job_mark_complete-granted req w user job_id job provider_id e clear = Passes-run _ _ _ (
      pass_some _ _ _ e.sender (
        pass_if _ _ _ (participant_role user.role e.sender_role) (
          pass_some _ _ _ e.named_job (
            pass_try _ _ _ _ (
              resolve_participants-Runs job_id _ clear λ n. pass_some _ _ _ e.job_row (
                pass_some _ _ _ e.job_provider (
                  pass_if _ _ _ (among_two e.participant) (
                    pass_if _ _ _ (rw e.job_in_progress refl) (
                      pass_update_job _ _ _ _ (clear _) e.job_row (
                        pass_audit _ _ _ _ _ (clear _) (
                          pass_emit _ _ _ (clear _) (
                            pass_emit _ _ _ (clear _)
                              (pass_emit _ _ _ (clear _) (pass_pure _ _ refl))))))))))))))
