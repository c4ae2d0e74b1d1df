-- ===== src/Jobs/Start/Granted.antt =====
-- The handler of src/routes/jobStart.ts where no call fails: a request that meets the conditions is
-- granted.
use home_hero_backend.Jobs.Start.Outcome
use home_hero_backend.Prelude.{Bool, arith, none, refl, ℕ, ◌≡◌}
use home_hero_backend.Jobs.Model.{AuthUser, Job}
use home_hero_backend.Jobs.Passing.{
  Passes-run, pass_audit, pass_emit, pass_if, pass_pure, pass_some,
}
use home_hero_backend.Jobs.Passing.Queries.{pass_find_job, pass_update_job}
use home_hero_backend.Jobs.Request.{AuthRequest, Zod}
use home_hero_backend.Jobs.Start.{post_job_start, start_announce, start_body}
use home_hero_backend.Jobs.World.{Db, World, create_notification, enqueue_webhook_event}

module _ (db : Db) (zod : Zod) (audits : Bool) (now : ℕ) where
  -- If no call fails, a request of the awarded provider to start an AWARDED job is answered 200.
  pub post_job_start-granted :
      (req : AuthRequest zod.Raw) (w : World db) (user : AuthUser) (job_id : ℕ) (job : Job)
      → Outcome.Entitled db zod audits now req w user job_id job
      → ((n : ℕ) → w.faults n ≡ none)
      → (post_job_start db zod audits now req w).0.status ≡ 200
  unfolding post_job_start start_body start_announce create_notification enqueue_webhook_event
  post_job_start-granted req w user job_id job e clear = Passes-run _ _ _ (
      pass_some _ _ _ e.sender (
        pass_if _ _ _ (rw e.sender_role refl) (
          pass_some _ _ _ e.named_job (
            pass_find_job _ _ _ (clear _) (
              pass_some _ _ _ e.job_row (
                pass_if _ _ _ (rw e.job_awarded refl) (
                  pass_if _ _ _ (ground (arith, e.awarded_to_sender)) (
                    pass_update_job _ _ _ _ (clear _) e.job_row (
                      pass_emit _ _ _ (clear _) (
                        pass_emit _ _ _ (clear _) (
                          pass_audit _ _ _ _ _ (clear _)
                            (pass_emit _ _ _ (clear _) (pass_pure _ _ refl)))))))))))))
