-- ===== src/Jobs/Disputes/OpenGranted.antt =====
-- The handler of src/routes/jobDisputes.ts that opens a dispute, where no call fails: a request that
-- meets the conditions is granted.
use home_hero_backend.Jobs.Disputes.OpenOutcome
use home_hero_backend.Prelude.{
  Bool, Option, arith, false, inl, inr, none, not, refl, some, ℕ, ◌&&◌, ◌==◌, ◌≡◌, ◌⊎◌,
}
use home_hero_backend.Jobs.Disputes.{
  open_announce, open_body, post_job_disputes, dispute_status_changed,
}
use home_hero_backend.Jobs.Model.{AuthUser, Job, is_id}
use home_hero_backend.Jobs.Passing.{
  Passes-run, participant_role, pass_audit, pass_emit, pass_emit_each, pass_if, pass_pure,
  pass_some, pass_valid,
}
use home_hero_backend.Jobs.Passing.Queries.{
  pass_create_dispute, pass_find_first_bid, pass_find_first_dispute, pass_find_job, pass_find_users,
  pass_update_job,
}
use home_hero_backend.Jobs.Request.{AuthRequest, DisputeBody, Zod}
use home_hero_backend.Jobs.World.{Db, World, create_notification, enqueue_webhook_event}

-- The two tests on the sender.
takes_part :
    {me a : ℕ} {o : Option ℕ}
    → (a ≡ me) ⊎ (o ≡ some me)
    → (not (a == me) && not (is_id o me)) ≡ false
takes_part (inl e) = ground arith
takes_part {o = none} (inr e) = absurd (cc)
takes_part {o = some b} (inr e) = ground arith

module _ (db : Db) (zod : Zod) (audits : Bool) (now : ℕ) where
  -- If no call fails, a request of a participant to open a dispute, for a job in a status that
  -- allows it and with no active dispute, is answered 201.
  pub post_job_disputes-granted :
      (req : AuthRequest zod.Raw) (w : World db) (user : AuthUser) (job_id : ℕ) (job : Job)
      (body : DisputeBody)
      → OpenOutcome.Entitled db zod audits now req w user job_id job body
      → ((n : ℕ) → w.faults n ≡ none)
      → (post_job_disputes db zod audits now req w).0.status ≡ 201
  unfolding post_job_disputes open_body open_announce dispute_status_changed create_notification
      enqueue_webhook_event
  post_job_disputes-granted req w user job_id job body e clear = Passes-run _ _ _ (
      pass_some _ _ _ e.sender (
        pass_if _ _ _ (participant_role user.role e.sender_role) (
          pass_some _ _ _ e.named_job (
            pass_valid _ _ e.body_valid (
              pass_find_job _ _ _ (clear _) (
                pass_some _ _ _ e.job_row (
                  pass_if _ _ _ (rw e.job_disputable refl) (
                    pass_find_first_bid _ _ _ (clear _) (
                      pass_if _ _ _ (takes_part e.participant) (
                        pass_find_first_dispute _ _ _ (clear _) (
                          pass_if _ _ _ (rw e.none_active refl) (
                            pass_create_dispute _ _ _ (clear _) (
                              pass_update_job _ _ _ _ (clear _) e.job_row (
                                pass_emit_each _ _ _ clear λ o n. pass_find_users _ _ _ (clear _) (
                                  pass_emit_each _ _ _ clear λ o' n'.
                                    pass_audit _ _ _ _ _ (clear _) (
                                      pass_emit _ _ _ (clear _) (
                                        pass_emit _ _ _ (clear _)
                                          (pass_pure _ _ refl))))))))))))))))))
