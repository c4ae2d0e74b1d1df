-- ===== src/Jobs/Award/Granted.antt =====
-- The handler of src/routes/jobAward.ts where no call fails: a request that meets the conditions is
-- granted.
use home_hero_backend.Jobs.Award.Outcome
use home_hero_backend.Prelude.{Bool, Option, arith, none, refl, some, ℕ, ◌+◌, ◌≡◌}
use home_hero_backend.Jobs.Award.{
  accept_bid, award_announce, award_body, award_job, award_transaction, post_job_award, resolve_bid,
}
use home_hero_backend.Jobs.Model.{AuthUser, Bid, Job}
use home_hero_backend.Jobs.Passing.{
  Passes, Passes-run, Runs, pass_audit, pass_bind, pass_emit, pass_if, pass_pure, pass_some,
  pass_transaction, pass_try, pass_valid,
}
use home_hero_backend.Jobs.Passing.Queries.{
  last_find_bid, last_find_job, pass_update_bid, pass_update_bids, pass_update_job,
}
use home_hero_backend.Jobs.Request.{AuthRequest, AwardBody, Zod}
use home_hero_backend.Jobs.World.{Db, World, create_notification, enqueue_webhook_event}

module _ (db : Db) (zod : Zod) (audits : Bool) (now : ℕ) where
  resolve_bid-Runs :
      (job_id : ℕ) {o : Option ℕ} (p : Option ℕ) {i : ℕ} {K : Option Bid → World db → Type 0}
      (w : World db)
      → o ≡ some i
      → w.faults w.calls ≡ none
      → K (db.bids.find_unique i w.bids) (record w { calls = w.calls + 1 })
      → Runs K (resolve_bid db zod audits now job_id o p w)
  unfolding resolve_bid
  resolve_bid-Runs job_id p w named e h = rw (named, resolve_bid) (last_find_bid _ _ e h)

  -- If no call fails, a request of a job's owner to award the job, while it is OPEN, to a bid of it
  -- that the request names by its identifier, is answered 200.
  pub post_job_award-granted :
      (req : AuthRequest zod.Raw) (w : World db) (user : AuthUser) (body : AwardBody) (job : Job)
      (bid : Bid)
      → Outcome.Entitled db zod audits now req w user body job bid
      → body.bid_id ≡ some bid.id
      → ((n : ℕ) → w.faults n ≡ none)
      → (post_job_award db zod audits now req w).0.status ≡ 200
  unfolding post_job_award award_body award_transaction award_announce create_notification
      enqueue_webhook_event
  post_job_award-granted req w user body job bid e named clear = Passes-run _ _ _ (
      pass_some _ _ _ e.sender (
        pass_if _ _ _ (rw e.sender_role refl) (
          pass_some _ _ _ e.named_job (
            pass_valid _ _ e.body_valid (
              pass_try _ _ _ _ (
                last_find_job _ _ (clear _) (
                  pass_some _ _ _ e.job_row (
                    pass_if _ _ _ (ground (arith, e.owner)) (
                      pass_if _ _ _ (rw e.job_open refl) (
                        pass_bind _ _ _ (
                          resolve_bid-Runs _ _ _ named (clear _) (
                            pass_some _ _ _ e.bid_row (
                              pass_if _ _ _ (ground (arith, e.bid_job)) (
                                pass_transaction _ _ _ (
                                  pass_update_bid _ _ _ _ (clear _) e.bid_row (
                                    pass_update_bids _ _ _ _ (clear _) (
                                      pass_update_job _ _ _ _ (clear _) e.job_row (
                                        pass_pure _ _ (
                                          announced bid (accept_bid bid)
                                            (award_job bid.provider_id now job) _
                                            clear)))))))))))))))))))
    where
      announced :
          (bid b : Bid) (j : Job) (w : World db)
          → ((n : ℕ) → w.faults n ≡ none)
          → Passes 200 (award_announce db zod audits now job bid b j w)
      announced bid b j w clear = pass_emit _ _ _ (clear _) (
          pass_emit _ _ _ (clear _) (
            pass_audit _ _ _ _ _ (clear _)
              (pass_emit _ _ _ (clear _) (pass_emit _ _ _ (clear _) (pass_pure _ _ refl)))))
