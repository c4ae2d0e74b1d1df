-- ===== src/Jobs/Participants.antt =====
-- `resolveParticipants` of src/routes/jobCompletion.ts and src/routes/jobCancellation.ts: the job,
-- and the provider that it was awarded to, or else the one of an accepted bid.
use home_hero_backend.Prelude.{Bool, Option, false, none, some, true, ℕ, ◌&&◌, ◌==◌}
use home_hero_backend.Http.{pure, try_catch, ◌>>=◌}
use home_hero_backend.Http.Rules.{Ends, bind_rule, pure_rule}
use home_hero_backend.Jobs.Model.{Bid, Job, is_accepted, truthy}
use home_hero_backend.Jobs.Rules.{called, try_rule}
use home_hero_backend.Jobs.Rules.Queries.{find_first_bid_rule, find_job_rule}
use home_hero_backend.Jobs.World.{Db, M, Reply, World, find_first_bid, find_job, missing_column_to}

-- `typeof job?.awardedProviderId === "number" ? job.awardedProviderId : null`.
abbrev pub awarded_of : Option Job → Option ℕ
awarded_of none = none
awarded_of (some job) = job.awarded_provider_id

-- `acceptedBid?.providerId ?? null`.
abbrev pub provider_of : Option Bid → Option ℕ
provider_of none = none
provider_of (some bid) = some bid.provider_id

-- `where: { jobId, status: "ACCEPTED" }`.
abbrev pub accepted_of : ℕ → Bid → Bool
accepted_of job_id bid = bid.job_id == job_id && is_accepted bid.status

-- `if (!providerId) providerId = ...`, by the value and the test on it.
unfoldable pub provider_or_accepted : {db : Db} → ℕ → Option ℕ → Bool → M db (Option ℕ)
provider_or_accepted job_id provider_id true w = pure provider_id w
provider_or_accepted job_id provider_id false w =
    (do accepted_bid ← find_first_bid (accepted_of job_id); pure (provider_of accepted_bid)) w

unfoldable pub resolve_participants : {db : Db} → ℕ → M db (Option Job × Option ℕ)
resolve_participants job_id = do
  job ← find_job job_id
  provider_id ← provider_or_accepted job_id (awarded_of job) (truthy (awarded_of job))
  pure (job, provider_id)

-- The provider of the job in the tables.
abbrev pub settled : (db : Db) → World db → ℕ → Option ℕ → Bool → Option ℕ
settled db w job_id provider_id true = provider_id
settled db w job_id provider_id false = provider_of (db.bids.find_first (accepted_of job_id) w.bids)

abbrev pub designated : (db : Db) → World db → ℕ → Option ℕ
designated db w job_id =
    let awarded_id = awarded_of (db.jobs.find_unique job_id w.jobs) in
    settled db w job_id awarded_id (truthy awarded_id)

module _ {db : Db} {A : Type 0} {internal : Reply} {E : Reply → World db → Type 0}
    {K : A → World db → Type 0} where
  provider_rule :
      (job_id : ℕ) (o : Option ℕ) (b : Bool) (f : Option ℕ → M db A) (w : World db)
      → E internal (called w)
      → ((n : ℕ) → Ends internal E K (f (settled db w job_id o b) (record w { calls = n })))
      → Ends internal E K ((provider_or_accepted job_id o b >>= f) w)
  unfolding provider_or_accepted
  provider_rule job_id o true f w stop go = bind_rule _ _ _ (pure_rule _ _ (go _))
  provider_rule job_id o false f w stop go =
      bind_rule _ _ _ (find_first_bid_rule _ _ _ stop (pure_rule _ _ (go _)))

module _ {db : Db} {internal : Reply} {E K : Reply → World db → Type 0} where
  pub resolve_participants_rule :
      (job_id : ℕ) (answer : Reply) (f : Option Job × Option ℕ → M db Reply) (w : World db)
      → ((n : ℕ) → E internal (record w { calls = n }))
      → ((n : ℕ) → E answer (record w { calls = n }))
      → ((n : ℕ)
          → Ends internal E K (
              f
                (db.jobs.find_unique job_id w.jobs, designated db w job_id)
                (record w { calls = n })))
      → Ends internal E K
          ((try_catch (resolve_participants job_id) (missing_column_to answer) >>= f) w)
  unfolding resolve_participants
  resolve_participants_rule job_id answer f w stop missing go = try_rule _ _ _ _ (
      find_job_rule _ _ _ (stop _, stop _, missing _)
        (provider_rule _ _ _ _ _ (stop _, stop _, missing _) λ n. pure_rule _ _ (go n)))
