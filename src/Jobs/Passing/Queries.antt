-- ===== src/Jobs/Passing/Queries.antt =====
-- The calls to the database that do not fail, and the lookup of the participants.
use home_hero_backend.Prelude.{Bool, List, Option, false, none, some, true, ℕ, ◌≡◌}
use home_hero_backend.Http.{◌>>=◌}
use home_hero_backend.Jobs.Model.{Bid, Dispute, Job, User}
use home_hero_backend.Jobs.Participants.{
  designated, provider_or_accepted, resolve_participants, settled,
}
use home_hero_backend.Jobs.Passing.{Runs, pass_bind, pass_external, pass_pure, runs}
use home_hero_backend.Jobs.Rules.{called}
use home_hero_backend.Jobs.World.{
  Db, M, World, create_dispute, external, find_bid, find_dispute, find_first_bid,
  find_first_dispute, find_job, find_users, update_bid, update_bids, update_dispute, update_job,
}

module _ {db : Db} {A : Type 0} {K : A → World db → Type 0} where
  pub pass_find_job :
      (i : ℕ) (f : Option Job → M db A) (w : World db)
      → w.faults w.calls ≡ none
      → Runs K (f (db.jobs.find_unique i w.jobs) (called w))
      → Runs K ((find_job i >>= f) w)
  unfolding find_job
  pass_find_job i f w e h = pass_external (λ w. db.jobs.find_unique i w.jobs) (λ w. w) f w e h

  pub pass_update_job :
      (i : ℕ) (g : Job → Job) (f : Job → M db A) (w : World db) {j : Job}
      → w.faults w.calls ≡ none
      → db.jobs.find_unique i w.jobs ≡ some j
      → Runs K (f (g j) (record (called w) { jobs = db.jobs.update i g w.jobs }))
      → Runs K ((update_job i g >>= f) w)
  unfolding update_job ◌>>=◌
  pass_update_job i g f w e row h = rw (e, update_job, ◌>>=◌) (rw (row, update_job, ◌>>=◌) h)

  pub pass_find_first_bid :
      (p : Bid → Bool) (f : Option Bid → M db A) (w : World db)
      → w.faults w.calls ≡ none
      → Runs K (f (db.bids.find_first p w.bids) (called w))
      → Runs K ((find_first_bid p >>= f) w)
  unfolding find_first_bid
  pass_find_first_bid p f w e h = pass_external (λ w. db.bids.find_first p w.bids) (λ w. w) f w e h

  pub pass_update_bid :
      (i : ℕ) (g : Bid → Bid) (f : Bid → M db A) (w : World db) {b : Bid}
      → w.faults w.calls ≡ none
      → db.bids.find_unique i w.bids ≡ some b
      → Runs K (f (g b) (record (called w) { bids = db.bids.update i g w.bids }))
      → Runs K ((update_bid i g >>= f) w)
  unfolding update_bid ◌>>=◌
  pass_update_bid i g f w e row h = rw (e, update_bid, ◌>>=◌) (rw (row, update_bid, ◌>>=◌) h)

  pub pass_update_bids :
      (p : Bid → Bool) (g : Bid → Bid) (f : Unit {0} → M db A) (w : World db)
      → w.faults w.calls ≡ none
      → Runs K (f tt (record (called w) { bids = db.bids.update_many p g w.bids }))
      → Runs K ((update_bids p g >>= f) w)
  unfolding update_bids
  pass_update_bids p g f w e h =
      pass_external (λ w. tt) (λ w. record w { bids = db.bids.update_many p g w.bids }) f w e h

  pub pass_find_dispute :
      (i : ℕ) (f : Option Dispute → M db A) (w : World db)
      → w.faults w.calls ≡ none
      → Runs K (f (db.disputes.find_unique i w.disputes) (called w))
      → Runs K ((find_dispute i >>= f) w)
  unfolding find_dispute
  pass_find_dispute i f w e h =
      pass_external (λ w. db.disputes.find_unique i w.disputes) (λ w. w) f w e h

  pub pass_find_first_dispute :
      (p : Dispute → Bool) (f : Option Dispute → M db A) (w : World db)
      → w.faults w.calls ≡ none
      → Runs K (f (db.disputes.find_first p w.disputes) (called w))
      → Runs K ((find_first_dispute p >>= f) w)
  unfolding find_first_dispute
  pass_find_first_dispute p f w e h =
      pass_external (λ w. db.disputes.find_first p w.disputes) (λ w. w) f w e h

  pub pass_find_users :
      (p : User → Bool) (f : List User → M db A) (w : World db)
      → w.faults w.calls ≡ none
      → Runs K (f (db.users.find_many p w.users) (called w))
      → Runs K ((find_users p >>= f) w)
  unfolding find_users
  pass_find_users p f w e h = pass_external (λ w. db.users.find_many p w.users) (λ w. w) f w e h

  pub pass_update_dispute :
      (i : ℕ) (g : Dispute → Dispute) (f : Dispute → M db A) (w : World db) {d : Dispute}
      → w.faults w.calls ≡ none
      → db.disputes.find_unique i w.disputes ≡ some d
      → Runs K (f (g d) (record (called w) { disputes = db.disputes.update i g w.disputes }))
      → Runs K ((update_dispute i g >>= f) w)
  unfolding update_dispute ◌>>=◌
  pass_update_dispute i g f w e row h =
      rw (e, update_dispute, ◌>>=◌) (rw (row, update_dispute, ◌>>=◌) h)

  pub pass_create_dispute :
      (make : ℕ → Dispute) (f : Dispute → M db A) (w : World db)
      → w.faults w.calls ≡ none
      → Runs K (
          f (make (db.disputes.next_id w.disputes)) (record (called w) {
            disputes = db.disputes.create (make (db.disputes.next_id w.disputes)) w.disputes;
          }))
      → Runs K ((create_dispute make >>= f) w)
  unfolding create_dispute
  pass_create_dispute make f w e h =
      pass_external (λ w. make (db.disputes.next_id w.disputes))
        (λ w. record w {
          disputes = db.disputes.create (make (db.disputes.next_id w.disputes)) w.disputes;
        })
        f w e h

pub last_find_bid :
    {db : Db} (i : ℕ) {K : Option Bid → World db → Type 0} (w : World db)
    → w.faults w.calls ≡ none
    → K (db.bids.find_unique i w.bids) (called w)
    → Runs K (find_bid i w)
unfolding find_bid external
last_find_bid i w e h = rw (e, find_bid, external) (runs _ _ h)

pub last_find_job :
    {db : Db} (i : ℕ) {K : Option Job → World db → Type 0} (w : World db)
    → w.faults w.calls ≡ none
    → K (db.jobs.find_unique i w.jobs) (called w)
    → Runs K (find_job i w)
unfolding find_job external
last_find_job i w e h = rw (e, find_job, external) (runs _ _ h)

-- The participants of a job.
provider_or_accepted-Runs :
    {db : Db} (job_id : ℕ) (o : Option ℕ) (b : Bool) {K : Option ℕ → World db → Type 0}
    (w : World db)
    → w.faults w.calls ≡ none
    → ((n : ℕ) → K (settled db w job_id o b) (record w { calls = n }))
    → Runs K (provider_or_accepted job_id o b w)
unfolding provider_or_accepted
provider_or_accepted-Runs job_id o true w e h = pass_pure _ _ (h _)
provider_or_accepted-Runs job_id o false w e h = pass_find_first_bid _ _ _ e (pass_pure _ _ (h _))

pub resolve_participants-Runs :
    {db : Db} (job_id : ℕ) {K : Option Job × Option ℕ → World db → Type 0} (w : World db)
    → ((n : ℕ) → w.faults n ≡ none)
    → ((n : ℕ)
        → K (db.jobs.find_unique job_id w.jobs, designated db w job_id) (record w { calls = n }))
    → Runs K (resolve_participants job_id w)
unfolding resolve_participants
resolve_participants-Runs job_id w clear h =
    pass_find_job _ _ _ (clear _)
      (pass_bind _ _ _ (provider_or_accepted-Runs job_id _ _ _ (clear _) λ n. pass_pure _ _ (h n)))
