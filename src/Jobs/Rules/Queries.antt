-- ===== src/Jobs/Rules/Queries.antt =====
-- The rules of reasoning for the calls to the database.
use home_hero_backend.Prelude.{Bool, Bool-cases, List, Option, Option-cases, inl, inr, some, ℕ, ◌≡◌}
use home_hero_backend.Http.{try_catch, ◌>>=◌}
use home_hero_backend.Http.Rules.{Ends, stops, throws}
use home_hero_backend.Jobs.Model.{Bid, Dispute, Job, User}
use home_hero_backend.Jobs.Rules.{called, external_rule}
use home_hero_backend.Jobs.World.{
  Db, M, Reply, World, create_dispute, external, find_bid, find_dispute, find_first_bid,
  find_first_dispute, find_job, find_users, is_missing_db_column_error, missing_column_to,
  update_bid, update_bids, update_dispute, update_job,
}

module _ {db : Db} {A : Type 0} {internal : Reply} {E : Reply → World db → Type 0}
    {K : A → World db → Type 0} where
  pub find_job_rule :
      (i : ℕ) (f : Option Job → M db A) (w : World db)
      → E internal (called w)
      → Ends internal E K (f (db.jobs.find_unique i w.jobs) (called w))
      → Ends internal E K ((find_job i >>= f) w)
  unfolding find_job
  find_job_rule i f w stop go =
      external_rule (λ w. db.jobs.find_unique i w.jobs) (λ w. w) f w stop go

  pub find_bid_rule :
      (i : ℕ) (f : Option Bid → M db A) (w : World db)
      → E internal (called w)
      → Ends internal E K (f (db.bids.find_unique i w.bids) (called w))
      → Ends internal E K ((find_bid i >>= f) w)
  unfolding find_bid
  find_bid_rule i f w stop go =
      external_rule (λ w. db.bids.find_unique i w.bids) (λ w. w) f w stop go

  pub find_first_bid_rule :
      (p : Bid → Bool) (f : Option Bid → M db A) (w : World db)
      → E internal (called w)
      → Ends internal E K (f (db.bids.find_first p w.bids) (called w))
      → Ends internal E K ((find_first_bid p >>= f) w)
  unfolding find_first_bid
  find_first_bid_rule p f w stop go =
      external_rule (λ w. db.bids.find_first p w.bids) (λ w. w) f w stop go

  pub find_dispute_rule :
      (i : ℕ) (f : Option Dispute → M db A) (w : World db)
      → E internal (called w)
      → Ends internal E K (f (db.disputes.find_unique i w.disputes) (called w))
      → Ends internal E K ((find_dispute i >>= f) w)
  unfolding find_dispute
  find_dispute_rule i f w stop go =
      external_rule (λ w. db.disputes.find_unique i w.disputes) (λ w. w) f w stop go

  pub find_first_dispute_rule :
      (p : Dispute → Bool) (f : Option Dispute → M db A) (w : World db)
      → E internal (called w)
      → Ends internal E K (f (db.disputes.find_first p w.disputes) (called w))
      → Ends internal E K ((find_first_dispute p >>= f) w)
  unfolding find_first_dispute
  find_first_dispute_rule p f w stop go =
      external_rule (λ w. db.disputes.find_first p w.disputes) (λ w. w) f w stop go

  pub find_users_rule :
      (p : User → Bool) (f : List User → M db A) (w : World db)
      → E internal (called w)
      → Ends internal E K (f (db.users.find_many p w.users) (called w))
      → Ends internal E K ((find_users p >>= f) w)
  unfolding find_users
  find_users_rule p f w stop go =
      external_rule (λ w. db.users.find_many p w.users) (λ w. w) f w stop go

  pub find_job_or_rule :
      (i : ℕ) (answer : Reply) (f : Option Job → M db A) (w : World db)
      → E internal (called w)
      → E answer (called w)
      → Ends internal E K (f (db.jobs.find_unique i w.jobs) (called w))
      → Ends internal E K ((try_catch (find_job i) (missing_column_to answer) >>= f) w)
  unfolding ◌>>=◌ try_catch find_job missing_column_to
  find_job_or_rule i answer f w stop missing go = elim (Option-cases (w.faults w.calls)) [
    | inl e ↦ rw (e, ◌>>=◌, try_catch, find_job, external) go
    | inr (m, e) ↦ elim (Bool-cases (is_missing_db_column_error m)) [
      | inl c ↦
          rw (e, ◌>>=◌, try_catch, find_job, external)
            (rw (c, ◌>>=◌, try_catch, missing_column_to) (stops answer _ missing))
      | inr c ↦
          rw (e, ◌>>=◌, try_catch, find_job, external)
            (rw (c, ◌>>=◌, try_catch, missing_column_to) (throws m _ stop))
    ]
  ]

  pub update_job_rule :
      (i : ℕ) (g : Job → Job) (f : Job → M db A) (w : World db)
      → E internal (called w)
      → ((j : Job)
          → db.jobs.find_unique i w.jobs ≡ some j
          → Ends internal E K (f (g j) (record (called w) { jobs = db.jobs.update i g w.jobs })))
      → Ends internal E K ((update_job i g >>= f) w)
  unfolding ◌>>=◌ update_job
  update_job_rule i g f w stop go = elim (Option-cases (w.faults w.calls)) [
    | inl e ↦ elim (Option-cases (db.jobs.find_unique i w.jobs)) [
      | inl missing ↦ rw (e, ◌>>=◌, update_job) (rw (missing, ◌>>=◌, update_job) (throws _ _ stop))
      | inr (j, found) ↦ rw (e, ◌>>=◌, update_job) (rw (found, ◌>>=◌, update_job) (go j found))
    ]
    | inr (m, e) ↦ rw (e, ◌>>=◌, update_job) (throws m _ stop)
  ]

  pub update_bid_rule :
      (i : ℕ) (g : Bid → Bid) (f : Bid → M db A) (w : World db)
      → E internal (called w)
      → ((b : Bid)
          → db.bids.find_unique i w.bids ≡ some b
          → Ends internal E K (f (g b) (record (called w) { bids = db.bids.update i g w.bids })))
      → Ends internal E K ((update_bid i g >>= f) w)
  unfolding ◌>>=◌ update_bid
  update_bid_rule i g f w stop go = elim (Option-cases (w.faults w.calls)) [
    | inl e ↦ elim (Option-cases (db.bids.find_unique i w.bids)) [
      | inl missing ↦ rw (e, ◌>>=◌, update_bid) (rw (missing, ◌>>=◌, update_bid) (throws _ _ stop))
      | inr (b, found) ↦ rw (e, ◌>>=◌, update_bid) (rw (found, ◌>>=◌, update_bid) (go b found))
    ]
    | inr (m, e) ↦ rw (e, ◌>>=◌, update_bid) (throws m _ stop)
  ]

  pub update_dispute_rule :
      (i : ℕ) (g : Dispute → Dispute) (f : Dispute → M db A) (w : World db)
      → E internal (called w)
      → ((d : Dispute)
          → db.disputes.find_unique i w.disputes ≡ some d
          → Ends internal E K
              (f (g d) (record (called w) { disputes = db.disputes.update i g w.disputes })))
      → Ends internal E K ((update_dispute i g >>= f) w)
  unfolding ◌>>=◌ update_dispute
  update_dispute_rule i g f w stop go = elim (Option-cases (w.faults w.calls)) [
    | inl e ↦ elim (Option-cases (db.disputes.find_unique i w.disputes)) [
      | inl missing ↦
          rw (e, ◌>>=◌, update_dispute) (rw (missing, ◌>>=◌, update_dispute) (throws _ _ stop))
      | inr (b, found) ↦
          rw (e, ◌>>=◌, update_dispute) (rw (found, ◌>>=◌, update_dispute) (go b found))
    ]
    | inr (m, e) ↦ rw (e, ◌>>=◌, update_dispute) (throws m _ stop)
  ]

  pub update_bids_rule :
      (p : Bid → Bool) (g : Bid → Bid) (f : Unit {0} → M db A) (w : World db)
      → E internal (called w)
      → Ends internal E K (f tt (record (called w) { bids = db.bids.update_many p g w.bids }))
      → Ends internal E K ((update_bids p g >>= f) w)
  unfolding update_bids
  update_bids_rule p g f w stop go =
      external_rule (λ w. tt) (λ w. record w { bids = db.bids.update_many p g w.bids }) f w stop go

  pub create_dispute_rule :
      (make : ℕ → Dispute) (f : Dispute → M db A) (w : World db)
      → E internal (called w)
      → (let new = make (db.disputes.next_id w.disputes) in
          Ends internal E K
            (f new (record (called w) { disputes = db.disputes.create new w.disputes })))
      → Ends internal E K ((create_dispute make >>= f) w)
  unfolding create_dispute
  create_dispute_rule make f w stop go =
      external_rule (λ w. make (db.disputes.next_id w.disputes))
        (λ w. record w {
          disputes = db.disputes.create (make (db.disputes.next_id w.disputes)) w.disputes;
        })
        f w stop go
