-- ===== src/Jobs/Lifecycle/Diagram.antt =====
-- The diagram of job statuses, and that the handlers follow it.
use mathlib.Core.Option.{some-injective}
use home_hero_backend.Jobs.Award
use home_hero_backend.Jobs.Start
use home_hero_backend.Jobs.Completion
use home_hero_backend.Jobs.Cancellation
use home_hero_backend.Jobs.Disputes
use home_hero_backend.Prelude.{
  ==_iff, Bool, Bool-cases, List, Option, [], arith, inl, inr, refl, some, subst, sym, true, ℕ,
  ◌==◌, ◌∙◌, ◌∷◌, ◌≡◌, ◌≢◌,
}
use home_hero_backend.Db.{Table}
use home_hero_backend.Jobs.Cancellation.Outcome.{IsLive}
use home_hero_backend.Jobs.Disputes.{resolution_status}
use home_hero_backend.Jobs.Guards.{can_open_dispute}
use home_hero_backend.Jobs.Lifecycle.{
  Request, award_request, cancel_request, confirm_request, dispute_request, mark_request,
  resolve_request, respond_to, serve, start_request,
}
use home_hero_backend.Jobs.Model.{
  Job, JobStatus, awarded, cancelled, completed, completed_pending_confirmation, disputed,
  in_progress,
}
use home_hero_backend.Jobs.Request.{AuthRequest, Resolution, Zod}
use home_hero_backend.Jobs.World.{Db, Reply, World}

-- Award, start, mark complete, confirm, cancel, dispute and resolve.
infix 40 ◌⟶◌
pub data ◌⟶◌ : JobStatus → JobStatus → Type 0 where
  award_edge : JobStatus.opened ⟶ awarded
  start_edge : awarded ⟶ in_progress
  mark_edge : in_progress ⟶ completed_pending_confirmation
  confirm_edge : completed_pending_confirmation ⟶ completed
  cancel_edge : {s : JobStatus} → IsLive s → s ⟶ cancelled
  dispute_edge : {s : JobStatus} → can_open_dispute s ≡ true → s ⟶ disputed
  resolve_edge : (r : Resolution) → disputed ⟶ resolution_status r

-- A row of the job table before and after a step.
pub data Moves (before after : Option Job) : Type 0 where
  stays : after ≡ before → Moves before after
  moves :
      {j j' : Job}
      → before ≡ some j
      → after ≡ some j'
      → j.status ⟶ j'.status
      → j'.id ≡ j.id
      → j'.consumer_id ≡ j.consumer_id
      → j'.title ≡ j.title
      → Moves before after

-- An update of a row that only goes along an edge.
abbrev Follows : (Job → Job) → Job → Type 0
Follows f j =
    (j.status ⟶ (f j).status)
    × ((f j).id ≡ j.id)
    × ((f j).consumer_id ≡ j.consumer_id)
    × ((f j).title ≡ j.title)

update-Moves :
    (table : Table Job (λ j. j.id)) (s : table.Rows) (i k : ℕ) (f : Job → Job) {j : Job}
    → ((r : Job) → (f r).id ≡ r.id)
    → table.find_unique i s ≡ some j
    → Follows f j
    → Moves (table.find_unique k s) (table.find_unique k (table.update i f s))
update-Moves table s i k f {j} keeps row (edge, same_id, same_consumer, same_title) =
    elim (Bool-cases (i == k)) [
      | inl e ↦
          let at : table.find_unique k s ≡ some j =
            subst (λ n. table.find_unique n s ≡ some j) ((==_iff i k).0 e) row in
          moves {j = j} {j' = f j} at (table.find_update i k f s keeps ∙ rw e (rw at)) edge same_id
            same_consumer same_title
      | inr e ↦ stays (table.find_update i k f s keeps ∙ rw e)
    ]

abbrev Goes : (db : Db) → ℕ → World db → World db → Type 0
Goes db k w w' = Moves (db.jobs.find_unique k w.jobs) (db.jobs.find_unique k w'.jobs)

module _ {db : Db} {zod : Zod} {audits : Bool} {now : ℕ} {req : AuthRequest zod.Raw} {w : World db}
    (k : ℕ) where
  award-Goes :
      (r : Reply) (w' : World db)
      → Award.Outcome.Outcome db zod audits now req w r w'
      → Goes db k w w'
  award-Goes _ _ (Award.Outcome.Outcome.refused _) = stays refl
  award-Goes _ _ (Award.Outcome.Outcome.granted e _) =
      update-Moves db.jobs w.jobs _ k _ (λ r. refl) e.job_row
        (rw e.job_open award_edge, refl, refl, refl)

  start-Goes :
      (r : Reply) (w' : World db)
      → Start.Outcome.Outcome db zod audits now req w r w'
      → Goes db k w w'
  start-Goes _ _ (Start.Outcome.Outcome.refused _) = stays refl
  start-Goes _ _ (Start.Outcome.Outcome.granted e _) =
      update-Moves db.jobs w.jobs _ k _ (λ r. refl) e.job_row
        (rw e.job_awarded start_edge, refl, refl, refl)

  mark-Goes :
      (r : Reply) (w' : World db)
      → Completion.MarkOutcome.Outcome db zod audits now req w r w'
      → Goes db k w w'
  mark-Goes _ _ (Completion.MarkOutcome.Outcome.refused _) = stays refl
  mark-Goes _ _ (Completion.MarkOutcome.Outcome.granted e _) =
      update-Moves db.jobs w.jobs _ k _ (λ r. refl) e.job_row
        (rw e.job_in_progress mark_edge, refl, refl, refl)

  confirm-Goes :
      (r : Reply) (w' : World db)
      → Completion.ConfirmOutcome.Outcome db zod audits now req w r w'
      → Goes db k w w'
  confirm-Goes _ _ (Completion.ConfirmOutcome.Outcome.refused _) = stays refl
  confirm-Goes _ _ (Completion.ConfirmOutcome.Outcome.granted e _) =
      update-Moves db.jobs w.jobs _ k _ (λ r. refl) e.job_row
        (rw e.job_pending confirm_edge, refl, refl, refl)

  cancel-Goes :
      (r : Reply) (w' : World db)
      → Cancellation.Outcome.Outcome db zod audits now req w r w'
      → Goes db k w w'
  cancel-Goes _ _ (Cancellation.Outcome.Outcome.refused _) = stays refl
  cancel-Goes _ _ (Cancellation.Outcome.Outcome.granted e _) =
      update-Moves db.jobs w.jobs _ k _ (λ r. refl) e.job_row
        (cancel_edge e.job_live, refl, refl, refl)

  dispute-Goes :
      (r : Reply) (w' : World db)
      → Disputes.OpenOutcome.Outcome db zod audits now req w r w'
      → Goes db k w w'
  dispute-Goes _ _ (Disputes.OpenOutcome.Outcome.refused _) = stays refl
  dispute-Goes _ _ (Disputes.OpenOutcome.Outcome.interrupted _ _) = stays refl
  dispute-Goes _ _ (Disputes.OpenOutcome.Outcome.granted e _) =
      update-Moves db.jobs w.jobs _ k _ (λ r. refl) e.job_row
        (dispute_edge e.job_disputable, refl, refl, refl)

  resolve-Goes :
      (r : Reply) (w' : World db)
      → Disputes.ResolveOutcome.Outcome db zod audits now req w r w'
      → Goes db k w w'
  resolve-Goes _ _ (Disputes.ResolveOutcome.Outcome.refused _) = stays refl
  resolve-Goes _ _ (Disputes.ResolveOutcome.Outcome.interrupted _ _) = stays refl
  resolve-Goes _ _ (Disputes.ResolveOutcome.Outcome.granted {d = d} {job = job} {body = body} e _) =
      update-Moves db.jobs w.jobs _ k _ (λ r. refl)
        (subst (λ i. db.jobs.find_unique i w.jobs ≡ some job)
          (sym (db.jobs.find_key d.job_id w.jobs e.job_row)) e.job_row)
        (rw e.job_disputed (resolve_edge body.job_status), refl, refl, refl)

module _ (db : Db) (zod : Zod) where
  -- For each request of the seven handlers (award, start, mark complete, confirm, cancel, open a
  -- dispute, resolve one) and whichever calls fail, each job is as it was, or its status went along
  -- one edge of the diagram, with its identifier, consumer and title kept; none of these handlers
  -- makes or deletes a job. The other routes of server.ts are not covered.
  pub respond_to-Moves :
      (q : Request db zod) (w : World db) (k : ℕ)
      → Moves (db.jobs.find_unique k w.jobs) (db.jobs.find_unique k (respond_to db zod q w).1.jobs)
  unfolding respond_to
  respond_to-Moves (award_request audits now req) w k =
      award-Goes k _ _ (Award.Outcome.post_job_award-Outcome db zod audits now req w)
  respond_to-Moves (start_request audits now req) w k =
      start-Goes k _ _ (Start.Outcome.post_job_start-Outcome db zod audits now req w)
  respond_to-Moves (mark_request audits now req) w k =
      mark-Goes k _ _
        (Completion.MarkOutcome.post_job_mark_complete-Outcome db zod audits now req w)
  respond_to-Moves (confirm_request audits now req) w k =
      confirm-Goes k _ _
        (Completion.ConfirmOutcome.post_job_confirm_complete-Outcome db zod audits now req w)
  respond_to-Moves (cancel_request audits now req) w k =
      cancel-Goes k _ _ (Cancellation.Outcome.post_job_cancel-Outcome db zod audits now req w)
  respond_to-Moves (dispute_request audits now req) w k =
      dispute-Goes k _ _ (Disputes.OpenOutcome.post_job_disputes-Outcome db zod audits now req w)
  respond_to-Moves (resolve_request audits now req) w k =
      resolve-Goes k _ _
        (Disputes.ResolveOutcome.post_admin_resolve_dispute-Outcome db zod audits now req w)

-- Any number of edges.
infix 40 ◌⟶*◌
pub data ◌⟶*◌ : JobStatus → JobStatus → Type 0 where
  none_more : {s : JobStatus} → s ⟶* s
  one_more : {s t u : JobStatus} → s ⟶ t → t ⟶* u → s ⟶* u

⟶-ne-cancelled : {s t : JobStatus} → s ⟶ t → s ≢ cancelled
unfolding can_open_dispute
⟶-ne-cancelled award_edge h = cc
⟶-ne-cancelled start_edge h = cc
⟶-ne-cancelled mark_edge h = cc
⟶-ne-cancelled confirm_edge h = cc
⟶-ne-cancelled (cancel_edge live) h = ground arith
⟶-ne-cancelled (dispute_edge e) h = ground arith
⟶-ne-cancelled (resolve_edge r) h = cc

module _ (db : Db) (zod : Zod) where
  Moves-cancelled :
      {o p : Option Job} {j : Job} → Moves o p → o ≡ some j → j.status ≡ cancelled → p ≡ some j
  Moves-cancelled (stays e) h c = e ∙ h
  Moves-cancelled (moves {j = i} e _ edge _ _ _) h c = absurd (⟶-ne-cancelled edge (ground arith))

  -- A cancelled job stays as it is, whatever requests come after.
  pub serve-cancelled :
      (qs : List (Request db zod)) (w : World db) (k : ℕ) (j : Job)
      → db.jobs.find_unique k w.jobs ≡ some j
      → j.status ≡ cancelled
      → db.jobs.find_unique k (serve db zod qs w).jobs ≡ some j
  unfolding serve
  serve-cancelled [] w k j row c = row
  serve-cancelled (q ∷ qs) w k j row c =
      serve-cancelled qs _ k j (Moves-cancelled (respond_to-Moves db zod q w k) row c) c

  -- Along any sequence of requests, with any failures, the status of a job follows the diagram,
  -- and its consumer stays the same.
  pub serve-Follows :
      (qs : List (Request db zod)) (w : World db) (k : ℕ) (j : Job)
      → db.jobs.find_unique k w.jobs ≡ some j
      → (j' : Job) × (db.jobs.find_unique k (serve db zod qs w).jobs ≡ some j')
        × (j.status ⟶* j'.status)
        × (j'.consumer_id ≡ j.consumer_id)
  unfolding serve
  serve-Follows [] w k j row = (j, row, none_more, refl)
  serve-Follows (q ∷ qs) w k j row =
      go _ (respond_to-Moves db zod q w k) (λ i e. serve-Follows qs (respond_to db zod q w).1 k i e)
    where
      go :
          (p : Option Job)
          → Moves (db.jobs.find_unique k w.jobs) p
          → ((i : Job)
              → p ≡ some i
              → (j' : Job) × (db.jobs.find_unique k (serve db zod qs (respond_to db zod q w).1).jobs
                  ≡ some j')
                × (i.status ⟶* j'.status)
                × (j'.consumer_id ≡ i.consumer_id))
          → (j' : Job) × (db.jobs.find_unique k (serve db zod qs (respond_to db zod q w).1).jobs
              ≡ some j')
            × (j.status ⟶* j'.status)
            × (j'.consumer_id ≡ j.consumer_id)
      go p (stays e) rest = rest j (e ∙ row)
      go p (moves {j = i} {j' = i'} before after edge id same title) rest =
          let (j', found, path, keeps) = rest i' after in
          let e : i ≡ j = some-injective i j (sym before ∙ row) in
          (
            j',
            found,
            subst (λ (x : Job). x.status ⟶* j'.status) e (one_more edge path),
            ground (arith, e),
          )
