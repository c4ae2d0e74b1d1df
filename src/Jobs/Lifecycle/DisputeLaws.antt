-- ===== src/Jobs/Lifecycle/DisputeLaws.antt =====
-- Disputes over any sequence of requests of the seven handlers: one active dispute for a job, and what is left behind
-- where a handler fails between its two writes.
use mathlib.Core.Option.{some-injective}
use home_hero_backend.Jobs.Award
use home_hero_backend.Jobs.Start
use home_hero_backend.Jobs.Completion
use home_hero_backend.Jobs.Cancellation
use home_hero_backend.Jobs.Disputes
use home_hero_backend.Prelude.{
  Bool, List, [], ap, arith, refl, some, subst, sym, ℕ, ◌∙◌, ◌∷◌, ◌≡◌, ◌≢◌,
}
use home_hero_backend.Jobs.Disputes.{post_admin_resolve_dispute, post_job_disputes}
use home_hero_backend.Jobs.Lifecycle.{
  Request, award_request, cancel_request, confirm_request, dispute_request, mark_request,
  resolve_request, respond_to, serve, start_request,
}
use home_hero_backend.Jobs.Lifecycle.ActiveDisputes.{
  IsActive, OneActive, create-OneActive, update-OneActive,
}
use home_hero_backend.Jobs.Model.{AuthUser, Dispute, Job, disputed}
use home_hero_backend.Jobs.Request.{AuthRequest, DisputeBody, ResolveBody, Zod}
use home_hero_backend.Jobs.World.{Db, Reply, World}

module _ {db : Db} {zod : Zod} {audits : Bool} {now : ℕ} {req : AuthRequest zod.Raw}
    {w : World db} where
  open-OneActive :
      (r : Reply) (w' : World db)
      → Disputes.OpenOutcome.Outcome db zod audits now req w r w'
      → OneActive db w.disputes
      → OneActive db w'.disputes
  open-OneActive _ _ (Disputes.OpenOutcome.Outcome.refused _) h = h
  open-OneActive _ _ (Disputes.OpenOutcome.Outcome.interrupted e _) h =
      create-OneActive db w.disputes _ refl e.none_active h
  open-OneActive _ _ (Disputes.OpenOutcome.Outcome.granted e _) h =
      create-OneActive db w.disputes _ refl e.none_active h

  resolve-OneActive :
      (r : Reply) (w' : World db)
      → Disputes.ResolveOutcome.Outcome db zod audits now req w r w'
      → OneActive db w.disputes
      → OneActive db w'.disputes
  resolve-OneActive _ _ (Disputes.ResolveOutcome.Outcome.refused _) h = h
  resolve-OneActive _ _ (Disputes.ResolveOutcome.Outcome.interrupted e _) h =
      update-OneActive db w.disputes _ _ (λ r. refl) (λ r. refl) h
  resolve-OneActive _ _ (Disputes.ResolveOutcome.Outcome.granted e _) h =
      update-OneActive db w.disputes _ _ (λ r. refl) (λ r. refl) h

  award-disputes :
      (r : Reply) (w' : World db)
      → Award.Outcome.Outcome db zod audits now req w r w'
      → w'.disputes ≡ w.disputes
  award-disputes _ _ (Award.Outcome.Outcome.refused _) = refl
  award-disputes _ _ (Award.Outcome.Outcome.granted _ _) = refl

  start-disputes :
      (r : Reply) (w' : World db)
      → Start.Outcome.Outcome db zod audits now req w r w'
      → w'.disputes ≡ w.disputes
  start-disputes _ _ (Start.Outcome.Outcome.refused _) = refl
  start-disputes _ _ (Start.Outcome.Outcome.granted _ _) = refl

  mark-disputes :
      (r : Reply) (w' : World db)
      → Completion.MarkOutcome.Outcome db zod audits now req w r w'
      → w'.disputes ≡ w.disputes
  mark-disputes _ _ (Completion.MarkOutcome.Outcome.refused _) = refl
  mark-disputes _ _ (Completion.MarkOutcome.Outcome.granted _ _) = refl

  confirm-disputes :
      (r : Reply) (w' : World db)
      → Completion.ConfirmOutcome.Outcome db zod audits now req w r w'
      → w'.disputes ≡ w.disputes
  confirm-disputes _ _ (Completion.ConfirmOutcome.Outcome.refused _) = refl
  confirm-disputes _ _ (Completion.ConfirmOutcome.Outcome.granted _ _) = refl

  cancel-disputes :
      (r : Reply) (w' : World db)
      → Cancellation.Outcome.Outcome db zod audits now req w r w'
      → w'.disputes ≡ w.disputes
  cancel-disputes _ _ (Cancellation.Outcome.Outcome.refused _) = refl
  cancel-disputes _ _ (Cancellation.Outcome.Outcome.granted _ _) = refl

module _ (db : Db) (zod : Zod) where
  respond_to-OneActive :
      (q : Request db zod) (w : World db)
      → OneActive db w.disputes
      → OneActive db (respond_to db zod q w).1.disputes
  unfolding respond_to
  respond_to-OneActive (award_request audits now req) w h =
      subst (OneActive db)
        (sym (award-disputes _ _ (Award.Outcome.post_job_award-Outcome db zod audits now req w))) h
  respond_to-OneActive (start_request audits now req) w h =
      subst (OneActive db)
        (sym (start-disputes _ _ (Start.Outcome.post_job_start-Outcome db zod audits now req w))) h
  respond_to-OneActive (mark_request audits now req) w h =
      subst (OneActive db)
        (sym (
          mark-disputes _ _
            (Completion.MarkOutcome.post_job_mark_complete-Outcome db zod audits now req w)))
        h
  respond_to-OneActive (confirm_request audits now req) w h =
      subst (OneActive db)
        (sym (
          confirm-disputes _ _
            (Completion.ConfirmOutcome.post_job_confirm_complete-Outcome db zod audits now req w)))
        h
  respond_to-OneActive (cancel_request audits now req) w h =
      subst (OneActive db)
        (sym (
          cancel-disputes _ _
            (Cancellation.Outcome.post_job_cancel-Outcome db zod audits now req w)))
        h
  respond_to-OneActive (dispute_request audits now req) w h =
      open-OneActive _ _ (Disputes.OpenOutcome.post_job_disputes-Outcome db zod audits now req w) h
  respond_to-OneActive (resolve_request audits now req) w h =
      resolve-OneActive _ _
        (Disputes.ResolveOutcome.post_admin_resolve_dispute-Outcome db zod audits now req w) h

  -- If no job has two active disputes (OPEN or INVESTIGATING), none has after any sequence of
  -- requests of the seven handlers (award, start, mark complete, confirm, cancel, open a dispute,
  -- resolve one), whichever calls fail. PATCH /admin/disputes/:id of server.ts, which can make a
  -- resolved dispute active again, is not among them.
  pub serve-OneActive :
      (qs : List (Request db zod)) (w : World db)
      → OneActive db w.disputes
      → OneActive db (serve db zod qs w).disputes
  unfolding serve
  serve-OneActive [] w h = h
  serve-OneActive (q ∷ qs) w h = serve-OneActive qs _ (respond_to-OneActive q w h)

  -- An active dispute blocks every request to open one for its job: the answer is not 201, and the
  -- disputes are as they were.
  pub post_job_disputes-blocked :
      (audits : Bool) (now : ℕ) (req : AuthRequest zod.Raw) (w : World db) (i : ℕ) (d : Dispute)
      → db.disputes.find_unique i w.disputes ≡ some d
      → IsActive d
      → zod.id_param req.params ≡ some d.job_id
      → ((post_job_disputes db zod audits now req w).0.status ≢ 201)
        × ((post_job_disputes db zod audits now req w).1.disputes ≡ w.disputes)
  post_job_disputes-blocked audits now req w i d row active named =
      go _ _ (Disputes.OpenOutcome.post_job_disputes-Outcome db zod audits now req w)
    where
      clash :
          {user : AuthUser} {job_id : ℕ} {job : Job} {body : DisputeBody}
          → Disputes.OpenOutcome.Entitled db zod audits now req w user job_id job body
          → ⊥
      clash {job_id = n} e =
          let same : d.job_id ≡ n = some-injective _ _ (sym named ∙ e.named_job) in
          let off = db.disputes.find_first_complete _ w.disputes i e.none_active row in ground arith

      go :
          (r : Reply) (w' : World db)
          → Disputes.OpenOutcome.Outcome db zod audits now req w r w'
          → (r.status ≢ 201) × (w'.disputes ≡ w.disputes)
      go _ _ (Disputes.OpenOutcome.Outcome.refused h) = (h, refl)
      go _ _ (Disputes.OpenOutcome.Outcome.interrupted e _) = absurd (clash e)
      go _ _ (Disputes.OpenOutcome.Outcome.granted e _) = absurd (clash e)

  -- A dispute whose job is not DISPUTED cannot be resolved: the answer is not 200, and the disputes
  -- and the jobs are as they were.
  pub post_admin_resolve_dispute-stranded :
      (audits : Bool) (now : ℕ) (req : AuthRequest zod.Raw) (w : World db) (i : ℕ) (d : Dispute)
      (j : Job)
      → zod.id_param req.params ≡ some i
      → db.disputes.find_unique i w.disputes ≡ some d
      → db.jobs.find_unique d.job_id w.jobs ≡ some j
      → j.status ≢ disputed
      → ((post_admin_resolve_dispute db zod audits now req w).0.status ≢ 200)
        × ((post_admin_resolve_dispute db zod audits now req w).1.disputes ≡ w.disputes)
        × ((post_admin_resolve_dispute db zod audits now req w).1.jobs ≡ w.jobs)
  post_admin_resolve_dispute-stranded audits now req w i d j named row job_row off =
      go _ _ (Disputes.ResolveOutcome.post_admin_resolve_dispute-Outcome db zod audits now req w)
    where
      clash :
          {user : AuthUser} {n : ℕ} {x : Dispute} {job : Job} {body : ResolveBody}
          → Disputes.ResolveOutcome.Entitled db zod audits now req w user n x job body
          → ⊥
      clash {n} {x} {job} e =
          let same : i ≡ n = some-injective _ _ (sym named ∙ e.named_dispute) in
          let same_dispute : d ≡ x = some-injective _ _ (sym row ∙ rw same e.dispute_row) in
          let same_job : j ≡ job = some-injective _ _ (
            sym job_row
            ∙ ap (λ (y : Dispute). db.jobs.find_unique y.job_id w.jobs) same_dispute
            ∙ e.job_row) in
          off (ap (λ (y : Job). y.status) same_job ∙ e.job_disputed)

      go :
          (r : Reply) (w' : World db)
          → Disputes.ResolveOutcome.Outcome db zod audits now req w r w'
          → (r.status ≢ 200) × (w'.disputes ≡ w.disputes) × (w'.jobs ≡ w.jobs)
      go _ _ (Disputes.ResolveOutcome.Outcome.refused h) = (h, refl, refl)
      go _ _ (Disputes.ResolveOutcome.Outcome.interrupted e _) = absurd (clash e)
      go _ _ (Disputes.ResolveOutcome.Outcome.granted e _) = absurd (clash e)
