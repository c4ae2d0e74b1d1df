-- ===== src/Jobs/Completion/TwoParty.antt =====
-- Completion takes both participants: whoever marks a job complete cannot confirm it.
use mathlib.Core.Option.{some-injective}
use home_hero_backend.Jobs.Completion
use home_hero_backend.Prelude.{
  Bool, Option, ap, arith, none, refl, some, subst, suc, sym, zero, ℕ, ◌∙◌, ◌≡◌, ◌≢◌, ◌⊎◌,
}
use home_hero_backend.Db.Laws.{find_update_self}
use home_hero_backend.Jobs.Completion.{
  mark_job, other_participant, post_job_confirm_complete, post_job_mark_complete,
}
use home_hero_backend.Jobs.Model.{AuthUser, Job, present}
use home_hero_backend.Jobs.Participants.{designated}
use home_hero_backend.Jobs.Request.{AuthRequest, Zod}
use home_hero_backend.Jobs.World.{Db, Reply, World}

other_participant-ne :
    (job : Job) (provider_id me : ℕ)
    → provider_id ≢ job.consumer_id
    → (me ≡ job.consumer_id) ⊎ (me ≡ provider_id)
    → other_participant job provider_id me ≢ me
other_participant-ne job provider_id me differ part e = ground arith

present-eq : (o : Option ℕ) {n : ℕ} → present o ≡ some n → o ≡ some n
present-eq none h = h
present-eq (some zero) h = absurd (cc)
present-eq (some (suc k)) h = h

module _ (db : Db) (zod : Zod) where
  -- After a mark that was answered 200, by a sender who takes part in a job between two persons, a
  -- request of the same sender to confirm the same job is not answered 200 and changes no job.
  pub mark-confirm-refused :
      (audits : Bool) (now later : ℕ) (mark confirm : AuthRequest zod.Raw) (w : World db)
      (user : AuthUser) (job_id : ℕ) (job : Job)
      → mark.user ≡ some user
      → confirm.user ≡ some user
      → zod.id_param mark.params ≡ some job_id
      → zod.id_param confirm.params ≡ some job_id
      → db.jobs.find_unique job_id w.jobs ≡ some job
      → designated db w job_id ≢ some job.consumer_id
      → (post_job_mark_complete db zod audits now mark w).0.status ≡ 200
      → (let w' = (post_job_mark_complete db zod audits now mark w).1 in
          ((post_job_confirm_complete db zod audits later confirm w').0.status ≢ 200)
          × ((post_job_confirm_complete db zod audits later confirm w').1.jobs ≡ w'.jobs))
  mark-confirm-refused audits now later mark confirm w user job_id job mu cu mp cp row differ ok =
      marked _ _ (Completion.MarkOutcome.post_job_mark_complete-Outcome db zod audits now mark w) ok
    where
      -- The row that the mark wrote waits for another user.
      confirmed :
          (w' : World db) (j : Job)
          → db.jobs.find_unique job_id w'.jobs ≡ some j
          → j.completion_pending_for_user_id ≢ some user.user_id
          → (r : Reply) (w'' : World db)
          → Completion.ConfirmOutcome.Outcome db zod audits later confirm w' r w''
          → (r.status ≢ 200) × (w''.jobs ≡ w'.jobs)
      confirmed w' j there waits _ _ (Completion.ConfirmOutcome.Outcome.refused h) = (h, refl)
      confirmed w' j there waits _ _
            (Completion.ConfirmOutcome.Outcome.granted {user = u} {job_id = n} {job = i} e _) =
          let same_user : user ≡ u = some-injective user u (sym cu ∙ e.sender) in
          let same_id : job_id ≡ n = some-injective job_id n (sym cp ∙ e.named_job) in
          let same_job : j ≡ i = some-injective j i (sym there ∙ rw same_id e.job_row) in
          absurd (
            waits (
              ap (λ (x : Job). x.completion_pending_for_user_id) same_job
              ∙ e.pending_for_sender
              ∙ ap (λ (x : AuthUser). some x.user_id) (sym same_user)))

      marked :
          (r : Reply) (w' : World db)
          → Completion.MarkOutcome.Outcome db zod audits now mark w r w'
          → r.status ≡ 200
          → ((post_job_confirm_complete db zod audits later confirm w').0.status ≢ 200)
            × ((post_job_confirm_complete db zod audits later confirm w').1.jobs ≡ w'.jobs)
      marked _ _ (Completion.MarkOutcome.Outcome.refused h) good = absurd (h good)
      marked _ w'
            (Completion.MarkOutcome.Outcome.granted {user = u} {job_id = n} {job = i}
              {provider_id = p} e _)
            good =
          let same_user : u ≡ user = some-injective u user (sym e.sender ∙ mu) in
          let same_id : n ≡ job_id = some-injective n job_id (sym e.named_job ∙ mp) in
          let same_job : i ≡ job = some-injective i job (sym e.job_row ∙ rw same_id row) in
          let by_provider = present-eq (designated db w n) e.job_provider in
          let two : p ≢ i.consumer_id = λ same. differ (
            subst (λ (k : ℕ). designated db w k ≡ some job.consumer_id) same_id
              (by_provider ∙ ap some same ∙ ap (λ (x : Job). some x.consumer_id) same_job)) in
          confirmed _ (mark_job (other_participant i p u.user_id) i)
            (subst
              (λ (k : ℕ).
                db.jobs.find_unique k
                  (db.jobs.update n (mark_job (other_participant i p u.user_id)) w.jobs)
                ≡ some (mark_job (other_participant i p u.user_id) i))
              same_id (find_update_self db.jobs w.jobs n _ (λ r. refl) e.job_row))
            (λ same.
              other_participant-ne i p u.user_id two e.participant
                (some-injective _ _ same ∙ ap (λ (x : AuthUser). x.user_id) (sym same_user)))
            _ _
            (Completion.ConfirmOutcome.post_job_confirm_complete-Outcome db zod audits later confirm
              _)
