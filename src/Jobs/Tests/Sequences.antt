-- ===== src/Jobs/Tests/Sequences.antt =====
-- The theorems on sequences of requests, at requests to the small database.
use home_hero_backend.Prelude.{
  List, [], arith, if◌then◌else◌, none, refl, some, true, ◌==◌, ◌∷◌, ◌≡◌, ◌≢◌,
}
use home_hero_backend.Jobs.Completion.{post_job_confirm_complete, post_job_mark_complete}
use home_hero_backend.Jobs.Completion.TwoParty.{mark-confirm-refused}
use home_hero_backend.Jobs.Disputes.{new_dispute, post_admin_resolve_dispute, post_job_disputes}
use home_hero_backend.Jobs.Lifecycle.{
  Request, award_request, dispute_request, respond_to, serve, start_request,
}
use home_hero_backend.Jobs.Lifecycle.ActiveDisputes.{OneActive}
use home_hero_backend.Jobs.Lifecycle.Diagram.{
  Moves, respond_to-Moves, serve-Follows, serve-cancelled, ◌⟶*◌,
}
use home_hero_backend.Jobs.Lifecycle.DisputeLaws.{
  post_admin_resolve_dispute-stranded, post_job_disputes-blocked, serve-OneActive,
}
use home_hero_backend.Jobs.Model.{
  Dispute, Job, JobStatus, admin, cancelled, consumer, in_progress, provider,
}
use home_hero_backend.Jobs.Tests.{demo_db, demo_job, demo_world, demo_zod, sent_by}
use home_hero_backend.Jobs.World.{World, handler_calls}

abbrev demo_requests : List (Request demo_db demo_zod)
demo_requests =
    award_request true 500 (sent_by 7 consumer 1 4)
    ∷ start_request true 600 (sent_by 9 provider 1 0)
    ∷ dispute_request true 700 (sent_by 9 provider 1 0)
    ∷ []

respond_to-Moves_example : Moves (some (demo_job 1 JobStatus.opened none)) (
    demo_db.jobs.find_unique 1
      (respond_to demo_db demo_zod
        (award_request true 500 (sent_by 7 consumer 1 4))
        (demo_world none)).1.jobs)
respond_to-Moves_example =
    respond_to-Moves demo_db demo_zod (award_request true 500 (sent_by 7 consumer 1 4))
      (demo_world none) 1

serve-cancelled_example :
    demo_db.jobs.find_unique 3 (serve demo_db demo_zod demo_requests (demo_world none)).jobs
    ≡ some (demo_job 3 cancelled none)
serve-cancelled_example =
    serve-cancelled demo_db demo_zod demo_requests (demo_world none) 3 (demo_job 3 cancelled none)
      refl refl

serve-Follows_example :
    (j' : Job) × (demo_db.jobs.find_unique 1
        (serve demo_db demo_zod demo_requests (demo_world none)).jobs
      ≡ some j')
    × (JobStatus.opened ⟶* j'.status)
    × (j'.consumer_id ≡ 7)
serve-Follows_example =
    serve-Follows demo_db demo_zod demo_requests (demo_world none) 1
      (demo_job 1 JobStatus.opened none) refl

demo-OneActive : OneActive demo_db (demo_world none).disputes
demo-OneActive i k d e hd he ad ae same = ground arith

serve-OneActive_example :
    OneActive demo_db (serve demo_db demo_zod demo_requests (demo_world none)).disputes
serve-OneActive_example =
    serve-OneActive demo_db demo_zod demo_requests (demo_world none) demo-OneActive

-- A dispute on job 2, which is in progress: what a failed request leaves behind.
abbrev demo_dispute : Dispute
demo_dispute = new_dispute 500 2 9 "QUALITY" none 1

abbrev stranded_world : World demo_db
stranded_world = record (demo_world none) {
  disputes = record { count = 2; cell = λ n. if n == 1 then some demo_dispute else none };
}

post_job_disputes-blocked_example :
    ((post_job_disputes demo_db demo_zod true 600 (sent_by 7 consumer 2 0) stranded_world).0.status
      ≢ 201)
    × ((post_job_disputes demo_db demo_zod true 600
          (sent_by 7 consumer 2 0)
          stranded_world).1.disputes
        ≡ stranded_world.disputes)
post_job_disputes-blocked_example =
    post_job_disputes-blocked demo_db demo_zod true 600 (sent_by 7 consumer 2 0) stranded_world 1
      demo_dispute refl refl refl

post_admin_resolve_dispute-stranded_example :
    let x =
      post_admin_resolve_dispute demo_db demo_zod true 600 (sent_by 1 admin 1 0) stranded_world in
    (x.0.status ≢ 200) × (x.1.disputes ≡ stranded_world.disputes) × (x.1.jobs ≡ stranded_world.jobs)
post_admin_resolve_dispute-stranded_example =
    post_admin_resolve_dispute-stranded demo_db demo_zod true 600 (sent_by 1 admin 1 0)
      stranded_world 1 demo_dispute (demo_job 2 in_progress (some 9)) refl refl refl (λ e. cc)

mark-confirm-refused_example :
    let w =
      (post_job_mark_complete demo_db demo_zod true 500
        (sent_by 9 provider 2 0)
        (demo_world none)).1 in
    let x = post_job_confirm_complete demo_db demo_zod true 600 (sent_by 9 provider 2 0) w in
    (x.0.status ≢ 200) × (x.1.jobs ≡ w.jobs)
unfolding post_job_mark_complete handler_calls
mark-confirm-refused_example =
    mark-confirm-refused demo_db demo_zod true 500 600 (sent_by 9 provider 2 0)
      (sent_by 9 provider 2 0) (demo_world none) (record { user_id = 9; role = provider }) 2
      (demo_job 2 in_progress (some 9)) refl refl refl refl refl (λ e. ground arith) refl
