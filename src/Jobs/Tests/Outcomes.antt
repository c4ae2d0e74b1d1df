-- ===== src/Jobs/Tests/Outcomes.antt =====
-- The theorems on the outcomes of the handlers, at requests to the small database.
use home_hero_backend.Jobs.Award
use home_hero_backend.Jobs.Start
use home_hero_backend.Jobs.Completion
use home_hero_backend.Jobs.Cancellation
use home_hero_backend.Jobs.Disputes
use home_hero_backend.Prelude.{none, true}
use home_hero_backend.Jobs.Award.{post_job_award}
use home_hero_backend.Jobs.Cancellation.{post_job_cancel}
use home_hero_backend.Jobs.Completion.{post_job_confirm_complete, post_job_mark_complete}
use home_hero_backend.Jobs.Disputes.{post_admin_resolve_dispute, post_job_disputes}
use home_hero_backend.Jobs.Model.{admin, consumer, provider}
use home_hero_backend.Jobs.Start.{post_job_start}
use home_hero_backend.Jobs.Tests.{demo_db, demo_world, demo_zod, sent_by}

post_job_award-Outcome_example :
    let x = post_job_award demo_db demo_zod true 500 (sent_by 7 consumer 1 4) (demo_world none) in
    Award.Outcome.Outcome demo_db demo_zod true 500
      (sent_by 7 consumer 1 4)
      (demo_world none)
      x.0
      x.1
post_job_award-Outcome_example =
    Award.Outcome.post_job_award-Outcome demo_db demo_zod true 500 (sent_by 7 consumer 1 4)
      (demo_world none)

post_job_start-Outcome_example :
    let x = post_job_start demo_db demo_zod true 500 (sent_by 9 provider 2 0) (demo_world none) in
    Start.Outcome.Outcome demo_db demo_zod true 500
      (sent_by 9 provider 2 0)
      (demo_world none)
      x.0
      x.1
post_job_start-Outcome_example =
    Start.Outcome.post_job_start-Outcome demo_db demo_zod true 500 (sent_by 9 provider 2 0)
      (demo_world none)

post_job_mark_complete-Outcome_example :
    let x =
      post_job_mark_complete demo_db demo_zod true 500 (sent_by 7 consumer 2 0) (demo_world none) in
    Completion.MarkOutcome.Outcome demo_db demo_zod true 500
      (sent_by 7 consumer 2 0)
      (demo_world none)
      x.0
      x.1
post_job_mark_complete-Outcome_example =
    Completion.MarkOutcome.post_job_mark_complete-Outcome demo_db demo_zod true 500
      (sent_by 7 consumer 2 0) (demo_world none)

post_job_confirm_complete-Outcome_example :
    let x =
      post_job_confirm_complete demo_db demo_zod true 500
        (sent_by 9 provider 2 0)
        (demo_world none) in
    Completion.ConfirmOutcome.Outcome demo_db demo_zod true 500
      (sent_by 9 provider 2 0)
      (demo_world none)
      x.0
      x.1
post_job_confirm_complete-Outcome_example =
    Completion.ConfirmOutcome.post_job_confirm_complete-Outcome demo_db demo_zod true 500
      (sent_by 9 provider 2 0) (demo_world none)

post_job_cancel-Outcome_example :
    let x = post_job_cancel demo_db demo_zod true 500 (sent_by 7 consumer 1 0) (demo_world none) in
    Cancellation.Outcome.Outcome demo_db demo_zod true 500
      (sent_by 7 consumer 1 0)
      (demo_world none)
      x.0
      x.1
post_job_cancel-Outcome_example =
    Cancellation.Outcome.post_job_cancel-Outcome demo_db demo_zod true 500 (sent_by 7 consumer 1 0)
      (demo_world none)

post_job_disputes-Outcome_example :
    let x =
      post_job_disputes demo_db demo_zod true 500 (sent_by 9 provider 2 0) (demo_world none) in
    Disputes.OpenOutcome.Outcome demo_db demo_zod true 500
      (sent_by 9 provider 2 0)
      (demo_world none)
      x.0
      x.1
post_job_disputes-Outcome_example =
    Disputes.OpenOutcome.post_job_disputes-Outcome demo_db demo_zod true 500
      (sent_by 9 provider 2 0) (demo_world none)

post_admin_resolve_dispute-Outcome_example :
    let x =
      post_admin_resolve_dispute demo_db demo_zod true 500
        (sent_by 1 admin 3 0)
        (demo_world none) in
    Disputes.ResolveOutcome.Outcome demo_db demo_zod true 500
      (sent_by 1 admin 3 0)
      (demo_world none)
      x.0
      x.1
post_admin_resolve_dispute-Outcome_example =
    Disputes.ResolveOutcome.post_admin_resolve_dispute-Outcome demo_db demo_zod true 500
      (sent_by 1 admin 3 0) (demo_world none)
