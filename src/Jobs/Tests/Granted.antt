-- ===== src/Jobs/Tests/Granted.antt =====
-- The theorems on requests that are granted, at inputs of the small database.
use home_hero_backend.Prelude.{
  Option, arith, if◌then◌else◌, inl, inr, none, refl, some, true, ◌==◌, ◌≡◌,
}
use home_hero_backend.Db.ListTable.{first_below}
use home_hero_backend.Jobs.Award.{award_parse, award_refine, post_job_award}
use home_hero_backend.Jobs.Award.Granted.{post_job_award-granted}
use home_hero_backend.Jobs.Cancellation.{cancel_parse, cancel_refine, post_job_cancel}
use home_hero_backend.Jobs.Cancellation.Granted.{post_job_cancel-granted}
use home_hero_backend.Jobs.Completion.{post_job_confirm_complete, post_job_mark_complete}
use home_hero_backend.Jobs.Completion.ConfirmGranted.{post_job_confirm_complete-granted}
use home_hero_backend.Jobs.Completion.MarkGranted.{post_job_mark_complete-granted}
use home_hero_backend.Jobs.Disputes.{new_dispute, post_admin_resolve_dispute, post_job_disputes}
use home_hero_backend.Jobs.Disputes.OpenGranted.{post_job_disputes-granted}
use home_hero_backend.Jobs.Disputes.ResolveGranted.{post_admin_resolve_dispute-granted}
use home_hero_backend.Jobs.Guards.{can_open_dispute}
use home_hero_backend.Jobs.Model.{
  Dispute, Job, JobStatus, admin, awarded, completed_pending_confirmation, consumer, disputed,
  in_progress, provider,
}
use home_hero_backend.Jobs.Request.{to_completed}
use home_hero_backend.Jobs.Start.{post_job_start}
use home_hero_backend.Jobs.Start.Granted.{post_job_start-granted}
use home_hero_backend.Jobs.Tests.{demo_bid, demo_db, demo_job, demo_world, demo_zod, sent_by}
use home_hero_backend.Jobs.World.{World}

abbrev awarded_job : Job
awarded_job = demo_job 1 awarded (some 9)

abbrev waiting_job : Job
waiting_job = record (demo_job 1 completed_pending_confirmation (some 9)) {
  completion_pending_for_user_id = some 7;
}

-- The database with one job, and the dispute of user 9 on it where there is one.
abbrev world_of : Job → Option Dispute → World demo_db
world_of job dispute = record (demo_world none) {
  jobs = record { count = 6; cell = λ n. if n == 1 then some job else none };
  disputes = record { count = 2; cell = λ n. if n == 1 then dispute else none };
}

post_job_award-granted_example :
    (post_job_award demo_db demo_zod true 500 (sent_by 7 consumer 1 4) (demo_world none)).0.status
    ≡ 200
unfolding award_parse award_refine
post_job_award-granted_example =
    post_job_award-granted demo_db demo_zod true 500 (sent_by 7 consumer 1 4) (demo_world none)
      (record { user_id = 7; role = consumer }) (record { bid_id = some 4; provider_id = none })
      (demo_job 1 JobStatus.opened none) (demo_bid 4 9)
      (record {
        sender = refl;
        sender_role = refl;
        owner = refl;
        named_job = refl;
        job_row = refl;
        job_open = refl;
        body_valid = refl;
        named_bid = inl refl;
        bid_row = refl;
        bid_job = refl;
      })
      refl (λ n. refl)

post_job_start-granted_example :
    (post_job_start demo_db demo_zod true 500
      (sent_by 9 provider 1 0)
      (world_of awarded_job none)).0.status
    ≡ 200
post_job_start-granted_example =
    post_job_start-granted demo_db demo_zod true 500 (sent_by 9 provider 1 0)
      (world_of awarded_job none) (record { user_id = 9; role = provider }) 1 awarded_job
      (record {
        sender = refl;
        sender_role = refl;
        named_job = refl;
        job_row = refl;
        job_awarded = refl;
        awarded_to_sender = refl;
      })
      (λ n. refl)

post_job_mark_complete-granted_example :
    (post_job_mark_complete demo_db demo_zod true 500
      (sent_by 7 consumer 2 0)
      (demo_world none)).0.status
    ≡ 200
post_job_mark_complete-granted_example =
    post_job_mark_complete-granted demo_db demo_zod true 500 (sent_by 7 consumer 2 0)
      (demo_world none) (record { user_id = 7; role = consumer }) 2
      (demo_job 2 in_progress (some 9)) 9
      (record {
        sender = refl;
        sender_role = λ e. cc;
        named_job = refl;
        job_row = refl;
        job_in_progress = refl;
        job_provider = refl;
        participant = inl refl;
      })
      (λ n. refl)

post_job_confirm_complete-granted_example :
    (post_job_confirm_complete demo_db demo_zod true 500
      (sent_by 7 consumer 1 0)
      (world_of waiting_job none)).0.status
    ≡ 200
post_job_confirm_complete-granted_example =
    post_job_confirm_complete-granted demo_db demo_zod true 500 (sent_by 7 consumer 1 0)
      (world_of waiting_job none) (record { user_id = 7; role = consumer }) 1 waiting_job 9
      (record {
        sender = refl;
        sender_role = λ e. cc;
        named_job = refl;
        job_row = refl;
        job_pending = refl;
        job_provider = refl;
        pending_for_sender = refl;
        participant = inl refl;
      })
      (λ n. refl)

post_job_disputes-granted_example :
    (post_job_disputes demo_db demo_zod true 500
      (sent_by 9 provider 2 0)
      (demo_world none)).0.status
    ≡ 201
unfolding can_open_dispute first_below
post_job_disputes-granted_example =
    post_job_disputes-granted demo_db demo_zod true 500 (sent_by 9 provider 2 0) (demo_world none)
      (record { user_id = 9; role = provider }) 2 (demo_job 2 in_progress (some 9))
      (record { reason_code = "QUALITY"; description = none })
      (record {
        sender = refl;
        sender_role = λ e. cc;
        named_job = refl;
        body_valid = refl;
        job_row = refl;
        job_disputable = refl;
        participant = inr refl;
        none_active = refl;
      })
      (λ n. refl)

abbrev disputed_world : World demo_db
disputed_world =
    world_of (demo_job 1 disputed (some 9)) (some (new_dispute 400 1 9 "QUALITY" none 1))

post_admin_resolve_dispute-granted_example :
    (post_admin_resolve_dispute demo_db demo_zod true 500
      (sent_by 1 admin 1 0)
      disputed_world).0.status
    ≡ 200
post_admin_resolve_dispute-granted_example =
    post_admin_resolve_dispute-granted demo_db demo_zod true 500 (sent_by 1 admin 1 0)
      disputed_world (record { user_id = 1; role = admin }) 1 (new_dispute 400 1 9 "QUALITY" none 1)
      (demo_job 1 disputed (some 9))
      (record { job_status = to_completed; resolution_notes = "agreed" })
      (record {
        sender = refl;
        sender_role = refl;
        named_dispute = refl;
        body_valid = refl;
        dispute_row = refl;
        dispute_active = λ e. cc;
        job_row = refl;
        job_disputed = refl;
      })
      (λ n. refl)

post_job_cancel-granted_example :
    (post_job_cancel demo_db demo_zod true 500 (sent_by 7 consumer 1 0) (demo_world none)).0.status
    ≡ 200
unfolding cancel_parse cancel_refine
post_job_cancel-granted_example =
    post_job_cancel-granted demo_db demo_zod true 500 (sent_by 7 consumer 1 0) (demo_world none)
      (record { user_id = 7; role = consumer }) 1 (demo_job 1 JobStatus.opened none)
      (record { reason_code = "NO_SHOW"; reason_details = none })
      (record {
        sender = refl;
        named_job = refl;
        body_valid = refl;
        job_row = refl;
        job_live = inl refl;
        may_cancel = inl (refl, refl);
      })
      (ground arith) (λ n. refl)
