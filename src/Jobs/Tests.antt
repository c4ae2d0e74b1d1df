-- ===== src/Jobs/Tests.antt =====
-- A small database, and the handlers run on it.
mod Granted
mod Outcomes
mod Sequences
use mathlib.Core.Option
use home_hero_backend.Prelude.{
  Option, String, [], arith, if◌then◌else◌, length, none, refl, some, suc, true, zero, ℕ, ◌<◌, ◌==◌,
  ◌≡◌,
}
use home_hero_backend.Db.ListTable.{cells_table, first_below}
use home_hero_backend.Jobs.Award.{post_job_award}
use home_hero_backend.Jobs.Disputes.{post_job_disputes}
use home_hero_backend.Jobs.Model.{
  Bid, Job, JobStatus, UserRole, admin, cancelled, consumer, in_progress, pending, provider,
}
use home_hero_backend.Jobs.Request.{AuthRequest, Zod, to_completed, valid}
use home_hero_backend.Jobs.World.{Db, World, handler_calls}

abbrev demo_db : Db
demo_db = record {
  jobs = cells_table (λ j. j.id);
  bids = cells_table (λ b. b.id);
  disputes = cells_table (λ d. d.id);
  users = cells_table (λ u. u.id);
}

-- Parameters and bodies are numbers; the number in a body names a bid, or is a resolution's.
abbrev demo_id : ℕ → Option ℕ
demo_id zero = none
demo_id (suc n) = some (suc n)

demo_id_positive : (raw : ℕ) {n : ℕ} → demo_id raw ≡ some n → 0 < n
demo_id_positive zero h = absurd (cc)
demo_id_positive (suc n) h = ground arith

abbrev demo_zod : Zod
demo_zod = record {
  Raw = ℕ;
  id_param = demo_id;
  award_fields = λ n. valid (record { bid_id = some n; provider_id = none });
  cancel_fields = λ n. valid (record { reason_code = "NO_SHOW"; reason_details = none });
  dispute_fields = λ n. valid (record { reason_code = "QUALITY"; description = none });
  resolve_fields = λ n. valid (record { job_status = to_completed; resolution_notes = "agreed" });
  id_param_positive = demo_id_positive;
}

abbrev demo_job : ℕ → JobStatus → Option ℕ → Job
demo_job id status provider_id = record {
  id = id;
  consumer_id = 7;
  title = "Paint the fence";
  location = none;
  status = status;
  created_at = 100;
  awarded_provider_id = provider_id;
  awarded_at = none;
  completion_pending_for_user_id = none;
  completed_at = none;
  cancelled_at = none;
  cancelled_by_user_id = none;
  cancellation_reason_code = none;
  cancellation_reason_details = none;
}

abbrev demo_bid : ℕ → ℕ → Bid
demo_bid id provider_id = record {
  id = id;
  job_id = 1;
  provider_id = provider_id;
  amount = 50;
  status = pending;
}

-- Jobs 1 (open), 2 (in progress, for provider 9) and 3 (cancelled); bids 4 and 5 on job 1.
abbrev demo_jobs : ℕ → Option Job
demo_jobs n =
    if n == 1
    then some (demo_job 1 JobStatus.opened none)
    else if n == 2
    then some (demo_job 2 in_progress (some 9))
    else if n == 3
    then some (demo_job 3 cancelled none)
    else none

abbrev demo_bids : ℕ → Option Bid
demo_bids n = if n == 4 then some (demo_bid 4 9) else if n == 5 then some (demo_bid 5 8) else none

-- The call with the given number fails, if there is one.
abbrev failing_at : Option ℕ → ℕ → Option String
failing_at none n = none
failing_at (some k) n = if k == n then some "connection reset" else none

abbrev demo_world : Option ℕ → World demo_db
demo_world fault = record {
  jobs = record { count = 6; cell = demo_jobs };
  bids = record { count = 6; cell = demo_bids };
  disputes = record { count = 1; cell = λ _. none };
  users = record {
    count = 2;
    cell = λ n. if n == 1 then some (record { id = 1; role = admin }) else none;
  };
  outbox = [];
  faults = failing_at fault;
  calls = 0;
}

abbrev sent_by : ℕ → UserRole → ℕ → ℕ → AuthRequest ℕ
sent_by id role params body = record {
  user = some (record { user_id = id; role = role });
  params = params;
  body = body;
}

-- The consumer awards job 1 to bid 4: all calls are made. If the last call fails, the job stays
-- awarded under an answer 500.
award_run :
    let (r, w) =
      post_job_award demo_db demo_zod true 500 (sent_by 7 consumer 1 4) (demo_world none) in
    (r.status ≡ 200) × (length w.outbox ≡ 5)
unfolding post_job_award handler_calls
award_run = (refl, refl)

award_interrupted :
    let (r, w) =
      post_job_award demo_db demo_zod true 500 (sent_by 7 consumer 1 4) (demo_world (some 9)) in
    (r.status ≡ 500) × (length w.outbox ≡ 4)
unfolding post_job_award handler_calls
award_interrupted = (refl, refl)

-- The write of the job fails after the dispute was made.
dispute_interrupted :
    let (r, w) =
      post_job_disputes demo_db demo_zod true 500 (sent_by 9 provider 2 0) (demo_world (some 4)) in
    (r.status ≡ 500)
    × (Option.map (λ d. d.job_id) (demo_db.disputes.find_unique 1 w.disputes) ≡ some 2)
    × (Option.map (λ j. j.status) (demo_db.jobs.find_unique 2 w.jobs) ≡ some in_progress)
unfolding post_job_disputes handler_calls first_below
dispute_interrupted = (refl, refl, refl)
