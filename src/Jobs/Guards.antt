-- ===== src/Jobs/Guards.antt =====
-- src/services/jobFlowGuards.ts: the statuses from which each operation is allowed.
use home_hero_backend.Prelude.{Bool, ◌||◌}
use home_hero_backend.Jobs.Model.{
  JobStatus, awarded, completed, completed_pending_confirmation, in_progress, same_status,
}

unfoldable pub can_review_job : JobStatus → Bool
can_review_job status = same_status status completed

unfoldable pub can_open_dispute : JobStatus → Bool
can_open_dispute status =
    same_status status in_progress
    || same_status status completed
    || same_status status completed_pending_confirmation

unfoldable pub can_mark_complete : JobStatus → Bool
can_mark_complete status = same_status status in_progress

unfoldable pub can_confirm_complete : JobStatus → Bool
can_confirm_complete status = same_status status completed_pending_confirmation

unfoldable pub can_cancel_job : JobStatus → Bool
can_cancel_job status =
    same_status status JobStatus.opened
    || same_status status awarded
    || same_status status in_progress
