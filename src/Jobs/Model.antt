-- ===== src/Jobs/Model.antt =====
-- The rows that the job handlers read and write (prisma/schema.prisma), restricted to the fields
-- that they use, and the users that send the requests. Dates are milliseconds.
use home_hero_backend.Prelude.{
  Bool, List, Option, String, [], false, none, some, suc, true, zero, ℕ, ◌==◌, ◌∷◌,
}

pub data UserRole : Type 0 where
  consumer provider admin : UserRole

pub record AuthUser : Type 0 where
  pub user_id : ℕ
  pub role : UserRole

pub data JobStatus : Type 0 where
  opened awarded in_progress completed_pending_confirmation completed disputed cancelled : JobStatus

pub data BidStatus : Type 0 where
  pending accepted declined : BidStatus

pub data DisputeStatus : Type 0 where
  opened investigating resolved : DisputeStatus

pub record Job : Type 0 where
  pub id : ℕ
  pub consumer_id : ℕ
  pub title : String
  pub location : Option String
  pub status : JobStatus
  pub created_at : ℕ
  pub awarded_provider_id : Option ℕ
  pub awarded_at : Option ℕ
  pub completion_pending_for_user_id : Option ℕ
  pub completed_at : Option ℕ
  pub cancelled_at : Option ℕ
  pub cancelled_by_user_id : Option ℕ
  pub cancellation_reason_code : Option String
  pub cancellation_reason_details : Option String

pub record Bid : Type 0 where
  pub id : ℕ
  pub job_id : ℕ
  pub provider_id : ℕ
  pub amount : ℕ
  pub status : BidStatus

pub record Dispute : Type 0 where
  pub id : ℕ
  pub job_id : ℕ
  pub opened_by_user_id : ℕ
  pub reason_code : String
  pub description : Option String
  pub status : DisputeStatus
  pub created_at : ℕ
  pub resolved_at : Option ℕ
  pub resolution_notes : Option String
  pub resolved_by_admin_id : Option ℕ
  pub resolution_job_status : Option JobStatus

pub record User : Type 0 where
  pub id : ℕ
  pub role : UserRole

abbrev pub same_role : UserRole → UserRole → Bool
same_role consumer consumer = true
same_role provider provider = true
same_role admin admin = true
same_role _ _ = false

-- `status === "..."`.
abbrev pub same_status : JobStatus → JobStatus → Bool
same_status JobStatus.opened JobStatus.opened = true
same_status awarded awarded = true
same_status in_progress in_progress = true
same_status completed_pending_confirmation completed_pending_confirmation = true
same_status completed completed = true
same_status disputed disputed = true
same_status cancelled cancelled = true
same_status _ _ = false

abbrev pub is_accepted : BidStatus → Bool
is_accepted accepted = true
is_accepted _ = false

abbrev pub is_pending : BidStatus → Bool
is_pending pending = true
is_pending _ = false

abbrev pub is_resolved : DisputeStatus → Bool
is_resolved resolved = true
is_resolved _ = false

-- The status as the database and the responses spell it.
pub job_status_name : JobStatus → String
job_status_name JobStatus.opened = "OPEN"
job_status_name awarded = "AWARDED"
job_status_name in_progress = "IN_PROGRESS"
job_status_name completed_pending_confirmation = "COMPLETED_PENDING_CONFIRMATION"
job_status_name completed = "COMPLETED"
job_status_name disputed = "DISPUTED"
job_status_name cancelled = "CANCELLED"

pub dispute_status_name : DisputeStatus → String
dispute_status_name DisputeStatus.opened = "OPEN"
dispute_status_name investigating = "INVESTIGATING"
dispute_status_name resolved = "RESOLVED"

-- A nullable identifier as the source tests it: `!!id`, false for null and for 0.
abbrev pub truthy : Option ℕ → Bool
truthy none = false
truthy (some zero) = false
truthy (some _) = true

-- `nullable === id`.
abbrev pub is_id : Option ℕ → ℕ → Bool
is_id none i = false
is_id (some n) i = n == i

-- `if (!id) ...`, with the value of `id` from there on.
abbrev pub present : Option ℕ → Option ℕ
present none = none
present (some zero) = none
present (some (suc n)) = some (suc n)

abbrev pub optional_id : Option ℕ → List ℕ
optional_id none = []
optional_id (some n) = n ∷ []

abbrev pub is_some : {A : Type 0} → Option A → Bool
is_some none = false
is_some (some _) = true
