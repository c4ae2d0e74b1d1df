-- ===== src/Jobs/Request.antt =====
-- The requests of the job handlers, and the schema library (zod, a third-party package) as an
-- interface: what each schema makes of a raw parameter or body, before the checks that the source
-- adds by `superRefine`.
use home_hero_backend.Prelude.{Option, String, none, some, ℕ, ◌<◌, ◌≡◌}
use home_hero_backend.Jobs.Model.{AuthUser}

-- What `safeParse` answers: the value, or the message of the first issue.
pub data Parsed (A : Type 0) : Type 0 where
  valid : A → Parsed A
  invalid : Option String → Parsed A

pub record AwardBody : Type 0 where
  pub bid_id : Option ℕ
  pub provider_id : Option ℕ

pub record CancelBody : Type 0 where
  pub reason_code : String
  pub reason_details : Option String

pub record DisputeBody : Type 0 where
  pub reason_code : String
  pub description : Option String

-- `jobStatus` is one of COMPLETED and CANCELLED.
pub data Resolution : Type 0 where
  to_completed to_cancelled : Resolution

pub record ResolveBody : Type 0 where
  pub job_status : Resolution
  pub resolution_notes : String

pub record Zod : Type 1 where
  pub Raw : Type 0
  -- `z.coerce.number().int().positive()` on the identifier in the path.
  pub id_param : Raw → Option ℕ
  pub award_fields : Raw → Parsed AwardBody
  pub cancel_fields : Raw → Parsed CancelBody
  pub dispute_fields : Raw → Parsed DisputeBody
  pub resolve_fields : Raw → Parsed ResolveBody
  -- `z.coerce.number().int().positive()` accepts only positive numbers.
  pub id_param_positive : (raw : Raw) {n : ℕ} → id_param raw ≡ some n → 0 < n

pub record AuthRequest (Raw : Type 0) : Type 0 where
  pub user : Option AuthUser
  pub params : Raw
  pub body : Raw

-- `error.issues[0]?.message ?? "Invalid request body"`.
abbrev pub issue_message : Option String → String
issue_message none = "Invalid request body"
issue_message (some message) = message
