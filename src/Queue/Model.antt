-- ===== src/Queue/Model.antt =====
-- The rows that src/jobs/worker.ts works on, from prisma/schema.prisma, and their updates.
use home_hero_backend.Prelude.{
  Bool, List, Option, String, [], any, false, if◌then◌else◌, leb, ltb, none, some, true, ℕ, ◌&&◌,
  ◌+◌, ◌==◌, ◌||◌, ◌∷◌,
}
use home_hero_backend.Http.{Fields}
use home_hero_backend.Text.{same_text}

pub data BackgroundJobStatus : Type 0 where
  pending processing success failed dead : BackgroundJobStatus

pub record BackgroundJob : Type 0 where
  pub id : ℕ
  pub kind : String
  pub payload : Fields
  pub status : BackgroundJobStatus
  pub run_at : ℕ
  pub attempts : ℕ
  pub max_attempts : ℕ
  pub locked_at : Option ℕ
  pub locked_by : Option String
  pub last_error : Option String
  pub last_attempt_at : Option ℕ
  pub created_at : ℕ

abbrev pub is_waiting : BackgroundJobStatus → Bool
is_waiting BackgroundJobStatus.pending = true
is_waiting _ = false

abbrev pub is_running : BackgroundJobStatus → Bool
is_running BackgroundJobStatus.processing = true
is_running _ = false

-- `lockedAt: { lt: staleBefore }`, where `staleBefore` is a lease ago; null is never `lt`.
abbrev pub locked_before : ℕ → ℕ → Option ℕ → Bool
locked_before now lease_ms none = false
locked_before now lease_ms (some t) = ltb (t + lease_ms) now

-- `lockedBy: workerId`.
abbrev pub is_locked_by : String → Option String → Bool
is_locked_by worker none = false
is_locked_by worker (some w) = same_text w worker

abbrev pub has_stale_lease : ℕ → ℕ → BackgroundJob → Bool
has_stale_lease now lease_ms j = is_running j.status && locked_before now lease_ms j.locked_at

abbrev pub release : BackgroundJob → BackgroundJob
release j = record j { status = BackgroundJobStatus.pending; locked_at = none; locked_by = none }

abbrev pub is_due : ℕ → BackgroundJob → Bool
is_due now j = is_waiting j.status && leb j.run_at now

-- `orderBy: [{ runAt: "asc" }, { id: "asc" }]`.
abbrev pub runs_first : BackgroundJob → BackgroundJob → Bool
runs_first j k = ltb j.run_at k.run_at || (j.run_at == k.run_at && leb j.id k.id)

unfoldable pub insert_job : BackgroundJob → List BackgroundJob → List BackgroundJob
insert_job j [] = j ∷ []
insert_job j (k ∷ ks) =
    let rest = insert_job j ks in if runs_first j k then j ∷ k ∷ ks else k ∷ rest

unfoldable pub by_run_at : List BackgroundJob → List BackgroundJob
unfolding insert_job
by_run_at [] = []
by_run_at (j ∷ js) = insert_job j (by_run_at js)

-- `id: { in: ids }`.
abbrev pub is_one_of : List BackgroundJob → BackgroundJob → Bool
is_one_of cs j = any (λ c. c.id == j.id) cs

abbrev pub lock : ℕ → String → BackgroundJob → BackgroundJob
lock now worker j = record j {
  status = BackgroundJobStatus.processing;
  locked_at = some now;
  locked_by = some worker;
}

-- `{ id: jobId, status: PROCESSING, lockedBy: workerId }`.
abbrev pub is_held : ℕ → String → BackgroundJob → Bool
is_held id worker j = j.id == id && is_running j.status && is_locked_by worker j.locked_by

abbrev pub succeeded : ℕ → BackgroundJob → BackgroundJob
succeeded now j = record j {
  status = BackgroundJobStatus.success;
  locked_at = none;
  locked_by = none;
  last_error = none;
  last_attempt_at = some now;
}

abbrev pub rescheduled : ℕ → ℕ → ℕ → BackgroundJob → BackgroundJob
rescheduled attempts now run_at j = record j {
  status = BackgroundJobStatus.pending;
  attempts = attempts;
  locked_at = none;
  locked_by = none;
  last_error = none;
  last_attempt_at = some now;
  run_at = run_at;
}

abbrev pub dead_lettered : ℕ → String → ℕ → BackgroundJob → BackgroundJob
dead_lettered attempts message now j = record j {
  status = BackgroundJobStatus.dead;
  attempts = attempts;
  locked_at = none;
  locked_by = none;
  last_error = some message;
  last_attempt_at = some now;
  run_at = now;
}

abbrev pub retried : ℕ → String → ℕ → ℕ → BackgroundJob → BackgroundJob
retried attempts message now run_at j = record j {
  status = BackgroundJobStatus.pending;
  attempts = attempts;
  locked_at = none;
  locked_by = none;
  last_error = some message;
  last_attempt_at = some now;
  run_at = run_at;
}

-- The `data` of `create`, with the columns' defaults.
abbrev pub new_job : String → Fields → ℕ → ℕ → ℕ → ℕ → BackgroundJob
new_job kind payload run_at max_attempts now id = record {
  id = id;
  kind = kind;
  payload = payload;
  status = BackgroundJobStatus.pending;
  run_at = run_at;
  attempts = 0;
  max_attempts = max_attempts;
  locked_at = none;
  locked_by = none;
  last_error = none;
  last_attempt_at = none;
  created_at = now;
}
