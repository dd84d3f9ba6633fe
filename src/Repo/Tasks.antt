-- ===== src/Repo/Tasks.antt =====
-- The table of TaskPostgresRepository (internal/repository/postgres/task_postgres.go), with the
-- CHECK constraints of its migrations (db/migrations).
pub mod Queue
pub mod Complete
pub mod Admin
pub mod Batch
pub mod Consistent
pub mod Life
use follower_bmad.Base.{
  ◌≡◌, ◌≢◌, arith, ℕ, ℤ, pos, Bool, true, false, not, ◌&&◌, ◌||◌, Option, none, some, List, [], ◌∷◌,
  ◌<◌, ltb, is_some, is_none, if◌then◌else◌, ◌==◌, all,
}
use follower_bmad.Text.{Text, text, is_empty}
use follower_bmad.Errors.Code.{
  ErrorCode, code_text, task_not_found, task_queue_write_failed, new_domain_error,
}
use follower_bmad.Errors.Value.{GoError, domain_error, plain}
use follower_bmad.Errors.Result.{Result, ok, err}
use follower_bmad.Domain.Ids.{Uuid, Time, no_code}
use follower_bmad.Domain.Status.{
  TaskStatus, queued, running, success, retry, fail, canceled, unlisted,
}
use follower_bmad.Domain.Task.{Task}
use follower_bmad.Repo.Table.{find, update, find-update}

-- A row of table tasks; `none` is NULL. The column attempt is an INTEGER >= 0.
pub record TaskRow : Type 0 where
  pub id : Uuid
  pub source_task_id : Option Uuid
  pub account_id : Uuid
  pub target_profile : Text
  pub status : TaskStatus
  pub attempt : ℕ
  pub claimed_by : Option Text
  pub claimed_at : Option Time
  pub started_at : Option Time
  pub finished_at : Option Time
  pub error_code : Option ErrorCode
  pub result_reason : Option Text
  pub created_at : Time
  pub updated_at : Time

-- COALESCE(column, '')
abbrev pub or_no_text : Option Text → Text
or_no_text none = []
or_no_text (some t) = t

abbrev pub or_no_code : Option ErrorCode → ErrorCode
or_no_code none = no_code
or_no_code (some c) = c

-- scanTask
unfoldable pub scan_task : TaskRow → Task
scan_task r = record {
  id = r.id;
  source_task_id = r.source_task_id;
  account_id = r.account_id;
  target_profile = r.target_profile;
  status = r.status;
  attempt = pos r.attempt;
  claimed_by = or_no_text r.claimed_by;
  claimed_at = r.claimed_at;
  started_at = r.started_at;
  finished_at = r.finished_at;
  error_code = or_no_code r.error_code;
  result_reason = or_no_text r.result_reason;
  created_at = r.created_at;
  updated_at = r.updated_at;
}

-- nullableString, nullableErrorCode
unfoldable pub nullable_string : Text → Option Text
nullable_string t = if is_empty t then none else some t

unfoldable pub nullable_error_code : ErrorCode → Option ErrorCode
nullable_error_code c = if is_empty (code_text c) then none else some c

-- What the audit log records of a task.
pub data AuditAction : Type 0 where
  task_claimed task_succeeded task_failed task_retried task_canceled : AuditAction
  task_admin_transitioned : AuditAction

pub record AuditEvent : Type 0 where
  pub action : AuditAction
  pub target_id : Uuid

-- The tables. `accounts` are the ids of table accounts, which account_id references. Where
-- `audit_works` is false, a best-effort audit record is lost.
pub record Store : Type 0 where
  pub rows : List TaskRow
  pub accounts : List Uuid
  pub audit_works : Bool
  pub audit : List AuditEvent

abbrev pub row_key : TaskRow → ℕ
row_key r = r.id

abbrev pub find_row : Uuid → List TaskRow → Option TaskRow
find_row = find row_key

-- recordClaimedAudit and recordCompletedAudit, which ignore a failure.
unfoldable pub record_audit : AuditAction → Uuid → Store → Store
record_audit action id s =
    if s.audit_works
    then record s { audit = record { action = action; target_id = id } ∷ s.audit }
    else s

-- A committed write of the rows, with its audit record.
unfoldable pub write_rows : AuditAction → Uuid → List TaskRow → Store → Store
unfolding record_audit
write_rows action id rows s = record_audit action id (record s { rows = rows })

pub write_rows-rows :
    (action : AuditAction) (id : Uuid) (rows : List TaskRow) (s : Store)
    → (write_rows action id rows s).rows ≡ rows
unfolding write_rows
write_rows-rows action id rows s = ground arith

-- A write of one row: what is found there afterwards, and everywhere else.
pub written_lem :
    (action : AuditAction) (id : Uuid) (f : TaskRow → TaskRow) (r : TaskRow) (s : Store)
    → ((q : TaskRow) → (f q).id ≡ q.id)
    → find_row id s.rows ≡ some r
    → let s' = write_rows action id (update row_key id f s.rows) s in
      (find_row id s'.rows ≡ some (f r))
      × ((j : Uuid) → j ≢ id → find_row j s'.rows ≡ find_row j s.rows)
written_lem action id f r s keeps e = (
  rw write_rows-rows (ground (arith, find-update row_key id id f s.rows keeps)),
  λ j other. rw write_rows-rows (ground (arith, find-update row_key id j f s.rows keeps)),
)

abbrev pub failed {ℓ} : {A : Type ℓ} → ErrorCode → Text → Result A
failed code message = err (domain_error (new_domain_error code message))

-- The largest INTEGER.
abbrev pub max_integer : ℕ
max_integer = 2147483647

-- NULLIF(BTRIM(t), '') IS NULL: SQL trims spaces only.
abbrev pub sql_blank : Text → Bool
sql_blank = all (λ c. c == 32)

abbrev pub has_text : Option Text → Bool
has_text none = false
has_text (some t) = not (sql_blank t)

abbrev pub has_code : Option ErrorCode → Bool
has_code none = false
has_code (some c) = not (sql_blank (code_text c))

abbrev pub is_claimed : TaskRow → Bool
is_claimed r =
    ltb 0 r.attempt && has_text r.claimed_by && is_some r.claimed_at && is_some r.started_at

abbrev pub is_unclaimed : TaskRow → Bool
is_unclaimed r = is_none r.claimed_by && is_none r.claimed_at && is_none r.started_at

-- chk_tasks_lifecycle_consistency
unfoldable pub lifecycle_consistency : TaskStatus → TaskRow → Bool
lifecycle_consistency queued r =
    is_unclaimed r && is_none r.finished_at && is_none r.error_code && is_none r.result_reason
lifecycle_consistency running r =
    is_claimed r && is_none r.finished_at && is_none r.error_code && is_none r.result_reason
lifecycle_consistency success r =
    is_claimed r && is_some r.finished_at && is_none r.error_code && is_none r.result_reason
lifecycle_consistency retry r =
    is_claimed r && is_some r.finished_at && (has_code r.error_code || has_text r.result_reason)
lifecycle_consistency fail r =
    is_claimed r && is_some r.finished_at && (has_code r.error_code || has_text r.result_reason)
lifecycle_consistency canceled r =
    is_unclaimed r && is_some r.finished_at && is_none r.error_code && has_text r.result_reason
lifecycle_consistency (unlisted t) r = false

abbrev pub is_other_source : TaskRow → Bool
is_other_source r = elim r.source_task_id [ none ↦ true | some id ↦ not (id == r.id) ]

-- Every CHECK of the table but that of the order of the three times.
unfoldable pub check_row : TaskRow → Bool
unfolding lifecycle_consistency
check_row r =
    not (sql_blank r.target_profile) && is_other_source r && lifecycle_consistency r.status r

-- GetByID without its check for uuid.Nil.
abbrev pub select_row : Option GoError → Uuid → Store → Result TaskRow
select_row (some e) id s = err e
select_row none id s = elim (find_row id s.rows) [
  | none ↦ failed task_not_found (text "task %s not found")
  | some r ↦ ok r
]
