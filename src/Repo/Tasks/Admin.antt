-- ===== src/Repo/Tasks/Admin.antt =====
-- ApplyAdminTransition, CancelTask and RetryFromTask
-- (internal/repository/postgres/task_postgres.go).
pub mod Laws
use follower_bmad.Base.{Option, none, some, [], ◌∷◌, if◌then◌else◌}
use follower_bmad.Text.{Text, text, codes, trim_space, is_empty}
use follower_bmad.Errors.Code.{invalid_task_identifier, task_not_found, task_queue_write_failed}
use follower_bmad.Errors.Value.{GoError, domain_error}
use follower_bmad.Errors.Result.{Result, ok, err}
use follower_bmad.Domain.Ids.{Uuid, Time, is_nil}
use follower_bmad.Domain.Status.{TaskStatus, canceled}
use follower_bmad.Domain.Admin.{
  AdminAction, retry_action, cancel_action, other_action, AdminResult, allowed, denied, evaluate,
}
use follower_bmad.Domain.Task.{Task}
use follower_bmad.Repo.Table.{update}
use follower_bmad.Repo.Tasks.{
  TaskRow, Store, AuditAction, row_key, find_row, scan_task, task_retried, task_canceled,
  task_admin_transitioned, failed, nullable_string,
}
use follower_bmad.Repo.Tasks.Queue.{queued_row, insert_row, scanned}

-- normalizeAdminCancelReason
unfoldable pub normalize_admin_cancel_reason : Text → Text
normalize_admin_cancel_reason reason =
    let normalized = trim_space reason in
    if is_empty normalized then codes "task canceled by admin operator" else normalized

-- The UPDATE of applyAdminTransition.
abbrev pub mark_transitioned : Time → TaskStatus → Option Text → TaskRow → TaskRow
mark_transitioned now to reason r = record r {
  status = to;
  claimed_by = none;
  claimed_at = none;
  started_at = none;
  finished_at = elim to [ canceled ↦ some now | _ ↦ none ];
  error_code = none;
  result_reason = elim to [ canceled ↦ reason | _ ↦ none ];
  updated_at = now;
}

abbrev pub cancel_reason : AdminAction → Text → Text
cancel_reason cancel_action reason = normalize_admin_cancel_reason reason
cancel_reason _ reason = []

-- appendAdminTransitionAuditLog, in the same transaction.
abbrev pub transition_audit : AdminAction → AuditAction
transition_audit retry_action = task_retried
transition_audit cancel_action = task_canceled
transition_audit (other_action t) = task_admin_transitioned

abbrev pub append_audit : AuditAction → Uuid → Store → Store
append_audit action id s = record s { audit = record { action = action; target_id = id } ∷ s.audit }

abbrev pub write_failed {ℓ} : {A : Type ℓ} → Result A
write_failed = failed task_queue_write_failed (text "admin transaction failed: %v")

-- What follows the evaluation of an action on the row.
abbrev pub apply_evaluated :
    Time → Uuid → Text → TaskRow → Store → AdminResult → Result Task × Store
apply_evaluated now id reason r s (denied e) = (err (domain_error e), s)
apply_evaluated now id reason r s (allowed t) =
    let f = mark_transitioned now t.to_status (nullable_string (cancel_reason t.action reason)) in
    (
      ok (scan_task (f r)),
      append_audit (transition_audit t.action) id (record s { rows = update row_key id f s.rows }),
    )

-- applyAdminTransition. A fault anywhere in the transaction, which writes the audit row too, is
-- reported under one code and rolled back.
unfoldable pub apply_admin_transition :
    Option GoError → Time → Uuid → AdminAction → Text → Store → Result Task × Store
apply_admin_transition fault now id action reason s =
    if is_nil id
    then (failed invalid_task_identifier (text "task id must not be empty"), s)
    else elim fault [
      | some e ↦ (write_failed, s)
      | none ↦ elim (find_row id s.rows) [
        | none ↦ (failed task_not_found (text "task %s not found"), s)
        | some r ↦ apply_evaluated now id reason r s (evaluate r.status action)
      ]
    ]

-- CancelTask; ApplyAdminTransition passes the reason "".
unfoldable pub cancel_task : Option GoError → Time → Uuid → Text → Store → Result Task × Store
unfolding apply_admin_transition
cancel_task fault now id reason s = apply_admin_transition fault now id cancel_action reason s

-- Any error of the INSERT is reported under one code.
abbrev pub retried : Uuid → Result Task × Store → Store → Result Task × Store
retried fresh (ok t, s') s = (ok t, append_audit task_retried fresh s')
retried fresh (err e, s') s = (write_failed, s)

-- What follows the evaluation of the retry of the source row.
abbrev pub retry_evaluated : Time → Uuid → TaskRow → Store → AdminResult → Result Task × Store
retry_evaluated now fresh r s (denied e) = (err (domain_error e), s)
retry_evaluated now fresh r s (allowed t) =
    retried fresh
      (scanned (insert_row (queued_row now fresh (some r.id) r.account_id r.target_profile 0) s)) s

-- RetryFromTask; `fresh` is uuid.New().
unfoldable pub retry_from_task : Option GoError → Time → Uuid → Uuid → Store → Result Task × Store
retry_from_task fault now fresh source_id s =
    if is_nil source_id
    then (failed invalid_task_identifier (text "source task id must not be empty"), s)
    else elim fault [
      | some e ↦ (write_failed, s)
      | none ↦ elim (find_row source_id s.rows) [
        | none ↦ (failed task_not_found (text "task %s not found"), s)
        | some r ↦ retry_evaluated now fresh r s (evaluate r.status retry_action)
      ]
    ]
