-- ===== src/Repo/Tasks/Complete.antt =====
-- Complete (internal/repository/postgres/task_postgres.go). It reads the task, checks, and then
-- writes in a second statement, so other connections may act in between.
pub mod Promise
pub mod Laws
use follower_bmad.Base.{
  ℕ, Bool, true, false, not, ◌&&◌, Option, none, some, List, [], ◌∷◌, if◌then◌else◌,
}
use follower_bmad.Text.{Text, text, is_blank, text_eq}
use follower_bmad.Errors.Code.{
  ErrorCode, new_domain_error, invalid_task_identifier, invalid_task_claimed_by,
  task_claim_owner_mismatch, task_not_running, task_not_found,
}
use follower_bmad.Errors.Value.{GoError, domain_error}
use follower_bmad.Errors.Result.{Result, ok, err}
use follower_bmad.Domain.Ids.{Uuid, Time, is_nil, no_code}
use follower_bmad.Domain.Status.{TaskStatus, is_running, is_success, validate_task_completion}
use follower_bmad.Domain.Task.{Task}
use follower_bmad.Repo.Table.{find, update}
use follower_bmad.Repo.Tasks.{
  TaskRow, Store, AuditAction, row_key, find_row, scan_task, write_rows, task_succeeded,
  task_failed, failed, or_no_text, nullable_string, nullable_error_code, select_row,
}

-- What the database and the other connections do while Complete runs: the faults of its three
-- statements, and the changes of the table between them.
pub record Interleaving : Type 0 where
  pub read_fault : Option GoError
  pub before_write : Store → Store
  pub write_fault : Option GoError
  pub before_reread : Store → Store
  pub reread_fault : Option GoError

abbrev pub mark_finished : Time → TaskStatus → ErrorCode → Text → TaskRow → TaskRow
mark_finished now final code reason r = record r {
  status = final;
  finished_at = some now;
  error_code = nullable_error_code code;
  result_reason = nullable_string reason;
  updated_at = now;
}

abbrev pub is_owned : Text → Option Text → Bool
is_owned claimed_by none = false
is_owned claimed_by (some c) = text_eq c claimed_by

-- WHERE claimed_by = $2 AND status = 'running'
abbrev pub is_completable : Text → TaskRow → Bool
is_completable claimed_by r = is_owned claimed_by r.claimed_by && is_running r.status

-- if finalStatus == TaskStatusSuccess { errorCode = ""; resultReason = "" }
abbrev pub final_code : TaskStatus → ErrorCode → ErrorCode
final_code final code = if is_success final then no_code else code

abbrev pub final_reason : TaskStatus → Text → Text
final_reason final reason = if is_success final then [] else reason

abbrev pub completed_action : TaskStatus → AuditAction
completed_action final = if is_success final then task_succeeded else task_failed

-- The error that the reread of the task gives when no row was written.
unfoldable pub explain_failure : Text → Result TaskRow → GoError
explain_failure claimed_by (err e) = e
explain_failure claimed_by (ok latest) =
    if not (text_eq (or_no_text latest.claimed_by) claimed_by)
    then domain_error
        (new_domain_error task_claim_owner_mismatch (text "task %s is claimed by %s, not %s"))
    else domain_error
        (new_domain_error task_not_running (text "task %s must be running to complete, got %s"))

-- The UPDATE of Complete and what follows it.
unfoldable pub write_completion :
    Interleaving → Time → Uuid → Text → TaskStatus → ErrorCode → Text → Store → Result Task × Store
write_completion net now id claimed_by final code reason s =
    let after = net.before_reread s in
    let missed : Result Task × Store =
      (err (explain_failure claimed_by (select_row net.reread_fault id after)), after) in
    elim net.write_fault [
      | some e ↦ (err e, s)
      | none ↦ elim (find_row id s.rows) [
        | none ↦ missed
        | some r ↦
            if is_completable claimed_by r
            then (
              ok (scan_task (mark_finished now final code reason r)),
              write_rows (completed_action final) id
                  (update row_key id (mark_finished now final code reason) s.rows) s,
            )
            else missed
      ]
    ]

-- Complete from the row that it has read on.
unfoldable pub complete_read :
    Interleaving
    → Time
    → Uuid
    → Text
    → TaskStatus
    → ErrorCode
    → Text
    → Store
    → Result TaskRow
    → Result Task × Store
complete_read net now id claimed_by final code reason s (err e) = (err e, s)
complete_read net now id claimed_by final code reason s (ok current) =
    if not (text_eq (or_no_text current.claimed_by) claimed_by)
    then (failed task_claim_owner_mismatch (text "task %s is claimed by %s, not %s"), s)
    else elim (validate_task_completion current.status final code reason) [
      | some e ↦ (err (domain_error e), s)
      | none ↦
          write_completion net now id claimed_by final (final_code final code)
            (final_reason final reason) (net.before_write s)
    ]

-- Complete
unfoldable pub complete :
    Interleaving → Time → Uuid → Text → TaskStatus → ErrorCode → Text → Store → Result Task × Store
complete net now id claimed_by final code reason s =
    if is_nil id
    then (failed invalid_task_identifier (text "task id must not be empty"), s)
    else if is_blank claimed_by
    then (failed invalid_task_claimed_by (text "claimed_by must not be empty"), s)
    else complete_read net now id claimed_by final code reason s (select_row net.read_fault id s)
