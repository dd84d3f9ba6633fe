-- ===== src/Repo/Tasks/Consistent/Rows.antt =====
-- The rows that the statements of task_postgres.go write, and the CHECK constraints.
use follower_bmad.Base.{
  ℕ, ◌≡◌, ◌≢◌, refl, inl, inr, true, false, Option, none, some, [], ◌∷◌, arith, Bool-cases,
}
use follower_bmad.Text.{Text, is_blank, is_empty, trim_space, trim_left, is_space}
use follower_bmad.Text.Trim.{empty-is_blank, sql_blank_lem, trim_space_idem}
use follower_bmad.Errors.Code.{ErrorCode, code_text, is_blank_code, is_blank_code_lem}
use follower_bmad.Domain.Ids.{Uuid, Time}
use follower_bmad.Domain.Status.{
  TaskStatus, queued, running, success, retry, fail, canceled, unlisted, is_queued,
  validate_task_completion,
}
use follower_bmad.Domain.Status.Graph.{validation_iff}
use follower_bmad.Domain.Admin.{AdminAction}
use follower_bmad.Domain.Admin.Laws.{Admin, retry_retried, retry_failed, cancel_queued}
use follower_bmad.Repo.Tasks.{
  TaskRow, check_row, nullable_string, nullable_error_code, sql_blank, has_text, has_code,
}
use follower_bmad.Repo.Tasks.Queue.{mark_running, queued_row}
use follower_bmad.Repo.Tasks.Complete.{mark_finished, final_code, final_reason}
use follower_bmad.Repo.Tasks.Admin.{mark_transitioned, cancel_reason, normalize_admin_cancel_reason}

pub mark_running-check_row :
    (now : Time) (claimed_by : Text) (r : TaskRow)
    → check_row r ≡ true
    → is_queued r.status ≡ true
    → is_blank claimed_by ≡ false
    → check_row (mark_running now claimed_by r) ≡ true
unfolding check_row
mark_running-check_row now claimed_by r h q named = ground (arith, sql_blank_lem claimed_by named)

has_text_lem : (t : Text) → is_blank t ≡ false → has_text (nullable_string t) ≡ true
unfolding nullable_string is_blank trim_space
has_text_lem [] h = cc
has_text_lem (c ∷ t) h = ground (arith, sql_blank_lem (c ∷ t) h)

has_code_lem : (c : ErrorCode) → is_blank_code c ≡ false → has_code (nullable_error_code c) ≡ true
unfolding nullable_error_code
has_code_lem c h =
    ground (arith, is_blank_code_lem c, sql_blank_lem (code_text c), empty-is_blank (code_text c))

pub mark_finished-check_row :
    (now : Time) (final : TaskStatus) (code : ErrorCode) (reason : Text) (r : TaskRow)
    → check_row r ≡ true
    → r.status ≡ running
    → validate_task_completion running final code reason ≡ none
    → check_row (mark_finished now final (final_code final code) (final_reason final reason) r)
      ≡ true
unfolding check_row
mark_finished-check_row now success code reason r h run v =
    unfold nullable_string nullable_error_code code_text in ground arith
mark_finished-check_row now retry code reason r h run v = ground (
  arith,
  has_text_lem reason,
  has_code_lem code,
  (validation_iff running retry code reason).1.0 v,
)
mark_finished-check_row now fail code reason r h run v =
    ground (
      arith,
      has_text_lem reason,
      has_code_lem code,
      (validation_iff running fail code reason).1.0 v,
    )
mark_finished-check_row now queued code reason r h run v =
    ground (arith, (validation_iff running queued code reason).1.0 v)
mark_finished-check_row now running code reason r h run v =
    ground (arith, (validation_iff running running code reason).1.0 v)
mark_finished-check_row now canceled code reason r h run v =
    ground (arith, (validation_iff running canceled code reason).1.0 v)
mark_finished-check_row now (unlisted t) code reason r h run v =
    ground (arith, (validation_iff running (unlisted t) code reason).1.0 v)

normalized_reason_lem : (reason : Text) → is_blank (normalize_admin_cancel_reason reason) ≡ false
unfolding normalize_admin_cancel_reason
normalized_reason_lem reason = elim (Bool-cases (is_empty (trim_space reason))) [
  | inl hit ↦ rw hit (unfold is_blank is_space trim_space trim_left in refl)
  | inr given ↦ rw given (unfold is_blank in rw trim_space_idem given)
]

-- `s` is the status of the row.
transition-check_row :
    (now : Time) {s : TaskStatus} {action : AdminAction} {to : TaskStatus} (reason : Text)
    (r : TaskRow)
    → check_row r ≡ true
    → Admin s action to
    → r.status ≡ s
    → check_row (mark_transitioned now to (nullable_string (cancel_reason action reason)) r) ≡ true
unfolding check_row
transition-check_row now reason r h retry_retried e = ground arith
transition-check_row now reason r h retry_failed e = ground arith
transition-check_row now reason r h cancel_queued e =
    ground
      (arith, has_text_lem (normalize_admin_cancel_reason reason) (normalized_reason_lem reason))

pub mark_transitioned-check_row :
    (now : Time) (action : AdminAction) (to : TaskStatus) (reason : Text) (r : TaskRow)
    → check_row r ≡ true
    → Admin r.status action to
    → check_row (mark_transitioned now to (nullable_string (cancel_reason action reason)) r) ≡ true
mark_transitioned-check_row now action to reason r h a = transition-check_row now reason r h a refl

pub queued_row-check_row :
    (now : Time) (id : Uuid) (source : Option Uuid) (account : Uuid) (target : Text) (attempt : ℕ)
    → source ≢ some id
    → sql_blank target ≡ false
    → check_row (queued_row now id source account target attempt) ≡ true
unfolding check_row
queued_row-check_row now id source account target attempt other given = ground arith
