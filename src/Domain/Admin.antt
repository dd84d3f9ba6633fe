-- ===== src/Domain/Admin.antt =====
-- The operator's transitions (internal/domain/task_admin_transition.go).
pub mod Laws
use follower_bmad.Base.{
  ℕ, ◌≡◌, ◌↔◌, ◌⊎◌, inl, inr, refl, Bool, true, false, not, Option, none, some, arith,
  if◌then◌else◌,
}
use follower_bmad.Text.{Text, text}
use follower_bmad.Errors.Code.{
  ErrorCode, DomainError, new_domain_error, task_state_conflict, retry_not_allowed,
  cancel_not_allowed,
}
use follower_bmad.Errors.Value.{GoError, domain_error, is_domain_error_code}
use follower_bmad.Domain.Status.{
  TaskStatus, queued, running, success, retry, fail, canceled, unlisted, is_valid,
  can_transition_to,
}

-- TaskAdminAction; `other_action` is a text that is none of the constants.
pub data AdminAction : Type 0 where
  retry_action cancel_action : AdminAction
  other_action : Text → AdminAction

-- TaskAdminTransition
pub record AdminTransition : Type 0 where
  pub action : AdminAction
  pub from_status : TaskStatus
  pub to_status : TaskStatus

-- TaskAdminTransitionErrorCode
pub data AdminErrorCode : Type 0 where
  code_task_state_conflict code_retry_not_allowed code_cancel_not_allowed : AdminErrorCode

pub data AdminResult : Type 0 where
  allowed : AdminTransition → AdminResult
  denied : DomainError → AdminResult

-- taskAdminTransitionMatrix: the row of an action, and an entry of a row.
unfoldable pub matrix_row : AdminAction → Option (TaskStatus → Option TaskStatus)
matrix_row retry_action = some (elim [ retry ↦ some queued | fail ↦ some queued | _ ↦ none ])
matrix_row cancel_action = some (elim [ queued ↦ some canceled | _ ↦ none ])
matrix_row (other_action t) = none

-- taskAdminTransitionDeniedCode
unfoldable pub denied_code : AdminAction → ErrorCode
denied_code retry_action = retry_not_allowed
denied_code cancel_action = cancel_not_allowed
denied_code (other_action t) = task_state_conflict

-- EvaluateTaskAdminTransition
unfoldable pub evaluate : TaskStatus → AdminAction → AdminResult
unfolding matrix_row denied_code is_valid
evaluate from action =
    if not (is_valid from)
    then denied (
        new_domain_error task_state_conflict
          (text "admin transition rejected: invalid source status %q"))
    else (elim (matrix_row action) [
      | none ↦ denied (
          new_domain_error task_state_conflict
            (text "admin transition rejected: unsupported action %q"))
      | some row ↦ elim (row from) [
        | none ↦ denied (
            new_domain_error (denied_code action)
              (text "admin transition denied: action=%s source_status=%s"))
        | some to ↦ allowed (record { action = action; from_status = from; to_status = to })
      ]
    ])

-- MapTaskAdminTransitionErrorCode
unfoldable pub map_error_code : Option GoError → AdminErrorCode
unfolding is_domain_error_code
map_error_code err =
    if is_domain_error_code err retry_not_allowed
    then code_retry_not_allowed
    else if is_domain_error_code err cancel_not_allowed
    then code_cancel_not_allowed
    else code_task_state_conflict
