-- ===== src/Domain/Status.antt =====
-- Task statuses and the worker's transitions (internal/domain/task_state.go, task.go).
pub mod Graph
use follower_bmad.Base.{Bool, true, false, not, ◌&&◌, ◌||◌, Option, none, if◌then◌else◌}
use follower_bmad.Text.{Text, text, is_blank, codes, text_eq}
use follower_bmad.Errors.Code.{
  ErrorCode, DomainError, is_blank_code, invalid_task_status, invalid_task_transition,
  task_not_running, task_completion_reason_required,
}
use follower_bmad.Domain.Ids.{reject}

-- `unlisted` is a text that is none of the constants.
pub data TaskStatus : Type 0 where
  queued running success retry fail canceled : TaskStatus
  unlisted : Text → TaskStatus

-- string(status)
unfoldable pub status_text : TaskStatus → Text
status_text queued = codes "queued"
status_text running = codes "running"
status_text success = codes "success"
status_text retry = codes "retry"
status_text fail = codes "fail"
status_text canceled = codes "canceled"
status_text (unlisted t) = t

-- TaskStatus.IsValid
unfoldable pub is_valid : TaskStatus → Bool
is_valid (unlisted t) = false
is_valid _ = true

-- TaskStatus.IsTerminal
unfoldable pub is_terminal : TaskStatus → Bool
is_terminal success = true
is_terminal retry = true
is_terminal fail = true
is_terminal canceled = true
is_terminal _ = false

-- TaskStatus.CanTransitionTo
unfoldable pub can_transition_to : TaskStatus → TaskStatus → Bool
can_transition_to queued running = true
can_transition_to running success = true
can_transition_to running retry = true
can_transition_to running fail = true
can_transition_to _ _ = false

abbrev pub is_running : TaskStatus → Bool
is_running running = true
is_running _ = false

abbrev pub is_queued : TaskStatus → Bool
is_queued queued = true
is_queued _ = false

abbrev pub is_success : TaskStatus → Bool
is_success success = true
is_success _ = false

abbrev pub is_retry_or_fail : TaskStatus → Bool
is_retry_or_fail retry = true
is_retry_or_fail fail = true
is_retry_or_fail _ = false

-- Task.ValidateTransition
unfoldable pub validate_transition : TaskStatus → TaskStatus → Option DomainError
unfolding is_valid can_transition_to
validate_transition current next =
    reject (not (is_valid current) || not (is_valid next)) invalid_task_status
      "invalid task transition %s -> %s"
      (reject (not (can_transition_to current next)) invalid_task_transition
        "transition %s -> %s is not allowed" none)

-- ValidateTaskCompletion
unfoldable pub validate_task_completion :
    TaskStatus → TaskStatus → ErrorCode → Text → Option DomainError
unfolding can_transition_to
validate_task_completion current next error_code result_reason =
    reject (not (is_running current)) task_not_running "task must be in running status, got %s" (
      reject (not (can_transition_to current next)) invalid_task_transition
        "transition %s -> %s is not allowed"
        (reject (is_retry_or_fail next && is_blank_code error_code && is_blank result_reason)
          task_completion_reason_required
          "retry/fail completion requires error_code or result_reason" none))
