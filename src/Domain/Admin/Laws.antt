-- ===== src/Domain/Admin/Laws.antt =====
-- What EvaluateTaskAdminTransition allows, and the error that an operator reads where it does not.
use follower_bmad.Base.{◌≡◌, refl, false, some, if◌then◌else◌}
use follower_bmad.Text.{text_eq}
use follower_bmad.Errors.Code.{code_text}
use follower_bmad.Errors.Value.{domain_error}
use follower_bmad.Domain.Status.{
  TaskStatus, queued, running, success, retry, fail, canceled, unlisted, is_valid,
  can_transition_to,
}
use follower_bmad.Domain.Admin.{
  AdminAction, retry_action, cancel_action, other_action, AdminErrorCode, code_task_state_conflict,
  code_retry_not_allowed, code_cancel_not_allowed, AdminResult, allowed, denied, evaluate,
  map_error_code,
}

-- An action that the operator may take, as a relation.
pub data Admin : TaskStatus → AdminAction → TaskStatus → Type 0 where
  retry_retried : Admin retry retry_action queued
  retry_failed : Admin fail retry_action queued
  cancel_queued : Admin queued cancel_action canceled

-- The error that an operator reads when a known status does not allow the action.
abbrev pub denied_kind : AdminAction → AdminErrorCode
denied_kind retry_action = code_retry_not_allowed
denied_kind cancel_action = code_cancel_not_allowed
denied_kind (other_action t) = code_task_state_conflict

abbrev pub AdminSpec : TaskStatus → AdminAction → AdminResult → Type 0
AdminSpec from action (allowed t) =
    Admin from action t.to_status × (t.action ≡ action) × (t.from_status ≡ from)
AdminSpec from action (denied e) =
    ((to : TaskStatus) → ¬ Admin from action to)
    × (map_error_code (some (domain_error e))
        ≡ (if is_valid from then denied_kind action else code_task_state_conflict))

-- EvaluateTaskAdminTransition allows exactly the retry of a task in retry or fail and the
-- cancellation of a queued one. It reports the action and the source status as given, and where it
-- denies an action, MapTaskAdminTransitionErrorCode gives the error of that action, or a state
-- conflict for an unknown status or action.
pub evaluate_lem :
    (from : TaskStatus) (action : AdminAction) → AdminSpec from action (evaluate from action)
unfolding evaluate map_error_code code_text text_eq
evaluate_lem queued cancel_action = (cancel_queued, refl, refl)
evaluate_lem retry retry_action = (retry_retried, refl, refl)
evaluate_lem fail retry_action = (retry_failed, refl, refl)
evaluate_lem running retry_action = (λ to a. elim a [ ], refl)
evaluate_lem success retry_action = (λ to a. elim a [ ], refl)
evaluate_lem canceled retry_action = (λ to a. elim a [ ], refl)
evaluate_lem (unlisted x) action = (λ to a. elim a [ ], refl)
evaluate_lem _ _ = (λ to a. elim a [ ], refl)

-- The operator's transitions are none of the worker's.
pub Admin-not_worker :
    {s t : TaskStatus} {a : AdminAction} → Admin s a t → can_transition_to s t ≡ false
unfolding can_transition_to
Admin-not_worker retry_retried = refl
Admin-not_worker retry_failed = refl
Admin-not_worker cancel_queued = refl
