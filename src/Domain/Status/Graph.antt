-- ===== src/Domain/Status/Graph.antt =====
-- The worker's transition graph as a relation, and what the guards of task.go accept.
use follower_bmad.Base.{ℕ, ◌<◌, ◌≤◌, ◌≡◌, refl, ◌↔◌, ◌⊎◌, true, false, none, arith}
use follower_bmad.Text.{Text, is_blank}
use follower_bmad.Errors.Code.{ErrorCode, is_blank_code}
use follower_bmad.Domain.Status.{
  TaskStatus, queued, running, success, retry, fail, canceled, unlisted, is_valid, is_terminal,
  can_transition_to, validate_transition, validate_task_completion,
}

-- Paths of allowed transitions.
pub data Reach : TaskStatus → TaskStatus → Type 0 where
  here : {s : TaskStatus} → Reach s s
  step : {s t u : TaskStatus} → can_transition_to s t ≡ true → Reach t u → Reach s u

-- Among the six statuses the terminal ones are exactly those that no transition leaves.
pub is_terminal_iff :
    (s : TaskStatus)
    → is_valid s ≡ true
    → (is_terminal s ≡ true) ↔ ((t : TaskStatus) → can_transition_to s t ≡ false)
unfolding is_valid is_terminal can_transition_to
is_terminal_iff queued h = (λ e. ground arith, λ f. ground (arith, f running))
is_terminal_iff running h = (λ e. ground arith, λ f. ground (arith, f success))
is_terminal_iff success h = (λ e t. refl, λ f. refl)
is_terminal_iff retry h = (λ e t. refl, λ f. refl)
is_terminal_iff fail h = (λ e t. refl, λ f. refl)
is_terminal_iff canceled h = (λ e t. refl, λ f. refl)
is_terminal_iff (unlisted x) h = ground arith

-- ValidateTransition accepts exactly the allowed transitions; ValidateTaskCompletion accepts
-- exactly the completions of a running task by success, or by retry or fail with a code or a
-- reason that is not blank.
pub validation_iff :
    (s t : TaskStatus) (code : ErrorCode) (reason : Text)
    → ((validate_transition s t ≡ none) ↔ (can_transition_to s t ≡ true))
      × ((validate_task_completion s t code reason ≡ none)
          ↔ (s ≡ running)
            × ((t ≡ success)
                ⊎ ((t ≡ retry) ⊎ (t ≡ fail))
                  × ((is_blank_code code ≡ false) ⊎ (is_blank reason ≡ false))))
unfolding validate_transition validate_task_completion
validation_iff s t code reason =
    ((λ h. ground arith, λ h. ground arith), (λ h. ground arith, λ h. ground arith))

-- How far along its life a status is.
abbrev rank : TaskStatus → ℕ
rank queued = 0
rank running = 1
rank _ = 2

rank-lt : (s t : TaskStatus) → can_transition_to s t ≡ true → rank s < rank t
unfolding can_transition_to
rank-lt s t h = ground arith

rank-le-Reach : {s t : TaskStatus} → Reach s t → rank s ≤ rank t
rank-le-Reach here = omega arith
rank-le-Reach (step {s} {t} h r) = omega (arith, rank-lt s t h, rank-le-Reach r)

-- Where two statuses reach each other, they are one: the worker's transitions never lead a task
-- back.
pub Reach-antisym : {s t : TaskStatus} → Reach s t → Reach t s → s ≡ t
Reach-antisym here q = refl
Reach-antisym (step {s} {t} h r) q =
    absurd (omega (arith, rank-lt s t h, rank-le-Reach r, rank-le-Reach q))
