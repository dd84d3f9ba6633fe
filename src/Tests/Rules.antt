-- ===== src/Tests/Rules.antt =====
-- The rules of packages domain and stackerr at concrete values.
use follower_bmad.Base.{◌≡◌, refl, false, some, [], ◌∷◌}
use follower_bmad.Text.{text, codes}
use follower_bmad.Errors.Code.{new_domain_error, account_busy}
use follower_bmad.Errors.Value.{GoError, Frame, domain_error, caused}
use follower_bmad.Errors.Stack.{capture_stack, default_max_stack_depth, stack_of, with_stack}
use follower_bmad.Domain.Status.{queued, retry, can_transition_to}
use follower_bmad.Domain.Admin.Laws.{retry_retried, Admin-not_worker}

Admin-not_worker_example : can_transition_to retry queued ≡ false
Admin-not_worker_example = Admin-not_worker retry_retried

abbrev busy_error : GoError
busy_error = domain_error (new_domain_error account_busy (text "busy"))

abbrev caller : Frame
caller = record { function = codes "main.run"; file = codes "main.go"; line = 10 }

abbrev inner_caller : Frame
inner_caller = record { function = codes "runtime.main"; file = codes "proc.go"; line = 1 }

abbrev traced : GoError
traced = caused [] busy_error (capture_stack default_max_stack_depth (caller ∷ []))

traced_error : with_stack (some busy_error) (caller ∷ []) ≡ some traced
unfolding with_stack stack_of
traced_error = refl
