-- ===== src/Tests/Worker.antt =====
-- Runs of the claim loop and of its classifications.
use follower_bmad.Base.{◌≡◌, ◌↔◌, refl, true, false, Option, none, some, [], ◌∷◌}
use follower_bmad.Text.{text, codes}
use follower_bmad.Errors.Code.{new_domain_error, account_limit_reached, follow_verify_failed}
use follower_bmad.Errors.Value.{GoError, domain_error, lifecycle_error_code, as_domain_error}
use follower_bmad.Errors.Result.{err}
use follower_bmad.Domain.Ids.{no_code}
use follower_bmad.Domain.Status.{success}
use follower_bmad.Domain.Follow.{
  VerificationResult, completed, navigation_failed, signal_confirmed, signal_verify_failed,
}
use follower_bmad.Worker.Policy.{classify_completion, is_success_outcome, save_session_payload}
use follower_bmad.Worker.Policy.Laws.{
  IsAccepted, IsSaveFailure, classify_completion-IsAccepted, classify_completion-success_iff,
  save_session_payload-IsSaveFailure,
}
use follower_bmad.Worker.Loop.{ClaimLoop, extended_metrics}
use follower_bmad.Worker.Claimed.{execute_claimed_task}
use follower_bmad.Worker.Claimed.Protocol.{Obeys, begun}
use follower_bmad.Worker.Claimed.Protocol.Order.{execute_claimed_task-Obeys}
use follower_bmad.Tests.{worker_one, sample_task}

abbrev pub sample_loop : ClaimLoop
sample_loop = record {
  has_health = true;
  has_execution = true;
  metrics = extended_metrics;
  worker_id = worker_one;
}

execute_claimed_task-Obeys_example :
    Obeys worker_one sample_task begun (execute_claimed_task sample_loop sample_task)
execute_claimed_task-Obeys_example = execute_claimed_task-Obeys sample_loop sample_task

abbrev pub confirmed : VerificationResult
confirmed = record {
  verified = true;
  signal = signal_confirmed;
  reason = codes "seen";
  error_code = no_code;
  session_changed = false;
  screenshot_payload = 137 ∷ [];
  session_payload = [];
}

abbrev unconfirmed : VerificationResult
unconfirmed = record confirmed {
  verified = false;
  signal = signal_verify_failed;
  error_code = follow_verify_failed;
}

classify_completion-IsAccepted_example :
    IsAccepted (classify_completion navigation_failed none unconfirmed none)
classify_completion-IsAccepted_example =
    classify_completion-IsAccepted navigation_failed none unconfirmed none

abbrev no_error : Option GoError
no_error = none

classify_completion-success_iff_example :
    ((classify_completion completed none confirmed none).status ≡ success)
    ↔ (no_error ≡ none)
      × (confirmed.verified ≡ true)
      × (no_error ≡ none)
      × (is_success_outcome completed ≡ true)
classify_completion-success_iff_example =
    classify_completion-success_iff completed none confirmed none

abbrev limit_error : GoError
limit_error = domain_error (new_domain_error account_limit_reached (text "limit"))

save_session_payload-IsSaveFailure_example :
    IsSaveFailure (lifecycle_error_code limit_error) (save_session_payload (some (err limit_error)))
save_session_payload-IsSaveFailure_example =
    save_session_payload-IsSaveFailure limit_error
      (unfold lifecycle_error_code as_domain_error in refl)
