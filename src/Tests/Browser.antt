-- ===== src/Tests/Browser.antt =====
-- The follow, verification and login flows with an adapter that answers.
use follower_bmad.Base.{◌≡◌, refl, pos, true, none, some, [], ◌∷◌}
use follower_bmad.Text.{
  has_prefix, index, index_any, Text, codes, is_blank, is_space, trim_space, trim_left, text_eq,
}
use follower_bmad.Errors.Value.{plain, is_context_error}
use follower_bmad.Errors.Result.{Result, ok}
use follower_bmad.Domain.Account.{env, normalize_credential_source}
use follower_bmad.Domain.Bootstrap.{
  AccountCredentials, LoginInput, login_success, is_valid_source, validate_login_input,
}
use follower_bmad.Domain.Follow.{
  FollowFlowInput, VerificationInput, completed, is_valid_outcome, validate_flow_input,
  validate_verification_input,
}
use follower_bmad.Domain.TargetProfile.{is_digit}
use follower_bmad.Browser.Verify.{Detection, state_confirmed, playwright_verify}
use follower_bmad.Browser.Verify.Judgement.{Judges, playwright_verify-Judges}
use follower_bmad.Browser.Rules.{is_resolved_profile_url}
use follower_bmad.Browser.Follow.{FollowAdapter, run_playwright_flow}
use follower_bmad.Browser.Follow.Outcome.{Follows, run_playwright_flow-Follows}
use follower_bmad.Browser.Login.{Execution, run_playwright_login, clone_screenshots}
use follower_bmad.Browser.Login.Outcome.{LogsIn, run_playwright_login-LogsIn}
use follower_bmad.Tests.{worker_one}
use follower_bmad.Tests.Services.{sample_metadata}

abbrev address : Text
address = codes "https://oskelly.ru/profile/12"

abbrev flow_input : FollowFlowInput
flow_input = record {
  task_id = 11;
  account_id = 1;
  attempt = pos 1;
  execution_context_id = worker_one;
  session_metadata = sample_metadata;
  session_payload = codes "{}";
  target_profile = address;
}

-- Every page follows.
abbrev follows : FollowAdapter
follows = record { warmup = λ i. none; run_follow_action = λ i. ok completed }

flow_input_valid : validate_flow_input flow_input ≡ none
unfolding validate_flow_input is_blank is_space trim_space trim_left
flow_input_valid = refl

-- The context ends after the warmup.
run_playwright_flow-Follows_example :
    Follows
      (λ t. t)
      (λ p. true)
      follows
      flow_input
      (run_playwright_flow
        (λ t. t)
        (λ p. true)
        none
        (some (plain (codes "context canceled")))
        follows
        (pos 3)
        (pos 4)
        flow_input)
unfolding is_context_error text_eq
run_playwright_flow-Follows_example =
    run_playwright_flow-Follows (λ t. t) (λ p. true) follows none
      (some (plain (codes "context canceled"))) (pos 3) (pos 4) flow_input tt refl flow_input_valid

resolves_profile :
    is_resolved_profile_url (λ t. t) (codes "https://oskelly.ru/profile/12?tab=1") ≡ true
unfolding is_resolved_profile_url trim_space trim_left is_space has_prefix index index_any is_digit
resolves_profile = refl

abbrev verify_input : VerificationInput
verify_input = record {
  task_id = 11;
  account_id = 1;
  attempt = pos 1;
  execution_context_id = worker_one;
  target_profile = address;
  outcome = completed;
  session_payload = [];
}

abbrev sees_follow : VerificationInput → Result Detection
sees_follow i =
    ok (record { state = state_confirmed; screenshot_payload = []; reason = codes "Following" })

verify_input_valid : validate_verification_input verify_input ≡ none
unfolding validate_verification_input is_valid_outcome is_blank is_space trim_space trim_left
verify_input_valid = refl

-- A confirmed follow whose session is empty is refused.
playwright_verify-Judges_example :
    Judges completed []
      (sees_follow verify_input)
      (playwright_verify none (some sees_follow) verify_input)
playwright_verify-Judges_example =
    playwright_verify-Judges sees_follow verify_input verify_input_valid

abbrev login_input : LoginInput
login_input = record {
  task_id = 11;
  account_id = 1;
  attempt = pos 1;
  execution_context_id = worker_one;
  credential_source = env;
  credential_ref = codes "ONE";
}

abbrev one : AccountCredentials
one = record { username = codes "one"; password = codes "secret" }

abbrev logs_in : AccountCredentials → Execution
logs_in c = record {
  outcome = login_success;
  payload = codes "{}";
  screenshots = (codes " auth-home ", 137 ∷ []) ∷ ([], 137 ∷ []) ∷ [];
  runtime_error = none;
}

login_input_valid : validate_login_input login_input ≡ none
unfolding validate_login_input is_valid_source normalize_credential_source is_blank is_space
    trim_space trim_left
login_input_valid = refl

run_playwright_login-LogsIn_example :
    LogsIn
      (λ p. true)
      (ok one)
      logs_in
      (run_playwright_login
        (λ p. true)
        none
        (some (λ source reference. ok one))
        (some logs_in)
        (pos 40)
        login_input)
run_playwright_login-LogsIn_example =
    run_playwright_login-LogsIn (λ p. true) logs_in (λ source reference. ok one) 40 login_input
      login_input_valid

keeps_one_screenshot :
    clone_screenshots (logs_in one).screenshots ≡ (codes "auth-home", 137 ∷ []) ∷ []
unfolding clone_screenshots is_space trim_space trim_left
keeps_one_screenshot = refl
