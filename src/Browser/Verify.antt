-- ===== src/Browser/Verify.antt =====
-- The verification of a follow (internal/browser/verify_flow.go). `cancelled` is ctx.Err(); the
-- adapter, which drives a browser, is a function of the input.
pub mod Judgement
use follower_bmad.Base.{
  Bool, true, false, not, ◌&&◌, Option, none, some, [], ◌∷◌, ◌++◌, String, if◌then◌else◌,
}
use follower_bmad.Text.{Text, text, codes, is_empty, trim_space}
use follower_bmad.Errors.Code.{
  ErrorCode, DomainError, new_domain_error, follow_verify_failed, follow_target_profile_required,
  session_payload_invalid, auth_bootstrap_required, follow_action_unavailable,
  follow_target_unreachable, follow_navigation_failed, invalid_operational_state,
}
use follower_bmad.Errors.Value.{GoError, domain_error, as_domain_error, is_context_error}
use follower_bmad.Errors.Result.{Result, ok, err, unless_error}
use follower_bmad.Domain.Ids.{Bytes, no_code}
use follower_bmad.Domain.Follow.{
  FollowOutcome, completed, already_done, action_unavailable, target_unreachable, navigation_failed,
  other_outcome, outcome_text, VerificationSignal, signal_confirmed, signal_already_done,
  signal_action_unavailable, signal_target_unreachable, signal_navigation_failed,
  signal_verify_failed, VerificationInput, VerificationResult, validate_verification_input,
  validate_verification,
}

-- playwrightVerifyState; `other_state` is a text that is none of the constants.
pub data VerifyState : Type 0 where
  state_confirmed state_action_unavailable state_target_unreachable state_auth_required :
      VerifyState
  state_unknown : VerifyState
  other_state : Text → VerifyState

-- playwrightVerifyDetection
pub record Detection : Type 0 where
  pub state : VerifyState
  pub screenshot_payload : Bytes
  pub reason : Text

-- ensureVerifyScreenshotPayload
unfoldable pub ensure_screenshot : Bytes → FollowOutcome → Bytes
ensure_screenshot [] o = codes "verify-screenshot:" ++ outcome_text o
ensure_screenshot (b ∷ bs) o = b ∷ bs

abbrev or_undetermined : Text → Text
or_undetermined [] = codes "verify UI could not determine a supported follow state"
or_undetermined (c ∷ t) = c ∷ t

-- normalizeVerifyReason
unfoldable pub normalize_verify_reason : Text → Text
normalize_verify_reason reason = or_undetermined (trim_space reason)

-- A result that is not verified and leaves the session as it is.
abbrev unverified : VerificationSignal → ErrorCode → Text → Bytes → VerificationResult
unverified sig code why shot = record {
  verified = false;
  signal = sig;
  reason = why;
  error_code = code;
  session_changed = false;
  screenshot_payload = shot;
  session_payload = [];
}

-- verifyAuthRequiredResult
abbrev pub verify_auth_required : Text → Bytes → VerificationResult
verify_auth_required = unverified signal_verify_failed auth_bootstrap_required

-- verifyFailedResult
abbrev pub verify_failed : Text → Bytes → VerificationResult
verify_failed = unverified signal_verify_failed follow_verify_failed

-- The result of a follow that is done; a completed one has a session to keep.
abbrev verified_as : VerificationSignal → Bool → Bytes → Text → Bytes → VerificationResult
verified_as sig changed payload why shot = record {
  verified = true;
  signal = sig;
  reason = why;
  error_code = no_code;
  session_changed = changed;
  screenshot_payload = shot;
  session_payload = payload;
}

-- if detection.State == playwrightVerifyStateFollowConfirmed { … }
abbrev if_confirmed : VerifyState → VerificationResult → VerificationResult → VerificationResult
if_confirmed state_confirmed confirmed other = confirmed
if_confirmed _ confirmed other = other

-- The default branch: what the page showed decides.
abbrev pub undecided : VerifyState → Text → Bytes → VerificationResult
undecided state_target_unreachable why shot =
    unverified signal_target_unreachable follow_target_unreachable why shot
undecided state_action_unavailable why shot =
    unverified signal_action_unavailable follow_action_unavailable why shot
undecided _ why shot = verify_failed why shot

-- switch input.Outcome { … }
abbrev pub by_outcome : FollowOutcome → VerifyState → Bytes → Text → Bytes → VerificationResult
by_outcome completed state payload why shot =
    if_confirmed state (verified_as signal_confirmed true payload why shot) (verify_failed why shot)
by_outcome already_done state payload why shot =
    if_confirmed state (verified_as signal_already_done false [] why shot) (verify_failed why shot)
by_outcome action_unavailable state payload why shot =
    unverified signal_action_unavailable follow_action_unavailable why shot
by_outcome target_unreachable state payload why shot =
    unverified signal_target_unreachable follow_target_unreachable why shot
by_outcome navigation_failed state payload why shot = undecided state why shot
by_outcome (other_outcome t) state payload why shot = undecided state why shot

abbrev pub by_state : VerifyState → FollowOutcome → Bytes → Text → Bytes → VerificationResult
by_state state_auth_required o payload why shot = verify_auth_required why shot
by_state state o payload why shot = by_outcome o state payload why shot

-- mapPlaywrightVerificationResult. clonePayload keeps the bytes, nil being the empty list.
unfoldable pub map_playwright_verification : VerificationInput → Detection → VerificationResult
map_playwright_verification i d =
    by_state d.state i.outcome i.session_payload (normalize_verify_reason d.reason)
      d.screenshot_payload

abbrev verify_error : String → GoError
verify_error message = domain_error (new_domain_error follow_verify_failed (text message))

-- The codes that normalizePlaywrightVerifyError lets through.
abbrev pub is_verify_code : ErrorCode → Bool
is_verify_code follow_verify_failed = true
is_verify_code follow_target_profile_required = true
is_verify_code session_payload_invalid = true
is_verify_code auth_bootstrap_required = true
is_verify_code _ = false

abbrev kept_verify_error : Option DomainError → GoError
kept_verify_error none = verify_error "playwright verify runtime failure"
kept_verify_error (some d) =
    if is_verify_code d.code
    then domain_error d
    else verify_error "playwright verify runtime failure"

-- normalizePlaywrightVerifyError
unfoldable pub normalize_verify_error : GoError → GoError
normalize_verify_error e =
    if is_context_error e
    then verify_error "playwright verify was interrupted by context cancellation/timeout"
    else kept_verify_error (as_domain_error e)

-- if err := result.Validate(); err != nil { return …, err }
abbrev pub checked : VerificationResult → Result VerificationResult
checked r = unless_error (validate_verification r) (ok r)

-- if err := ctx.Err(); err != nil { … }; if err := input.Validate(); err != nil { … }
abbrev pub admitted :
    Option GoError → VerificationInput → Result VerificationResult → Result VerificationResult
admitted (some e) i answer = err e
admitted none i answer = unless_error (validate_verification_input i) answer

abbrev pub after_inspect : VerificationInput → Result Detection → Result VerificationResult
after_inspect i (err e) = err (normalize_verify_error e)
after_inspect i (ok d) = checked (
    map_playwright_verification i
      (record d { screenshot_payload = ensure_screenshot d.screenshot_payload i.outcome }))

abbrev pub with_adapter :
    Option (VerificationInput → Result Detection) → VerificationInput → Result VerificationResult
with_adapter none i = err (verify_error "playwright verify adapter is not configured")
with_adapter (some inspect) i = after_inspect i (inspect i)

-- PlaywrightVerifyFlowRunner.VerifyFollowResult
unfoldable pub playwright_verify :
    Option GoError
    → Option (VerificationInput → Result Detection)
    → VerificationInput
    → Result VerificationResult
playwright_verify cancelled adapter i = admitted cancelled i (with_adapter adapter i)

-- defaultVerificationResult
unfoldable pub default_verification : FollowOutcome → Bytes → VerificationResult
default_verification completed payload =
    verified_as signal_confirmed true payload (codes "target profile reflects follow success")
      (codes "verify-screenshot:completed")
default_verification already_done payload =
    verified_as signal_already_done false [] (codes "target profile already in followed state")
      (codes "verify-screenshot:already-done")
default_verification action_unavailable payload =
    unverified signal_action_unavailable follow_action_unavailable
      (codes "follow action is unavailable for target profile")
      (codes "verify-screenshot:action-unavailable")
default_verification target_unreachable payload =
    unverified signal_target_unreachable follow_target_unreachable
      (codes "target profile is unreachable") (codes "verify-screenshot:target-unreachable")
default_verification _ payload =
    unverified signal_navigation_failed follow_navigation_failed
      (codes "follow verification failed due to navigation/runtime error")
      (codes "verify-screenshot:navigation-failed")

abbrev or_filled : Bytes → Bytes → Bytes
or_filled [] filling = filling
or_filled (b ∷ bs) filling = b ∷ bs

-- The override with what it leaves out: a screenshot, and a changed session's payload.
unfoldable pub completed_override :
    Text → VerificationInput → VerificationResult → VerificationResult
completed_override task_text i r = record r {
  screenshot_payload = or_filled r.screenshot_payload (codes "verify-screenshot:" ++ task_text);
  session_payload =
      if r.session_changed && is_empty r.session_payload
      then i.session_payload
      else r.session_payload;
}

abbrev overridden : Text → VerificationInput → Option VerificationResult → VerificationResult
overridden task_text i none = default_verification i.outcome i.session_payload
overridden task_text i (some r) = completed_override task_text i r

-- runVerifyFlow, the mock runner's VerifyFollowResult. `task_text` is input.TaskID.String().
unfoldable pub run_verify_flow :
    Option GoError
    → (FollowOutcome → Option VerificationResult)
    → Text
    → VerificationInput
    → Result VerificationResult
run_verify_flow cancelled overrides task_text i =
    admitted cancelled i (checked (overridden task_text i (overrides i.outcome)))
