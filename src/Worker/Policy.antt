-- ===== src/Worker/Policy.antt =====
-- The classification of errors and outcomes (internal/worker/lifecycle_policy.go, claim_loop.go),
-- and the error of a failed session save (execution_service.go).
pub mod Laws
use follower_bmad.Base.{
  ℕ, ◌+◌, Bool, true, false, not, ◌&&◌, ◌||◌, Option, none, some, List, [], ◌∷◌, ◌++◌,
  if◌then◌else◌, take, drop,
}
use follower_bmad.Text.{
  Text, text, codes, text_eq, is_empty, is_blank, trim_space, index, index_any,
}
use follower_bmad.Errors.Code.{
  ErrorCode, DomainError, new_domain_error, code_text, code_of_text, is_blank_code, internal_error,
  follow_action_unavailable, follow_target_unreachable, follow_target_profile_required,
  follow_navigation_failed, session_ownership_mismatch, session_payload_invalid,
  session_payload_corrupted, account_context_mismatch, account_not_found, account_inactive,
  account_quarantined, account_restricted, account_missing_proxy, account_proxy_inactive,
  account_limit_reached, auth_invalid_credentials, auth_challenge_blocked, auth_bootstrap_disabled,
  auth_bootstrap_required, session_save_failed,
}
use follower_bmad.Errors.Value.{GoError, domain_error, as_domain_error, lifecycle_error_code}
use follower_bmad.Errors.Result.{Result, ok, err}
use follower_bmad.Domain.Ids.{Bytes, no_code}
use follower_bmad.Domain.Status.{TaskStatus, success, retry, fail, status_text}
use follower_bmad.Domain.Follow.{
  outcome_text, FollowOutcome, completed, already_done, action_unavailable, target_unreachable,
  navigation_failed, other_outcome, is_valid_outcome, VerificationSignal, signal_confirmed,
  signal_already_done, signal_action_unavailable, signal_target_unreachable,
  signal_navigation_failed, signal_verify_failed, other_signal, VerificationResult,
}

-- deterministicTerminalErrorCodes
unfoldable pub is_terminal_code : ErrorCode → Bool
is_terminal_code follow_action_unavailable = true
is_terminal_code follow_target_unreachable = true
is_terminal_code follow_target_profile_required = true
is_terminal_code session_ownership_mismatch = true
is_terminal_code session_payload_invalid = true
is_terminal_code session_payload_corrupted = true
is_terminal_code account_context_mismatch = true
is_terminal_code account_not_found = true
is_terminal_code account_inactive = true
is_terminal_code account_quarantined = true
is_terminal_code account_restricted = true
is_terminal_code account_missing_proxy = true
is_terminal_code account_proxy_inactive = true
is_terminal_code account_limit_reached = true
is_terminal_code auth_invalid_credentials = true
is_terminal_code auth_challenge_blocked = true
is_terminal_code auth_bootstrap_disabled = true
is_terminal_code _ = false

-- deterministicStatusForErrorCode, which finalStatusForErrorCode is
unfoldable pub deterministic_status : ErrorCode → TaskStatus
unfolding is_terminal_code
deterministic_status code = if is_terminal_code code then fail else retry

-- deterministicStatusForSessionSaveSource, which finalStatusForSessionSaveSource is
unfoldable pub deterministic_save_status : ErrorCode → TaskStatus
unfolding code_text
deterministic_save_status source =
    if is_empty (code_text source) then retry else deterministic_status source

-- What the worker completes a task with.
pub record Completion : Type 0 where
  pub status : TaskStatus
  pub error_code : ErrorCode
  pub reason : Text

abbrev pub completion : TaskStatus → ErrorCode → Text → Completion
completion s c r = record { status = s; error_code = c; reason = r }

-- "(status=%s, error_code=%s" without its end
abbrev pub reason_with : Text → TaskStatus → ErrorCode → Text
reason_with prefix status code =
    prefix
    ++ (codes " (status=" ++ (status_text status ++ (codes ", error_code=" ++ code_text code)))

-- classifyLifecyclePreparationFailure
unfoldable pub classify_preparation_failure : GoError → Completion
classify_preparation_failure e =
    let code = lifecycle_error_code e in
    let status = deterministic_status code in
    completion status code
      (reason_with (codes "execution context preparation failed") status code ++ codes ")")

-- string(signal)
unfoldable pub signal_text : VerificationSignal → Text
signal_text signal_confirmed = codes "follow_confirmed"
signal_text signal_already_done = codes "follow_already_done"
signal_text signal_action_unavailable = codes "follow_action_unavailable"
signal_text signal_target_unreachable = codes "follow_target_unreachable"
signal_text signal_navigation_failed = codes "follow_navigation_failed"
signal_text signal_verify_failed = codes "follow_verify_failed"
signal_text (other_signal t) = t

-- followOutcomeIsSuccess
abbrev pub is_success_outcome : FollowOutcome → Bool
is_success_outcome completed = true
is_success_outcome already_done = true
is_success_outcome _ = false

-- followOutcomeErrorCode
unfoldable pub outcome_error_code : FollowOutcome → ErrorCode
outcome_error_code action_unavailable = follow_action_unavailable
outcome_error_code target_unreachable = follow_target_unreachable
outcome_error_code navigation_failed = follow_navigation_failed
outcome_error_code _ = internal_error

-- The reason of an outcome that is no success.
abbrev pub outcome_completion : Text → TaskStatus → ErrorCode → FollowOutcome → Completion
outcome_completion prefix status code outcome =
    completion status code (
      reason_with prefix status code ++ (codes ", outcome=" ++ (outcome_text outcome ++ codes ")")))

abbrev pub returned : Text
returned = codes "follow flow returned outcome"

-- The switch of classifyFollowCompletionResult.
unfoldable pub classify_outcome : FollowOutcome → Completion
classify_outcome completed = completion success no_code []
classify_outcome already_done = completion success no_code []
classify_outcome action_unavailable =
    outcome_completion returned fail follow_action_unavailable action_unavailable
classify_outcome target_unreachable =
    outcome_completion returned fail follow_target_unreachable target_unreachable
classify_outcome navigation_failed =
    outcome_completion returned retry follow_navigation_failed navigation_failed
classify_outcome outcome =
    outcome_completion (codes "follow flow returned unsupported outcome") retry internal_error
      outcome

abbrev pub failed_stage : Text → GoError → Completion
failed_stage prefix e =
    let code = lifecycle_error_code e in
    let status = deterministic_status code in
    completion status code (reason_with prefix status code ++ codes ")")

abbrev pub unverified_code : FollowOutcome → ErrorCode → ErrorCode
unverified_code outcome code = if is_blank_code code then outcome_error_code outcome else code

abbrev pub unverified_completion : VerificationResult → ErrorCode → Completion
unverified_completion verification code =
    let status = deterministic_status code in
    completion status code (
      reason_with (codes "follow verification returned unverified outcome") status code
      ++ (codes ", signal=" ++ (signal_text verification.signal ++ codes ")")))

-- classifyFollowCompletionResult
unfoldable pub classify_completion :
    FollowOutcome → Option GoError → VerificationResult → Option GoError → Completion
unfolding classify_outcome
classify_completion outcome follow_error verification (some e) =
    failed_stage (codes "follow verification failed") e
classify_completion outcome follow_error verification none =
    if not verification.verified
    then unverified_completion verification (unverified_code outcome verification.error_code)
    else elim follow_error [
      | some e ↦ failed_stage (codes "follow flow execution failed") e
      | none ↦ classify_outcome outcome
    ]

abbrev pub source_marker : Text
source_marker = codes "source_error_code="

-- value[:stop]
abbrev pub before_stop : Text → Text
before_stop value = elim (index_any value (codes "), \t\n\r")) [
  | none ↦ value
  | some stop ↦ take stop value
]

-- sessionSaveSourceErrorCode on the message
unfoldable pub source_of_message : Text → ErrorCode
source_of_message m =
    let message = trim_space m in
    elim (index message source_marker) [
      | none ↦ no_code
      | some i ↦
          let value = trim_space (drop (i + 18) message) in
          if is_empty value then no_code else code_of_text (trim_space (before_stop value))
    ]

-- sessionSaveSourceErrorCode
unfoldable pub session_save_source : GoError → ErrorCode
session_save_source e = elim (as_domain_error e) [
  | none ↦ no_code
  | some d ↦ elim d.code [ session_save_failed ↦ source_of_message d.message | _ ↦ no_code ]
]

abbrev pub finalization_status : ErrorCode → ErrorCode → TaskStatus
finalization_status session_save_failed source = deterministic_save_status source
finalization_status code source = deterministic_status code

-- classifyFinalizationError
unfoldable pub classify_finalization_error : GoError → Completion
classify_finalization_error e =
    let code = lifecycle_error_code e in
    let source = session_save_source e in
    let status = finalization_status code source in
    let reason = reason_with (codes "follow execution finalization failed") status code in
    completion status code (
      if not (is_blank_code source)
      then reason ++ (codes ", source_error_code=" ++ (code_text source ++ codes ")"))
      else reason ++ codes ")")

-- newSessionSaveFailedError
unfoldable pub new_session_save_failed_error : Text → ErrorCode → DomainError
new_session_save_failed_error message source =
    let code = if is_blank_code source then internal_error else source in
    new_domain_error session_save_failed
      (trim_space message ++ (codes " (source_error_code=" ++ (code_text code ++ codes ")")))

-- The answer of saveSessionPayload to what the session saver returns; `none` is a missing saver.
unfoldable pub save_session_payload {ℓ} : {A : Type ℓ} → Option (Result A) → Result A
save_session_payload none = err (
    domain_error
      (new_session_save_failed_error (text "session saver is not configured") internal_error))
save_session_payload (some (ok metadata)) = ok metadata
save_session_payload (some (err e)) = err (
    domain_error (
      new_session_save_failed_error (text "session payload persistence failed")
        (lifecycle_error_code e)))
