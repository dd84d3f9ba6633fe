-- ===== src/Domain/Follow.antt =====
-- Follow runs and their results (internal/domain/follow_flow.go, follow_result.go).
pub mod Finalization
use follower_bmad.Base.{
  ℕ, ℤ, is_negative, is_not_positive, Bool, true, false, not, ◌&&◌, List, Option, none, some,
}
use follower_bmad.Text.{Text, codes, is_empty, is_blank}
use follower_bmad.Errors.Code.{
  ErrorCode, DomainError, code_text, is_blank_code, invalid_task_identifier,
  invalid_account_identifier, invalid_task_transition, invalid_execution_context,
  follow_verify_failed, follow_result_persist_failed, session_payload_missing,
}
use follower_bmad.Domain.Ids.{Uuid, Time, Bytes, is_nil, reject, validate_target_profile}
use follower_bmad.Domain.Task.{or_next}
use follower_bmad.Domain.Session.{SessionMetadata}

-- FollowFlowOutcome; `other_outcome` is a text that is none of the constants, the empty one
-- included.
pub data FollowOutcome : Type 0 where
  completed already_done action_unavailable target_unreachable navigation_failed : FollowOutcome
  other_outcome : Text → FollowOutcome

-- string(outcome)
unfoldable pub outcome_text : FollowOutcome → Text
outcome_text completed = codes "follow_completed"
outcome_text already_done = codes "follow_already_done"
outcome_text action_unavailable = codes "follow_action_unavailable"
outcome_text target_unreachable = codes "follow_target_unreachable"
outcome_text navigation_failed = codes "follow_navigation_failed"
outcome_text (other_outcome t) = t

-- FollowFlowOutcome.IsValid
unfoldable pub is_valid_outcome : FollowOutcome → Bool
is_valid_outcome (other_outcome t) = false
is_valid_outcome _ = true

-- FollowVerificationSignal
pub data VerificationSignal : Type 0 where
  signal_confirmed signal_already_done signal_action_unavailable : VerificationSignal
  signal_target_unreachable signal_navigation_failed signal_verify_failed : VerificationSignal
  other_signal : Text → VerificationSignal

-- FollowVerificationSignal.IsValid
unfoldable pub is_valid_signal : VerificationSignal → Bool
is_valid_signal (other_signal t) = false
is_valid_signal _ = true

pub record FollowFlowInput : Type 0 where
  pub task_id : Uuid
  pub account_id : Uuid
  pub attempt : ℤ
  pub execution_context_id : Text
  pub session_metadata : SessionMetadata
  pub session_payload : Bytes
  pub target_profile : Text

-- FollowFlowInput.Validate
unfoldable pub validate_flow_input : FollowFlowInput → Option DomainError
unfolding validate_target_profile
validate_flow_input i =
    reject (is_nil i.task_id) invalid_task_identifier "follow flow input task id must not be empty"
      (reject (is_nil i.account_id) invalid_account_identifier
        "follow flow input account id must not be empty"
        (reject (is_blank i.execution_context_id) invalid_execution_context
          "follow flow input execution context id must not be empty"
          (reject (is_not_positive i.attempt) invalid_task_transition
            "follow flow input attempt must be > 0, got %d"
            (reject (is_empty i.session_payload) session_payload_missing
              "follow flow input session payload must not be empty"
              (validate_target_profile i.target_profile)))))

pub record FollowFlowDiagnostics : Type 0 where
  pub engine : Text
  pub warmup_completed : Bool
  pub warmup_duration_ms : ℤ
  pub execution_duration_ms : ℤ

pub record VerificationInput : Type 0 where
  pub task_id : Uuid
  pub account_id : Uuid
  pub attempt : ℤ
  pub execution_context_id : Text
  pub target_profile : Text
  pub outcome : FollowOutcome
  pub session_payload : Bytes

-- FollowVerificationInput.Validate
unfoldable pub validate_verification_input : VerificationInput → Option DomainError
unfolding validate_target_profile is_valid_outcome
validate_verification_input i =
    reject (is_nil i.task_id) invalid_task_identifier
      "follow verification input task id must not be empty"
      (reject (is_nil i.account_id) invalid_account_identifier
        "follow verification input account id must not be empty"
        (reject (is_not_positive i.attempt) invalid_task_transition
          "follow verification input attempt must be > 0, got %d"
          (reject (is_blank i.execution_context_id) invalid_execution_context
            "follow verification input execution context id must not be empty"
            (or_next (validate_target_profile i.target_profile) (
              reject (not (is_valid_outcome i.outcome)) follow_verify_failed
                "follow verification input outcome is invalid: %s" none)))))

pub record VerificationResult : Type 0 where
  pub verified : Bool
  pub signal : VerificationSignal
  pub reason : Text
  pub error_code : ErrorCode
  pub session_changed : Bool
  pub screenshot_payload : Bytes
  pub session_payload : Bytes

-- FollowVerificationResult.Validate
unfoldable pub validate_verification : VerificationResult → Option DomainError
unfolding is_valid_signal code_text
validate_verification r =
    reject (not (is_valid_signal r.signal)) follow_verify_failed
      "follow verification signal is invalid: %s"
      (reject (is_empty r.screenshot_payload) follow_verify_failed
        "follow verification screenshot payload must not be empty"
        (reject (not r.verified && is_blank_code r.error_code) follow_verify_failed
          "unverified follow result requires machine-readable error code"
          (reject (r.verified && not (is_empty (code_text r.error_code))) follow_verify_failed
            "verified follow result must not contain error code"
            (reject (r.session_changed && is_empty r.session_payload) session_payload_missing
              "follow verification marked session as changed but session payload is empty" none))))

pub record FollowResult : Type 0 where
  pub task_id : Uuid
  pub account_id : Uuid
  pub target_profile : Text
  pub attempt : ℤ
  pub outcome : FollowOutcome
  pub verified : Bool
  pub verification_signal : VerificationSignal
  pub verification_reason : Text
  pub error_code : ErrorCode
  pub screenshot_object_key : Text
  pub artifact_object_keys : List Text
  pub session_revision : ℤ
  pub created_at : Time
  pub updated_at : Time

abbrev pub is_empty_list {ℓ} : {A : Type ℓ} → List A → Bool
is_empty_list List.[] = true
is_empty_list (List.◌∷◌ _ _) = false

-- FollowResult.Validate
unfoldable pub validate_result : FollowResult → Option DomainError
unfolding validate_target_profile is_valid_outcome is_valid_signal
validate_result r =
    reject (is_nil r.task_id) invalid_task_identifier "follow result task id must not be empty" (
      reject (is_nil r.account_id) invalid_account_identifier
        "follow result account id must not be empty"
        (or_next (validate_target_profile r.target_profile) (
          reject (is_not_positive r.attempt) invalid_task_transition
            "follow result attempt must be > 0, got %d"
            (reject (not (is_valid_outcome r.outcome)) follow_result_persist_failed
              "follow result outcome is invalid: %s"
              (reject (not (is_valid_signal r.verification_signal)) follow_result_persist_failed
                "follow verification signal is invalid: %s"
                (reject (is_blank r.screenshot_object_key) follow_result_persist_failed
                  "follow result screenshot object key must not be empty"
                  (reject (is_empty_list r.artifact_object_keys) follow_result_persist_failed
                    "follow result must contain at least one artifact object key"
                    (reject (r.verified && not (is_blank_code r.error_code))
                      follow_result_persist_failed
                      "verified follow result must not contain error code"
                      (reject (not r.verified && is_blank_code r.error_code)
                        follow_result_persist_failed
                        "unverified follow result requires machine-readable error code"
                        (reject (is_negative r.session_revision) follow_result_persist_failed
                          "session revision must be >= 0, got %d" none))))))))))
