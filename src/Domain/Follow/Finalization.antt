-- ===== src/Domain/Follow/Finalization.antt =====
-- FollowExecutionFinalizationInput and its validation (internal/domain/follow_result.go).
use follower_bmad.Base.{ℤ, is_negative, is_not_positive, not, ◌&&◌, Option, none}
use follower_bmad.Text.{Text, is_empty}
use follower_bmad.Errors.Code.{
  DomainError, invalid_task_identifier, invalid_account_identifier, invalid_task_transition,
  invalid_session_revision, follow_verify_failed, session_payload_missing,
}
use follower_bmad.Domain.Ids.{Uuid, Bytes, is_nil, reject, validate_target_profile}
use follower_bmad.Domain.Task.{or_next}
use follower_bmad.Domain.Follow.{
  FollowOutcome, FollowFlowDiagnostics, VerificationResult, is_valid_outcome, validate_verification,
}

pub record FinalizationInput : Type 0 where
  pub task_id : Uuid
  pub account_id : Uuid
  pub account_login : Text
  pub target_profile : Text
  pub attempt : ℤ
  pub session_revision : ℤ
  pub follow_outcome : FollowOutcome
  pub follow_diagnostics : FollowFlowDiagnostics
  pub verification : VerificationResult
  pub session_payload : Bytes

-- FollowExecutionFinalizationInput.Validate
unfoldable pub validate_finalization : FinalizationInput → Option DomainError
unfolding validate_target_profile is_valid_outcome validate_verification
validate_finalization i =
    reject (is_nil i.task_id) invalid_task_identifier
      "follow finalization input task id must not be empty"
      (reject (is_nil i.account_id) invalid_account_identifier
        "follow finalization input account id must not be empty"
        (or_next (validate_target_profile i.target_profile) (
          reject (is_not_positive i.attempt) invalid_task_transition
            "follow finalization input attempt must be > 0, got %d"
            (reject (is_negative i.session_revision) invalid_session_revision
              "follow finalization input session revision must be >= 0, got %d"
              (reject (not (is_valid_outcome i.follow_outcome)) follow_verify_failed
                "follow finalization input outcome is invalid: %s"
                (or_next (validate_verification i.verification) (
                  reject (i.verification.session_changed && is_empty i.session_payload)
                    session_payload_missing
                    "follow finalization input requires session payload when session_changed=true"
                    none)))))))
