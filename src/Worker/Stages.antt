-- ===== src/Worker/Stages.antt =====
-- What the claim loop reads off the answers of the follow and verify stages
-- (internal/worker/claim_loop.go).
use follower_bmad.Base.{Bool, true, false, not, ◌&&◌, Option, none, some, [], ◌++◌, if◌then◌else◌}
use follower_bmad.Text.{codes}
use follower_bmad.Errors.Code.{
  ErrorCode, code_text, follow_action_unavailable, follow_target_unreachable,
  auth_bootstrap_required,
}
use follower_bmad.Errors.Value.{GoError, lifecycle_error_code}
use follower_bmad.Domain.Ids.{Bytes}
use follower_bmad.Domain.Follow.{
  FollowOutcome, action_unavailable, target_unreachable, navigation_failed, is_valid_outcome,
  signal_verify_failed, VerificationResult,
}

-- normalizeFollowOutcome
unfoldable pub normalize_outcome : FollowOutcome → Option GoError → FollowOutcome
unfolding is_valid_outcome
normalize_outcome outcome e = if is_valid_outcome outcome then outcome else elim e [
  | none ↦ navigation_failed
  | some e ↦ elim (lifecycle_error_code e) [
    | follow_action_unavailable ↦ action_unavailable
    | follow_target_unreachable ↦ target_unreachable
    | _ ↦ navigation_failed
  ]
]

-- verificationFromError
unfoldable pub verification_from_error : GoError → VerificationResult
verification_from_error e = record {
  verified = false;
  signal = signal_verify_failed;
  reason = codes "follow verification error: " ++ code_text (lifecycle_error_code e);
  error_code = lifecycle_error_code e;
  session_changed = false;
  screenshot_payload = codes "verify-screenshot:error";
  session_payload = [];
}

-- sessionPayloadForFinalization
abbrev pub payload_for_finalization : VerificationResult → Bytes
payload_for_finalization v = if v.session_changed then v.session_payload else []

abbrev pub is_bootstrap_code : ErrorCode → Bool
is_bootstrap_code auth_bootstrap_required = true
is_bootstrap_code _ = false

-- followErrorRequiresBootstrap
abbrev pub requires_bootstrap : Option GoError → Bool
requires_bootstrap none = false
requires_bootstrap (some e) = is_bootstrap_code (lifecycle_error_code e)

-- verificationRequestsBootstrap
abbrev pub requests_bootstrap : VerificationResult → Option GoError → Bool
requests_bootstrap v (some e) = is_bootstrap_code (lifecycle_error_code e)
requests_bootstrap v none = not v.verified && is_bootstrap_code v.error_code
