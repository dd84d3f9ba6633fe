-- ===== src/Errors/Code.antt =====
-- domain.ErrorCode and domain.DomainError (internal/domain/invariants.go).
use mathlib.Core.Bool.{false≢true}
use follower_bmad.Base.{◌≡◌, refl, Bool, true, false, List, [], ◌∷◌, if◌then◌else◌}
use follower_bmad.Text.{Text, codes, text_eq, is_blank, is_space}

-- The constants, and `unlisted` for every text that is none of them, the empty one included.
pub data ErrorCode : Type 0 where
  eligible internal_error account_not_found account_busy account_inactive account_not_ready :
      ErrorCode
  account_quarantined account_restricted account_missing_proxy account_proxy_inactive : ErrorCode
  account_limit_reached account_context_mismatch invalid_operational_state : ErrorCode
  invalid_execution_context invalid_account_identifier session_metadata_not_found : ErrorCode
  session_payload_missing session_payload_corrupted session_ownership_mismatch : ErrorCode
  session_payload_invalid invalid_session_status invalid_session_revision : ErrorCode
  invalid_session_object_key task_not_found task_not_running task_state_conflict : ErrorCode
  retry_not_allowed cancel_not_allowed task_claim_owner_mismatch task_queue_write_failed : ErrorCode
  invalid_task_identifier invalid_task_status invalid_task_transition invalid_task_claimed_by :
      ErrorCode
  task_completion_reason_required follow_target_profile_required follow_action_unavailable :
      ErrorCode
  follow_target_unreachable follow_navigation_failed follow_verify_failed : ErrorCode
  artifact_persist_failed follow_result_persist_failed follow_result_not_found : ErrorCode
  session_save_failed auth_bootstrap_required auth_bootstrap_failed auth_invalid_credentials :
      ErrorCode
  auth_challenge_blocked auth_bootstrap_disabled : ErrorCode
  unlisted : Text → ErrorCode

-- string(code)
unfoldable pub code_text : ErrorCode → Text
code_text eligible = codes "eligible"
code_text internal_error = codes "internal_error"
code_text account_not_found = codes "account_not_found"
code_text account_busy = codes "account_busy"
code_text account_inactive = codes "account_inactive"
code_text account_not_ready = codes "account_not_ready"
code_text account_quarantined = codes "account_quarantined"
code_text account_restricted = codes "account_restricted"
code_text account_missing_proxy = codes "account_missing_proxy"
code_text account_proxy_inactive = codes "account_proxy_inactive"
code_text account_limit_reached = codes "account_limit_reached"
code_text account_context_mismatch = codes "account_context_mismatch"
code_text invalid_operational_state = codes "invalid_operational_state"
code_text invalid_execution_context = codes "invalid_execution_context"
code_text invalid_account_identifier = codes "invalid_account_identifier"
code_text session_metadata_not_found = codes "session_metadata_not_found"
code_text session_payload_missing = codes "session_payload_missing"
code_text session_payload_corrupted = codes "session_payload_corrupted"
code_text session_ownership_mismatch = codes "session_ownership_mismatch"
code_text session_payload_invalid = codes "session_payload_invalid"
code_text invalid_session_status = codes "invalid_session_status"
code_text invalid_session_revision = codes "invalid_session_revision"
code_text invalid_session_object_key = codes "invalid_session_object_key"
code_text task_not_found = codes "task_not_found"
code_text task_not_running = codes "task_not_running"
code_text task_state_conflict = codes "task_state_conflict"
code_text retry_not_allowed = codes "retry_not_allowed"
code_text cancel_not_allowed = codes "cancel_not_allowed"
code_text task_claim_owner_mismatch = codes "task_claim_owner_mismatch"
code_text task_queue_write_failed = codes "task_queue_write_failed"
code_text invalid_task_identifier = codes "invalid_task_identifier"
code_text invalid_task_status = codes "invalid_task_status"
code_text invalid_task_transition = codes "invalid_task_transition"
code_text invalid_task_claimed_by = codes "invalid_task_claimed_by"
code_text task_completion_reason_required = codes "task_completion_reason_required"
code_text follow_target_profile_required = codes "follow_target_profile_required"
code_text follow_action_unavailable = codes "follow_action_unavailable"
code_text follow_target_unreachable = codes "follow_target_unreachable"
code_text follow_navigation_failed = codes "follow_navigation_failed"
code_text follow_verify_failed = codes "follow_verify_failed"
code_text artifact_persist_failed = codes "artifact_persist_failed"
code_text follow_result_persist_failed = codes "follow_result_persist_failed"
code_text follow_result_not_found = codes "follow_result_not_found"
code_text session_save_failed = codes "session_save_failed"
code_text auth_bootstrap_required = codes "auth_bootstrap_required"
code_text auth_bootstrap_failed = codes "auth_bootstrap_failed"
code_text auth_invalid_credentials = codes "auth_invalid_credentials"
code_text auth_challenge_blocked = codes "auth_challenge_blocked"
code_text auth_bootstrap_disabled = codes "auth_bootstrap_disabled"
code_text (unlisted t) = t

abbrev pub listed_codes : List ErrorCode
listed_codes =
    eligible ∷ internal_error ∷ account_not_found ∷ account_busy ∷ account_inactive
    ∷ account_not_ready ∷ account_quarantined ∷ account_restricted ∷ account_missing_proxy
    ∷ account_proxy_inactive ∷ account_limit_reached ∷ account_context_mismatch
    ∷ invalid_operational_state ∷ invalid_execution_context ∷ invalid_account_identifier
    ∷ session_metadata_not_found ∷ session_payload_missing ∷ session_payload_corrupted
    ∷ session_ownership_mismatch ∷ session_payload_invalid ∷ invalid_session_status
    ∷ invalid_session_revision ∷ invalid_session_object_key ∷ task_not_found ∷ task_not_running
    ∷ task_state_conflict ∷ retry_not_allowed ∷ cancel_not_allowed ∷ task_claim_owner_mismatch
    ∷ task_queue_write_failed ∷ invalid_task_identifier ∷ invalid_task_status
    ∷ invalid_task_transition ∷ invalid_task_claimed_by ∷ task_completion_reason_required
    ∷ follow_target_profile_required ∷ follow_action_unavailable ∷ follow_target_unreachable
    ∷ follow_navigation_failed ∷ follow_verify_failed ∷ artifact_persist_failed
    ∷ follow_result_persist_failed ∷ follow_result_not_found ∷ session_save_failed
    ∷ auth_bootstrap_required ∷ auth_bootstrap_failed ∷ auth_invalid_credentials
    ∷ auth_challenge_blocked ∷ auth_bootstrap_disabled ∷ []

find_code : Text → List ErrorCode → ErrorCode
find_code t [] = unlisted t
find_code t (c ∷ cs) = if text_eq t (code_text c) then c else find_code t cs

-- ErrorCode(text)
unfoldable pub code_of_text : Text → ErrorCode
unfolding find_code code_text text_eq
code_of_text t = find_code t listed_codes

-- A code in the form that ErrorCode(text) gives: `unlisted` holds no constant's text.
abbrev pub IsCanonical : ErrorCode → Type 0
IsCanonical c = code_of_text (code_text c) ≡ c

abbrev pub is_listed : ErrorCode → Bool
is_listed (unlisted _) = false
is_listed _ = true

-- strings.TrimSpace(string(code)) == ""
unfoldable pub is_blank_code : ErrorCode → Bool
is_blank_code (unlisted t) = is_blank t
is_blank_code _ = false

pub record DomainError : Type 0 where
  pub code : ErrorCode
  pub message : Text

-- NewDomainError. A formatted message keeps its format string, unless the code reads it back.
abbrev pub new_domain_error : ErrorCode → Text → DomainError
new_domain_error c m = record { code = c; message = m }

-- is_blank_code is TrimSpace on the code's text.
pub is_blank_code_lem : (c : ErrorCode) → is_blank_code c ≡ is_blank (code_text c)
unfolding is_blank_code is_blank is_space code_text
is_blank_code_lem (unlisted t) = refl
is_blank_code_lem _ = refl

-- Each constant is read back from its text.
pub listed-IsCanonical : (c : ErrorCode) → is_listed c ≡ true → IsCanonical c
unfolding code_of_text
listed-IsCanonical (unlisted t) h = absurd (false≢true h)
listed-IsCanonical _ h = refl
