-- ===== src/Domain/Bootstrap.antt =====
-- The login that bootstraps a session (internal/domain/bootstrap_login.go). `json_valid` is
-- encoding/json's Valid.
use follower_bmad.Base.{
  ℤ, is_negative, is_not_positive, ◌≡◌, ◌≢◌, ◌↔◌, refl, Bool, true, false, not, Option, none, arith,
  List,
}
use follower_bmad.Text.{Text, is_empty, is_blank}
use follower_bmad.Errors.Code.{
  DomainError, invalid_task_identifier, invalid_account_identifier, invalid_execution_context,
  invalid_task_transition, auth_bootstrap_failed, auth_invalid_credentials, session_payload_missing,
  session_payload_invalid, internal_error,
}
use follower_bmad.Domain.Ids.{Uuid, Bytes, is_nil, reject}
use follower_bmad.Domain.Task.{or_next}
use follower_bmad.Domain.Account.{CredentialSource, other_source, normalize_credential_source}

-- CredentialSource.IsValid
unfoldable pub is_valid_source : CredentialSource → Bool
is_valid_source (other_source t) = false
is_valid_source _ = true

pub record AccountCredentials : Type 0 where
  pub username : Text
  pub password : Text

-- AccountCredentials.Validate
unfoldable pub validate_credentials : AccountCredentials → Option DomainError
validate_credentials c =
    reject (is_blank c.username) auth_invalid_credentials "credential username must not be empty" (
      reject (is_blank c.password) auth_invalid_credentials "credential password must not be empty"
        none)

-- BootstrapLoginOutcome; `other_login` is a text that is none of the constants.
pub data LoginOutcome : Type 0 where
  login_success auth_challenge auth_invalid auth_runtime_error : LoginOutcome
  other_login : Text → LoginOutcome

-- BootstrapLoginOutcome.IsValid
unfoldable pub is_valid_login : LoginOutcome → Bool
is_valid_login (other_login t) = false
is_valid_login _ = true

pub record LoginInput : Type 0 where
  pub task_id : Uuid
  pub account_id : Uuid
  pub attempt : ℤ
  pub execution_context_id : Text
  pub credential_source : CredentialSource
  pub credential_ref : Text

-- BootstrapLoginInput.Validate
unfoldable pub validate_login_input : LoginInput → Option DomainError
unfolding is_valid_source normalize_credential_source
validate_login_input i =
    reject (is_nil i.task_id) invalid_task_identifier
      "bootstrap login input task id must not be empty"
      (reject (is_nil i.account_id) invalid_account_identifier
        "bootstrap login input account id must not be empty"
        (reject (is_blank i.execution_context_id) invalid_execution_context
          "bootstrap login input execution context id must not be empty"
          (reject (is_not_positive i.attempt) invalid_task_transition
            "bootstrap login input attempt must be > 0, got %d"
            (reject (not (is_valid_source (normalize_credential_source i.credential_source)))
              auth_bootstrap_failed "bootstrap login credential source is invalid"
              (reject (is_blank i.credential_ref) auth_bootstrap_failed
                "bootstrap login credential ref must not be empty" none)))))

-- BootstrapLoginResult, with its diagnostics. A map is its entries.
pub record LoginResult : Type 0 where
  pub outcome : LoginOutcome
  pub session_payload : Bytes
  pub auth_screenshots : List (Text × Bytes)
  pub engine : Text
  pub duration_ms : ℤ

-- if result.Outcome == BootstrapLoginOutcomeSuccess { ... }
abbrev pub validate_payload : (Bytes → Bool) → LoginOutcome → Bytes → Option DomainError
validate_payload json_valid login_success payload =
    reject (is_empty payload) session_payload_missing
      "bootstrap login success result requires non-empty session payload"
      (reject (not (json_valid payload)) session_payload_invalid
        "bootstrap login success session payload must be valid JSON" none)
validate_payload json_valid _ payload = none

-- BootstrapLoginResult.Validate
unfoldable pub validate_login_result : (Bytes → Bool) → LoginResult → Option DomainError
validate_login_result json_valid r =
    reject (not (is_valid_login r.outcome)) auth_bootstrap_failed
      "invalid bootstrap login outcome: %s"
      (or_next (validate_payload json_valid r.outcome r.session_payload) (
        reject (is_negative r.duration_ms) internal_error
          "bootstrap login diagnostics duration must be >= 0" none))

-- What a valid login input has. Any credential source will do.
pub record IsValidLoginInput (i : LoginInput) : Type 0 where
  pub has_task : i.task_id ≢ 0
  pub has_account : i.account_id ≢ 0
  pub has_context : is_blank i.execution_context_id ≡ false
  pub counted : is_not_positive i.attempt ≡ false
  pub has_ref : is_blank i.credential_ref ≡ false

normalize-valid_source :
    (s : CredentialSource) → is_valid_source (normalize_credential_source s) ≡ true
unfolding is_valid_source normalize_credential_source
normalize-valid_source s = ground arith

-- Validate accepts a login input exactly if it has a task, an account, an execution context, a
-- positive attempt and a credential reference; no credential source is refused, one that is not
-- known included.
pub login_input_iff : (i : LoginInput) → (validate_login_input i ≡ none) ↔ IsValidLoginInput i
unfolding validate_login_input
login_input_iff i = (
  λ h. ground (arith, normalize-valid_source i.credential_source),
  λ v. ground (arith, normalize-valid_source i.credential_source),
)

-- What a valid login result has.
pub record IsValidLoginResult (json_valid : Bytes → Bool) (r : LoginResult) : Type 0 where
  pub known : is_valid_login r.outcome ≡ true
  pub has_payload : r.outcome ≡ login_success → is_empty r.session_payload ≡ false
  pub is_json : r.outcome ≡ login_success → json_valid r.session_payload ≡ true
  pub duration : is_negative r.duration_ms ≡ false

payload_lem :
    (json_valid : Bytes → Bool) (o : LoginOutcome) (p : Bytes)
    → (validate_payload json_valid o p ≡ none)
      ↔ ((o ≡ login_success → is_empty p ≡ false) × (o ≡ login_success → json_valid p ≡ true))
payload_lem json_valid login_success p =
    (λ h. (λ e. ground arith, λ e. ground arith), λ v. ground (arith, v.0 refl, v.1 refl))
payload_lem json_valid auth_challenge p = ground arith
payload_lem json_valid auth_invalid p = ground arith
payload_lem json_valid auth_runtime_error p = ground arith
payload_lem json_valid (other_login t) p = ground arith

-- Validate accepts a login result exactly if its outcome is known, its duration is not negative
-- and, for a success, its payload is there and is JSON.
pub login_result_iff :
    (json_valid : Bytes → Bool) (r : LoginResult)
    → (validate_login_result json_valid r ≡ none) ↔ IsValidLoginResult json_valid r
unfolding validate_login_result
login_result_iff json_valid r = (
  λ h. ground (arith, payload_lem json_valid r.outcome r.session_payload),
  λ v. ground (arith, payload_lem json_valid r.outcome r.session_payload),
)
