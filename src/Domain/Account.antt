-- ===== src/Domain/Account.antt =====
-- Accounts, guardrails and eligibility (internal/domain/account.go, account_state.go, limits.go,
-- proxy.go, invariants.go, and the credential sources of bootstrap_login.go).
pub mod Eligible
use follower_bmad.Base.{ℕ, Bool, true, false, not, ◌&&◌, ◌||◌, Option, none, some, if◌then◌else◌}
use follower_bmad.Text.{Text, text, is_empty, text_eq}
use follower_bmad.Errors.Code.{
  ErrorCode, DomainError, new_domain_error, eligible, account_busy, account_inactive,
  account_not_ready, account_quarantined, account_restricted, account_missing_proxy,
  account_proxy_inactive, account_limit_reached, invalid_operational_state,
  invalid_execution_context, invalid_account_identifier,
}
use follower_bmad.Domain.Ids.{Uuid, Time, is_nil, reject}

-- AccountOperationalState; `unlisted` is a text that is none of the constants.
pub data OperationalState : Type 0 where
  active busy invalid_session quarantined restricted : OperationalState
  unlisted : Text → OperationalState

-- AccountOperationalState.IsValid
unfoldable pub is_valid : OperationalState → Bool
is_valid (unlisted t) = false
is_valid _ = true

abbrev pub is_busy : OperationalState → Bool
is_busy busy = true
is_busy _ = false

abbrev pub is_invalid_session : OperationalState → Bool
is_invalid_session invalid_session = true
is_invalid_session _ = false

abbrev pub is_quarantined_state : OperationalState → Bool
is_quarantined_state quarantined = true
is_quarantined_state _ = false

abbrev pub is_restricted_state : OperationalState → Bool
is_restricted_state restricted = true
is_restricted_state _ = false

-- CredentialSource; `other_source` is a text that is none of the constants.
pub data CredentialSource : Type 0 where
  env vault file manual : CredentialSource
  other_source : Text → CredentialSource

-- NormalizeCredentialSource
unfoldable pub normalize_credential_source : CredentialSource → CredentialSource
normalize_credential_source (other_source t) = manual
normalize_credential_source source = source

pub record Account : Type 0 where
  pub id : Uuid
  pub username : Text
  pub proxy_id : Uuid
  pub credential_source : CredentialSource
  pub credential_ref : Text
  pub operational_state : OperationalState
  pub is_active : Bool
  pub is_ready : Bool
  pub is_quarantined : Bool
  pub is_restricted : Bool
  pub limit_reached : Bool
  pub active_execution_context_id : Text
  pub created_at : Time
  pub updated_at : Time

pub record Proxy : Type 0 where
  pub id : Uuid
  pub host : Text
  pub port : ℕ
  pub is_active : Bool
  pub created_at : Time
  pub updated_at : Time

-- AccountLimits and Account.Limits
pub record AccountLimits : Type 0 where
  pub limit_reached : Bool
  pub restrictive_threshold_raised : Bool

unfoldable pub limits : Account → AccountLimits
limits a = record {
  limit_reached = a.limit_reached;
  restrictive_threshold_raised = a.is_restricted || is_restricted_state a.operational_state;
}

pub record RuntimeGuardrails : Type 0 where
  pub exclude_when_limit_reached : Bool
  pub restrict_when_threshold_reached : Bool
  pub quarantine_on_limit_reached : Bool
  pub require_proxy_binding : Bool

abbrev pub default_runtime_guardrails : RuntimeGuardrails
default_runtime_guardrails = record {
  exclude_when_limit_reached = true;
  restrict_when_threshold_reached = true;
  quarantine_on_limit_reached = true;
  require_proxy_binding = true;
}

abbrev is_zero : RuntimeGuardrails → Bool
is_zero g =
    not g.exclude_when_limit_reached
    && not g.restrict_when_threshold_reached
    && not g.quarantine_on_limit_reached
    && not g.require_proxy_binding

-- RuntimeGuardrails.Normalized
unfoldable pub normalized : RuntimeGuardrails → RuntimeGuardrails
normalized g =
    let defaults = default_runtime_guardrails in
    let n =
      if not g.exclude_when_limit_reached && not g.restrict_when_threshold_reached
      then record g {
        exclude_when_limit_reached = defaults.exclude_when_limit_reached;
        restrict_when_threshold_reached = defaults.restrict_when_threshold_reached;
        quarantine_on_limit_reached = defaults.quarantine_on_limit_reached;
      }
      else g in
    if is_zero g then record n { require_proxy_binding = defaults.require_proxy_binding } else n

-- EligibilityOutcome; `no_outcome` is "".
pub data EligibilityOutcome : Type 0 where
  outcome_eligible outcome_excluded outcome_restricted no_outcome : EligibilityOutcome

pub record EligibilityDecision : Type 0 where
  pub is_eligible : Bool
  pub outcome : EligibilityOutcome
  pub reason_code : ErrorCode

-- ineligibleDecision
abbrev pub ineligible_decision : EligibilityOutcome → ErrorCode → EligibilityDecision
ineligible_decision outcome reason = record {
  is_eligible = false;
  outcome = outcome;
  reason_code = reason;
}

abbrev pub excluded : ErrorCode → EligibilityDecision
excluded = ineligible_decision outcome_excluded

abbrev pub proxy_inactive : Option Proxy → Bool
proxy_inactive none = false
proxy_inactive (some p) = not p.is_active

abbrev pub is_missing : Option Proxy → Bool
is_missing none = true
is_missing (some _) = false

-- EvaluateAccountEligibilityWithGuardrails
unfoldable pub evaluate_eligibility :
    Account → Option Proxy → RuntimeGuardrails → EligibilityDecision
unfolding normalized limits is_valid
evaluate_eligibility a proxy guardrails =
    let g = normalized guardrails in
    let l = limits a in
    if is_nil a.id
    then excluded invalid_account_identifier
    else if not (is_valid a.operational_state)
    then excluded invalid_operational_state
    else if g.require_proxy_binding && (is_nil a.proxy_id || is_missing proxy)
    then excluded account_missing_proxy
    else if g.require_proxy_binding && proxy_inactive proxy
    then excluded account_proxy_inactive
    else if not a.is_active
    then excluded account_inactive
    else if not a.is_ready || is_invalid_session a.operational_state
    then excluded account_not_ready
    else if a.is_quarantined || is_quarantined_state a.operational_state
    then excluded account_quarantined
    else if l.limit_reached && g.exclude_when_limit_reached
    then excluded account_limit_reached
    else if l.restrictive_threshold_raised
    then if g.restrict_when_threshold_reached
      then ineligible_decision outcome_restricted account_restricted
      else excluded account_restricted
    else if not (is_empty a.active_execution_context_id)
    then excluded account_busy
    else record { is_eligible = true; outcome = outcome_eligible; reason_code = eligible }

-- EvaluateAccountEligibility
unfoldable pub evaluate_default_eligibility : Account → Option Proxy → EligibilityDecision
unfolding evaluate_eligibility
evaluate_default_eligibility a proxy = evaluate_eligibility a proxy default_runtime_guardrails

-- EnsureSingleActiveExecution
unfoldable pub ensure_single_active_execution : Account → Text → Option DomainError
unfolding text_eq
ensure_single_active_execution a context =
    reject (is_empty context) invalid_execution_context "execution context id must not be empty" (
      reject
        (not (is_empty a.active_execution_context_id)
          && not (text_eq a.active_execution_context_id context))
        account_busy "account %s is already claimed by another execution context" none)
