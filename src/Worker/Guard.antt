-- ===== src/Worker/Guard.antt =====
-- AccountGuard and QuotaService (internal/worker/account_guard.go, quota_service.go) over the
-- account repository that they are given. Logs are left out; `callers` is what runtime.Callers
-- sees where an error is wrapped.
pub mod Exclusive
pub mod Postgres
use follower_bmad.Base.{
  ℕ, Bool, true, false, not, ◌&&◌, ◌||◌, Option, none, some, List, [], if◌then◌else◌,
}
use follower_bmad.Text.{Text, text, codes, is_empty}
use follower_bmad.Errors.Code.{
  ErrorCode, new_domain_error, account_busy, account_limit_reached, account_restricted, code_text,
  eligible,
}
use follower_bmad.Errors.Value.{GoError, Frame, domain_error, joined}
use follower_bmad.Errors.Stack.{wrap}
use follower_bmad.Errors.Result.{Result, ok, err}
use follower_bmad.Domain.Ids.{Uuid}
use follower_bmad.Domain.Account.{
  Account, OperationalState, quarantined, restricted, is_quarantined_state, RuntimeGuardrails,
  normalized, EligibilityOutcome, EligibilityDecision, outcome_eligible, outcome_excluded,
  outcome_restricted, no_outcome,
}
use follower_bmad.Repo.Accounts.{AccountWithProxy}

-- repository.AccountRepository, as far as the worker calls it, on a state `W`.
pub record AccountRepository (W : Type 0) : Type 0 where
  pub check_eligibility : Uuid → W → Result EligibilityDecision × W
  pub claim : Uuid → Text → W → Result Account × W
  pub release : Uuid → Text → W → Result (Unit {0}) × W
  pub get_with_proxy : Uuid → W → Result AccountWithProxy × W
  pub update_state : Uuid → OperationalState → Bool → Bool → Bool → Bool → W → Result (Unit {0}) × W

-- normalizeEligibilityDecision
abbrev or_outcome : EligibilityOutcome → EligibilityOutcome → EligibilityOutcome
or_outcome no_outcome other = other
or_outcome outcome other = outcome

unfoldable pub normalize_decision : EligibilityDecision → EligibilityDecision
normalize_decision d =
    if d.is_eligible
    then record d {
      outcome = or_outcome d.outcome outcome_eligible;
      reason_code = if is_empty (code_text d.reason_code) then eligible else d.reason_code;
    }
    else record d { outcome = or_outcome d.outcome outcome_excluded }

abbrev pub is_busy_reason : ErrorCode → Bool
is_busy_reason account_busy = true
is_busy_reason _ = false

module _ {W : Type 0} (repo : AccountRepository W) (guardrails : RuntimeGuardrails)
    (callers : List Frame) where
  abbrev pub quarantine_limited : Uuid → Result AccountWithProxy × W → Result (Unit {0}) × W
  quarantine_limited id (err e, w) = (err e, w)
  quarantine_limited id (ok found, w) =
      repo.update_state id quarantined found.account.is_ready true found.account.is_restricted true
        w

  abbrev pub restrict_raised : Uuid → Result AccountWithProxy × W → Result (Unit {0}) × W
  restrict_raised id (err e, w) = (err e, w)
  restrict_raised id (ok found, w) =
      if found.account.is_quarantined || is_quarantined_state found.account.operational_state
      then (ok tt, w)
      else repo.update_state id restricted found.account.is_ready found.account.is_quarantined true
          found.account.limit_reached w

  abbrev pub apply_reason : Uuid → ErrorCode → W → Result (Unit {0}) × W
  apply_reason id account_limit_reached w =
      if (normalized guardrails).quarantine_on_limit_reached
      then quarantine_limited id (repo.get_with_proxy id w)
      else (ok tt, w)
  apply_reason id account_restricted w = restrict_raised id (repo.get_with_proxy id w)
  apply_reason id _ w = (ok tt, w)

  -- QuotaService.ApplyDecision
  unfoldable pub apply_decision : Uuid → EligibilityDecision → W → Result (Unit {0}) × W
  apply_decision id d w = if d.is_eligible then (ok tt, w) else apply_reason id d.reason_code w

  -- The answer of Acquire to an account that is not eligible.
  abbrev pub rejected : ErrorCode → Result (Unit {0}) × W → Result AccountWithProxy × W
  rejected reason (ok _, w) =
      (err (domain_error (new_domain_error reason (text "account eligibility outcome=%s"))), w)
  rejected reason (err e, w) = (
    err (
        joined (domain_error (new_domain_error reason (text "account eligibility outcome=%s")))
          (wrap (some e) (codes "apply quota decision") callers)),
    w,
  )

  -- The rollback of a claim whose account cannot be read.
  abbrev pub rolled_back : GoError → Result (Unit {0}) × W → Result AccountWithProxy × W
  rolled_back e (ok _, w) = (err e, w)
  rolled_back e (err f, w) =
      (err (joined e (wrap (some f) (codes "failed to release claimed account") callers)), w)

  abbrev pub after_get : Uuid → Text → Result AccountWithProxy × W → Result AccountWithProxy × W
  after_get id context (ok found, w) = (ok found, w)
  after_get id context (err e, w) = rolled_back e (repo.release id context w)

  abbrev pub after_claim : Uuid → Text → Result Account × W → Result AccountWithProxy × W
  after_claim id context (err e, w) = (err e, w)
  after_claim id context (ok a, w) = after_get id context (repo.get_with_proxy id w)

  abbrev pub after_check :
      Uuid → Text → Result EligibilityDecision × W → Result AccountWithProxy × W
  after_check id context (err e, w) = (err e, w)
  after_check id context (ok d, w) =
      if not d.is_eligible && not (is_busy_reason (normalize_decision d).reason_code)
      then rejected (normalize_decision d).reason_code (apply_decision id (normalize_decision d) w)
      else after_claim id context (repo.claim id context w)

  -- AccountGuard.Acquire
  unfoldable pub acquire : Uuid → Text → W → Result AccountWithProxy × W
  acquire id context w = after_check id context (repo.check_eligibility id w)

  -- AccountGuard.Release
  unfoldable pub release_guarded : Uuid → Text → W → Result (Unit {0}) × W
  release_guarded id context w = repo.release id context w

  -- AccountGuard.MarkQuarantined
  unfoldable pub mark_quarantined : Uuid → W → Result (Unit {0}) × W
  mark_quarantined id w = repo.update_state id quarantined false true false false w

-- QuotaService.EventName
unfoldable pub event_name : RuntimeGuardrails → EligibilityDecision → Text
unfolding normalized
event_name g d = elim d.reason_code [
  | account_limit_reached ↦
      if (normalized g).quarantine_on_limit_reached
      then codes "account.quarantined"
      else codes "account.limit_reached"
  | account_restricted ↦ codes "account.restricted"
  | _ ↦ codes "account.eligibility_rejected"
]
