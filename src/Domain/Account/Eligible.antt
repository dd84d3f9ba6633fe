-- ===== src/Domain/Account/Eligible.antt =====
-- When an account may be claimed.
use follower_bmad.Base.{◌≡◌, ◌≢◌, ◌↔◌, ◌⊎◌, true, false, Option, none, some, [], arith}
use follower_bmad.Domain.Account.{
  Account, Proxy, RuntimeGuardrails, active, busy, normalized, evaluate_eligibility,
}

-- An active proxy that the account is bound to.
abbrev pub HasActiveProxy : Account → Option Proxy → Type 0
HasActiveProxy a none = ⊥
HasActiveProxy a (some p) = (a.proxy_id ≢ 0) × (p.is_active ≡ true)

-- What an eligible account has under guardrails in normal form.
pub record IsEligible (a : Account) (proxy : Option Proxy) (g : RuntimeGuardrails) : Type 0 where
  pub has_id : a.id ≢ 0
  pub usable_state : (a.operational_state ≡ active) ⊎ (a.operational_state ≡ busy)
  pub bound : g.require_proxy_binding ≡ true → HasActiveProxy a proxy
  pub is_active : a.is_active ≡ true
  pub is_ready : a.is_ready ≡ true
  pub not_quarantined : a.is_quarantined ≡ false
  pub within_limits : g.exclude_when_limit_reached ≡ true → a.limit_reached ≡ false
  pub not_restricted : a.is_restricted ≡ false
  pub is_free : a.active_execution_context_id ≡ []

-- Normalising twice is normalising once, and guardrails in normal form use a limit or a threshold.
pub normalized_idem :
    (g : RuntimeGuardrails)
    → (normalized (normalized g) ≡ normalized g)
      × (((normalized g).exclude_when_limit_reached ≡ true)
          ⊎ ((normalized g).restrict_when_threshold_reached ≡ true))
unfolding normalized
normalized_idem g = ground arith

-- An account is eligible exactly if it is known, active, ready, in state active or busy, neither
-- quarantined nor restricted, held by no execution context, and, where the normalised guardrails
-- ask for it, within its limit and bound to an active proxy.
pub evaluate_eligibility_iff :
    (a : Account) (proxy : Option Proxy) (g : RuntimeGuardrails)
    → ((evaluate_eligibility a proxy g).is_eligible ≡ true) ↔ IsEligible a proxy (normalized g)
unfolding evaluate_eligibility
evaluate_eligibility_iff a proxy g = (λ h. ground arith, λ v. ground arith)
