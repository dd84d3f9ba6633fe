-- ===== src/Repo/Accounts.antt =====
-- AccountPostgresRepository (internal/repository/postgres/account_postgres.go) with the tables it
-- writes. A row is the domain.Account that scanAccount makes of it: NULL is uuid.Nil or "", which
-- nullableUUID and nullableString never store. `fault` is the error of the database connection, if
-- it fails; the transaction is then rolled back. `now` is NOW().
pub mod Claims
pub mod Exclusive
pub mod Lifecycle
use follower_bmad.Base.{
  ◌≡◌, arith, ℕ, Bool, true, false, not, ◌&&◌, Option, none, some, List, [], ◌∷◌, if◌then◌else◌,
  is_some, ◌==◌, ◌||◌,
}
use follower_bmad.Text.{Text, text, codes, is_empty, is_blank, trim_space, text_eq}
use follower_bmad.Errors.Code.{
  ErrorCode, DomainError, new_domain_error, account_not_found, account_context_mismatch,
  invalid_operational_state, invalid_execution_context,
}
use follower_bmad.Errors.Value.{GoError, domain_error, plain}
use follower_bmad.Errors.Result.{Result, ok, err, unless_error}
use follower_bmad.Domain.Ids.{Uuid, Time, is_nil}
use follower_bmad.Domain.Account.{
  Account, Proxy, OperationalState, active, busy, invalid_session, quarantined, restricted,
  is_valid, is_busy, RuntimeGuardrails, EligibilityDecision, evaluate_eligibility, excluded,
  ensure_single_active_execution, normalize_credential_source,
}
use follower_bmad.Repo.Table.{find, update}

-- A row that the audit log wrote: its action and its target.
pub data AuditAction : Type 0 where
  account_state_changed account_claimed account_released : AuditAction

pub record AuditEvent : Type 0 where
  pub action : AuditAction
  pub target_id : Uuid

-- The tables, with the guardrails of the repository. `audit_works` is false where the repository
-- has no audit log or Record fails, which the code ignores.
pub record Store : Type 0 where
  pub accounts : List Account
  pub proxies : List Proxy
  pub guardrails : RuntimeGuardrails
  pub audit_works : Bool
  pub audit : List AuditEvent

abbrev pub account_key : Account → ℕ
account_key a = a.id

abbrev pub find_account : Uuid → List Account → Option Account
find_account = find account_key

-- LEFT JOIN proxies p ON p.id = a.proxy_id
unfoldable pub proxy_of : Account → List Proxy → Option Proxy
proxy_of a proxies =
    if is_nil a.proxy_id then none else find (λ (p : Proxy). p.id) a.proxy_id proxies

unfoldable pub record_audit : AuditAction → Uuid → Store → Store
record_audit action id s =
    if s.audit_works
    then record s { audit = record { action = action; target_id = id } ∷ s.audit }
    else s

-- A committed write of the accounts, with its audit record.
unfoldable pub write_accounts : AuditAction → Uuid → List Account → Store → Store
unfolding record_audit
write_accounts action id accounts s = record_audit action id (record s { accounts = accounts })

pub write_accounts-accounts :
    (action : AuditAction) (id : Uuid) (accounts : List Account) (s : Store)
    → (write_accounts action id accounts s).accounts ≡ accounts
unfolding write_accounts
write_accounts-accounts action id accounts s = ground arith

abbrev pub failed {ℓ} : {A : Type ℓ} → ErrorCode → Text → Result A
failed code message = err (domain_error (new_domain_error code message))

-- The UPDATE of UpdateAccountState.
abbrev pub write_state : Time → OperationalState → Bool → Bool → Bool → Bool → Account → Account
write_state now state ready quarantine restrict limit a = record a {
  operational_state = state;
  is_ready = ready;
  is_quarantined = quarantine;
  is_restricted = restrict;
  limit_reached = limit;
  updated_at = now;
}

-- UpdateAccountState
unfoldable pub update_account_state :
    Option GoError
    → Time
    → Uuid
    → OperationalState
    → Bool
    → Bool
    → Bool
    → Bool
    → Store
    → Result (Unit {0}) × Store
update_account_state fault now id state ready quarantine restrict limit s =
    if not (is_valid state)
    then (failed invalid_operational_state (text "invalid account operational state: %s"), s)
    else elim fault [
      | some e ↦ (err e, s)
      | none ↦
          if is_some (find_account id s.accounts)
          then (
            ok tt,
            write_accounts account_state_changed id
                (update account_key id (write_state now state ready quarantine restrict limit)
                  s.accounts)
                s,
          )
          else (failed account_not_found (text "account %s not found"), s)
    ]

-- CheckEligibility
unfoldable pub check_eligibility : Option GoError → Uuid → Store → Result EligibilityDecision
check_eligibility (some e) id s = err e
check_eligibility none id s = elim (find_account id s.accounts) [
  | none ↦ ok (excluded account_not_found)
  | some a ↦ ok (evaluate_eligibility a (proxy_of a s.proxies) s.guardrails)
]

-- AccountWithProxy, whose proxy is the zero value where the account has none.
pub record AccountWithProxy : Type 0 where
  pub account : Account
  pub proxy : Proxy

abbrev zero_proxy : Proxy
zero_proxy = record {
  id = 0;
  host = [];
  port = 0;
  is_active = false;
  created_at = 0;
  updated_at = 0;
}

abbrev pub or_zero : Option Proxy → Proxy
or_zero none = zero_proxy
or_zero (some p) = p

-- GetAccountWithProxy, with scanAccountWithOptionalProxy and toAccountWithProxy.
unfoldable pub get_account_with_proxy : Option GoError → Uuid → Store → Result AccountWithProxy
get_account_with_proxy (some e) id s = err e
get_account_with_proxy none id s = elim (find_account id s.accounts) [
  | none ↦ failed account_not_found (text "account %s not found")
  | some a ↦ ok (record { account = a; proxy = or_zero (proxy_of a s.proxies) })
]

-- normalizeCredentialRef
unfoldable pub normalize_credential_ref : Text → Text
normalize_credential_ref reference =
    let normalized = trim_space reference in
    if is_empty normalized then codes "manual://legacy" else normalized

-- CreateAccount. Its INSERT names twelve columns and passes twelve arguments, but has the
-- placeholders $1 to $10 only, so the database refuses the statement.
unfoldable pub create_account : Option GoError → Account → Store → Result (Unit {0}) × Store
create_account fault account s =
    if not (is_valid account.operational_state)
    then (failed invalid_operational_state (text "invalid account operational state: %s"), s)
    else elim fault [
      | some e ↦ (err e, s)
      | none ↦ (err (plain (text "expected 10 arguments, got 12")), s)
    ]

-- CreateProxy
unfoldable pub create_proxy : Option GoError → Proxy → Store → Result (Unit {0}) × Store
create_proxy (some e) proxy s = (err e, s)
create_proxy none proxy s = elim (find (λ (p : Proxy). p.id) proxy.id s.proxies) [
  | some _ ↦ (err (plain (text "duplicate key value violates proxies_pkey")), s)
  | none ↦
      if proxy.port == 0
      then (err (plain (text "new row violates proxies_port_check")), s)
      else (ok tt, record s { proxies = proxy ∷ s.proxies })
]
