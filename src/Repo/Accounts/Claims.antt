-- ===== src/Repo/Accounts/Claims.antt =====
-- ClaimAccount and ReleaseAccount (internal/repository/postgres/account_postgres.go).
use follower_bmad.Base.{
  Bool, false, not, ◌&&◌, ◌||◌, Option, none, some, List, [], ◌∷◌, if◌then◌else◌, ◌==◌,
}
use follower_bmad.Text.{Text, text, is_empty, text_eq}
use follower_bmad.Errors.Code.{
  account_not_found, account_context_mismatch, invalid_execution_context,
}
use follower_bmad.Errors.Value.{GoError, domain_error, plain}
use follower_bmad.Errors.Result.{Result, ok, err}
use follower_bmad.Domain.Ids.{Uuid, Time}
use follower_bmad.Domain.Account.{
  Account, OperationalState, active, busy, invalid_session, quarantined, restricted, is_busy,
  evaluate_eligibility, ensure_single_active_execution,
}
use follower_bmad.Repo.Table.{update}
use follower_bmad.Repo.Accounts.{
  Store, account_key, account_claimed, account_released, find_account, proxy_of, write_accounts,
  failed,
}

-- Does another account hold this context: the unique index ux_accounts_active_execution_context.
unfoldable pub held_elsewhere : Uuid → Text → List Account → Bool
held_elsewhere id context [] = false
held_elsewhere id context (a ∷ accounts) =
    (not (a.id == id) && text_eq a.active_execution_context_id context)
    || held_elsewhere id context accounts

abbrev pub mark_busy : Time → Account → Account
mark_busy now a = record a { operational_state = busy; updated_at = now }

abbrev pub mark_claimed : Time → Text → Account → Account
mark_claimed now context a = record a {
  active_execution_context_id = context;
  operational_state = busy;
  updated_at = now;
}

abbrev pub duplicate_context : GoError
duplicate_context = plain (text "duplicate key value violates ux_accounts_active_execution_context")

-- The UPDATE of a claim, the commit and the audit record.
unfoldable pub write_claim : Time → Uuid → Text → Account → Store → Result Account × Store
write_claim now id context a s =
    if held_elsewhere id context s.accounts then (err duplicate_context, s) else (
      ok (mark_claimed now context a),
      write_accounts account_claimed id
          (update account_key id (mark_claimed now context) s.accounts) s,
    )

-- The branch of ClaimAccount for an account that this context holds already.
unfoldable pub resume_claim : Time → Uuid → Account → Store → Result Account × Store
resume_claim now id a s =
    if not (is_busy a.operational_state)
    then (
      ok (mark_busy now a),
      write_accounts account_claimed id (update account_key id (mark_busy now) s.accounts) s,
    )
    else (ok a, s)

-- The branch of ClaimAccount for every other account.
unfoldable pub fresh_claim : Time → Uuid → Text → Account → Store → Result Account × Store
fresh_claim now id context a s =
    let decision = evaluate_eligibility a (proxy_of a s.proxies) s.guardrails in
    if not decision.is_eligible
    then (failed decision.reason_code (text "account %s is not eligible"), s)
    else elim (ensure_single_active_execution a context) [
      | some e ↦ (err (domain_error e), s)
      | none ↦ write_claim now id context a s
    ]

-- ClaimAccount
unfoldable pub claim_account : Option GoError → Time → Uuid → Text → Store → Result Account × Store
claim_account fault now id context s =
    if is_empty context
    then (failed invalid_execution_context (text "execution context id must not be empty"), s)
    else elim fault [
      | some e ↦ (err e, s)
      | none ↦ elim (find_account id s.accounts) [
        | none ↦ (failed account_not_found (text "account %s not found"), s)
        | some a ↦
            if text_eq a.active_execution_context_id context
            then resume_claim now id a s
            else fresh_claim now id context a s
      ]
    ]

-- The CASE of ReleaseAccount.
unfoldable pub released_state : Account → OperationalState
released_state a =
    if a.is_quarantined
    then quarantined
    else if a.is_restricted
    then restricted
    else if not a.is_active
    then restricted
    else if not a.is_ready
    then invalid_session
    else active

abbrev pub mark_released : Time → Account → Account
mark_released now a = record a {
  active_execution_context_id = [];
  operational_state = released_state a;
  updated_at = now;
}

-- active_execution_context_id = $2, which no NULL satisfies.
abbrev pub is_held_by : Text → Account → Bool
is_held_by context a =
    not (is_empty a.active_execution_context_id) && text_eq a.active_execution_context_id context

abbrev pub release_found : Time → Uuid → Text → Option Account → Store → Result (Unit {0}) × Store
release_found now id context none s =
    (failed account_context_mismatch (text "account %s is not claimed by execution context %s"), s)
release_found now id context (some a) s =
    if is_held_by context a
    then (
      ok tt,
      write_accounts account_released id (update account_key id (mark_released now) s.accounts) s,
    )
    else (
      failed account_context_mismatch (text "account %s is not claimed by execution context %s"),
      s,
    )

-- ReleaseAccount
unfoldable pub release_account :
    Option GoError → Time → Uuid → Text → Store → Result (Unit {0}) × Store
release_account (some e) now id context s = (err e, s)
release_account none now id context s = release_found now id context (find_account id s.accounts) s
