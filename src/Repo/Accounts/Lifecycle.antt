-- ===== src/Repo/Accounts/Lifecycle.antt =====
-- What a claim and a release do to the account and to all others.
use follower_bmad.Base.{
  ◌≡◌, ◌≢◌, ◌↔◌, refl, ◌⊎◌, inl, inr, true, false, Option, none, some, List, [], arith, Bool-cases,
  Option-cases,
}
use follower_bmad.Text.{Text, text_eq, is_empty}
use follower_bmad.Text.Search.{text_eq→eq}
use follower_bmad.Errors.Value.{GoError}
use follower_bmad.Errors.Result.{Result, ok, err, is_ok}
use follower_bmad.Domain.Ids.{Uuid, Time}
use follower_bmad.Domain.Account.{
  Account, Proxy, RuntimeGuardrails, busy, is_busy, evaluate_eligibility, normalized,
  ensure_single_active_execution,
}
use follower_bmad.Domain.Account.Eligible.{IsEligible, HasActiveProxy, evaluate_eligibility_iff}
use follower_bmad.Repo.Table.{update, find-update}
use follower_bmad.Repo.Accounts.{
  Store, AuditAction, write_accounts, account_key, find_account, proxy_of, account_claimed,
  write_accounts-accounts,
}
use follower_bmad.Repo.Accounts.Claims.{
  claim_account, held_elsewhere, fresh_claim, resume_claim, write_claim, mark_claimed, mark_busy,
  mark_released, released_state,
}

-- Every row but `id` is as it was.
abbrev pub OthersKept : Uuid → List Account → List Account → Type 0
OthersKept id before after = (j : Uuid) → j ≢ id → find_account j after ≡ find_account j before

-- What a claim of account `a` returns: the account, held by the context and busy, as it then
-- stands in the table; or an error, and nothing written.
abbrev pub Claims : Uuid → Text → Account → Store → Result Account × Store → Type 0
Claims id context a s (ok a', s') =
    (a'.active_execution_context_id ≡ context)
    × (a'.operational_state ≡ busy)
    × (find_account id s'.accounts ≡ some a')
    × OthersKept id s.accounts s'.accounts
    × ((a.active_execution_context_id ≡ context)
        ⊎ IsEligible a (proxy_of a s.proxies) (normalized s.guardrails))
Claims id context a s (err e, s') = s' ≡ s

-- A write of one row: what is found there afterwards, and everywhere else.
pub written_lem :
    (action : AuditAction) (id : Uuid) (f : Account → Account) (a : Account) (s : Store)
    → ((b : Account) → (f b).id ≡ b.id)
    → find_account id s.accounts ≡ some a
    → let s' = write_accounts action id (update account_key id f s.accounts) s in
      (find_account id s'.accounts ≡ some (f a)) × OthersKept id s.accounts s'.accounts
written_lem action id f a s keeps e = (
  rw write_accounts-accounts (ground (arith, find-update account_key id id f s.accounts keeps)),
  λ j other.
      rw write_accounts-accounts (ground (arith, find-update account_key id j f s.accounts keeps)),
)

resume_claim-Claims :
    (now : Time) (id : Uuid) (context : Text) (a : Account) (s : Store)
    → find_account id s.accounts ≡ some a
    → a.active_execution_context_id ≡ context
    → Claims id context a s (resume_claim now id a s)
unfolding resume_claim
resume_claim-Claims now id context a s found held =
    elim (Bool-cases (is_busy a.operational_state)) [
      | inl was_busy ↦
          rw (was_busy, resume_claim) (held, ground arith, found, λ j other. refl, inl held)
      | inr idle ↦
          let w = written_lem account_claimed id (mark_busy now) a s (λ _. refl) found in
          rw (idle, resume_claim) (held, refl, w.0, w.1, inl held)
    ]

write_claim-Claims :
    (now : Time) (id : Uuid) (context : Text) (a : Account) (s : Store)
    → find_account id s.accounts ≡ some a
    → IsEligible a (proxy_of a s.proxies) (normalized s.guardrails)
    → Claims id context a s (write_claim now id context a s)
unfolding write_claim
write_claim-Claims now id context a s found can =
    elim (Bool-cases (held_elsewhere id context s.accounts)) [
      | inl held ↦ rw (held, write_claim) refl
      | inr free ↦
          let w = written_lem account_claimed id (mark_claimed now context) a s (λ _. refl) found in
          rw (free, write_claim) (refl, refl, w.0, w.1, inr can)
    ]

fresh_claim-Claims :
    (now : Time) (id : Uuid) (context : Text) (a : Account) (s : Store)
    → find_account id s.accounts ≡ some a
    → Claims id context a s (fresh_claim now id context a s)
unfolding fresh_claim
fresh_claim-Claims now id context a s found =
    elim (Bool-cases (evaluate_eligibility a (proxy_of a s.proxies) s.guardrails).is_eligible) [
      | inl can ↦
          let w =
            write_claim-Claims now id context a s found
              ((evaluate_eligibility_iff a (proxy_of a s.proxies) s.guardrails).0 can) in
          elim (Option-cases (ensure_single_active_execution a context)) [
            | inl single ↦ rw (can, single, fresh_claim) w
            | inr (e, other) ↦ rw (can, other, fresh_claim) refl
          ]
      | inr cannot ↦ rw (cannot, fresh_claim) refl
    ]

-- ClaimAccount on an account of the table, with no database fault: on success the account is held
-- by the context and busy, the result is the row as it stands, no other row has changed, and the
-- account was held by that context before or was eligible. On an error nothing is written.
pub claim_account-Claims :
    (now : Time) (id : Uuid) (context : Text) (a : Account) (s : Store)
    → find_account id s.accounts ≡ some a
    → Claims id context a s (claim_account none now id context s)
unfolding claim_account
claim_account-Claims now id context a s found = elim (Bool-cases (is_empty context)) [
  | inl empty ↦ rw (empty, claim_account) refl
  | inr given ↦ elim (Bool-cases (text_eq a.active_execution_context_id context)) [
    | inl held ↦
        rw (given, found, held, claim_account)
          (resume_claim-Claims now id context a s found (text_eq→eq _ _ held))
    | inr other ↦
        rw (given, found, other, claim_account) (fresh_claim-Claims now id context a s found)
  ]
]

held_refuses :
    (id : Uuid) (context : Text) (a : Account) (s : Store) (r : Result Account × Store)
    → Claims id context a s r
    → a.active_execution_context_id ≢ []
    → a.active_execution_context_id ≢ context
    → (r.1 ≡ s) × (is_ok r.0 ≡ false)
held_refuses id context a s (ok a', s') c held other = elim c.4 [
  | inl same ↦ absurd (other same)
  | inr can ↦ absurd (held can.is_free)
]
held_refuses id context a s (err e, s') c held other = (c, refl)

-- An account that a context holds is refused to every other context, whether or not the database
-- answers, and nothing is written.
pub claim_account-held :
    (fault : Option GoError) (now : Time) (id : Uuid) (context : Text) (a : Account) (s : Store)
    → find_account id s.accounts ≡ some a
    → a.active_execution_context_id ≢ []
    → a.active_execution_context_id ≢ context
    → ((claim_account fault now id context s).1 ≡ s)
      × (is_ok (claim_account fault now id context s).0 ≡ false)
unfolding claim_account
claim_account-held (some e) now id context a s found held other = ground arith
claim_account-held none now id context a s found held other =
    held_refuses id context a s _ (claim_account-Claims now id context a s found) held other

-- A released account is eligible exactly if its flags, its limit and its proxy allow it: the state
-- that the release writes never stands in the way.
pub released-eligible_iff :
    (now : Time) (a : Account) (proxy : Option Proxy) (g : RuntimeGuardrails)
    → ((evaluate_eligibility (mark_released now a) proxy g).is_eligible ≡ true)
      ↔ (a.id ≢ 0)
        × ((normalized g).require_proxy_binding ≡ true → HasActiveProxy a proxy)
        × (a.is_active ≡ true)
        × (a.is_ready ≡ true)
        × (a.is_quarantined ≡ false)
        × (a.is_restricted ≡ false)
        × ((normalized g).exclude_when_limit_reached ≡ true → a.limit_reached ≡ false)
unfolding evaluate_eligibility released_state
released-eligible_iff now a proxy g = (λ h. ground arith, λ h. ground arith)
