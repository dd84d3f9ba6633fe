-- ===== src/Tests/Accounts.antt =====
-- Claims and releases of two accounts.
use follower_bmad.Base.{◌≡◌, ◌↔◌, refl, true, false, none, some, List, [], ◌∷◌, arith}
use follower_bmad.Text.{Text, codes, text_eq}
use follower_bmad.Domain.Ids.{Uuid}
use follower_bmad.Domain.Account.{
  Account, RuntimeGuardrails, evaluate_eligibility, normalized, default_runtime_guardrails, limits,
  is_valid, ensure_single_active_execution,
}
use follower_bmad.Domain.Account.Eligible.{IsEligible, evaluate_eligibility_iff}
use follower_bmad.Repo.Table.{find, update}
use follower_bmad.Repo.Accounts.{Store, find_account, proxy_of, write_accounts, record_audit}
use follower_bmad.Repo.Accounts.Claims.{
  claim_account, mark_claimed, fresh_claim, write_claim, held_elsewhere,
}
use follower_bmad.Repo.Accounts.Exclusive.{AllApart}
use follower_bmad.Repo.Accounts.Exclusive.Calls.{
  Call, claim, after_calls, after_call, after_calls-holder_unique,
}
use follower_bmad.Repo.Accounts.Lifecycle.{Claims, claim_account-Claims}
use follower_bmad.Tests.{free_account, held_account, sample_proxy, accounts_store}

abbrev worker_two : Text
worker_two = codes "worker-2"

found_free : find_account 1 accounts_store.accounts ≡ some free_account
unfolding find
found_free = refl

found_held : find_account 2 accounts_store.accounts ≡ some held_account
unfolding find
found_held = refl

claim_account-Claims_example :
    Claims 1 worker_two free_account accounts_store
      (claim_account none 6 1 worker_two accounts_store)
claim_account-Claims_example =
    claim_account-Claims 6 1 worker_two free_account accounts_store found_free

abbrev claimed_store : Store
claimed_store = (claim_account none 6 1 worker_two accounts_store).1

abbrev claimed_account : Account
claimed_account = mark_claimed 6 worker_two free_account

evaluate_eligibility_iff_example :
    ((evaluate_eligibility held_account (some sample_proxy) default_runtime_guardrails).is_eligible
      ≡ true)
    ↔ IsEligible held_account (some sample_proxy) (normalized default_runtime_guardrails)
evaluate_eligibility_iff_example =
    evaluate_eligibility_iff held_account (some sample_proxy) default_runtime_guardrails

abbrev no_guardrails : RuntimeGuardrails
no_guardrails = record {
  exclude_when_limit_reached = false;
  restrict_when_threshold_reached = false;
  quarantine_on_limit_reached = false;
  require_proxy_binding = false;
}

-- worker-2 tries both accounts.
abbrev sample_calls : List Call
sample_calls = claim none 6 1 worker_two ∷ claim none 7 2 worker_two ∷ []

two-AllApart : AllApart accounts_store.accounts
two-AllApart = ((((λ e. ground arith), λ e. refl), tt), (tt, tt))

after_calls-found :
    find_account 1 (after_calls sample_calls accounts_store).accounts
    ≡ some (mark_claimed 6 worker_two free_account)
unfolding after_calls after_call claim_account find text_eq fresh_claim evaluate_eligibility
    proxy_of normalized limits is_valid ensure_single_active_execution write_claim held_elsewhere
    write_accounts record_audit update
after_calls-found = refl

abbrev first_id : Uuid
first_id = 1

after_calls-holder_unique_example : first_id ≡ first_id
after_calls-holder_unique_example =
    after_calls-holder_unique sample_calls accounts_store first_id first_id
      (mark_claimed 6 worker_two free_account) (mark_claimed 6 worker_two free_account) two-AllApart
      after_calls-found after_calls-found refl (λ e. ground arith)
