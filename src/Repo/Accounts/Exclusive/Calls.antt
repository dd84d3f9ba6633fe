-- ===== src/Repo/Accounts/Exclusive/Calls.antt =====
-- Sequences of writes of the table of accounts (internal/repository/postgres/account_postgres.go).
use follower_bmad.Base.{
  ◌≡◌, ◌≢◌, refl, ◌⊎◌, inl, inr, Bool, Option, some, List, [], ◌∷◌, arith, All, ◌==◌, Bool-cases,
  Option-cases,
}
use follower_bmad.Text.{Text}
use follower_bmad.Errors.Value.{GoError}
use follower_bmad.Domain.Ids.{Uuid, Time}
use follower_bmad.Domain.Account.{Account, OperationalState}
use follower_bmad.Repo.Table.{find, update, find_sound}
use follower_bmad.Repo.Accounts.{
  Store, account_key, find_account, update_account_state, create_account, account_claimed,
  account_released, account_state_changed, write_state, write_accounts-accounts,
}
use follower_bmad.Repo.Accounts.Claims.{
  claim_account, release_account, held_elsewhere, fresh_claim, resume_claim, write_claim,
  mark_claimed, mark_busy, mark_released,
}
use follower_bmad.Repo.Accounts.Exclusive.{
  Apart, AllApart, AllApart-update, kept-IsFresh, claimed-IsFresh,
}

-- Calls of the repository that write accounts.
pub data Call : Type 0 where
  update_state : Option GoError → Time → Uuid → OperationalState → Bool → Bool → Bool → Bool → Call
  claim release : Option GoError → Time → Uuid → Text → Call
  create : Option GoError → Account → Call

unfoldable pub after_call : Call → Store → Store
after_call (update_state fault now id state ready quarantine restrict limit) s =
    (update_account_state fault now id state ready quarantine restrict limit s).1
after_call (claim fault now id context) s = (claim_account fault now id context s).1
after_call (release fault now id context) s = (release_account fault now id context s).1
after_call (create fault account) s = (create_account fault account s).1

unfoldable pub after_calls : List Call → Store → Store
unfolding after_call
after_calls [] s = s
after_calls (c ∷ calls) s = after_calls calls (after_call c s)

write_claim-AllApart :
    (now : Time) (id : Uuid) (context : Text) (a : Account) (s : Store)
    → AllApart s.accounts
    → AllApart (write_claim now id context a s).1.accounts
unfolding write_claim
write_claim-AllApart now id context a s h =
    elim (Bool-cases (held_elsewhere id context s.accounts)) [
      | inl held ↦ rw (held, write_claim) h
      | inr free ↦
          rw (free, write_claim)
            (rw write_accounts-accounts (
              AllApart-update id (mark_claimed now context) (λ _. refl) s.accounts
                (claimed-IsFresh now id context s.accounts free) h))
    ]

kept-AllApart :
    (id : Uuid) (f : Account → Account) (accounts : List Account)
    → ((a : Account)
        → ((f a).id ≡ a.id)
          × (((f a).active_execution_context_id ≡ a.active_execution_context_id)
              ⊎ ((f a).active_execution_context_id ≡ [])))
    → AllApart accounts
    → AllApart (update account_key id f accounts)
kept-AllApart id f accounts h =
    AllApart-update id f (λ a. (h a).0) accounts (kept-IsFresh id f accounts h)

resume_claim-AllApart :
    (now : Time) (id : Uuid) (a : Account) (s : Store)
    → AllApart s.accounts
    → AllApart (resume_claim now id a s).1.accounts
unfolding resume_claim
resume_claim-AllApart now id a s h = ground (
  arith,
  write_accounts-accounts account_claimed id (update account_key id (mark_busy now) s.accounts) s,
  kept-AllApart id (mark_busy now) s.accounts (λ b. (refl, inl refl)) h,
)

fresh_claim-AllApart :
    (now : Time) (id : Uuid) (context : Text) (a : Account) (s : Store)
    → AllApart s.accounts
    → AllApart (fresh_claim now id context a s).1.accounts
unfolding fresh_claim
fresh_claim-AllApart now id context a s h =
    ground (arith, write_claim-AllApart now id context a s h)

claim_account-AllApart :
    (fault : Option GoError) (now : Time) (id : Uuid) (context : Text) (s : Store)
    → AllApart s.accounts
    → AllApart (claim_account fault now id context s).1.accounts
unfolding claim_account
claim_account-AllApart fault now id context s h = elim (Option-cases (find_account id s.accounts)) [
  | inl missing ↦ ground arith
  | inr (a, found) ↦
      ground (arith, resume_claim-AllApart now id a s h, fresh_claim-AllApart now id context a s h)
]

update_account_state-AllApart :
    (fault : Option GoError) (now : Time) (id : Uuid) (state : OperationalState)
    (ready quarantine restrict limit : Bool) (s : Store)
    → AllApart s.accounts
    → AllApart
        (update_account_state fault now id state ready quarantine restrict limit s).1.accounts
unfolding update_account_state
update_account_state-AllApart fault now id state ready quarantine restrict limit s h = ground (
  arith,
  write_accounts-accounts account_state_changed id
      (update account_key id (write_state now state ready quarantine restrict limit) s.accounts) s,
  kept-AllApart id (write_state now state ready quarantine restrict limit) s.accounts
      (λ b. (refl, inl refl)) h,
)

release_account-AllApart :
    (fault : Option GoError) (now : Time) (id : Uuid) (context : Text) (s : Store)
    → AllApart s.accounts
    → AllApart (release_account fault now id context s).1.accounts
unfolding release_account
release_account-AllApart fault now id context s h = ground (
  arith,
  write_accounts-accounts account_released id (update account_key id (mark_released now) s.accounts)
      s,
  kept-AllApart id (mark_released now) s.accounts (λ b. (refl, inr refl)) h,
)

after_call-AllApart :
    (c : Call) (s : Store) → AllApart s.accounts → AllApart (after_call c s).accounts
unfolding after_call
after_call-AllApart (update_state fault now id state ready quarantine restrict limit) s h =
    update_account_state-AllApart fault now id state ready quarantine restrict limit s h
after_call-AllApart (claim fault now id context) s h =
    claim_account-AllApart fault now id context s h
after_call-AllApart (release fault now id context) s h =
    release_account-AllApart fault now id context s h
after_call-AllApart (create fault account) s h = unfold create_account in ground arith

after_calls-AllApart :
    (calls : List Call) (s : Store) → AllApart s.accounts → AllApart (after_calls calls s).accounts
unfolding after_calls
after_calls-AllApart [] s h = h
after_calls-AllApart (c ∷ calls) s h =
    after_calls-AllApart calls (after_call c s) (after_call-AllApart c s h)

-- The first row against a row that is found behind it.
head_unique :
    (x : Account) (accounts : List Account) (j : Uuid) (b : Account)
    → All (Apart x) accounts
    → find_account j accounts ≡ some b
    → x.active_execution_context_id ≡ b.active_execution_context_id
    → x.active_execution_context_id ≡ []
head_unique x accounts j b h e same = (find_sound account_key (Apart x) j accounts h e).1.1 same

holder_unique :
    (accounts : List Account) (i j : Uuid) (a b : Account)
    → AllApart accounts
    → find_account i accounts ≡ some a
    → find_account j accounts ≡ some b
    → a.active_execution_context_id ≡ b.active_execution_context_id
    → a.active_execution_context_id ≢ []
    → i ≡ j
unfolding find
holder_unique [] i j a b h ea eb same held = ground arith
holder_unique (x ∷ accounts) i j a b h ea eb same held = elim (Bool-cases (x.id == i)) [
  | inl hi ↦ elim (Bool-cases (x.id == j)) [
    | inl hj ↦ ground arith
    | inr mj ↦ ground (arith, head_unique x accounts j b h.0)
  ]
  | inr mi ↦ elim (Bool-cases (x.id == j)) [
    | inl hj ↦ ground (arith, head_unique x accounts i a h.0)
    | inr mj ↦
        holder_unique accounts i j a b h.1 (rw (mi, find) at ea) (rw (mj, find) at eb) same held
  ]
]

-- After any history of calls, from accounts of which no two share an id or a context, an execution
-- context holds at most one account.
pub after_calls-holder_unique :
    (calls : List Call) (s : Store) (i j : Uuid) (a b : Account)
    → AllApart s.accounts
    → find_account i (after_calls calls s).accounts ≡ some a
    → find_account j (after_calls calls s).accounts ≡ some b
    → a.active_execution_context_id ≡ b.active_execution_context_id
    → a.active_execution_context_id ≢ []
    → i ≡ j
after_calls-holder_unique calls s i j a b h =
    holder_unique (after_calls calls s).accounts i j a b (after_calls-AllApart calls s h)
