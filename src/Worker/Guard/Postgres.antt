-- ===== src/Worker/Guard/Postgres.antt =====
-- AccountPostgresRepository and the rules of claims.
use follower_bmad.Base.{
  ◌≡◌, refl, ap, ◌∙◌, inl, inr, Bool, true, false, Option, none, some, [], arith, Bool-cases,
  Option-cases, ◌==◌,
}
use follower_bmad.Text.{Text, is_empty}
use follower_bmad.Errors.Value.{GoError}
use follower_bmad.Errors.Result.{Result, ok, err}
use follower_bmad.Domain.Ids.{Uuid, Time}
use follower_bmad.Domain.Account.{Account, OperationalState}
use follower_bmad.Repo.Table.{update, find-update, map_if}
use follower_bmad.Repo.Accounts.{
  Store, account_key, find_account, check_eligibility, get_account_with_proxy, update_account_state,
  write_state, account_released, account_state_changed, write_accounts-accounts,
}
use follower_bmad.Repo.Accounts.Claims.{
  claim_account, release_account, release_found, is_held_by, mark_released,
}
use follower_bmad.Repo.Accounts.Lifecycle.{Claims, claim_account-Claims, written_lem}
use follower_bmad.Worker.Guard.{AccountRepository}
use follower_bmad.Worker.Guard.Exclusive.{Same, Holds, Frees, IsExclusive}

-- The errors of the database in each call, if any.
pub record Faults : Type 0 where
  pub on_check : Option GoError
  pub on_claim : Option GoError
  pub on_release : Option GoError
  pub on_get : Option GoError
  pub on_update : Option GoError

-- AccountPostgresRepository as the worker calls it.
abbrev pub postgres : Faults → Time → AccountRepository Store
postgres faults now = record {
  check_eligibility = λ id s. (check_eligibility faults.on_check id s, s);
  claim = λ id x s. claim_account faults.on_claim now id x s;
  release = λ id x s. release_account faults.on_release now id x s;
  get_with_proxy = λ id s. (get_account_with_proxy faults.on_get id s, s);
  update_state = λ id state ready quarantine restrict limit s.
      update_account_state faults.on_update now id state ready quarantine restrict limit s;
}

abbrev pub context_of_row : Option Account → Text
context_of_row none = []
context_of_row (some a) = a.active_execution_context_id

abbrev pub holder : Uuid → Store → Text
holder id s = context_of_row (find_account id s.accounts)

Claims-Holds :
    (id : Uuid) (x : Text) (a : Account) (s : Store) (p : Result Account × Store)
    → find_account id s.accounts ≡ some a
    → Claims id x a s p
    → Holds holder id x s p
Claims-Holds id x a s (ok a', s') found c = (
  ap context_of_row c.2 ∙ c.0,
  elim c.4 [
    | inl same ↦ inl (ap context_of_row found ∙ same)
    | inr can ↦ inr (ap context_of_row found ∙ can.is_free)
  ],
  λ j other. ap context_of_row (c.3 j other),
)
Claims-Holds id x a s (err e, s') found c = λ j. ap (λ t. holder j t) c

claim_account-Holds :
    (fault : Option GoError) (now : Time) (id : Uuid) (x : Text) (s : Store)
    → Holds holder id x s (claim_account fault now id x s)
unfolding claim_account
claim_account-Holds (some e) now id x s = elim (Bool-cases (is_empty x)) [
  | inl empty ↦ rw (empty, claim_account) (λ j. refl)
  | inr given ↦ rw (given, claim_account) (λ j. refl)
]
claim_account-Holds none now id x s = elim (Option-cases (find_account id s.accounts)) [
  | inr (a, found) ↦
      Claims-Holds id x a s (claim_account none now id x s) found
        (claim_account-Claims now id x a s found)
  | inl gone ↦ elim (Bool-cases (is_empty x)) [
    | inl empty ↦ rw (empty, claim_account) (λ j. refl)
    | inr given ↦ rw (given, gone, claim_account) (λ j. refl)
  ]
]

release_found-Frees :
    (now : Time) (id : Uuid) (x : Text) (s : Store) (o : Option Account)
    → find_account id s.accounts ≡ o
    → Frees holder id s (release_found now id x o s)
release_found-Frees now id x s none e = λ j. refl
release_found-Frees now id x s (some a) e = elim (Bool-cases (is_held_by x a)) [
  | inl held ↦
      let w = written_lem account_released id (mark_released now) a s (λ _. refl) e in
      rw (held, release_found) (ap context_of_row w.0, λ j other. ap context_of_row (w.1 j other))
  | inr other ↦ rw (other, release_found) (λ j. refl)
]

release_account-Frees :
    (fault : Option GoError) (now : Time) (id : Uuid) (x : Text) (s : Store)
    → Frees holder id s (release_account fault now id x s)
unfolding release_account
release_account-Frees (some e) now id x s = λ j. refl
release_account-Frees none now id x s =
    release_found-Frees now id x s (find_account id s.accounts) refl

map_if-context :
    (b : Bool) (f : Account → Account) (o : Option Account)
    → ((a : Account) → (f a).active_execution_context_id ≡ a.active_execution_context_id)
    → context_of_row (map_if account_key b f o) ≡ context_of_row o
map_if-context b f none h = refl
map_if-context true f (some a) h = h a
map_if-context false f (some a) h = refl

update_account_state-Same :
    (fault : Option GoError) (now : Time) (id : Uuid) (state : OperationalState)
    (ready quarantine restrict limit : Bool) (s : Store)
    → Same holder s (update_account_state fault now id state ready quarantine restrict limit s).1
unfolding update_account_state
update_account_state-Same fault now id state ready quarantine restrict limit s j =
    let f = write_state now state ready quarantine restrict limit in
    ground (
      arith,
      write_accounts-accounts account_state_changed id (update account_key id f s.accounts) s,
      ap context_of_row (find-update account_key id j f s.accounts (λ _. refl))
          ∙ map_if-context (id == j) f (find_account j s.accounts) (λ _. refl),
    )

-- The repository on PostgreSQL keeps to the rules of the guard, whatever faults occur and when.
pub postgres-IsExclusive : (faults : Faults) (now : Time) → IsExclusive holder (postgres faults now)
postgres-IsExclusive faults now = record {
  check_keeps = λ id s j. refl;
  get_keeps = λ id s j. refl;
  update_keeps =
      λ id state a b c d s. update_account_state-Same faults.on_update now id state a b c d s;
  claim_holds = λ id x s. claim_account-Holds faults.on_claim now id x s;
  release_frees = λ id x s. release_account-Frees faults.on_release now id x s;
}
