-- ===== src/Repo/Accounts/Exclusive.antt =====
-- When no two accounts are held by one execution context, and the writes that keep it so.
pub mod Calls
use follower_bmad.Base.{
  ◌≡◌, ◌≢◌, refl, sym, ◌∙◌, ◌⊎◌, inl, inr, Bool, false, Option, some, List, [], ◌∷◌, arith, All,
  All-map₂, ==_iff, ◌==◌, Bool-cases, Option-cases, or_false, not, ◌&&◌,
}
use follower_bmad.Text.{Text, text_eq}
use follower_bmad.Text.Search.{text_eq_of_eq}
use follower_bmad.Errors.Value.{GoError}
use follower_bmad.Domain.Ids.{Uuid, Time}
use follower_bmad.Domain.Account.{Account, OperationalState}
use follower_bmad.Repo.Table.{find, update, find_sound, All-update}
use follower_bmad.Repo.Accounts.{
  Store, account_key, find_account, update_account_state, create_account, account_claimed,
  account_released, account_state_changed, write_state, write_accounts-accounts,
}
use follower_bmad.Repo.Accounts.Claims.{
  claim_account, release_account, held_elsewhere, fresh_claim, resume_claim, write_claim,
  mark_claimed, mark_busy, mark_released,
}

-- Two accounts have different ids, and no common context but the empty one.
abbrev pub Apart : Account → Account → Type 0
Apart a b =
    (a.id ≢ b.id)
    × (a.active_execution_context_id ≡ b.active_execution_context_id
        → a.active_execution_context_id ≡ [])

abbrev pub AllApart : List Account → Type 0
AllApart [] = Unit
AllApart (a ∷ accounts) = All (Apart a) accounts × AllApart accounts

-- What a write of row `id` must do with the contexts: keep or clear its own, or set a new one.
abbrev pub IsFresh : Uuid → (Account → Account) → Account → Type 0
IsFresh id f b = (b.id ≢ id) → (a : Account) → Apart a b → a.id ≡ id → Apart (f a) b

Apart-sym : (a b : Account) → Apart a b → Apart b a
Apart-sym a b p = ((λ e. p.0 (sym e)), λ e. e ∙ p.1 (sym e))

module _ (id : Uuid) (f : Account → Account) (keeps : (a : Account) → (f a).id ≡ a.id) where
  All-Apart-update :
      (x : Account) (accounts : List Account)
      → x.id ≢ id
      → IsFresh id f x
      → All (Apart x) accounts
      → All (Apart x) (update account_key id f accounts)
  All-Apart-update x accounts other fresh h =
      All-update account_key (Apart x) id f accounts
        (λ a same p. Apart-sym (f a) x (fresh other a (Apart-sym x a p) same)) h

  -- The written row itself: no later row has its id.
  All-Apart-written :
      (x : Account) (accounts : List Account)
      → x.id ≡ id
      → All (IsFresh id f) accounts
      → All (Apart x) accounts
      → All (Apart (f x)) (update account_key id f accounts)
  All-Apart-written x accounts same fresh h =
      All-update account_key (Apart (f x)) id f accounts
        (λ b e p. absurd (p.0 (keeps x ∙ same ∙ sym e)))
        (All-map₂ accounts (λ b fb p. fb (λ e. p.0 (same ∙ sym e)) x p same) fresh h)

  pub AllApart-update :
      (accounts : List Account)
      → All (IsFresh id f) accounts
      → AllApart accounts
      → AllApart (update account_key id f accounts)
  unfolding update
  AllApart-update [] fresh h = tt
  AllApart-update (x ∷ accounts) fresh h =
      let rest = AllApart-update accounts fresh.1 h.1 in
      elim (Bool-cases (x.id == id)) [
        | inl hit ↦
            rw (hit, update) (All-Apart-written x accounts ((==_iff _ id).0 hit) fresh.1 h.0, rest)
        | inr miss ↦
            rw (miss, update) (All-Apart-update x accounts (ground arith) fresh.0 h.0, rest)
      ]

-- A write that keeps each context, or empties it, is fresh; so is one of a context that no other
-- row holds.
pub kept-IsFresh :
    (id : Uuid) (f : Account → Account) (accounts : List Account)
    → ((a : Account)
        → ((f a).id ≡ a.id)
          × (((f a).active_execution_context_id ≡ a.active_execution_context_id)
              ⊎ ((f a).active_execution_context_id ≡ [])))
    → All (IsFresh id f) accounts
kept-IsFresh id f [] h = tt
kept-IsFresh id f (x ∷ accounts) h =
    ((λ other a p same. ground (arith, h a)), kept-IsFresh id f accounts h)

pub claimed-IsFresh :
    (now : Time) (id : Uuid) (context : Text) (accounts : List Account)
    → held_elsewhere id context accounts ≡ false
    → All (IsFresh id (mark_claimed now context)) accounts
unfolding held_elsewhere
claimed-IsFresh now id context [] h = tt
claimed-IsFresh now id context (x ∷ accounts) h = (
  (λ other a p same.
      (p.0, λ e. cc (text_eq_of_eq _ context (sym e), held_by_other x other (or_false _ _ h).0))),
  claimed-IsFresh now id context accounts (or_false _ _ h).1,
)
  where
    held_by_other :
        (b : Account)
        → b.id ≢ id
        → (not (b.id == id) && text_eq b.active_execution_context_id context) ≡ false
        → text_eq b.active_execution_context_id context ≡ false
    held_by_other b other h = ground arith
