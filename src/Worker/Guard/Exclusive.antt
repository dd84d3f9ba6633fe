-- ===== src/Worker/Guard/Exclusive.antt =====
-- The guard over any repository with the rules of claims (internal/worker/account_guard.go).
use follower_bmad.Base.{
  ◌≡◌, ◌≢◌, refl, sym, ap, ◌∙◌, ◌||◌, ◌⊎◌, inl, inr, Bool, true, false, not, ◌&&◌, List, [],
  if◌then◌else◌,
}
use follower_bmad.Text.{Text}
use follower_bmad.Errors.Code.{ErrorCode, account_limit_reached, account_restricted}
use follower_bmad.Errors.Value.{GoError, Frame}
use follower_bmad.Errors.Result.{Result, ok, err, is_ok}
use follower_bmad.Domain.Ids.{Uuid}
use follower_bmad.Domain.Account.{
  Account, OperationalState, RuntimeGuardrails, normalized, EligibilityDecision,
  is_quarantined_state,
}
use follower_bmad.Repo.Accounts.{AccountWithProxy}
use follower_bmad.Worker.Guard.{
  AccountRepository, normalize_decision, is_busy_reason, quarantine_limited, restrict_raised,
  apply_reason, apply_decision, rejected, rolled_back, after_get, after_claim, after_check, acquire,
}

-- `holder id w` is the execution context that holds account `id`, or "".
module _ {W : Type 0} (holder : Uuid → W → Text) where
  abbrev pub Same : W → W → Type 0
  Same w w' = (j : Uuid) → holder j w' ≡ holder j w

  abbrev pub OthersSame : Uuid → W → W → Type 0
  OthersSame id w w' = (j : Uuid) → j ≢ id → holder j w' ≡ holder j w

  -- The account was free, or the context held it already.
  abbrev pub CanHold : Uuid → Text → W → Type 0
  CanHold id x w = (holder id w ≡ x) ⊎ (holder id w ≡ [])

  abbrev pub Holds {ℓ} : {A : Type ℓ} → Uuid → Text → W → Result A × W → Type 0
  Holds id x w (ok a, w') = (holder id w' ≡ x) × CanHold id x w × OthersSame id w w'
  Holds id x w (err e, w') = Same w w'

  abbrev pub Frees {ℓ} : {A : Type ℓ} → Uuid → W → Result A × W → Type 0
  Frees id w (ok a, w') = (holder id w' ≡ []) × OthersSame id w w'
  Frees id w (err e, w') = Same w w'

  -- The rules of the repository's calls.
  pub record IsExclusive (repo : AccountRepository W) : Type 0 where
    pub check_keeps : (id : Uuid) (w : W) → Same w (repo.check_eligibility id w).1
    pub get_keeps : (id : Uuid) (w : W) → Same w (repo.get_with_proxy id w).1
    pub update_keeps :
        (id : Uuid) (state : OperationalState) (a b c d : Bool) (w : W)
        → Same w (repo.update_state id state a b c d w).1
    pub claim_holds : (id : Uuid) (x : Text) (w : W) → Holds id x w (repo.claim id x w)
    pub release_frees : (id : Uuid) (x : Text) (w : W) → Frees id w (repo.release id x w)

  -- What Acquire does. On success the context holds the account, which was free or its own. On an
  -- error the account has its old holder or none, unless the release that rolls the claim back has
  -- failed, which the context that then held the account had asked for.
  abbrev pub Acquires {ℓ} :
      {A : Type ℓ} → AccountRepository W → Uuid → Text → W → Result A × W → Type 0
  Acquires repo id x w (ok a, w') = (holder id w' ≡ x) × CanHold id x w × OthersSame id w w'
  Acquires repo id x w (err e, w') =
      OthersSame id w w'
      × ((holder id w' ≡ holder id w)
          ⊎ (holder id w' ≡ [])
          ⊎ ((v : W) × (holder id v ≡ x)
              × (is_ok (repo.release id x v).0 ≡ false)
              × (w' ≡ (repo.release id x v).1)))

module _ {W : Type 0} (holder : Uuid → W → Text) (repo : AccountRepository W)
    (guardrails : RuntimeGuardrails) (callers : List Frame) (law : IsExclusive holder repo) where
  if-Same {ℓ} :
      {A : Type ℓ} (b : Bool) (w : W) (p q : Result A × W)
      → Same holder w p.1
      → Same holder w q.1
      → Same holder w (if b then p else q).1
  if-Same true w p q h k = h
  if-Same false w p q h k = k

  quarantine_limited-Same :
      (id : Uuid) (w : W) (p : Result AccountWithProxy × W)
      → Same holder w p.1
      → Same holder w (quarantine_limited repo guardrails callers id p).1
  quarantine_limited-Same id w (err e, v) h = h
  quarantine_limited-Same id w (ok found, v) h = λ j. law.update_keeps id _ _ _ _ _ v j ∙ h j

  restrict_raised-Same :
      (id : Uuid) (w : W) (p : Result AccountWithProxy × W)
      → Same holder w p.1
      → Same holder w (restrict_raised repo guardrails callers id p).1
  restrict_raised-Same id w (err e, v) h = h
  restrict_raised-Same id w (ok found, v) h =
      if-Same (found.account.is_quarantined || is_quarantined_state found.account.operational_state)
        w _ _ h (λ j. law.update_keeps id _ _ _ _ _ v j ∙ h j)

  apply_reason-Same :
      (id : Uuid) (reason : ErrorCode) (w : W)
      → Same holder w (apply_reason repo guardrails callers id reason w).1
  apply_reason-Same id account_limit_reached w =
      if-Same (normalized guardrails).quarantine_on_limit_reached w _ _
        (quarantine_limited-Same id w (repo.get_with_proxy id w) (law.get_keeps id w)) (λ j. refl)
  apply_reason-Same id account_restricted w =
      restrict_raised-Same id w (repo.get_with_proxy id w) (law.get_keeps id w)
  apply_reason-Same id _ w = λ j. refl

  -- The decision of the quota moves no account from one context to another.
  apply_decision-Same :
      (id : Uuid) (d : EligibilityDecision) (w : W)
      → Same holder w (apply_decision repo guardrails callers id d w).1
  unfolding apply_decision
  apply_decision-Same id d w =
      if-Same d.is_eligible w _ _ (λ j. refl) (apply_reason-Same id d.reason_code w)

  rejected-Acquires :
      (id : Uuid) (x : Text) (w : W) (reason : ErrorCode) (p : Result (Unit {0}) × W)
      → Same holder w p.1
      → Acquires holder repo id x w (rejected repo guardrails callers reason p)
  rejected-Acquires id x w reason (ok _, v) h = ((λ j _. h j), inl (h id))
  rejected-Acquires id x w reason (err e, v) h = ((λ j _. h j), inl (h id))

  rolled_back-Acquires :
      (id : Uuid) (x : Text) (w v : W) (e : GoError) (p : Result (Unit {0}) × W)
      → holder id v ≡ x
      → OthersSame holder id w v
      → p ≡ repo.release id x v
      → Frees holder id v p
      → Acquires holder repo id x w (rolled_back repo guardrails callers e p)
  rolled_back-Acquires id x w v e (ok _, u) held others same f =
      ((λ j other. f.1 j other ∙ others j other), inr (inl f.0))
  rolled_back-Acquires id x w v e (err g, u) held others same f = (
    (λ j other. f j ∙ others j other),
    inr (inr (v, held, sym (ap (λ q. is_ok q.0) same), ap (λ q. q.1) same)),
  )

  after_get-Acquires :
      (id : Uuid) (x : Text) (w v : W) (p : Result AccountWithProxy × W)
      → Same holder v p.1
      → (holder id v ≡ x) × CanHold holder id x w × OthersSame holder id w v
      → Acquires holder repo id x w (after_get repo guardrails callers id x p)
  after_get-Acquires id x w v (ok found, u) h c = (h id ∙ c.0, c.1, λ j other. h j ∙ c.2 j other)
  after_get-Acquires id x w v (err e, u) h c =
      rolled_back-Acquires id x w u e (repo.release id x u) (h id ∙ c.0)
        (λ j other. h j ∙ c.2 j other) refl (law.release_frees id x u)

  after_claim-Acquires :
      (id : Uuid) (x : Text) (w : W) (p : Result Account × W)
      → Holds holder id x w p
      → Acquires holder repo id x w (after_claim repo guardrails callers id x p)
  after_claim-Acquires id x w (err e, v) h = ((λ j _. h j), inl (h id))
  after_claim-Acquires id x w (ok a, v) h =
      after_get-Acquires id x w v (repo.get_with_proxy id v) (law.get_keeps id v) h

  -- From the state that CheckEligibility leaves back to the one before it.
  earlier-Acquires :
      (id : Uuid) (x : Text) (w v : W) (p : Result AccountWithProxy × W)
      → Same holder w v
      → Acquires holder repo id x v p
      → Acquires holder repo id x w p
  earlier-Acquires id x w v (ok a, u) h c = (
    c.0,
    elim c.1 [ inl e ↦ inl (sym (h id) ∙ e) | inr e ↦ inr (sym (h id) ∙ e) ],
    λ j other. c.2 j other ∙ h j,
  )
  earlier-Acquires id x w v (err e, u) h c = (
    (λ j other. c.0 j other ∙ h j),
    elim c.1 [ inl same ↦ inl (same ∙ h id) | inr rest ↦ inr rest ],
  )

  if-Acquires :
      (b : Bool) (id : Uuid) (x : Text) (w : W) (p q : Result AccountWithProxy × W)
      → Acquires holder repo id x w p
      → Acquires holder repo id x w q
      → Acquires holder repo id x w (if b then p else q)
  if-Acquires true id x w p q h k = h
  if-Acquires false id x w p q h k = k

  after_check-Acquires :
      (id : Uuid) (x : Text) (w : W) (p : Result EligibilityDecision × W)
      → Same holder w p.1
      → Acquires holder repo id x w (after_check repo guardrails callers id x p)
  after_check-Acquires id x w (err e, v) h = ((λ j _. h j), inl (h id))
  after_check-Acquires id x w (ok d, v) h = earlier-Acquires id x w v _ h (
      if-Acquires (not d.is_eligible && not (is_busy_reason (normalize_decision d).reason_code)) id
        x v _ _
        (rejected-Acquires id x v (normalize_decision d).reason_code _
          (apply_decision-Same id (normalize_decision d) v))
        (after_claim-Acquires id x v (repo.claim id x v) (law.claim_holds id x v)))

  -- Over any repository whose calls keep to the rules, Acquire gives a context only an account that
  -- was free or its own, and moves no other account. When it reports an error, the account has its
  -- old holder or none, unless the release that was to roll the claim back failed.
  pub acquire-Acquires :
      (id : Uuid) (x : Text) (w : W)
      → Acquires holder repo id x w (acquire repo guardrails callers id x w)
  unfolding acquire
  acquire-Acquires id x w =
      after_check-Acquires id x w (repo.check_eligibility id w) (law.check_keeps id w)
