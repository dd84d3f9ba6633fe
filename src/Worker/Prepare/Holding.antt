-- ===== src/Worker/Prepare/Holding.antt =====
-- Who holds the account while a task is prepared (internal/worker/execution_service.go).
use mathlib.Core.Bool.{false≢true}
use follower_bmad.Base.{
  ◌≡◌, refl, sym, ap, ◌∙◌, ◌⊎◌, inl, inr, false, not, ◌||◌, Option, none, some, arith, if_ind, [],
}
use follower_bmad.Text.{Text, is_empty, is_blank}
use follower_bmad.Errors.Code.{DomainError}
use follower_bmad.Errors.Value.{GoError}
use follower_bmad.Errors.Result.{Result, ok, err, is_ok}
use follower_bmad.Domain.Ids.{Uuid, Bytes, is_nil}
use follower_bmad.Domain.Task.{Task}
use follower_bmad.Domain.Session.{SessionMetadata}
use follower_bmad.Domain.Bootstrap.{LoginInput}
use follower_bmad.Repo.Accounts.{AccountWithProxy}
use follower_bmad.Worker.Policy.{Completion}
use follower_bmad.Worker.Guard.{release_guarded}
use follower_bmad.Worker.Guard.Exclusive.{
  Same, OthersSame, CanHold, Frees, IsExclusive, Acquires, acquire-Acquires,
}
use follower_bmad.Worker.Program.{Prepared}
use follower_bmad.Worker.Prepare.{
  Services, Trace, trace_of, bootstrap_context, without_session, after_restore,
  after_restore_release, after_acquire, prepare_execution_context, after_failure,
  complete_preparation_failure, or_complete, checked_prepared, validate_claimed_task,
  prepare_claimed_task,
}

-- The calls of the other dependencies move no account.
pub record IsQuiet {W : Type 0} (holder : Uuid → W → Text) (s : Services W) : Type 0 where
  pub guard : IsExclusive holder s.repo
  pub restore_keeps : (id : Uuid) (w : W) → Same holder w (s.restore id w).1
  pub complete_keeps :
      (id : Uuid) (claimed_by : Text) (c : Completion) (w : W)
      → Same holder w (s.complete id claimed_by c w).1
  pub login_keeps : (i : LoginInput) (w : W) → Same holder w (s.login i w).1
  pub save_keeps :
      (id : Uuid) (login : Text) (payload : Bytes) (w : W)
      → Same holder w (s.save_session id login payload w).1
  pub artifact_keeps :
      (id : Uuid) (login : Text) (payload : Bytes) (w : W)
      → Same holder w (s.save_artifact id login payload w).1

module _ {W : Type 0} (holder : Uuid → W → Text) (s : Services W) (law : IsQuiet holder s) where
  -- The context `x` holds the account since a release of it from that context failed: there was a
  -- state with the same holders in which that release gives an error.
  abbrev pub IsStuck : Uuid → Text → W → Type 0
  IsStuck id x u =
      (holder id u ≡ x) × ((v : W) × Same holder v u × (is_ok (s.repo.release id x v).0 ≡ false))

  -- No other account has moved, and this one has its old holder or none, unless its release from
  -- the context `x` has failed.
  abbrev pub Leaves : Uuid → Text → W → W → Type 0
  Leaves id x w u =
      OthersSame holder id w u × ((holder id u ≡ holder id w) ⊎ (holder id u ≡ []) ⊎ IsStuck id x u)

  abbrev pub Prepares : Uuid → Text → W → Result Prepared × W → Type 0
  Prepares id x w (ok p, u) =
      (holder id u ≡ x)
      × CanHold holder id x w
      × OthersSame holder id w u
      × (p.execution_context_id ≡ x)
      × (p.ready_for_follow_flow ≡ not p.bootstrap_required)
  Prepares id x w (err e, u) = Leaves id x w u

  unmoved : (id : Uuid) (x : Text) (w : W) → Leaves id x w w
  unmoved id x w = ((λ j _. refl), inl refl)

  released-Prepares :
      (id : Uuid) (x : Text) (w v : W) (e : GoError) (p : Result (Unit {0}) × W)
      → holder id v ≡ x
      → OthersSame holder id w v
      → p ≡ s.repo.release id x v
      → Frees holder id v p
      → Prepares id x w (after_restore_release s e p)
  released-Prepares id x w v e (ok _, u) held others same f =
      ((λ j other. f.1 j other ∙ others j other), inr (inl f.0))
  released-Prepares id x w v e (err g, u) held others same f = (
    (λ j other. f j ∙ others j other),
    inr (inr (f id ∙ held, (v, f, sym (ap (λ q. is_ok q.0) same)))),
  )

  bootstrap_context_lem :
      (e : GoError) (found : AccountWithProxy) (x : Text) (trace : Trace) (p : Prepared)
      → bootstrap_context s e found x trace ≡ some p
      → (p.execution_context_id ≡ x) × (p.ready_for_follow_flow ≡ not p.bootstrap_required)
  unfolding bootstrap_context
  bootstrap_context_lem e found x trace p h = ground arith

  without_session-Prepares :
      (id : Uuid) (x : Text) (w v : W) (e : GoError) (found : AccountWithProxy) (trace : Trace)
      (o : Option Prepared)
      → bootstrap_context s e found x trace ≡ o
      → (holder id v ≡ x) × CanHold holder id x w × OthersSame holder id w v
      → Prepares id x w (without_session s id x e o v)
  without_session-Prepares id x w v e found trace (some p) h c = (
    c.0,
    c.1,
    c.2,
    (bootstrap_context_lem e found x trace p h).0,
    (bootstrap_context_lem e found x trace p h).1,
  )
  without_session-Prepares id x w v e found trace none h c =
      unfold release_guarded in
      released-Prepares id x w v e (s.repo.release id x v) c.0 c.2 refl
        (law.guard.release_frees id x v)

  -- The context still holds the account after a call that moves none.
  still :
      (id : Uuid) (x : Text) (w v u : W)
      → (holder id v ≡ x) × CanHold holder id x w × OthersSame holder id w v
      → Same holder v u
      → (holder id u ≡ x) × CanHold holder id x w × OthersSame holder id w u
  still id x w v u c h = (h id ∙ c.0, c.1, λ j other. h j ∙ c.2 j other)

  after_restore-Prepares :
      (id : Uuid) (x : Text) (w v : W) (trace : Trace) (found : AccountWithProxy)
      (r : Result (SessionMetadata × Bytes) × W)
      → (holder id v ≡ x) × CanHold holder id x w × OthersSame holder id w v
      → Same holder v r.1
      → Prepares id x w (after_restore s id x trace found r)
  after_restore-Prepares id x w v trace found (err e, u) c h =
      without_session-Prepares id x w u e found trace _ refl (still id x w v u c h)
  after_restore-Prepares id x w v trace found (ok (m, payload), u) c h =
      let t = still id x w v u c h in (t.0, t.1, t.2, refl, refl)

  -- A release that fails moves nothing.
  failed_keeps :
      (id : Uuid) (x : Text) (u : W) (p : Result (Unit {0}) × W)
      → p ≡ s.repo.release id x u
      → is_ok (s.repo.release id x u).0 ≡ false
      → Frees holder id u p
      → Same holder u (s.repo.release id x u).1
  failed_keeps id x u (ok _, v) same failed f =
      absurd (false≢true (sym failed ∙ sym (ap (λ q. is_ok q.0) same)))
  failed_keeps id x u (err e, v) same failed f = λ j. sym (ap (λ q. holder j q.1) same) ∙ f j

  after_acquire-Prepares :
      (id : Uuid) (x : Text) (w : W) (trace : Trace) (r : Result AccountWithProxy × W)
      → Acquires holder s.repo id x w r
      → Prepares id x w (after_acquire s id x trace r)
  after_acquire-Prepares id x w trace (err e, v) h = (
    h.0,
    elim h.1 [
      | inl same ↦ inl same
      | inr (inl free) ↦ inr (inl free)
      | inr (inr (u, held, failed, at)) ↦
          let kept : Same holder u v = λ j.
            ap (holder j) at
            ∙ failed_keeps id x u _ refl failed (law.guard.release_frees id x u) j in
          inr (inr (kept id ∙ held, (u, kept, failed)))
    ],
  )
  after_acquire-Prepares id x w trace (ok found, v) h =
      after_restore-Prepares id x w v trace found (s.restore id v) h (law.restore_keeps id v)

  prepare_execution_context-Prepares :
      (id : Uuid) (x : Text) (trace : Trace) (w : W)
      → Prepares id x w (prepare_execution_context s id x trace w)
  unfolding prepare_execution_context
  prepare_execution_context-Prepares id x trace w =
      if_ind (Prepares id x w) (is_nil id) _ _ (λ _. unmoved id x w)
        (λ _.
          if_ind (Prepares id x w) (is_empty x) _ _ (λ _. unmoved id x w)
            (λ _.
              after_acquire-Prepares id x w trace _
                (acquire-Acquires holder s.repo s.guardrails s.callers law.guard id x w)))

  -- A later call that moves no account.
  pub Same-Leaves :
      (id : Uuid) (x : Text) (w v u : W) → Same holder v u → Leaves id x w v → Leaves id x w u
  Same-Leaves id x w v u h p = (
    (λ j other. h j ∙ p.0 j other),
    elim p.1 [
      | inl same ↦ inl (h id ∙ same)
      | inr (inl free) ↦ inr (inl (h id ∙ free))
      | inr (inr (held, (t, at, failed))) ↦ inr (inr (h id ∙ held, (t, (λ j. h j ∙ at j), failed)))
    ],
  )

  after_failure-Prepares :
      (id : Uuid) (x : Text) (w : W) (e : GoError) (r : Result Task × W)
      → Leaves id x w r.1
      → Prepares id x w (after_failure s e r)
  after_failure-Prepares id x w e (ok t, u) h = h
  after_failure-Prepares id x w e (err f, u) h = h

  complete_preparation_failure-Prepares :
      (task : Task) (id : Uuid) (x : Text) (w v : W) (e : GoError)
      → Leaves id x w v
      → Prepares id x w (complete_preparation_failure s task e v)
  unfolding complete_preparation_failure
  complete_preparation_failure-Prepares task id x w v e h =
      if_ind (Prepares id x w) (not s.has_completer) _ _ (λ _. h)
        (λ _.
          if_ind (Prepares id x w) (is_nil task.id || is_blank task.claimed_by) _ _ (λ _. h)
            (λ _.
              after_failure-Prepares id x w e _
                (Same-Leaves id x w v _ (law.complete_keeps task.id task.claimed_by _ v) h)))

  or_complete-Prepares :
      (task : Task) (id : Uuid) (x : Text) (w : W) (r : Result Prepared × W)
      → Prepares id x w r
      → Prepares id x w (or_complete s task r)
  or_complete-Prepares task id x w (ok p, v) h = h
  or_complete-Prepares task id x w (err e, v) h =
      complete_preparation_failure-Prepares task id x w v e h

  checked-Prepares :
      (id : Uuid) (x : Text) (w : W) (o : Option DomainError) (r : Result Prepared × W)
      → Prepares id x w r
      → Prepares id x w (checked_prepared s o w r)
  checked-Prepares id x w none r h = h
  checked-Prepares id x w (some e) r h = unmoved id x w

  -- Preparing a claimed task moves no account but the task's. With a context, the task's account
  -- was free or held by the task's worker, this worker holds it now, and the context names the
  -- worker and is ready for follows exactly if it requires no bootstrap. With an error, the account
  -- has its old holder or none, unless its release from this worker has failed, and then this
  -- worker holds it; recording the failure moves nothing.
  pub prepare_claimed_task-Prepares :
      (task : Task) (w : W)
      → Prepares task.account_id task.claimed_by w (prepare_claimed_task s task w)
  unfolding prepare_claimed_task
  prepare_claimed_task-Prepares task w =
      checked-Prepares task.account_id task.claimed_by w (validate_claimed_task task) _ (
        or_complete-Prepares task task.account_id task.claimed_by w _
          (prepare_execution_context-Prepares task.account_id task.claimed_by (trace_of s task) w))
