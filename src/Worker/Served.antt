-- ===== src/Worker/Served.antt =====
-- The claim loop run against the execution service (internal/worker/claim_loop.go,
-- execution_service.go): `serve` answers each call of the loop.
use mathlib.Core.Path.{subst}
use follower_bmad.Base.{
  ◌≡◌, refl, sym, ap, ◌∙◌, inl, inr, Bool, true, false, if◌then◌else◌, Option, none, some, List, [],
  ◌∷◌,
}
use follower_bmad.Text.{Text, is_empty}
use follower_bmad.Errors.Value.{GoError}
use follower_bmad.Errors.Result.{Result, ok, err, is_ok}
use follower_bmad.Domain.Ids.{Uuid}
use follower_bmad.Domain.Task.{Task}
use follower_bmad.Domain.Follow.{FollowFlowInput, VerificationInput}
use follower_bmad.Domain.Follow.Finalization.{FinalizationInput}
use follower_bmad.Worker.Guard.{release_guarded}
use follower_bmad.Worker.Guard.Exclusive.{Same, OthersSame, Frees}
use follower_bmad.Worker.Program.{
  Prepared, FollowRun, VerifyRun, Metric, Call, Answer, snapshot, claim_next_queued, prepare,
  run_follow_flow, verify_follow_result, finalize, complete, release, record_metric, Program, stop,
  call, perform,
}
use follower_bmad.Worker.Program
use follower_bmad.Worker.Loop.{ClaimLoop}
use follower_bmad.Worker.Claimed.{context_of, execute_claimed_task}
use follower_bmad.Worker.Claimed.Protocol.{
  Stage, Phase, unserved, begun, abandoned, freed, held, finalized, settled, next, on_stage,
  Allowed, Obeys, first_phase, to_finalized, to_settled, to_held, IsBegun, IsSettled, IsEnd,
}
use follower_bmad.Worker.Claimed.Protocol.Order.{execute_claimed_task-Obeys}
use follower_bmad.Worker.Prepare.{Services, prepare_claimed_task}
use follower_bmad.Worker.Prepare.Bootstrap.{resolve_bootstrap}
use follower_bmad.Worker.Prepare.Holding.{
  IsQuiet, Leaves, Prepares, Same-Leaves, prepare_claimed_task-Prepares,
}
use follower_bmad.Worker.Prepare.Resolved.{Resolves, resolve_bootstrap-Resolves}

-- The dependencies of the loop that are not the preparation: the task repository's claim, health,
-- the follow and verify runners, the finalization and the metrics.
pub record Surroundings (W : Type 0) : Type 0 where
  pub is_ready : W → Bool × W
  pub claim : Text → W → Result (Option Task) × W
  pub run_follow : FollowFlowInput → W → FollowRun × W
  pub verify : VerificationInput → W → VerifyRun × W
  pub finalize_follow : FinalizationInput → W → Option GoError × W
  pub record_one : Metric → W → W

abbrev pub as_error : {W : Type 0} → Result (Unit {0}) × W → Option GoError × W
as_error (ok _, w) = (none, w)
as_error (err e, w) = (some e, w)

module _ {W : Type 0} (s : Services W) (t : Surroundings W) where
  -- The execution service and the repositories, as the loop calls them.
  abbrev pub serve : (c : Call) → W → Answer c × W
  serve snapshot w = t.is_ready w
  serve (claim_next_queued claimed_by) w = t.claim claimed_by w
  serve (prepare task) w = prepare_claimed_task s task w
  serve (Program.resolve_bootstrap task prepared) w = resolve_bootstrap s task prepared w
  serve (run_follow_flow i) w = t.run_follow i w
  serve (verify_follow_result i) w = t.verify i w
  serve (finalize i) w = t.finalize_follow i w
  serve (complete id claimed_by c) w = s.complete id claimed_by c w
  serve (release id context) w =
      as_error (release_guarded s.repo s.guardrails s.callers id context w)
  serve (record_metric m) w = (tt, t.record_one m w)

-- These dependencies move no account.
pub record IsCalm {W : Type 0} (holder : Uuid → W → Text) (t : Surroundings W) : Type 0 where
  pub follow_keeps : (i : FollowFlowInput) (w : W) → Same holder w (t.run_follow i w).1
  pub verify_keeps : (i : VerificationInput) (w : W) → Same holder w (t.verify i w).1
  pub finalize_keeps : (i : FinalizationInput) (w : W) → Same holder w (t.finalize_follow i w).1
  pub record_keeps : (m : Metric) (w : W) → Same holder w (t.record_one m w)

module _ {W : Type 0} (holder : Uuid → W → Text) (s : Services W) (t : Surroundings W)
    (quiet : IsQuiet holder s) (calm : IsCalm holder t) (task : Task) (w : W) where
  -- The task's worker holds the account, which the context is the name of.
  abbrev Working : Text → W → Type 0
  Working x v =
      (x ≡ task.claimed_by)
      × (holder task.account_id v ≡ task.claimed_by)
      × OthersSame holder task.account_id w v

  -- The holders in a phase, from those before the work on the task.
  abbrev Kept : Phase → W → Type 0
  Kept begun v = Same holder w v
  Kept unserved v = Same holder w v
  Kept abandoned v = Leaves holder s quiet task.account_id task.claimed_by w v
  Kept freed v = Leaves holder s quiet task.account_id task.claimed_by w v
  Kept (held n x) v = Working x v
  Kept (finalized x) v = Working x v
  Kept (settled x) v = Working x v

  Same-Working : (x : Text) (v u : W) → Same holder v u → Working x v → Working x u
  Same-Working x v u h k = (k.0, h task.account_id ∙ k.1, λ j other. h j ∙ k.2 j other)

  -- A call that moves no account.
  Same-Kept : (ph : Phase) (v u : W) → Same holder v u → Kept ph v → Kept ph u
  Same-Kept begun v u h k = λ j. h j ∙ k j
  Same-Kept unserved v u h k = λ j. h j ∙ k j
  Same-Kept abandoned v u h k = Same-Leaves holder s quiet task.account_id task.claimed_by w v u h k
  Same-Kept freed v u h k = Same-Leaves holder s quiet task.account_id task.claimed_by w v u h k
  Same-Kept (held n x) v u h k = Same-Working x v u h k
  Same-Kept (finalized x) v u h k = Same-Working x v u h k
  Same-Kept (settled x) v u h k = Same-Working x v u h k

  to_finalized-Kept : (ph : Phase) (v : W) → Kept ph v → Kept (to_finalized ph) v
  to_finalized-Kept (held n x) v k = k
  to_finalized-Kept begun v k = k
  to_finalized-Kept unserved v k = k
  to_finalized-Kept abandoned v k = k
  to_finalized-Kept freed v k = k
  to_finalized-Kept (finalized x) v k = k
  to_finalized-Kept (settled x) v k = k

  to_settled-Kept : (ph : Phase) (v : W) → Kept ph v → Kept (to_settled ph) v
  to_settled-Kept (held n x) v k = k
  to_settled-Kept begun v k = k
  to_settled-Kept unserved v k = ((λ j _. k j), inl (k task.account_id))
  to_settled-Kept abandoned v k = k
  to_settled-Kept freed v k = k
  to_settled-Kept (finalized x) v k = k
  to_settled-Kept (settled x) v k = k

  on_stage-Kept : (f : Stage → Stage) (ph : Phase) (v : W) → Kept ph v → Kept (on_stage f ph) v
  on_stage-Kept f (held n x) v k = k
  on_stage-Kept f begun v k = k
  on_stage-Kept f unserved v k = k
  on_stage-Kept f abandoned v k = k
  on_stage-Kept f freed v k = k
  on_stage-Kept f (finalized x) v k = k
  on_stage-Kept f (settled x) v k = k

  -- From the state before the preparation back to the one before the work on the task.
  earlier-Leaves :
      (v u : W)
      → Same holder w v
      → Leaves holder s quiet task.account_id task.claimed_by v u
      → Leaves holder s quiet task.account_id task.claimed_by w u
  earlier-Leaves v u k h = (
    (λ j other. h.0 j other ∙ k j),
    elim h.1 [ inl same ↦ inl (same ∙ k task.account_id) | inr rest ↦ inr rest ],
  )

  context_of_lem :
      (p : Prepared)
      → p.execution_context_id ≡ task.claimed_by
      → context_of task p ≡ task.claimed_by
  context_of_lem p same = either (is_empty p.execution_context_id)
    where
      either :
          (b : Bool) → (if b then task.claimed_by else p.execution_context_id) ≡ task.claimed_by
      either true = refl
      either false = same

  prepared-Kept :
      (v : W) (r : Result Prepared × W)
      → Kept begun v
      → Prepares holder s quiet task.account_id task.claimed_by v r
      → Kept (to_held task r.0) r.1
  prepared-Kept v (ok p, u) k h = (context_of_lem p h.3, h.0, λ j other. h.2 j other ∙ k j)
  prepared-Kept v (err e, u) k h = earlier-Leaves v u k h

  released-Kept :
      (v : W) (r : Result (Unit {0}) × W)
      → Working task.claimed_by v
      → r ≡ s.repo.release task.account_id task.claimed_by v
      → Frees holder task.account_id v r
      → Leaves holder s quiet task.account_id task.claimed_by w (as_error r).1
  released-Kept v (ok _, u) k same f = ((λ j other. f.1 j other ∙ k.2 j other), inr (inl f.0))
  released-Kept v (err e, u) k same f = (
    (λ j other. f j ∙ k.2 j other),
    inr (inr (f task.account_id ∙ k.1, (v, f, sym (ap (λ q. is_ok q.0) same)))),
  )

  resolved_Same :
      (u : Task) (p : Prepared) (v : W) (r : Result Prepared × W)
      → Resolves holder s quiet u p v r
      → Same holder v r.1
  resolved_Same u p v (ok q, x) h = h.0
  resolved_Same u p v (err e, x) h = h.0

  begun-Same : (ph : Phase) (v : W) → IsBegun ph → Kept ph v → Same holder w v
  begun-Same begun v b k = k
  begun-Same unserved v b k = absurd b
  begun-Same abandoned v b k = absurd b
  begun-Same freed v b k = absurd b
  begun-Same (held n x) v b k = absurd b
  begun-Same (finalized x) v b k = absurd b
  begun-Same (settled x) v b k = absurd b

  settled-Working : (y : Text) (ph : Phase) (v : W) → IsSettled y ph → Kept ph v → Working y v
  settled-Working y (settled x) v b k = (b ∙ k.0, k.1, k.2)
  settled-Working y begun v b k = absurd b
  settled-Working y unserved v b k = absurd b
  settled-Working y abandoned v b k = absurd b
  settled-Working y freed v b k = absurd b
  settled-Working y (held n x) v b k = absurd b
  settled-Working y (finalized x) v b k = absurd b

  -- What an allowed call leaves.
  step-Kept :
      (worker : Text) (ph : Phase) (c : Call) (v : W)
      → Allowed worker task ph c
      → Kept ph v
      → Kept (next task c (serve s t c v).0 ph) (serve s t c v).1
  step-Kept worker ph snapshot v a k = absurd a
  step-Kept worker ph (claim_next_queued x) v a k = absurd a
  step-Kept worker ph (prepare u) v a k = prepared-Kept v _ (begun-Same ph v a.1 k) (
      subst
        (λ (x : Task).
          Prepares holder s quiet task.account_id task.claimed_by v (prepare_claimed_task s x v))
        (sym a.0) (prepare_claimed_task-Prepares holder s quiet task v))
  step-Kept worker ph (Program.resolve_bootstrap u p) v a k =
      on_stage-Kept _ ph _ (
        Same-Kept ph v _ (resolved_Same u p v _ (resolve_bootstrap-Resolves holder s quiet u p v))
          k)
  step-Kept worker ph (run_follow_flow i) v a k =
      on_stage-Kept _ ph _ (Same-Kept ph v _ (calm.follow_keeps i v) k)
  step-Kept worker ph (verify_follow_result i) v a k =
      on_stage-Kept _ ph _ (Same-Kept ph v _ (calm.verify_keeps i v) k)
  step-Kept worker ph (finalize i) v a k =
      to_finalized-Kept ph _ (Same-Kept ph v _ (calm.finalize_keeps i v) k)
  step-Kept worker ph (complete id x c) v a k =
      to_settled-Kept ph _ (Same-Kept ph v _ (quiet.complete_keeps id x c v) k)
  step-Kept worker ph (release id y) v a k =
      let k' = settled-Working y ph v a.1 k in
      unfold release_guarded in
      subst
        (λ (c : Uuid × Text).
          Leaves holder s quiet task.account_id task.claimed_by w
            (as_error (s.repo.release c.0 c.1 v)).1)
        (ap (λ x. (task.account_id, x)) (sym k'.0) ∙ ap (λ i. (i, y)) (sym a.0))
        (released-Kept v _ (refl, k'.1, k'.2) refl
          (quiet.guard.release_frees task.account_id task.claimed_by v))
  step-Kept worker ph (record_metric m) v a k = Same-Kept ph v _ (calm.record_keeps m v) k

  ended-Leaves :
      (ph : Phase) (v : W)
      → IsEnd ph
      → Kept ph v
      → Leaves holder s quiet task.account_id task.claimed_by w v
  ended-Leaves abandoned v e k = k
  ended-Leaves freed v e k = k
  ended-Leaves begun v e k = absurd e
  ended-Leaves unserved v e k = absurd e
  ended-Leaves (held n x) v e k = absurd e
  ended-Leaves (finalized x) v e k = absurd e
  ended-Leaves (settled x) v e k = absurd e

  perform-Leaves :
      (program : Program) (worker : Text) (ph : Phase) (v : W) (made : List Call)
      → Obeys worker task ph program
      → Kept ph v
      → Leaves holder s quiet task.account_id task.claimed_by w
          (perform (serve s t) program v made).0
  unfolding perform
  perform-Leaves stop worker ph v made o k = ended-Leaves ph v o k
  perform-Leaves (call c next_program) worker ph v made o k =
      perform-Leaves (next_program (serve s t c v).0) worker (next task c (serve s t c v).0 ph)
        (serve s t c v).1 (c ∷ made) (o.1 (serve s t c v).0) (step-Kept worker ph c v o.0 k)

  first-Kept : (has_execution : Bool) → Kept (if has_execution then begun else unserved) w
  first-Kept true = λ j. refl
  first-Kept false = λ j. refl

  -- When the claim loop has worked on a claimed task, whatever its follows, verifications and
  -- finalizations answered, no account but the task's has changed its holder, and the task's has
  -- the holder that it had before or none, unless its release from this worker has failed, and then
  -- this worker holds it.
  pub execute_claimed_task-Leaves :
      (loop : ClaimLoop)
      → Leaves holder s quiet task.account_id task.claimed_by w
          (perform (serve s t) (execute_claimed_task loop task) w []).0
  execute_claimed_task-Leaves loop =
      perform-Leaves (execute_claimed_task loop task) loop.worker_id (first_phase loop) w []
        (execute_claimed_task-Obeys loop task) (first-Kept loop.has_execution)
