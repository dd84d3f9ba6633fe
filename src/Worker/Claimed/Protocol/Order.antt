-- ===== src/Worker/Claimed/Protocol/Order.antt =====
-- The program of a claimed task and the protocol (internal/worker/claim_loop.go).
use follower_bmad.Base.{refl, Bool, true, false, if◌then◌else◌, Option, none, some}
use follower_bmad.Text.{Text, text, codes}
use follower_bmad.Errors.Code.{new_domain_error, internal_error}
use follower_bmad.Errors.Value.{GoError, domain_error, lifecycle_error_code}
use follower_bmad.Errors.Result.{Result, ok, err}
use follower_bmad.Domain.Task.{Task}
use follower_bmad.Domain.Follow.{FollowOutcome, VerificationResult}
use follower_bmad.Worker.Policy.{classify_completion, classify_finalization_error}
use follower_bmad.Worker.Stages.{normalize_outcome, requires_bootstrap, requests_bootstrap}
use follower_bmad.Worker.Policy.Laws.{
  classify_completion-IsAccepted, classify_finalization_error-IsAccepted,
}
use follower_bmad.Worker.Program.{Prepared, FollowRun, VerifyRun, prepare, Program, stop, call}
use follower_bmad.Worker.Loop.{
  ClaimLoop, complete_after_error, release_execution_context, resolve_auth_bootstrap,
  checked_bootstrap,
}
use follower_bmad.Worker.Claimed.{
  context_of, after_finalize, finalize_task, after_verify_bootstrap, verify_task,
  after_follow_bootstrap, follow_task, after_bootstrap, after_prepare, execute_claimed_task,
}
use follower_bmad.Worker.Claimed.Protocol.{
  Phase, unserved, begun, held, finalized, settled, to_held, on_stage, after_resolve, is_ready,
  Obeys, first_phase, prepared, ready, followed, asked, renewed, refollowed, verified, failed,
}
use follower_bmad.Worker.Claimed.Protocol.Stages.{
  record_error_metric-Obeys, record_outcome_metric-Obeys, complete_task-Obeys,
  complete_after_error-Obeys, release-Obeys, branch-Obeys, run_follow_stage-Obeys,
  run_verify_stage-Obeys,
}

module _ (loop : ClaimLoop) (task : Task) where
  abbrev Follows : Phase → Program → Type 0
  Follows = Obeys loop.worker_id task

  module _ (x : Text) (finish : Program) (h : Follows (settled x) finish) where
    after_finalize-Obeys :
        (outcome : FollowOutcome) (run : FollowRun) (v : VerifyRun) (w : VerificationResult)
        (e : Option GoError)
        → Follows (finalized x) (after_finalize loop task x finish outcome run v w e)
    after_finalize-Obeys outcome run v w none =
        complete_task-Obeys loop task (classify_completion outcome run.error w v.error)
          (finalized x) finish (classify_completion-IsAccepted outcome run.error w v.error) tt h
    after_finalize-Obeys outcome run v w (some e) =
        record_error_metric-Obeys loop task loop.metrics (codes "follow.finalize")
          (lifecycle_error_code e) (finalized x) _
          (complete_task-Obeys loop task (classify_finalization_error e) (finalized x) finish
            (classify_finalization_error-IsAccepted e) tt h)

    finalize_task-Obeys :
        (p : Prepared) (outcome : FollowOutcome) (run : FollowRun) (v : VerifyRun)
        → Follows (held verified x) (finalize_task loop task x finish p outcome run v)
    unfolding finalize_task
    finalize_task-Obeys p outcome run v =
        ((refl, refl, refl, refl, tt), λ e. after_finalize-Obeys outcome run v _ e)

    failed-Obeys :
        (reason : Text) (e : GoError)
        → Follows (held failed x) (complete_after_error loop task reason e finish)
    failed-Obeys reason e =
        complete_after_error-Obeys loop task reason e (held failed x) finish tt h

    after_verify_bootstrap-Obeys :
        (p : Prepared) → Follows (held renewed x) (after_verify_bootstrap loop task x finish (ok p))
    after_verify_bootstrap-Obeys p =
        run_follow_stage-Obeys loop task _ (held renewed x) _ (refl, refl, refl, refl, refl)
          (λ run.
            let outcome = normalize_outcome run.outcome run.error in
            record_outcome_metric-Obeys loop task loop.metrics outcome (held refollowed x) _ (
              run_verify_stage-Obeys loop task _ (held refollowed x) _
                (refl, refl, refl, refl, refl) (finalize_task-Obeys p outcome run)))

    -- The second bootstrap, and what follows it where it leaves the task ready and where not.
    resolve_auth_bootstrap-Obeys :
        (p : Prepared) (rest : Result Prepared → Program)
        → ((q : Prepared) → Follows (held renewed x) (rest (ok q)))
        → ((e : GoError) → Follows (held failed x) (rest (err e)))
        → Follows (held asked x) (resolve_auth_bootstrap task p rest)
    unfolding resolve_auth_bootstrap
    resolve_auth_bootstrap-Obeys p rest k l = ((refl, tt), answered)
      where
        checked :
            (b : Bool) (q : Prepared) (e : GoError)
            → Follows (held (if b then renewed else failed) x) (rest (if b then ok q else err e))
        checked true q e = k q
        checked false q e = l e

        answered :
            (r : Result Prepared)
            → Follows
                (on_stage (after_resolve (is_ready r)) (held asked x))
                (rest (checked_bootstrap r))
        answered (ok q) = checked q.ready_for_follow_flow q _
        answered (err e) = l e

    -- The verification of the first follow run, and that of a second one.
    verify_task-Obeys :
        (p : Prepared) (run : FollowRun)
        → Follows (held followed x) (verify_task loop task x finish p false run)
    unfolding verify_task
    verify_task-Obeys p run =
        let outcome = normalize_outcome run.outcome run.error in
        record_outcome_metric-Obeys loop task loop.metrics outcome (held followed x) _ (
          run_verify_stage-Obeys loop task _ (held followed x) _ (refl, refl, refl, refl, refl)
            (λ v.
              branch-Obeys loop task (requests_bootstrap v.result v.error) asked verified x _ _
                (resolve_auth_bootstrap-Obeys p _ after_verify_bootstrap-Obeys (failed-Obeys _))
                (finalize_task-Obeys p outcome run v)))

    verify_again-Obeys :
        (p : Prepared) (run : FollowRun)
        → Follows (held refollowed x) (verify_task loop task x finish p true run)
    unfolding verify_task
    verify_again-Obeys p run =
        let outcome = normalize_outcome run.outcome run.error in
        record_outcome_metric-Obeys loop task loop.metrics outcome (held refollowed x) _ (
          run_verify_stage-Obeys loop task _ (held refollowed x) _ (refl, refl, refl, refl, refl)
            (finalize_task-Obeys p outcome run))

    after_follow_bootstrap-Obeys :
        (p : Prepared) → Follows (held renewed x) (after_follow_bootstrap loop task x finish (ok p))
    after_follow_bootstrap-Obeys p =
        run_follow_stage-Obeys loop task _ (held renewed x) _ (refl, refl, refl, refl, refl)
          (verify_again-Obeys p)

    follow_task-Obeys : (p : Prepared) → Follows (held ready x) (follow_task loop task x finish p)
    unfolding follow_task
    follow_task-Obeys p =
        run_follow_stage-Obeys loop task _ (held ready x) _ (refl, refl, refl, refl, refl)
          (λ run.
            branch-Obeys loop task (requires_bootstrap run.error) asked followed x _ _
              (resolve_auth_bootstrap-Obeys p _ after_follow_bootstrap-Obeys (failed-Obeys _))
              (verify_task-Obeys p run))

    after_bootstrap-Obeys :
        (r : Result Prepared)
        → Follows
            (on_stage (after_resolve (is_ready r)) (held prepared x))
            (after_bootstrap loop task x finish r)
    after_bootstrap-Obeys (err e) = failed-Obeys _ e
    after_bootstrap-Obeys (ok p) =
        branch-Obeys loop task p.ready_for_follow_flow ready failed x _ _ (follow_task-Obeys p)
          (failed-Obeys _ _)

  after_prepare-Obeys : (r : Result Prepared) → Follows (to_held task r) (after_prepare loop task r)
  after_prepare-Obeys (err e) = tt
  after_prepare-Obeys (ok p) =
      let x = context_of task p in
      (
        (refl, tt),
        after_bootstrap-Obeys x (release_execution_context loop task x stop)
            (release-Obeys loop task x),
      )

-- Whatever its dependencies answer, the claim loop makes these calls for a claimed task, in this
-- order and no others but those of the metrics. It prepares the task; if that gives an error, it
-- stops. It resolves the bootstrap and, if the task is then ready, runs the follow once and, if
-- that asks for no bootstrap, verifies it once. If the follow or its verification asks for a
-- bootstrap, it resolves one a second time and, if the task is then ready, runs the follow and
-- verifies it once more. After the last verification it finalizes once. After that, or where a task
-- is not ready, it completes the task exactly once, with its own worker id and with a status, a
-- code and a reason that the database accepts, and at last releases the account, exactly once, from
-- the context that held it in each run and verification. Each run, verification and finalization is
-- of the task's own account, target and attempt. Without an execution service it only completes the
-- task.
pub execute_claimed_task-Obeys :
    (loop : ClaimLoop) (task : Task)
    → Obeys loop.worker_id task (first_phase loop) (execute_claimed_task loop task)
unfolding execute_claimed_task
execute_claimed_task-Obeys loop task = served loop.has_execution
  where
    served :
        (b : Bool)
        → Obeys loop.worker_id task (if b then begun else unserved) (
            if b
            then call (prepare task) (after_prepare loop task)
            else complete_after_error loop task
                (codes "execution_service_not_configured")
                (domain_error
                  (new_domain_error internal_error (text "execution service is not configured")))
                stop)
    served true = ((refl, tt), after_prepare-Obeys loop task)
    served false =
        complete_after_error-Obeys loop task (codes "execution_service_not_configured") _ unserved
          stop tt tt
