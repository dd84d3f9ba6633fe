-- ===== src/Worker/Claimed.antt =====
-- executeClaimedTask, ClaimOnce and runIteration (internal/worker/claim_loop.go).
pub mod Protocol
use follower_bmad.Base.{Bool, true, false, not, ◌&&◌, Option, none, some, List, [], if◌then◌else◌}
use follower_bmad.Text.{Text, text, codes, is_empty}
use follower_bmad.Errors.Code.{new_domain_error, internal_error}
use follower_bmad.Errors.Value.{GoError, domain_error, lifecycle_error_code}
use follower_bmad.Errors.Result.{Result, ok, err}
use follower_bmad.Domain.Task.{Task}
use follower_bmad.Domain.Follow.{
  FollowOutcome, FollowFlowInput, VerificationInput, VerificationResult,
}
use follower_bmad.Domain.Follow.Finalization.{FinalizationInput}
use follower_bmad.Worker.Policy.{classify_completion, classify_finalization_error}
use follower_bmad.Worker.Stages.{
  normalize_outcome, verification_from_error, payload_for_finalization, is_bootstrap_code,
  requires_bootstrap, requests_bootstrap,
}
use follower_bmad.Worker.Program.{
  Prepared, FollowRun, VerifyRun, metric_claimed, metric_started, snapshot, claim_next_queued,
  prepare, resolve_bootstrap, finalize, Program, stop, call,
}
use follower_bmad.Worker.Loop.{
  ClaimLoop, record_error_metric, record_if, record_outcome_metric, complete_task,
  complete_after_error, release_execution_context, run_follow_stage, run_verify_stage,
  resolve_auth_bootstrap,
}

abbrev pub follow_input : Task → Prepared → Text → FollowFlowInput
follow_input task prepared context = record {
  task_id = task.id;
  account_id = task.account_id;
  attempt = task.attempt;
  execution_context_id = context;
  session_metadata = prepared.session_metadata;
  session_payload = prepared.session_payload;
  target_profile = task.target_profile;
}

abbrev pub verify_input : Task → Prepared → Text → FollowOutcome → VerificationInput
verify_input task prepared context outcome = record {
  task_id = task.id;
  account_id = task.account_id;
  attempt = task.attempt;
  execution_context_id = context;
  target_profile = task.target_profile;
  outcome = outcome;
  session_payload = prepared.session_payload;
}

abbrev pub finalize_input :
    Task → Prepared → FollowOutcome → FollowRun → VerificationResult → FinalizationInput
finalize_input task prepared outcome run verification = record {
  task_id = task.id;
  account_id = task.account_id;
  account_login = prepared.account_with_proxy.account.username;
  target_profile = task.target_profile;
  attempt = task.attempt;
  session_revision = prepared.session_metadata.revision;
  follow_outcome = outcome;
  follow_diagnostics = run.diagnostics;
  verification = verification;
  session_payload = payload_for_finalization verification;
}

-- The steps below share the task, its context and what follows the completion.
module _ (loop : ClaimLoop) (task : Task) (context : Text) (finish : Program) where
  abbrev pub known_verification : VerifyRun → VerificationResult
  known_verification v = elim v.error [ none ↦ v.result | some e ↦ verification_from_error e ]

  abbrev pub after_finalize :
      FollowOutcome → FollowRun → VerifyRun → VerificationResult → Option GoError → Program
  after_finalize outcome run v verification none =
      complete_task loop task.id (classify_completion outcome run.error verification v.error) finish
  after_finalize outcome run v verification (some e) =
      record_error_metric loop.metrics (codes "follow.finalize") (lifecycle_error_code e)
        (complete_task loop task.id (classify_finalization_error e) finish)

  -- From the last verification on.
  unfoldable pub finalize_task : Prepared → FollowOutcome → FollowRun → VerifyRun → Program
  finalize_task prepared outcome run v =
      let verification = known_verification v in
      call (finalize (finalize_input task prepared outcome run verification))
        (after_finalize outcome run v verification)

  -- The second follow run and verification, after a bootstrap that the first verification asked
  -- for.
  abbrev pub after_verify_bootstrap : Result Prepared → Program
  after_verify_bootstrap (err e) =
      complete_after_error loop task (codes "bootstrap_login_failed") e finish
  after_verify_bootstrap (ok prepared) =
      run_follow_stage loop (follow_input task prepared context) (λ run.
        let outcome = normalize_outcome run.outcome run.error in
        record_outcome_metric loop.metrics outcome (
          run_verify_stage loop (verify_input task prepared context outcome)
            (finalize_task prepared outcome run)))

  -- From the verification on.
  unfoldable pub verify_task : Prepared → Bool → FollowRun → Program
  verify_task prepared recovered run =
      let outcome = normalize_outcome run.outcome run.error in
      record_outcome_metric loop.metrics outcome (
        run_verify_stage loop (verify_input task prepared context outcome) (λ v.
          if not recovered && requests_bootstrap v.result v.error
          then resolve_auth_bootstrap task prepared after_verify_bootstrap
          else finalize_task prepared outcome run v))

  -- The second follow run, after a bootstrap that the first one asked for.
  abbrev pub after_follow_bootstrap : Result Prepared → Program
  after_follow_bootstrap (err e) =
      complete_after_error loop task (codes "bootstrap_login_failed") e finish
  after_follow_bootstrap (ok prepared) =
      run_follow_stage loop (follow_input task prepared context) (verify_task prepared true)

  -- From the first follow run on.
  unfoldable pub follow_task : Prepared → Program
  follow_task prepared = run_follow_stage loop (follow_input task prepared context) (λ run.
      if requires_bootstrap run.error
      then resolve_auth_bootstrap task prepared after_follow_bootstrap
      else verify_task prepared false run)

  abbrev pub bootstrap_reason : GoError → Text
  bootstrap_reason e =
      if is_bootstrap_code (lifecycle_error_code e)
      then codes "bootstrap_pending"
      else codes "bootstrap_login_failed"

  abbrev pub after_bootstrap : Result Prepared → Program
  after_bootstrap (err e) = complete_after_error loop task (bootstrap_reason e) e finish
  after_bootstrap (ok prepared) =
      if prepared.ready_for_follow_flow
      then follow_task prepared
      else complete_after_error loop task (codes "follow_prerequisites_not_ready")
          (domain_error (
            new_domain_error internal_error
              (text "prepared execution context is not ready for follow flow")))
          finish

-- executionContextID
abbrev pub context_of : Task → Prepared → Text
context_of task prepared =
    if is_empty prepared.execution_context_id
    then task.claimed_by
    else prepared.execution_context_id

abbrev pub after_prepare : ClaimLoop → Task → Result Prepared → Program
after_prepare loop task (err e) = stop
after_prepare loop task (ok prepared) =
    let context = context_of task prepared in
    call (resolve_bootstrap task prepared)
      (after_bootstrap loop task context (release_execution_context loop task context stop))

-- executeClaimedTask
unfoldable pub execute_claimed_task : ClaimLoop → Task → Program
execute_claimed_task loop task =
    if loop.has_execution
    then call (prepare task) (after_prepare loop task)
    else complete_after_error loop task (codes "execution_service_not_configured")
        (domain_error
          (new_domain_error internal_error (text "execution service is not configured")))
        stop

-- ClaimOnce after the claim, with runIteration
abbrev pub after_claim : ClaimLoop → Result (Option Task) → Program
after_claim loop (err e) =
    record_error_metric loop.metrics (codes "claim") (lifecycle_error_code e) stop
after_claim loop (ok none) = stop
after_claim loop (ok (some task)) =
    record_if loop.metrics metric_claimed
      (record_if loop.metrics metric_started (execute_claimed_task loop task))

-- runIteration
unfoldable pub run_iteration : ClaimLoop → Program
run_iteration loop =
    let claim = call (claim_next_queued loop.worker_id) (after_claim loop) in
    if loop.has_health then call snapshot (λ ready. if ready then claim else stop) else claim
