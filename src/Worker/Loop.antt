-- ===== src/Worker/Loop.antt =====
-- ClaimLoop (internal/worker/claim_loop.go) as a program over its dependencies, without its logs.
-- `rest` is what follows a call; the deferred release follows the completion of the task.
use follower_bmad.Base.{Bool, true, false, Option, none, some, [], ◌++◌, if◌then◌else◌}
use follower_bmad.Text.{Text, text, codes, is_blank, trim_space}
use follower_bmad.Errors.Code.{ErrorCode, new_domain_error, internal_error, auth_bootstrap_required}
use follower_bmad.Errors.Value.{GoError, domain_error, lifecycle_error_code}
use follower_bmad.Errors.Result.{Result, ok, err}
use follower_bmad.Domain.Ids.{Uuid, no_code}
use follower_bmad.Domain.Task.{Task}
use follower_bmad.Domain.Follow.{
  FollowOutcome, other_outcome, FollowFlowInput, VerificationInput, VerificationResult,
  other_signal,
}
use follower_bmad.Worker.Policy.{
  Completion, completion, deterministic_status, reason_with, is_success_outcome, outcome_error_code,
}
use follower_bmad.Worker.Program.{
  Prepared, FollowRun, VerifyRun, Metric, metric_completed, metric_error, metric_error_code,
  metric_outcome, resolve_bootstrap, run_follow_flow, verify_follow_result, complete, release,
  record_metric, Program, call,
}

-- The metrics that the loop has, if any.
pub data Metrics : Type 0 where
  no_metrics plain_metrics extended_metrics : Metrics

-- ClaimLoop; the Booleans say whether health and execution are not nil.
pub record ClaimLoop : Type 0 where
  pub has_health : Bool
  pub has_execution : Bool
  pub metrics : Metrics
  pub worker_id : Text

-- recordErrorMetric
unfoldable pub record_error_metric : Metrics → Text → ErrorCode → Program → Program
record_error_metric no_metrics stage code rest = rest
record_error_metric plain_metrics stage code rest =
    call (record_metric (metric_error stage)) (λ _. rest)
record_error_metric extended_metrics stage code rest =
    call (record_metric (metric_error stage))
      (λ _. call (record_metric (metric_error_code stage code)) (λ _. rest))

-- if l.metrics != nil
abbrev pub record_if : Metrics → Metric → Program → Program
record_if no_metrics m rest = rest
record_if _ m rest = call (record_metric m) (λ _. rest)

-- recordExecutionOutcomeMetric
unfoldable pub record_outcome_metric : Metrics → FollowOutcome → Program → Program
record_outcome_metric extended_metrics outcome rest =
    call (record_metric (metric_outcome outcome)) (λ _. rest)
record_outcome_metric _ outcome rest = rest

abbrev pub after_complete : ClaimLoop → Program → Result Task → Program
after_complete loop rest (err e) =
    record_error_metric loop.metrics (codes "complete") (lifecycle_error_code e) rest
after_complete loop rest (ok task) = record_if loop.metrics (metric_completed task.status) rest

-- ClaimLoop.Complete
unfoldable pub complete_task : ClaimLoop → Uuid → Completion → Program → Program
complete_task loop id c rest = call (complete id loop.worker_id c) (after_complete loop rest)

-- completeAfterExecutionError with classifyExecutionFailure
unfoldable pub complete_after_error : ClaimLoop → Task → Text → GoError → Program → Program
complete_after_error loop task result_reason e rest =
    let code = lifecycle_error_code e in
    let status = deterministic_status code in
    let prefix =
      if is_blank result_reason then codes "execution_failed" else trim_space result_reason in
    complete_task loop task.id
      (completion status code (reason_with prefix status code ++ codes ")")) rest

abbrev pub after_release : ClaimLoop → Program → Option GoError → Program
after_release loop rest none = rest
after_release loop rest (some e) =
    record_error_metric loop.metrics (codes "release") (lifecycle_error_code e) rest

-- releaseExecutionContext
unfoldable pub release_execution_context : ClaimLoop → Task → Text → Program → Program
release_execution_context loop task context rest =
    call (release task.account_id context) (after_release loop rest)

abbrev pub failed_stage_name : FollowRun → Text
failed_stage_name run =
    if run.diagnostics.warmup_completed then codes "follow.execution" else codes "follow.warmup"

-- What runFollowStage does with the error that RunFollowFlow returned.
abbrev pub after_follow : ClaimLoop → (FollowRun → Program) → FollowRun → Option GoError → Program
after_follow loop rest run (some e) =
    record_error_metric loop.metrics (failed_stage_name run) (lifecycle_error_code e)
      (rest (record run { outcome = other_outcome [] }))
after_follow loop rest run none =
    if is_success_outcome run.outcome
    then rest run
    else record_error_metric loop.metrics (codes "follow.execution")
        (outcome_error_code run.outcome) (rest run)

-- runFollowStage
unfoldable pub run_follow_stage : ClaimLoop → FollowFlowInput → (FollowRun → Program) → Program
run_follow_stage loop input rest =
    call (run_follow_flow input) (λ run. after_follow loop rest run run.error)

-- FollowVerificationResult{}
abbrev pub no_verification : VerificationResult
no_verification = record {
  verified = false;
  signal = other_signal [];
  reason = [];
  error_code = no_code;
  session_changed = false;
  screenshot_payload = [];
  session_payload = [];
}

abbrev pub after_verify : ClaimLoop → (VerifyRun → Program) → VerifyRun → Option GoError → Program
after_verify loop rest run (some e) =
    record_error_metric loop.metrics (codes "follow.verify") (lifecycle_error_code e)
      (rest (record run { result = no_verification }))
after_verify loop rest run none =
    if run.result.verified
    then rest run
    else record_error_metric loop.metrics (codes "follow.verify") run.result.error_code (rest run)

-- runVerifyStage
unfoldable pub run_verify_stage : ClaimLoop → VerificationInput → (VerifyRun → Program) → Program
run_verify_stage loop input rest =
    call (verify_follow_result input) (λ run. after_verify loop rest run run.error)

-- What resolveAuthBootstrapForPreparedTask makes of the resolved context.
abbrev pub checked_bootstrap : Result Prepared → Result Prepared
checked_bootstrap (err e) = err e
checked_bootstrap (ok p) =
    if p.ready_for_follow_flow
    then ok p
    else err (
        domain_error (
          new_domain_error internal_error
            (text "bootstrap resolution completed but follow flow is still not ready")))

-- resolveAuthBootstrapForPreparedTask
unfoldable pub resolve_auth_bootstrap : Task → Prepared → (Result Prepared → Program) → Program
resolve_auth_bootstrap task prepared rest =
    let asked = record prepared {
      bootstrap_required = true;
      ready_for_follow_flow = false;
      bootstrap_reason = auth_bootstrap_required;
      bootstrap_source = auth_bootstrap_required;
    } in
    call (resolve_bootstrap task asked) (λ r. rest (checked_bootstrap r))
