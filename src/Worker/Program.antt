-- ===== src/Worker/Program.antt =====
-- The calls that the claim loop (internal/worker/claim_loop.go) makes of its dependencies, and
-- programs that make them: what a program does next depends on each call's answer.
use follower_bmad.Base.{Bool, ℤ, Option, List}
use follower_bmad.Text.{Text}
use follower_bmad.Errors.Code.{ErrorCode}
use follower_bmad.Errors.Value.{GoError}
use follower_bmad.Errors.Result.{Result}
use follower_bmad.Domain.Ids.{Uuid, Bytes}
use follower_bmad.Domain.Status.{TaskStatus}
use follower_bmad.Domain.Task.{Task}
use follower_bmad.Domain.Session.{SessionMetadata}
use follower_bmad.Domain.Follow.{
  FollowOutcome, FollowFlowInput, FollowFlowDiagnostics, VerificationInput, VerificationResult,
}
use follower_bmad.Domain.Follow.Finalization.{FinalizationInput}
use follower_bmad.Repo.Accounts.{AccountWithProxy}
use follower_bmad.Worker.Policy.{Completion}

-- PreparedExecutionContext (execution_service.go)
pub record Prepared : Type 0 where
  pub account_with_proxy : AccountWithProxy
  pub session_metadata : SessionMetadata
  pub session_payload : Bytes
  pub task_id : Uuid
  pub attempt : ℤ
  pub execution_context_id : Text
  pub ready_for_follow_flow : Bool
  pub bootstrap_required : Bool
  pub bootstrap_reason : ErrorCode
  pub bootstrap_source : ErrorCode

-- What RunFollowFlow and VerifyFollowResult return.
pub record FollowRun : Type 0 where
  pub outcome : FollowOutcome
  pub diagnostics : FollowFlowDiagnostics
  pub error : Option GoError

pub record VerifyRun : Type 0 where
  pub result : VerificationResult
  pub error : Option GoError

-- claimLoopMetrics and claimLoopExtendedMetrics
pub data Metric : Type 0 where
  metric_claimed metric_started : Metric
  metric_completed : TaskStatus → Metric
  metric_error : Text → Metric
  metric_error_code : Text → ErrorCode → Metric
  metric_outcome : FollowOutcome → Metric

-- claimLoopTaskRepository, claimLoopHealthSnapshotter, claimLoopExecutionService and the metrics
pub data Call : Type 0 where
  snapshot : Call
  claim_next_queued : Text → Call
  prepare : Task → Call
  resolve_bootstrap : Task → Prepared → Call
  run_follow_flow : FollowFlowInput → Call
  verify_follow_result : VerificationInput → Call
  finalize : FinalizationInput → Call
  complete : Uuid → Text → Completion → Call
  release : Uuid → Text → Call
  record_metric : Metric → Call

-- The answer of snapshot is whether the status is ready.
abbrev pub Answer : Call → Type 0
Answer snapshot = Bool
Answer (claim_next_queued claimed_by) = Result (Option Task)
Answer (prepare task) = Result Prepared
Answer (resolve_bootstrap task prepared) = Result Prepared
Answer (run_follow_flow input) = FollowRun
Answer (verify_follow_result input) = VerifyRun
Answer (finalize input) = Option GoError
Answer (complete id claimed_by c) = Result Task
Answer (release id context) = Option GoError
Answer (record_metric m) = Unit

pub data Program : Type 0 where
  stop : Program
  call : (c : Call) → (Answer c → Program) → Program

-- A program run against dependencies with state `W`, with the calls it made, the last one first.
unfoldable pub perform :
    {W : Type 0} → ((c : Call) → W → Answer c × W) → Program → W → List Call → W × List Call
perform serve stop w made = (w, made)
perform serve (call c k) w made = let r = serve c w in perform serve (k r.0) r.1 (List.◌∷◌ c made)
