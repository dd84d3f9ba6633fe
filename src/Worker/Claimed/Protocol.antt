-- ===== src/Worker/Claimed/Protocol.antt =====
-- The order of the calls that the claim loop makes for a task.
pub mod Stages
pub mod Order
use follower_bmad.Base.{
  ◌≡◌, refl, sym, ◌∙◌, ap, inl, inr, Bool, true, false, not, ◌&&◌, if◌then◌else◌, Option, none,
  some, List, [], ◌++◌, all, arith, Bool-cases, Option-cases,
}
use follower_bmad.Text.{Text, text, codes, is_blank, is_space, trim_space}
use follower_bmad.Text.Trim.{is_blank-all, all-append, all-trim_space}
use follower_bmad.Errors.Code.{ErrorCode, new_domain_error, internal_error}
use follower_bmad.Errors.Value.{GoError, domain_error, lifecycle_error_code}
use follower_bmad.Errors.Result.{Result, ok, err}
use follower_bmad.Domain.Ids.{Uuid}
use follower_bmad.Domain.Task.{Task}
use follower_bmad.Domain.Follow.{
  FollowOutcome, FollowFlowInput, VerificationInput, VerificationResult,
}
use follower_bmad.Worker.Policy.{
  Completion, completion, deterministic_status, reason_with, classify_completion,
  classify_finalization_error, is_success_outcome, outcome_error_code,
}
use follower_bmad.Worker.Stages.{normalize_outcome, requires_bootstrap, requests_bootstrap}
use follower_bmad.Worker.Policy.Laws.{
  IsAccepted, cons-is_blank, deterministic-IsAccepted, classify_completion-IsAccepted,
  classify_finalization_error-IsAccepted,
}
use follower_bmad.Worker.Program.{
  Prepared, FollowRun, VerifyRun, Metric, Call, Answer, snapshot, claim_next_queued, prepare,
  metric_completed, resolve_bootstrap, run_follow_flow, verify_follow_result, finalize, complete,
  release, record_metric, Program, stop, call,
}
use follower_bmad.Worker.Loop.{
  ClaimLoop, Metrics, no_metrics, plain_metrics, extended_metrics, record_error_metric, record_if,
  record_outcome_metric, complete_task, complete_after_error, release_execution_context,
  run_follow_stage, run_verify_stage, resolve_auth_bootstrap, after_complete, after_release,
  after_follow, after_verify, failed_stage_name, checked_bootstrap,
}
use follower_bmad.Worker.Claimed.{
  context_of, known_verification, after_finalize, finalize_task, after_verify_bootstrap,
  verify_task, after_follow_bootstrap, follow_task, after_bootstrap, after_prepare,
  execute_claimed_task,
}

-- How far the work on a prepared task is: `ready` and `renewed` await a follow run, `followed` and
-- `refollowed` its verification, `asked` a second bootstrap, `failed` nothing but the completion.
pub data Stage : Type 0 where
  prepared ready followed asked renewed refollowed verified failed : Stage

-- Where the work on a task stands; the text is the execution context that holds its account.
pub data Phase : Type 0 where
  unserved begun abandoned freed : Phase
  held : Stage → Text → Phase
  finalized settled : Text → Phase

abbrev pub to_finalized : Phase → Phase
to_finalized (held n x) = finalized x
to_finalized ph = ph

abbrev pub to_settled : Phase → Phase
to_settled (held n x) = settled x
to_settled (finalized x) = settled x
to_settled unserved = freed
to_settled ph = ph

abbrev pub to_held : Task → Result Prepared → Phase
to_held task (ok p) = held prepared (context_of task p)
to_held task (err e) = abandoned

abbrev pub is_ready : Result Prepared → Bool
is_ready (ok p) = p.ready_for_follow_flow
is_ready (err e) = false

-- The stage after the resolution of a bootstrap.
abbrev pub after_resolve : Bool → Stage → Stage
after_resolve is_ready prepared = if is_ready then ready else failed
after_resolve is_ready asked = if is_ready then renewed else failed
after_resolve is_ready n = n

-- The stage after a follow run, the first of which may ask for a bootstrap.
abbrev pub after_run : Bool → Stage → Stage
after_run asks ready = if asks then asked else followed
after_run asks renewed = refollowed
after_run asks n = n

-- The stage after a verification, which may ask for a bootstrap if it is of the first follow run.
abbrev pub after_check : Bool → Stage → Stage
after_check asks followed = if asks then asked else verified
after_check asks refollowed = verified
after_check asks n = n

abbrev pub on_stage : (Stage → Stage) → Phase → Phase
on_stage f (held n x) = held (f n) x
on_stage f ph = ph

-- The phase after a call and its answer.
abbrev pub next : Task → (c : Call) → Answer c → Phase → Phase
next task (prepare t) a ph = to_held task a
next task (finalize i) a ph = to_finalized ph
next task (complete id w c) a ph = to_settled ph
next task (release id x) a ph = freed
next task snapshot a ph = ph
next task (claim_next_queued w) a ph = ph
next task (resolve_bootstrap t p) a ph = on_stage (after_resolve (is_ready a)) ph
next task (run_follow_flow i) a ph = on_stage (after_run (requires_bootstrap a.error)) ph
next task (verify_follow_result i) a ph =
    on_stage (after_check (requests_bootstrap a.result a.error)) ph
next task (record_metric m) a ph = ph

abbrev pub IsBegun : Phase → Type 0
IsBegun begun = Unit
IsBegun _ = ⊥

abbrev pub AwaitsBootstrap : Phase → Type 0
AwaitsBootstrap (held prepared x) = Unit
AwaitsBootstrap (held asked x) = Unit
AwaitsBootstrap _ = ⊥

abbrev pub AwaitsFollow : Text → Phase → Type 0
AwaitsFollow x (held ready y) = x ≡ y
AwaitsFollow x (held renewed y) = x ≡ y
AwaitsFollow x _ = ⊥

abbrev pub AwaitsVerification : Text → Phase → Type 0
AwaitsVerification x (held followed y) = x ≡ y
AwaitsVerification x (held refollowed y) = x ≡ y
AwaitsVerification x _ = ⊥

abbrev pub IsVerified : Phase → Type 0
IsVerified (held verified x) = Unit
IsVerified _ = ⊥

abbrev pub AwaitsCompletion : Phase → Type 0
AwaitsCompletion unserved = Unit
AwaitsCompletion (held failed x) = Unit
AwaitsCompletion (finalized x) = Unit
AwaitsCompletion _ = ⊥

abbrev pub IsSettled : Text → Phase → Type 0
IsSettled x (settled y) = x ≡ y
IsSettled x _ = ⊥

-- The calls that a phase allows the worker.
abbrev pub Allowed : Text → Task → Phase → Call → Type 0
Allowed worker task ph (prepare t) = (t ≡ task) × IsBegun ph
Allowed worker task ph (resolve_bootstrap t p) = (t ≡ task) × AwaitsBootstrap ph
Allowed worker task ph (run_follow_flow i) =
    (i.task_id ≡ task.id)
    × (i.account_id ≡ task.account_id)
    × (i.attempt ≡ task.attempt)
    × (i.target_profile ≡ task.target_profile)
    × AwaitsFollow i.execution_context_id ph
Allowed worker task ph (verify_follow_result i) =
    (i.task_id ≡ task.id)
    × (i.account_id ≡ task.account_id)
    × (i.attempt ≡ task.attempt)
    × (i.target_profile ≡ task.target_profile)
    × AwaitsVerification i.execution_context_id ph
Allowed worker task ph (finalize i) =
    (i.task_id ≡ task.id)
    × (i.account_id ≡ task.account_id)
    × (i.attempt ≡ task.attempt)
    × (i.target_profile ≡ task.target_profile)
    × IsVerified ph
Allowed worker task ph (complete id w c) =
    (id ≡ task.id) × (w ≡ worker) × IsAccepted c × AwaitsCompletion ph
Allowed worker task ph (release id x) = (id ≡ task.account_id) × IsSettled x ph
Allowed worker task ph (record_metric m) = Unit
Allowed worker task ph snapshot = ⊥
Allowed worker task ph (claim_next_queued w) = ⊥

-- Where the work on a task may end.
abbrev pub IsEnd : Phase → Type 0
IsEnd abandoned = Unit
IsEnd freed = Unit
IsEnd _ = ⊥

-- From phase `ph` on, whatever the calls answer, the program makes only calls that are allowed, and
-- ends where it may.
abbrev pub Obeys : Text → Task → Phase → Program → Type 0
Obeys worker task ph stop = IsEnd ph
Obeys worker task ph (call c k) =
    Allowed worker task ph c × ((a : Answer c) → Obeys worker task (next task c a ph) (k a))

abbrev pub first_phase : ClaimLoop → Phase
first_phase loop = if loop.has_execution then begun else unserved
