-- ===== src/Worker/Claimed/Protocol/Stages.antt =====
-- The stages of the claim loop and the protocol (internal/worker/claim_loop.go).
use mathlib.Core.Path.{subst}
use mathlib.Core.Option.{none-ne-some}
use follower_bmad.Worker.Stages.{requires_bootstrap, requests_bootstrap}
use follower_bmad.Base.{
  ◌≡◌, refl, sym, inl, inr, Bool, true, false, if◌then◌else◌, Option, none, some, ◌++◌, Bool-cases,
}
use follower_bmad.Text.{Text, codes, is_blank, is_space, trim_space}
use follower_bmad.Text.Trim.{is_blank-all, all-append, all-trim_space}
use follower_bmad.Errors.Code.{ErrorCode}
use follower_bmad.Errors.Value.{GoError, lifecycle_error_code}
use follower_bmad.Errors.Result.{Result, ok, err}
use follower_bmad.Domain.Task.{Task}
use follower_bmad.Domain.Follow.{
  FollowOutcome, FollowFlowInput, VerificationInput, VerificationResult,
}
use follower_bmad.Worker.Policy.{Completion, is_success_outcome, outcome_error_code}
use follower_bmad.Worker.Policy.Laws.{IsAccepted, cons-is_blank, deterministic-IsAccepted}
use follower_bmad.Worker.Program.{
  FollowRun, VerifyRun, Metric, metric_completed, run_follow_flow, verify_follow_result, Program,
  stop,
}
use follower_bmad.Worker.Loop.{
  ClaimLoop, Metrics, no_metrics, plain_metrics, extended_metrics, record_error_metric, record_if,
  record_outcome_metric, complete_task, complete_after_error, release_execution_context,
  run_follow_stage, run_verify_stage, after_complete, after_release, after_follow, after_verify,
  failed_stage_name, no_verification,
}
use follower_bmad.Worker.Claimed.Protocol.{
  Stage, Phase, freed, settled, held, to_settled, on_stage, after_run, after_check,
  AwaitsCompletion, Allowed, Obeys,
}

append-is_blank : (s t : Text) → is_blank s ≡ false → is_blank (s ++ t) ≡ false
append-is_blank s t h = rw (is_blank-all (s ++ t), all-append s t, sym (is_blank-all s), h) refl

trimmed-is_blank : (s : Text) → is_blank s ≡ false → is_blank (trim_space s) ≡ false
trimmed-is_blank s h = rw (is_blank-all (trim_space s), all-trim_space s, sym (is_blank-all s)) h

module _ (loop : ClaimLoop) (task : Task) where
  abbrev Follows : Phase → Program → Type 0
  Follows = Obeys loop.worker_id task

  pub record_error_metric-Obeys :
      (m : Metrics) (stage : Text) (code : ErrorCode) (ph : Phase) (rest : Program)
      → Follows ph rest
      → Follows ph (record_error_metric m stage code rest)
  unfolding record_error_metric
  record_error_metric-Obeys no_metrics stage code ph rest h = h
  record_error_metric-Obeys plain_metrics stage code ph rest h = (tt, λ a. h)
  record_error_metric-Obeys extended_metrics stage code ph rest h = (tt, λ a. (tt, λ b. h))

  pub record_if-Obeys :
      (m : Metrics) (metric : Metric) (ph : Phase) (rest : Program)
      → Follows ph rest
      → Follows ph (record_if m metric rest)
  record_if-Obeys no_metrics metric ph rest h = h
  record_if-Obeys plain_metrics metric ph rest h = (tt, λ a. h)
  record_if-Obeys extended_metrics metric ph rest h = (tt, λ a. h)

  pub record_outcome_metric-Obeys :
      (m : Metrics) (outcome : FollowOutcome) (ph : Phase) (rest : Program)
      → Follows ph rest
      → Follows ph (record_outcome_metric m outcome rest)
  unfolding record_outcome_metric
  record_outcome_metric-Obeys no_metrics outcome ph rest h = h
  record_outcome_metric-Obeys plain_metrics outcome ph rest h = h
  record_outcome_metric-Obeys extended_metrics outcome ph rest h = (tt, λ a. h)

  pub after_complete-Obeys :
      (ph : Phase) (rest : Program) (a : Result Task)
      → Follows ph rest
      → Follows ph (after_complete loop rest a)
  after_complete-Obeys ph rest (ok t) h =
      record_if-Obeys loop.metrics (metric_completed t.status) ph rest h
  after_complete-Obeys ph rest (err e) h =
      record_error_metric-Obeys loop.metrics (codes "complete") (lifecycle_error_code e) ph rest h

  pub complete_task-Obeys :
      (c : Completion) (ph : Phase) (rest : Program)
      → IsAccepted c
      → AwaitsCompletion ph
      → Follows (to_settled ph) rest
      → Follows ph (complete_task loop task.id c rest)
  unfolding complete_task
  complete_task-Obeys c ph rest accepted unsettled h =
      ((refl, refl, accepted, unsettled), λ a. after_complete-Obeys (to_settled ph) rest a h)

  pub complete_after_error-Obeys :
      (reason : Text) (e : GoError) (ph : Phase) (rest : Program)
      → AwaitsCompletion ph
      → Follows (to_settled ph) rest
      → Follows ph (complete_after_error loop task reason e rest)
  unfolding complete_after_error is_space
  complete_after_error-Obeys reason e ph rest unsettled h =
      let code = lifecycle_error_code e in
      elim (Bool-cases (is_blank reason)) [
        | inl blank ↦
            rw (blank, complete_after_error)
              (complete_task-Obeys _ ph rest
                (deterministic-IsAccepted code code _ (cons-is_blank _ _ refl)) unsettled h)
        | inr given ↦
            rw (given, complete_after_error)
              (complete_task-Obeys _ ph rest
                (deterministic-IsAccepted code code _
                  (append-is_blank _ _ (append-is_blank _ _ (trimmed-is_blank reason given))))
                unsettled h)
      ]

  pub release-Obeys : (x : Text) → Follows (settled x) (release_execution_context loop task x stop)
  unfolding release_execution_context
  release-Obeys x = ((refl, refl), after)
    where
      after : (a : Option GoError) → Follows freed (after_release loop stop a)
      after none = tt
      after (some e) =
          record_error_metric-Obeys loop.metrics (codes "release") (lifecycle_error_code e) freed
            stop tt

  -- Two branches that the phases tell apart.
  pub branch-Obeys :
      (b : Bool) (n m : Stage) (x : Text) (p q : Program)
      → Follows (held n x) p
      → Follows (held m x) q
      → Follows (held (if b then n else m) x) (if b then p else q)
  branch-Obeys true n m x p q h k = h
  branch-Obeys false n m x p q h k = k

  if-Obeys :
      (b : Bool) (ph : Phase) (p q : Program)
      → Follows ph p
      → Follows ph q
      → Follows ph (if b then p else q)
  if-Obeys true ph p q h k = h
  if-Obeys false ph p q h k = k

  after_follow-Obeys :
      (ph : Phase) (rest : FollowRun → Program) (run : FollowRun) (e : Option GoError)
      → ((o : FollowOutcome) → Follows ph (rest (record run { outcome = o })))
      → Follows ph (after_follow loop rest run e)
  after_follow-Obeys ph rest run none h =
      if-Obeys (is_success_outcome run.outcome) ph _ _ (h run.outcome) (
        record_error_metric-Obeys loop.metrics (codes "follow.execution")
          (outcome_error_code run.outcome) ph (rest run) (h run.outcome))
  after_follow-Obeys ph rest run (some e) h =
      record_error_metric-Obeys loop.metrics (failed_stage_name run) (lifecycle_error_code e) ph _
        (h _)

  pub run_follow_stage-Obeys :
      (i : FollowFlowInput) (ph : Phase) (rest : FollowRun → Program)
      → Allowed loop.worker_id task ph (run_follow_flow i)
      → ((run : FollowRun)
          → Follows (on_stage (after_run (requires_bootstrap run.error)) ph) (rest run))
      → Follows ph (run_follow_stage loop i rest)
  unfolding run_follow_stage
  run_follow_stage-Obeys i ph rest allowed h = (
    allowed,
    λ run.
        after_follow-Obeys (on_stage (after_run (requires_bootstrap run.error)) ph) rest run
          run.error (λ o. h (record run { outcome = o })),
  )

  after_verify-Obeys :
      (ph : Phase) (rest : VerifyRun → Program) (run : VerifyRun) (e : Option GoError)
      → run.error ≡ e
      → ((v : VerifyRun)
          → requests_bootstrap v.result v.error ≡ requests_bootstrap run.result run.error
          → Follows ph (rest v))
      → Follows ph (after_verify loop rest run e)
  after_verify-Obeys ph rest run none at h = if-Obeys run.result.verified ph _ _ (h run refl) (
      record_error_metric-Obeys loop.metrics (codes "follow.verify") run.result.error_code ph
        (rest run) (h run refl))
  after_verify-Obeys ph rest run (some e) at h =
      record_error_metric-Obeys loop.metrics (codes "follow.verify") (lifecycle_error_code e) ph _
        (h _ (same_asks run.result run.error at))
    where
      same_asks :
          (v : VerificationResult) (o : Option GoError)
          → o ≡ some e
          → requests_bootstrap no_verification o ≡ requests_bootstrap v o
      same_asks v none h = absurd (none-ne-some _ h)
      same_asks v (some d) h = refl

  pub run_verify_stage-Obeys :
      (i : VerificationInput) (ph : Phase) (rest : VerifyRun → Program)
      → Allowed loop.worker_id task ph (verify_follow_result i)
      → ((v : VerifyRun)
          → Follows (on_stage (after_check (requests_bootstrap v.result v.error)) ph) (rest v))
      → Follows ph (run_verify_stage loop i rest)
  unfolding run_verify_stage
  run_verify_stage-Obeys i ph rest allowed h = (
    allowed,
    λ run.
        after_verify-Obeys (on_stage (after_check (requests_bootstrap run.result run.error)) ph)
          rest run run.error refl
          (λ v same. subst (λ b. Follows (on_stage (after_check b) ph) (rest v)) same (h v)),
  )
