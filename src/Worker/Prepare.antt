-- ===== src/Worker/Prepare.antt =====
-- The preparation of an execution context (internal/worker/execution_service.go):
-- PrepareClaimedTaskContext and what it calls. Logs are left out; `callers` is what runtime.Callers
-- sees where an error is wrapped.
pub mod Bootstrap
pub mod Holding
pub mod Resolved
use follower_bmad.Base.{
  ℤ, pos, Bool, true, false, not, ◌||◌, Option, none, some, List, [], if◌then◌else◌,
}
use follower_bmad.Text.{Text, text, codes, is_empty, is_blank}
use follower_bmad.Errors.Code.{
  ErrorCode, DomainError, new_domain_error, is_blank_code, session_metadata_not_found,
  session_payload_missing, auth_bootstrap_required, invalid_account_identifier,
  invalid_execution_context, invalid_task_identifier, task_not_running, invalid_task_claimed_by,
}
use follower_bmad.Errors.Value.{
  GoError, Frame, domain_error, joined, is_domain_error_code, lifecycle_error_code,
}
use follower_bmad.Errors.Stack.{wrap}
use follower_bmad.Errors.Result.{Result, ok, err}
use follower_bmad.Domain.Ids.{Uuid, Bytes, is_nil, no_code, reject}
use follower_bmad.Domain.Status.{is_running}
use follower_bmad.Domain.Task.{Task}
use follower_bmad.Domain.Account.{RuntimeGuardrails}
use follower_bmad.Domain.Session.{SessionMetadata, unlisted}
use follower_bmad.Domain.Bootstrap.{LoginInput, LoginResult}
use follower_bmad.Repo.Accounts.{AccountWithProxy}
use follower_bmad.Worker.Policy.{Completion, classify_preparation_failure}
use follower_bmad.Worker.Guard.{AccountRepository, acquire, release_guarded}
use follower_bmad.Worker.Program.{Prepared}

-- ExecutionService, as far as preparation and bootstrap use it, on a state `W`: the guard with its
-- repository, the restorer, the completer, the login runner, the session saver and the artifact
-- store. A Boolean says that a dependency is not nil; `json_valid` is encoding/json's Valid.
pub record Services (W : Type 0) : Type 0 where
  pub repo : AccountRepository W
  pub guardrails : RuntimeGuardrails
  pub callers : List Frame
  pub restore : Uuid → W → Result (SessionMetadata × Bytes) × W
  pub has_completer : Bool
  pub complete : Uuid → Text → Completion → W → Result Task × W
  pub has_login : Bool
  pub login : LoginInput → W → Result LoginResult × W
  pub has_saver : Bool
  pub save_session : Uuid → Text → Bytes → W → Result SessionMetadata × W
  pub has_artifacts : Bool
  pub save_artifact : Uuid → Text → Bytes → W → Result Text × W
  pub login_enabled : Bool
  pub allow_missing_payload : Bool
  pub json_valid : Bytes → Bool

-- executionPreparationTrace
pub record Trace : Type 0 where
  pub task_id : Uuid
  pub attempt : ℤ

-- SessionMetadata{}
abbrev pub no_session : SessionMetadata
no_session = record {
  account_id = 0;
  revision = pos 0;
  status = unlisted [];
  object_key = [];
  error_code = no_code;
  last_restored_at = none;
  created_at = 0;
  updated_at = 0;
}

-- browser.BootstrapReasonForRestoreError (internal/browser/session_restorer.go)
unfoldable pub bootstrap_reason_for_restore_error : GoError → Option ErrorCode
bootstrap_reason_for_restore_error e =
    if is_domain_error_code (some e) session_metadata_not_found
    then some auth_bootstrap_required
    else if is_domain_error_code (some e) session_payload_missing
    then some auth_bootstrap_required
    else none

-- validateClaimedTaskForPreparation
unfoldable pub validate_claimed_task : Task → Option DomainError
validate_claimed_task task =
    reject (is_nil task.id) invalid_task_identifier "claimed task id must not be empty" (
      reject (is_nil task.account_id) invalid_account_identifier
        "claimed task account id must not be empty"
        (reject (not (is_running task.status)) task_not_running
          "claimed task must be in running status, got %s"
          (reject (is_blank task.claimed_by) invalid_task_claimed_by
            "claimed task claimed_by must not be empty" none)))

module _ {W : Type 0} (s : Services W) where
  -- shouldCreateBootstrapDecisionForSource
  unfoldable pub should_create_bootstrap : ErrorCode → Bool
  should_create_bootstrap session_metadata_not_found = true
  should_create_bootstrap session_payload_missing = s.allow_missing_payload
  should_create_bootstrap _ = false

  abbrev pub bootstrap_prepared : AccountWithProxy → Text → Trace → ErrorCode → ErrorCode → Prepared
  bootstrap_prepared found context trace reason source = record {
    account_with_proxy = found;
    session_metadata = no_session;
    session_payload = [];
    task_id = trace.task_id;
    attempt = trace.attempt;
    execution_context_id = context;
    ready_for_follow_flow = false;
    bootstrap_required = true;
    bootstrap_reason = if is_blank_code reason then auth_bootstrap_required else reason;
    bootstrap_source = source;
  }

  -- bootstrapPreparationContextFromRestoreError
  unfoldable pub bootstrap_context : GoError → AccountWithProxy → Text → Trace → Option Prepared
  bootstrap_context e found context trace = elim (bootstrap_reason_for_restore_error e) [
    | none ↦ none
    | some reason ↦
        if should_create_bootstrap (lifecycle_error_code e)
        then some (bootstrap_prepared found context trace reason (lifecycle_error_code e))
        else none
  ]

  -- The answer to a restore that failed, after the account has been released.
  abbrev pub after_restore_release : GoError → Result (Unit {0}) × W → Result Prepared × W
  after_restore_release e (ok _, w) = (err e, w)
  after_restore_release e (err f, w) = (
    err (
        joined e (wrap (some f) (codes "failed to release account after restore error") s.callers)),
    w,
  )

  abbrev pub without_session : Uuid → Text → GoError → Option Prepared → W → Result Prepared × W
  without_session id context e (some p) w = (ok p, w)
  without_session id context e none w =
      after_restore_release e (release_guarded s.repo s.guardrails s.callers id context w)

  abbrev pub after_restore :
      Uuid
      → Text
      → Trace
      → AccountWithProxy
      → Result (SessionMetadata × Bytes) × W
      → Result Prepared × W
  after_restore id context trace found (err e, w) =
      without_session id context e (bootstrap_context e found context trace) w
  after_restore id context trace found (ok (metadata, payload), w) = (
    ok (record {
      account_with_proxy = found;
      session_metadata = metadata;
      session_payload = payload;
      task_id = trace.task_id;
      attempt = trace.attempt;
      execution_context_id = context;
      ready_for_follow_flow = true;
      bootstrap_required = false;
      bootstrap_reason = no_code;
      bootstrap_source = no_code;
    }),
    w,
  )

  abbrev pub after_acquire : Uuid → Text → Trace → Result AccountWithProxy × W → Result Prepared × W
  after_acquire id context trace (err e, w) = (err e, w)
  after_acquire id context trace (ok found, w) =
      after_restore id context trace found (s.restore id w)

  abbrev pub refused : ErrorCode → Text → W → Result Prepared × W
  refused code message w = (err (domain_error (new_domain_error code message)), w)

  -- prepareExecutionContext
  unfoldable pub prepare_execution_context : Uuid → Text → Trace → W → Result Prepared × W
  prepare_execution_context id context trace w =
      if is_nil id
      then refused invalid_account_identifier (text "account id must not be empty") w
      else if is_empty context
      then refused invalid_execution_context (text "execution context id must not be empty") w
      else after_acquire id context trace (acquire s.repo s.guardrails s.callers id context w)

  abbrev pub after_failure : GoError → Result Task × W → Result Prepared × W
  after_failure e (ok task, w) = (err e, w)
  after_failure e (err f, w) = (
    err (joined e (wrap (some f) (codes "failed to record preparation failure outcome") s.callers)),
    w,
  )

  -- completePreparationFailure
  unfoldable pub complete_preparation_failure : Task → GoError → W → Result Prepared × W
  complete_preparation_failure task e w =
      if not s.has_completer
      then (err e, w)
      else if is_nil task.id || is_blank task.claimed_by
      then (err e, w)
      else after_failure e (s.complete task.id task.claimed_by (classify_preparation_failure e) w)

  abbrev pub or_complete : Task → Result Prepared × W → Result Prepared × W
  or_complete task (ok p, w) = (ok p, w)
  or_complete task (err e, w) = complete_preparation_failure task e w

  abbrev pub trace_of : Task → Trace
  trace_of task = record { task_id = task.id; attempt = task.attempt }

  abbrev pub checked_prepared : Option DomainError → W → Result Prepared × W → Result Prepared × W
  checked_prepared (some e) w prepared = (err (domain_error e), w)
  checked_prepared none w prepared = prepared

  -- PrepareClaimedTaskContext
  unfoldable pub prepare_claimed_task : Task → W → Result Prepared × W
  prepare_claimed_task task w = checked_prepared (validate_claimed_task task) w (
      or_complete task
        (prepare_execution_context task.account_id task.claimed_by (trace_of task) w))
