-- ===== src/Browser/Follow.antt =====
-- The flow that follows a profile (internal/browser/follow_flow.go, warmup_flow.go). `cancelled` is
-- ctx.Err(); the adapter, which drives a browser, is a record of functions; `lower` is
-- strings.ToLower; `decodes` says whether encoding/json reads a payload as a storage state.
-- Durations are the clock's, in milliseconds.
pub mod Outcome
use follower_bmad.Base.{
  ℤ, pos, Bool, true, false, not, ◌&&◌, ◌||◌, Option, none, some, List, [], ◌∷◌, String,
  if◌then◌else◌, any, drop, take, length, all,
}
use follower_bmad.Text.{
  Text, text, codes, is_empty, trim_space, has_prefix, contains, index, index_any,
}
use follower_bmad.Errors.Code.{
  ErrorCode, DomainError, new_domain_error, follow_target_profile_required, session_payload_invalid,
  auth_bootstrap_required, follow_action_unavailable, follow_target_unreachable,
  follow_navigation_failed, internal_error,
}
use follower_bmad.Errors.Value.{
  GoError, domain_error, as_domain_error, is_context_error, error_text,
}
use follower_bmad.Errors.Result.{Result, ok, err, unless_error}
use follower_bmad.Domain.Ids.{Bytes, validate_target_profile}
use follower_bmad.Domain.TargetProfile.{normalize_target, is_digit}
use follower_bmad.Browser.Rules.{navigation_error, normalize_follow_error}
use follower_bmad.Domain.Follow.{
  FollowOutcome, completed, is_valid_outcome, FollowFlowInput, FollowFlowDiagnostics,
  validate_flow_input,
}

-- playwrightFollowAdapter; Warmup gives its error.
pub record FollowAdapter : Type 0 where
  pub warmup : FollowFlowInput → Option GoError
  pub run_follow_action : FollowFlowInput → Result FollowOutcome

abbrev pub or_else_error : Option GoError → Option GoError → Option GoError
or_else_error (some e) next = some e
or_else_error none next = next

abbrev pub of_domain : Option DomainError → Option GoError
of_domain none = none
of_domain (some d) = some (domain_error d)

abbrev pub error_of {ℓ} : {A : Type ℓ} → Result A → Option GoError
error_of (ok _) = none
error_of (err e) = some e

-- runMockWarmupFlow
unfoldable pub mock_warmup : Option GoError → FollowFlowInput → Option GoError
mock_warmup cancelled i =
    or_else_error cancelled (of_domain (validate_target_profile i.target_profile))

-- The error of parsePlaywrightStorageStatePayload.
abbrev pub parse_error : Bool → Option GoError
parse_error decoded =
    if decoded
    then none
    else some (
        domain_error (
          new_domain_error session_payload_invalid
            (text "session payload is not a valid playwright storage state")))

abbrev pub normalized_error : (Text → Text) → Option GoError → Option GoError
normalized_error lower none = none
normalized_error lower (some e) = some (normalize_follow_error lower e)

-- runPlaywrightWarmupFlow
unfoldable pub playwright_warmup :
    (Text → Text)
    → (Bytes → Bool)
    → Option GoError
    → FollowAdapter
    → FollowFlowInput
    → Option GoError
playwright_warmup lower decodes cancelled adapter i = or_else_error cancelled (
    or_else_error (of_domain (validate_target_profile i.target_profile)) (
      or_else_error (error_of (normalize_target i.target_profile)) (
        or_else_error (parse_error (decodes i.session_payload))
          (normalized_error lower (adapter.warmup i)))))

-- normalizeWarmupError
unfoldable pub normalize_warmup_error : Option GoError → Option GoError
normalize_warmup_error none = none
normalize_warmup_error (some e) = some (
    if is_context_error e
    then navigation_error "follow warmup interrupted by context timeout/cancel"
    else e)

-- What MockFollowFlowRunner is configured with.
pub record MockFollow : Type 0 where
  pub outcomes_by_target : Text → Option FollowOutcome
  pub errors_by_target : Text → Option GoError

abbrev or_completed : Option FollowOutcome → FollowOutcome
or_completed none = completed
or_completed (some o) = o

abbrev answer_unless : Option GoError → FollowOutcome → Result FollowOutcome
answer_unless (some e) o = err e
answer_unless none o = ok o

-- MockFollowFlowRunner.runFollowAction
unfoldable pub mock_follow : Option GoError → MockFollow → FollowFlowInput → Result FollowOutcome
mock_follow cancelled r i =
    answer_unless (or_else_error cancelled (r.errors_by_target i.target_profile))
      (or_completed (r.outcomes_by_target i.target_profile))

abbrev pub valid_action : (Text → Text) → Result FollowOutcome → Result FollowOutcome
valid_action lower (err e) = err (normalize_follow_error lower e)
valid_action lower (ok o) =
    if is_valid_outcome o
    then ok o
    else err (navigation_error "playwright follow action returned invalid outcome")

abbrev unless_cancelled {ℓ} : {A : Type ℓ} → Option GoError → Result A → Result A
unless_cancelled (some e) r = err e
unless_cancelled none r = r

abbrev adapted_follow :
    (Text → Text) → Option FollowAdapter → FollowFlowInput → Result FollowOutcome
adapted_follow lower none i = err (navigation_error "playwright follow adapter is not configured")
adapted_follow lower (some adapter) i = valid_action lower (adapter.run_follow_action i)

-- PlaywrightFollowFlowRunner.runFollowAction
unfoldable pub playwright_follow :
    (Text → Text) → Option GoError → Option FollowAdapter → FollowFlowInput → Result FollowOutcome
playwright_follow lower cancelled adapter i =
    unless_cancelled cancelled
      (unless_error (validate_target_profile i.target_profile) (adapted_follow lower adapter i))

-- The steps of a flow: the warmup, the follow, and how long each took.
pub record FlowSteps : Type 0 where
  pub warm_up : FollowFlowInput → Option GoError
  pub follow : FollowFlowInput → Result FollowOutcome
  pub warmup_ms : ℤ
  pub execution_ms : ℤ

abbrev pub diagnosed : Text → Bool → ℤ → ℤ → FollowFlowDiagnostics
diagnosed engine warm warmup_ms execution_ms = record {
  engine = engine;
  warmup_completed = warm;
  warmup_duration_ms = warmup_ms;
  execution_duration_ms = execution_ms;
}

abbrev pub after_follow : Result FollowOutcome → Result FollowOutcome
after_follow (err e) = err e
after_follow (ok o) =
    if is_valid_outcome o
    then ok o
    else err
        (domain_error (new_domain_error internal_error (text "invalid follow flow outcome: %s")))

abbrev pub after_warmup :
    Text
    → FlowSteps
    → FollowFlowInput
    → Option GoError
    → Result FollowOutcome × FollowFlowDiagnostics
after_warmup engine steps i (some e) = (err e, diagnosed engine false steps.warmup_ms (pos 0))
after_warmup engine steps i none =
    (after_follow (steps.follow i), diagnosed engine true steps.warmup_ms steps.execution_ms)

abbrev pub after_validation :
    Text
    → FlowSteps
    → FollowFlowInput
    → Option DomainError
    → Result FollowOutcome × FollowFlowDiagnostics
after_validation engine steps i (some e) =
    (err (domain_error e), diagnosed engine false (pos 0) (pos 0))
after_validation engine steps i none =
    after_warmup engine steps i (normalize_warmup_error (steps.warm_up i))

-- runFollowFlow
unfoldable pub run_follow_flow :
    Text → FlowSteps → FollowFlowInput → Result FollowOutcome × FollowFlowDiagnostics
run_follow_flow engine steps i = after_validation engine steps i (validate_flow_input i)

-- MockFollowFlowRunner.RunFollowFlow. The context is read in each step.
unfoldable pub run_mock_flow :
    Option GoError
    → Option GoError
    → MockFollow
    → ℤ
    → ℤ
    → FollowFlowInput
    → Result FollowOutcome × FollowFlowDiagnostics
run_mock_flow at_warmup at_follow r warmup_ms execution_ms =
    run_follow_flow (codes "mock") (record {
      warm_up = mock_warmup at_warmup;
      follow = mock_follow at_follow r;
      warmup_ms = warmup_ms;
      execution_ms = execution_ms;
    })

-- PlaywrightFollowFlowRunner.RunFollowFlow
unfoldable pub run_playwright_flow :
    (Text → Text)
    → (Bytes → Bool)
    → Option GoError
    → Option GoError
    → FollowAdapter
    → ℤ
    → ℤ
    → FollowFlowInput
    → Result FollowOutcome × FollowFlowDiagnostics
run_playwright_flow lower decodes at_warmup at_follow adapter warmup_ms execution_ms =
    run_follow_flow (codes "playwright") (record {
      warm_up = playwright_warmup lower decodes at_warmup adapter;
      follow = playwright_follow lower at_follow (some adapter);
      warmup_ms = warmup_ms;
      execution_ms = execution_ms;
    })
