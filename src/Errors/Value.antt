-- ===== src/Errors/Value.antt =====
-- Go's error values, as far as the program builds them: a *DomainError, another library's error,
-- a *stackerr.Error with a cause or without one, and errors.Join of two errors.
-- errors.As walks this tree in order; internal/domain/invariants.go and internal/worker read it.
use follower_bmad.Base.{Bool, false, ◌||◌, Option, none, some, List, ℕ, ◌++◌, if◌then◌else◌}
use follower_bmad.Text.{Text, codes, text_eq, is_empty, trim_space}
use follower_bmad.Errors.Code.{ErrorCode, DomainError, code_text, internal_error}

-- stackerr.Frame
pub record Frame : Type 0 where
  pub function : Text
  pub file : Text
  pub line : ℕ

pub data GoError : Type 0 where
  domain_error : DomainError → GoError
  plain : Text → GoError
  root : Text → List Frame → GoError
  caused : Text → GoError → List Frame → GoError
  joined : GoError → GoError → GoError

-- errors.Join, which drops nil.
abbrev pub join : Option GoError → Option GoError → Option GoError
join none none = none
join none (some b) = some b
join (some a) none = some a
join (some a) (some b) = some (joined a b)

abbrev pub or_else {ℓ} : {A : Type ℓ} → Option A → Option A → Option A
or_else none o = o
or_else (some a) o = some a

-- errors.As(err, &domainErr)
unfoldable pub as_domain_error : GoError → Option DomainError
as_domain_error (domain_error d) = some d
as_domain_error (plain t) = none
as_domain_error (root t s) = none
as_domain_error (caused t e s) = as_domain_error e
as_domain_error (joined a b) = or_else (as_domain_error a) (as_domain_error b)

-- IsDomainErrorCode
unfoldable pub is_domain_error_code : Option GoError → ErrorCode → Bool
unfolding as_domain_error
is_domain_error_code none code = false
is_domain_error_code (some e) code = elim (as_domain_error e) [
  | none ↦ false
  | some d ↦ text_eq (code_text d.code) (code_text code)
]

-- errors.Is(err, context.Canceled) || errors.Is(err, context.DeadlineExceeded): package context's
-- errors are the plain ones with their texts.
unfoldable pub is_context_error : GoError → Bool
is_context_error (domain_error d) = false
is_context_error (plain t) =
    text_eq t (codes "context canceled") || text_eq t (codes "context deadline exceeded")
is_context_error (root t s) = false
is_context_error (caused t e s) = is_context_error e
is_context_error (joined a b) = is_context_error a || is_context_error b

-- lifecycleErrorCode; claimLoopErrorCode, executionErrorCode and resolveErrorCode are the same.
unfoldable pub lifecycle_error_code : GoError → ErrorCode
unfolding as_domain_error
lifecycle_error_code e = elim (as_domain_error e) [ none ↦ internal_error | some d ↦ d.code ]

-- What (*Error).Error of stackerr makes of its message and its cause's text.
unfoldable pub stack_error_text : Text → Option Text → Text
stack_error_text m cause =
    let msg = trim_space m in
    elim cause [
      | none ↦ if is_empty msg then codes "error" else msg
      | some c ↦ if is_empty msg then c else (msg ++ (codes ": " ++ c))
    ]

-- err.Error()
unfoldable pub error_text : GoError → Text
unfolding stack_error_text
error_text (domain_error d) = code_text d.code ++ (codes ": " ++ d.message)
error_text (plain t) = t
error_text (root t s) = stack_error_text t none
error_text (caused t e s) = stack_error_text t (some (error_text e))
error_text (joined a b) = error_text a ++ (codes "\n" ++ error_text b)
