-- ===== src/Browser/Login.antt =====
-- The login that bootstraps a session (the runners of internal/browser/bootstrap_login_flow.go).
-- `cancelled` is ctx.Err(); the adapter, which drives a browser, is a function of the credentials;
-- a map of screenshots is its entries; `json_valid` is encoding/json's Valid.
pub mod Outcome
use follower_bmad.Base.{
  ℤ, pos, ◌≡◌, ◌≢◌, refl, ◌⊎◌, inl, inr, Bool, true, false, ◌||◌, Option, none, some, List, [], ◌∷◌,
  String, if◌then◌else◌, arith, All, Bool-cases, is_negative,
}
use follower_bmad.Text.{Text, text, codes, is_empty, trim_space}
use follower_bmad.Errors.Code.{DomainError, new_domain_error, auth_bootstrap_failed}
use follower_bmad.Errors.Value.{GoError, domain_error}
use follower_bmad.Errors.Result.{Result, ok, err, unless_error}
use follower_bmad.Domain.Ids.{Bytes}
use follower_bmad.Domain.Account.{CredentialSource}
use follower_bmad.Domain.Bootstrap.{
  AccountCredentials, validate_credentials, LoginOutcome, login_success, auth_challenge,
  auth_invalid, auth_runtime_error, other_login, is_valid_login, LoginInput, validate_login_input,
  LoginResult, validate_payload, validate_login_result,
}

-- bootstrapCredentialResolver
abbrev pub CredentialResolver : Type 0
CredentialResolver = CredentialSource → Text → Result AccountCredentials

-- What Execute of playwrightBootstrapAdapter returns.
pub record Execution : Type 0 where
  pub outcome : LoginOutcome
  pub payload : Bytes
  pub screenshots : List (Text × Bytes)
  pub runtime_error : Option GoError

-- The body of the loop of cloneBootstrapScreenshots, before the rest.
abbrev pub cloned : Text → Bytes → List (Text × Bytes) → List (Text × Bytes)
cloned key payload rest = if is_empty key || is_empty payload then rest else (key, payload) ∷ rest

-- cloneBootstrapScreenshots, with nil for the empty map.
unfoldable pub clone_screenshots : List (Text × Bytes) → List (Text × Bytes)
clone_screenshots [] = []
clone_screenshots (entry ∷ rest) =
    let others = clone_screenshots rest in cloned (trim_space entry.0) entry.1 others

abbrev login_error {ℓ} : {A : Type ℓ} → String → Result A
login_error message = err (domain_error (new_domain_error auth_bootstrap_failed (text message)))

-- The result of credentials that are refused.
abbrev pub refused : Text → LoginResult
refused engine = record {
  outcome = auth_invalid;
  session_payload = [];
  auth_screenshots = [];
  engine = engine;
  duration_ms = pos 0;
}

-- if err := credentials.Validate(); err != nil { return …, nil }
abbrev pub unless_refused : Text → Option DomainError → Result LoginResult → Result LoginResult
unless_refused engine (some e) answer = ok (refused engine)
unless_refused engine none answer = answer

abbrev pub after_resolve :
    Text
    → (AccountCredentials → Result LoginResult)
    → Result AccountCredentials
    → Result LoginResult
after_resolve engine log_in (err e) = err e
after_resolve engine log_in (ok c) = unless_refused engine (validate_credentials c) (log_in c)

-- The checks before the credentials are resolved.
abbrev pub admitted : Option GoError → LoginInput → Result LoginResult → Result LoginResult
admitted (some e) i answer = err e
admitted none i answer = unless_error (validate_login_input i) answer

abbrev pub resolving :
    Text
    → Option CredentialResolver
    → (AccountCredentials → Result LoginResult)
    → LoginInput
    → Result LoginResult
resolving engine none log_in i = login_error "bootstrap credential resolver is not configured"
resolving engine (some resolver) log_in i =
    after_resolve engine log_in (resolver i.credential_source i.credential_ref)

-- if err := result.Validate(); err != nil { return …, err }
abbrev pub checked : (Bytes → Bool) → LoginResult → Result LoginResult
checked json_valid r = unless_error (validate_login_result json_valid r) (ok r)

-- The payload that the mock runner marshals.
abbrev mock_payload : LoginOutcome → Bytes
mock_payload login_success =
    codes "{\"cookies\":[{\"name\":\"sid\",\"value\":\"bootstrap-mock-session\"}]}"
mock_payload _ = []

abbrev or_success : Option LoginOutcome → LoginOutcome
or_success none = login_success
or_success (some o) = o

abbrev mock_result : LoginOutcome → LoginResult
mock_result o = record {
  outcome = o;
  session_payload = mock_payload o;
  auth_screenshots = [];
  engine = codes "mock";
  duration_ms = pos 0;
}

-- MockBootstrapLoginRunner.RunBootstrapLogin
unfoldable pub run_mock_login :
    (Bytes → Bool)
    → Option GoError
    → Option CredentialResolver
    → (Text → Option LoginOutcome)
    → LoginInput
    → Result LoginResult
run_mock_login json_valid cancelled resolver outcomes_by_ref i = admitted cancelled i (
    resolving (codes "mock") resolver
      (λ c. checked json_valid (mock_result (or_success (outcomes_by_ref i.credential_ref)))) i)

-- An outcome that is not known is a runtime error, whether or not the adapter failed.
abbrev pub known_outcome : LoginOutcome → LoginOutcome
known_outcome (other_login t) = auth_runtime_error
known_outcome o = o

abbrev pub payload_of : LoginOutcome → Bytes → Bytes
payload_of login_success payload = payload
payload_of _ payload = []

-- The result of an execution, before its validation.
unfoldable pub login_result : ℤ → Execution → LoginResult
login_result duration_ms e = record {
  outcome = known_outcome e.outcome;
  session_payload = payload_of (known_outcome e.outcome) e.payload;
  auth_screenshots = clone_screenshots e.screenshots;
  engine = codes "playwright";
  duration_ms = duration_ms;
}

abbrev pub with_adapter :
    (Bytes → Bool)
    → Option CredentialResolver
    → Option (AccountCredentials → Execution)
    → ℤ
    → LoginInput
    → Result LoginResult
with_adapter json_valid none adapter duration_ms i =
    login_error "bootstrap credential resolver is not configured"
with_adapter json_valid (some resolver) none duration_ms i =
    login_error "playwright bootstrap adapter is not configured"
with_adapter json_valid (some resolver) (some execute) duration_ms i =
    resolving (codes "playwright") (some resolver)
      (λ c. checked json_valid (login_result duration_ms (execute c))) i

-- PlaywrightBootstrapLoginRunner.RunBootstrapLogin
unfoldable pub run_playwright_login :
    (Bytes → Bool)
    → Option GoError
    → Option CredentialResolver
    → Option (AccountCredentials → Execution)
    → ℤ
    → LoginInput
    → Result LoginResult
run_playwright_login json_valid cancelled resolver adapter duration_ms i =
    admitted cancelled i (with_adapter json_valid resolver adapter duration_ms i)
