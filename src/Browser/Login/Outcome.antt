-- ===== src/Browser/Login/Outcome.antt =====
-- What a login on playwright promises the worker (bootstrap_login_flow.go).
use follower_bmad.Base.{
  ℕ, pos, ◌≡◌, ◌≢◌, refl, ◌⊎◌, inl, inr, Bool, true, false, Option, none, some, List, [], ◌∷◌,
  arith, All, Bool-cases,
}
use follower_bmad.Text.{Text, codes, is_empty, trim_space}
use follower_bmad.Errors.Code.{DomainError}
use follower_bmad.Errors.Result.{Result, ok, err}
use follower_bmad.Domain.Ids.{Bytes}
use follower_bmad.Domain.Bootstrap.{
  AccountCredentials, validate_credentials, LoginOutcome, login_success, auth_challenge,
  auth_invalid, auth_runtime_error, other_login, is_valid_login, LoginInput, validate_login_input,
  LoginResult, validate_login_result,
}
use follower_bmad.Browser.Login.{
  CredentialResolver, Execution, cloned, clone_screenshots, unless_refused, after_resolve, checked,
  login_result, run_playwright_login,
}

-- A screenshot that can be stored: its stage and its bytes are there.
abbrev pub IsShot : Text × Bytes → Type 0
IsShot shot = (is_empty shot.0 ≡ false) × (is_empty shot.1 ≡ false)

-- A login's result is valid, has a payload exactly if it is a success, and was executed with the
-- resolved credentials unless those were refused.
pub record IsLogin (json_valid : Bytes → Bool) (resolved : Result AccountCredentials)
    (execute : AccountCredentials → Execution) (r : LoginResult) : Type 0 where
  pub valid : validate_login_result json_valid r ≡ none
  pub no_payload : r.outcome ≢ login_success → r.session_payload ≡ []
  pub shots : All IsShot r.auth_screenshots
  pub credentials : AccountCredentials
  pub is_resolved : resolved ≡ ok credentials
  pub successful :
      r.outcome ≡ login_success
      → ((execute credentials).outcome ≡ login_success)
        × (r.session_payload ≡ (execute credentials).payload)
        × (validate_credentials credentials ≡ none)

-- A login without a result: the credentials could not be resolved, or the adapter's success has no
-- payload that is JSON.
abbrev pub LogsIn :
    (Bytes → Bool)
    → Result AccountCredentials
    → (AccountCredentials → Execution)
    → Result LoginResult
    → Type 0
LogsIn json_valid resolved execute (ok r) = IsLogin json_valid resolved execute r
LogsIn json_valid resolved execute (err e) =
    (resolved ≡ err e)
    ⊎ ((c : AccountCredentials) × (resolved ≡ ok c)
        × ((execute c).outcome ≡ login_success)
        × ((is_empty (execute c).payload ≡ true) ⊎ (json_valid (execute c).payload ≡ false)))

clone_screenshots-IsShot : (shots : List (Text × Bytes)) → All IsShot (clone_screenshots shots)
unfolding clone_screenshots
clone_screenshots-IsShot [] = tt
clone_screenshots-IsShot (entry ∷ rest) =
    cloned_lem (trim_space entry.0) entry.1 _ (clone_screenshots-IsShot rest)
  where
    cloned_lem :
        (key : Text) (payload : Bytes) (others : List (Text × Bytes))
        → All IsShot others
        → All IsShot (cloned key payload others)
    cloned_lem [] payload others h = h
    cloned_lem (c ∷ key) [] others h = h
    cloned_lem (c ∷ key) (b ∷ bs) others h = ((refl, refl), h)

abbrev Executes : (Bytes → Bool) → LoginOutcome → Bytes → Result LoginResult → Type 0
Executes json_valid o p (ok r) =
    (validate_login_result json_valid r ≡ none)
    × (r.outcome ≢ login_success → r.session_payload ≡ [])
    × All IsShot r.auth_screenshots
    × (r.outcome ≡ login_success → (o ≡ login_success) × (r.session_payload ≡ p))
Executes json_valid o p (err e) =
    (o ≡ login_success) × ((is_empty p ≡ true) ⊎ (json_valid p ≡ false))

executed_lem :
    (json_valid : Bytes → Bool) (ms : ℕ) (o : LoginOutcome) (p : Bytes) (e : Execution)
    → e.outcome ≡ o
    → e.payload ≡ p
    → Executes json_valid o p (checked json_valid (login_result (pos ms) e))
unfolding login_result validate_login_result is_valid_login
executed_lem json_valid ms login_success [] e eo ep = rw (eo, ep) (refl, inl refl)
executed_lem json_valid ms login_success (b ∷ bs) e eo ep =
    elim (Bool-cases (json_valid (b ∷ bs))) [
      | inl good ↦
          rw (eo, ep, good)
            (
              rw good refl,
              λ n. absurd (n refl),
              clone_screenshots-IsShot e.screenshots,
              λ _. (refl, refl),
            )
      | inr bad ↦ rw (eo, ep, bad) (refl, inr bad)
    ]
executed_lem json_valid ms auth_challenge p e eo ep =
    rw eo (refl, λ _. refl, clone_screenshots-IsShot e.screenshots, λ n. ground arith)
executed_lem json_valid ms auth_invalid p e eo ep =
    rw eo (refl, λ _. refl, clone_screenshots-IsShot e.screenshots, λ n. ground arith)
executed_lem json_valid ms auth_runtime_error p e eo ep =
    rw eo (refl, λ _. refl, clone_screenshots-IsShot e.screenshots, λ n. ground arith)
executed_lem json_valid ms (other_login t) p e eo ep =
    rw eo (refl, λ _. refl, clone_screenshots-IsShot e.screenshots, λ n. ground arith)

module _ (json_valid : Bytes → Bool) (execute : AccountCredentials → Execution) where
  ran_lem :
      (c : AccountCredentials) (resolved : Result AccountCredentials) (seen : Result LoginResult)
      → resolved ≡ ok c
      → validate_credentials c ≡ none
      → Executes json_valid (execute c).outcome (execute c).payload seen
      → LogsIn json_valid resolved execute seen
  ran_lem c resolved (ok r) e v h = record {
    valid = h.0;
    no_payload = h.1;
    shots = h.2;
    credentials = c;
    is_resolved = e;
    successful = λ s. ((h.3 s).0, (h.3 s).1, v);
  }
  ran_lem c resolved (err f) e v h = inr (c, e, h.0, h.1)

  refused_lem :
      (c : AccountCredentials) (refusal : Option DomainError) (ms : ℕ)
      → validate_credentials c ≡ refusal
      → LogsIn json_valid (ok c) execute (
          unless_refused
            (codes "playwright")
            refusal
            (checked json_valid (login_result (pos ms) (execute c))))
  unfolding validate_login_result is_valid_login
  refused_lem c (some d) ms v = record {
    valid = refl;
    no_payload = λ _. refl;
    shots = tt;
    credentials = c;
    is_resolved = refl;
    successful = λ s. ground arith;
  }
  refused_lem c none ms v =
      ran_lem c (ok c) _ refl v (executed_lem json_valid ms _ _ (execute c) refl refl)

  resolved_lem :
      (ms : ℕ) (resolved : Result AccountCredentials)
      → LogsIn json_valid resolved execute (
          after_resolve
            (codes "playwright")
            (λ c. checked json_valid (login_result (pos ms) (execute c)))
            resolved)
  resolved_lem ms (err e) = inl refl
  resolved_lem ms (ok c) = refused_lem c _ ms refl

  -- A login on playwright for a valid input, with a resolver, an adapter and a context that is
  -- not cancelled, gives a result that passes its validation, has a payload only for a success,
  -- has no screenshot without a stage or without bytes, and is a success only with the payload of
  -- an execution that succeeded, on resolved and valid credentials. It gives an error only where
  -- the credentials could not be resolved, which is then that error, or where the payload of a
  -- successful execution is missing or is not JSON; an error of the adapter is no error of the
  -- login.
  pub run_playwright_login-LogsIn :
      (resolver : CredentialResolver) (ms : ℕ) (i : LoginInput)
      → validate_login_input i ≡ none
      → LogsIn json_valid
          (resolver i.credential_source i.credential_ref)
          execute
          (run_playwright_login json_valid none (some resolver) (some execute) (pos ms) i)
  unfolding run_playwright_login
  run_playwright_login-LogsIn resolver ms i v = rw v (resolved_lem ms _)
