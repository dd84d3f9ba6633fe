-- ===== src/Browser/Verify/Judgement.antt =====
-- What the verification on playwright says of the follow that it looked at (verify_flow.go).
use mathlib.Core.Path.{subst}
use follower_bmad.Base.{
  ℕ, Option, sym, ◌≢◌, ◌≡◌, refl, ◌↔◌, Bool, true, false, none, some, [], ◌∷◌, arith, if_ind,
}
use follower_bmad.Text.{Text}
use follower_bmad.Errors.Code.{
  DomainError, code_text, is_blank_code, auth_bootstrap_required, session_payload_missing,
}
use follower_bmad.Errors.Value.{GoError, domain_error, as_domain_error, is_context_error}
use follower_bmad.Errors.Result.{Result, ok, err}
use follower_bmad.Domain.Ids.{Bytes}
use follower_bmad.Domain.Follow.{
  FollowOutcome, completed, already_done, action_unavailable, target_unreachable, navigation_failed,
  other_outcome, is_valid_signal, VerificationInput, VerificationResult,
  validate_verification_input, validate_verification,
}
use follower_bmad.Browser.Verify.{
  VerifyState, state_confirmed, state_action_unavailable, state_target_unreachable,
  state_auth_required, Detection, ensure_screenshot, by_state, by_outcome, undecided,
  map_playwright_verification, is_verify_code, kept_verify_error, normalize_verify_error, checked,
  playwright_verify, after_inspect, normalize_verify_reason,
}

-- A follow that the runner of the flow says is done.
abbrev pub is_done : FollowOutcome → Bool
is_done completed = true
is_done already_done = true
is_done _ = false

-- A verdict on an outcome `o` with the session's payload `p` where the page showed `seen`.
pub record IsVerdict (o : FollowOutcome) (p : Bytes) (seen : VerifyState) (r : VerificationResult)
    : Type 0 where
  pub valid : validate_verification r ≡ none
  pub verified_iff : (r.verified ≡ true) ↔ ((seen ≡ state_confirmed) × (is_done o ≡ true))
  pub keeps : r.session_changed ≡ true → (r.verified ≡ true) × (r.session_payload ≡ p)
  pub asks_login : (r.error_code ≡ auth_bootstrap_required) ↔ (seen ≡ state_auth_required)

-- A refused verdict: a follow is confirmed, and the session that it has changed is empty.
pub record IsUnsaved (o : FollowOutcome) (p : Bytes) (seen : VerifyState) (e : GoError)
    : Type 0 where
  pub confirmed : seen ≡ state_confirmed
  pub complete : o ≡ completed
  pub no_payload : p ≡ []
  pub refusal : DomainError
  pub is_refusal : e ≡ domain_error refusal
  pub code : refusal.code ≡ session_payload_missing

-- An error of the verification: a domain error with one of four codes.
pub record IsVerifyError (e : GoError) : Type 0 where
  pub cause : DomainError
  pub is_cause : e ≡ domain_error cause
  pub code : is_verify_code cause.code ≡ true

abbrev pub Judges : FollowOutcome → Bytes → Result Detection → Result VerificationResult → Type 0
Judges o p (ok d) (ok r) = IsVerdict o p d.state r
Judges o p (ok d) (err e) = IsUnsaved o p d.state e
Judges o p (err e) (ok r) = ⊥
Judges o p (err e) (err f) = IsVerifyError f

abbrev Decides : FollowOutcome → Bytes → VerifyState → Result VerificationResult → Type 0
Decides o p seen (ok r) = IsVerdict o p seen r
Decides o p seen (err e) = IsUnsaved o p seen e

unverified-IsVerdict :
    (o : FollowOutcome) (p : Bytes) (seen : VerifyState) (r : VerificationResult)
    → validate_verification r ≡ none
    → r.verified ≡ false
    → r.session_changed ≡ false
    → ¬ ((seen ≡ state_confirmed) × (is_done o ≡ true))
    → (r.error_code ≡ auth_bootstrap_required) ↔ (seen ≡ state_auth_required)
    → IsVerdict o p seen r
unverified-IsVerdict o p seen r v f c n a = record {
  valid = v;
  verified_iff = (λ e. ground arith, λ e. absurd (n e));
  keeps = λ e. ground arith;
  asks_login = a;
}

undecided_lem :
    (seen : VerifyState) (o : FollowOutcome) (p : Bytes) (why : Text) (b : ℕ) (bs : Bytes)
    → is_done o ≡ false
    → seen ≢ state_auth_required
    → Decides o p seen (checked (undecided seen why (b ∷ bs)))
unfolding validate_verification is_valid_signal code_text is_blank_code
undecided_lem state_target_unreachable o p why b bs d n =
    unverified-IsVerdict o p _ _ refl refl refl (λ e. ground arith)
      (λ e. ground arith, λ e. absurd (n e))
undecided_lem state_action_unavailable o p why b bs d n =
    unverified-IsVerdict o p _ _ refl refl refl (λ e. ground arith)
      (λ e. ground arith, λ e. absurd (n e))
undecided_lem seen o p why b bs d n =
    unverified-IsVerdict o p _ _ refl refl refl (λ e. ground arith)
      (λ e. ground arith, λ e. absurd (n e))

outcome_lem :
    (o : FollowOutcome) (seen : VerifyState) (p : Bytes) (why : Text) (b : ℕ) (bs : Bytes)
    → seen ≢ state_auth_required
    → Decides o p seen (checked (by_outcome o seen p why (b ∷ bs)))
unfolding validate_verification is_valid_signal code_text is_blank_code
outcome_lem completed state_confirmed [] why b bs n = record {
  confirmed = refl;
  complete = refl;
  no_payload = refl;
  refusal = _;
  is_refusal = refl;
  code = refl;
}
outcome_lem completed state_confirmed (x ∷ xs) why b bs n = record {
  valid = refl;
  verified_iff = (λ _. (refl, refl), λ _. refl);
  keeps = λ _. (refl, refl);
  asks_login = (λ e. ground arith, λ e. ground arith);
}
outcome_lem already_done state_confirmed p why b bs n = record {
  valid = refl;
  verified_iff = (λ _. (refl, refl), λ _. refl);
  keeps = λ e. ground arith;
  asks_login = (λ e. ground arith, λ e. ground arith);
}
outcome_lem completed seen p why b bs n =
    unverified-IsVerdict _ p _ _ refl refl refl (λ e. ground arith)
      (λ e. ground arith, λ e. absurd (n e))
outcome_lem already_done seen p why b bs n =
    unverified-IsVerdict _ p _ _ refl refl refl (λ e. ground arith)
      (λ e. ground arith, λ e. absurd (n e))
outcome_lem action_unavailable seen p why b bs n =
    unverified-IsVerdict _ p _ _ refl refl refl (λ e. ground arith)
      (λ e. ground arith, λ e. absurd (n e))
outcome_lem target_unreachable seen p why b bs n =
    unverified-IsVerdict _ p _ _ refl refl refl (λ e. ground arith)
      (λ e. ground arith, λ e. absurd (n e))
outcome_lem navigation_failed seen p why b bs n =
    undecided_lem seen navigation_failed p why b bs refl n
outcome_lem (other_outcome t) seen p why b bs n =
    undecided_lem seen (other_outcome t) p why b bs refl n

decides_lem :
    (seen : VerifyState) (o : FollowOutcome) (p : Bytes) (why : Text) (b : ℕ) (bs : Bytes)
    → Decides o p seen (checked (by_state seen o p why (b ∷ bs)))
unfolding validate_verification is_valid_signal code_text is_blank_code
decides_lem state_auth_required o p why b bs =
    unverified-IsVerdict o p _ _ refl refl refl (λ e. ground arith) (λ e. refl, λ e. refl)
decides_lem seen o p why b bs = outcome_lem o _ p why b bs (λ e. ground arith)

ensure_lem :
    (shot : Bytes) (o : FollowOutcome)
    → (b : ℕ) × (bs : Bytes) × (ensure_screenshot shot o ≡ b ∷ bs)
unfolding ensure_screenshot
ensure_lem [] o = (_, _, refl)
ensure_lem (b ∷ bs) o = (b, bs, refl)

kept_lem : (o : Option DomainError) → IsVerifyError (kept_verify_error o)
kept_lem none = record { cause = _; is_cause = refl; code = refl }
kept_lem (some d) =
    if_ind IsVerifyError (is_verify_code d.code) _ _
      (λ h. record { cause = d; is_cause = refl; code = h })
      (λ _. record { cause = _; is_cause = refl; code = refl })

normalize_lem : (e : GoError) → IsVerifyError (normalize_verify_error e)
unfolding normalize_verify_error
normalize_lem e =
    if_ind IsVerifyError (is_context_error e) _ _
      (λ _. record { cause = _; is_cause = refl; code = refl }) (λ _. kept_lem (as_domain_error e))

inspected_lem :
    (i : VerificationInput) (seen : Result Detection)
    → Judges i.outcome i.session_payload seen (after_inspect i seen)
unfolding map_playwright_verification
inspected_lem i (err e) = normalize_lem e
inspected_lem i (ok d) =
    let e = ensure_lem d.screenshot_payload i.outcome in
    subst
      (λ shot. Decides i.outcome i.session_payload d.state (
        checked
          (by_state d.state i.outcome i.session_payload (normalize_verify_reason d.reason) shot)))
      (sym e.2) (decides_lem d.state i.outcome i.session_payload _ e.0 e.1)

-- For a valid input and a context that is not cancelled, the runner on playwright gives a result
-- that passes its validation, is verified exactly where the page confirmed a follow that was
-- completed or already done, changes the session only where it is verified and to the session's
-- payload, and asks for a login exactly where the page did. A page that was inspected gives no
-- error but the missing payload of a completed and confirmed follow; an inspection that failed
-- gives a domain error with one of four codes.
pub playwright_verify-Judges :
    (inspect : VerificationInput → Result Detection) (i : VerificationInput)
    → validate_verification_input i ≡ none
    → Judges i.outcome i.session_payload (inspect i) (playwright_verify none (some inspect) i)
unfolding playwright_verify
playwright_verify-Judges inspect i h = rw h (inspected_lem i (inspect i))
