-- ===== src/Worker/Policy/Laws.antt =====
-- What the classifications of the worker promise the task that is completed with them.
use mathlib.Core.Bool.{false≢true}
use follower_bmad.Base.{
  ℕ, ◌≡◌, ◌↔◌, ◌⊎◌, refl, inl, inr, true, false, Option, none, some, ◌∷◌, arith, Bool-cases,
  Option-cases,
}
use follower_bmad.Text.{
  Text, text, codes, is_blank, is_space, is_empty, trim_space, trim_left, index, has_prefix,
  index_any, text_eq,
}
use follower_bmad.Text.Trim.{is_blank-all}
use follower_bmad.Errors.Code.{
  ErrorCode, is_listed, code_text, code_of_text, is_blank_code, unlisted, session_save_failed,
}
use follower_bmad.Errors.Value.{GoError, domain_error, as_domain_error, lifecycle_error_code}
use follower_bmad.Errors.Result.{Result, ok, err}
use follower_bmad.Domain.Status.{
  TaskStatus, running, success, retry, fail, validate_task_completion,
}
use follower_bmad.Domain.Status.Graph.{validation_iff}
use follower_bmad.Domain.Session.{SessionMetadata}
use follower_bmad.Domain.Follow.{FollowOutcome, other_outcome, VerificationResult}
use follower_bmad.Worker.Policy.{
  Completion, completion, classify_preparation_failure, classify_completion,
  classify_finalization_error, classify_outcome, deterministic_status, deterministic_save_status,
  failed_stage, is_success_outcome, session_save_source, finalization_status,
  new_session_save_failed_error, save_session_payload, source_of_message, unverified_code,
}

-- A completion that ValidateTaskCompletion accepts for a running task.
abbrev pub IsAccepted : Completion → Type 0
IsAccepted c = validate_task_completion running c.status c.error_code c.reason ≡ none

-- A text whose first character is no space is not blank.
pub cons-is_blank : (c : ℕ) (t : Text) → is_space c ≡ false → is_blank (c ∷ t) ≡ false
cons-is_blank c t h = rw (is_blank-all (c ∷ t), h) refl

deterministic_status-cases :
    (code : ErrorCode) → (deterministic_status code ≡ retry) ⊎ (deterministic_status code ≡ fail)
unfolding deterministic_status
deterministic_status-cases code = ground arith

pub deterministic-IsAccepted :
    (code c : ErrorCode) (reason : Text)
    → is_blank reason ≡ false
    → IsAccepted (completion (deterministic_status code) c reason)
deterministic-IsAccepted code c reason h =
    (validation_iff running (deterministic_status code) c reason).1.1
      (refl, inr (deterministic_status-cases code, inr h))

pub classify_preparation_failure-IsAccepted :
    (e : GoError) → IsAccepted (classify_preparation_failure e)
unfolding classify_preparation_failure is_space
classify_preparation_failure-IsAccepted e =
    let code = lifecycle_error_code e in
    deterministic-IsAccepted code code _ (cons-is_blank _ _ refl)

failed_stage-IsAccepted :
    (prefix : Text) (e : GoError)
    → is_blank (failed_stage prefix e).reason ≡ false
    → IsAccepted (failed_stage prefix e)
failed_stage-IsAccepted prefix e h =
    let code = lifecycle_error_code e in
    deterministic-IsAccepted code code (failed_stage prefix e).reason h

classify_outcome-IsAccepted : (o : FollowOutcome) → IsAccepted (classify_outcome o)
unfolding classify_outcome is_space is_blank_code validate_task_completion
classify_outcome-IsAccepted (other_outcome t) = refl
classify_outcome-IsAccepted _ = refl

-- Whatever the follow run and its verification gave, the database accepts the completion of the
-- task that was running.
pub classify_completion-IsAccepted :
    (outcome : FollowOutcome) (follow_error : Option GoError) (v : VerificationResult)
    (verify_error : Option GoError)
    → IsAccepted (classify_completion outcome follow_error v verify_error)
unfolding classify_completion is_space
classify_completion-IsAccepted outcome follow_error v (some e) =
    failed_stage-IsAccepted (codes "follow verification failed") e (cons-is_blank _ _ refl)
classify_completion-IsAccepted outcome follow_error v none = elim (Bool-cases v.verified) [
  | inr unsure ↦
      rw (unsure, classify_completion)
        (deterministic-IsAccepted (unverified_code outcome v.error_code) _ _
          (cons-is_blank _ _ refl))
  | inl sure ↦ elim (Option-cases follow_error) [
    | inl fine ↦ rw (sure, fine, classify_completion) (classify_outcome-IsAccepted outcome)
    | inr (e, broken) ↦
        rw (sure, broken, classify_completion)
          (failed_stage-IsAccepted (codes "follow flow execution failed") e
            (cons-is_blank _ _ refl))
  ]
]

-- The status is success exactly if the run and its verification gave no error, the follow was
-- verified and the outcome is a follow, new or old.
pub classify_completion-success_iff :
    (outcome : FollowOutcome) (follow_error : Option GoError) (v : VerificationResult)
    (verify_error : Option GoError)
    → ((classify_completion outcome follow_error v verify_error).status ≡ success)
      ↔ (verify_error ≡ none)
        × (v.verified ≡ true)
        × (follow_error ≡ none)
        × (is_success_outcome outcome ≡ true)
unfolding classify_completion classify_outcome deterministic_status
classify_completion-success_iff outcome follow_error v verify_error =
    (λ h. ground arith, λ h. ground arith)

status-IsAccepted :
    (status : TaskStatus) (code : ErrorCode) (reason : Text)
    → (status ≡ retry) ⊎ (status ≡ fail)
    → is_blank reason ≡ false
    → IsAccepted (completion status code reason)
status-IsAccepted status code reason s h =
    (validation_iff running status code reason).1.1 (refl, inr (s, inr h))

finalization_status-cases :
    (code source : ErrorCode)
    → (finalization_status code source ≡ retry) ⊎ (finalization_status code source ≡ fail)
unfolding deterministic_save_status
finalization_status-cases session_save_failed source =
    elim (Bool-cases (is_empty (code_text source))) [
      | inl none_given ↦ inl (rw none_given refl)
      | inr given ↦ rw given (deterministic_status-cases source)
    ]
finalization_status-cases code source = deterministic_status-cases code

pub classify_finalization_error-IsAccepted :
    (e : GoError) → IsAccepted (classify_finalization_error e)
unfolding classify_finalization_error is_space
classify_finalization_error-IsAccepted e =
    elim (Bool-cases (is_blank_code (session_save_source e))) [
      | inl blank ↦
          rw (blank, classify_finalization_error)
            (status-IsAccepted _ _ _
              (finalization_status-cases (lifecycle_error_code e) (session_save_source e))
              (cons-is_blank _ _ refl))
      | inr given ↦
          rw (given, classify_finalization_error)
            (status-IsAccepted _ _ _
              (finalization_status-cases (lifecycle_error_code e) (session_save_source e))
              (cons-is_blank _ _ refl))
    ]

source_lem :
    (code : ErrorCode)
    → is_listed code ≡ true
    → session_save_source (
        domain_error
          (new_session_save_failed_error (text "session payload persistence failed") code))
      ≡ code
unfolding session_save_source new_session_save_failed_error source_of_message as_domain_error text
    trim_space trim_left is_space index has_prefix index_any code_text code_of_text text_eq
    is_blank_code
source_lem (unlisted t) h = absurd (false≢true h)
source_lem _ h = refl

-- What a failed session save leaves in the worker's hands.
abbrev pub IsSaveFailure : ErrorCode → Result SessionMetadata → Type 0
IsSaveFailure code (ok a) = ⊥
IsSaveFailure code (err x) =
    (session_save_source x ≡ code)
    × ((classify_finalization_error x).error_code ≡ session_save_failed)
    × ((classify_finalization_error x).status ≡ deterministic_status code)

listed-nonempty : (code : ErrorCode) → is_listed code ≡ true → is_empty (code_text code) ≡ false
unfolding code_text
listed-nonempty (unlisted t) h = absurd (false≢true h)
listed-nonempty _ h = refl

save_failure :
    (code : ErrorCode)
    → is_listed code ≡ true
    → IsSaveFailure code (
        err (
          domain_error
            (new_session_save_failed_error (text "session payload persistence failed") code)))
unfolding classify_finalization_error deterministic_save_status
save_failure code h = (
  source_lem code h,
  unfold lifecycle_error_code as_domain_error new_session_save_failed_error in refl,
  unfold lifecycle_error_code as_domain_error new_session_save_failed_error in
      rw (source_lem code h, listed-nonempty code h) refl,
)

-- A session save that fails with a listed error code is reported under session_save_failed, but
-- the code of the failure is read back from the report, and the task ends with the status of that
-- code.
pub save_session_payload-IsSaveFailure :
    (e : GoError)
    → is_listed (lifecycle_error_code e) ≡ true
    → IsSaveFailure (lifecycle_error_code e) (save_session_payload (some (err e)))
unfolding save_session_payload
save_session_payload-IsSaveFailure e h = save_failure (lifecycle_error_code e) h
