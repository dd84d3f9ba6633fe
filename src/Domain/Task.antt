-- ===== src/Domain/Task.antt =====
-- The task record and its validation (internal/domain/task.go).
use follower_bmad.Base.{
  ℤ, is_negative, ◌≡◌, ◌≢◌, ◌↔◌, Bool, true, false, not, Option, none, some, arith, ◌==◌,
}
use follower_bmad.Text.{Text, is_blank}
use follower_bmad.Errors.Code.{
  ErrorCode, DomainError, invalid_task_identifier, invalid_task_transition,
  invalid_account_identifier, invalid_task_status,
}
use follower_bmad.Domain.Ids.{Uuid, Time, is_nil, reject, validate_target_profile}
use follower_bmad.Domain.Status.{TaskStatus, is_valid}

pub record Task : Type 0 where
  pub id : Uuid
  pub source_task_id : Option Uuid
  pub account_id : Uuid
  pub target_profile : Text
  pub status : TaskStatus
  pub attempt : ℤ
  pub claimed_by : Text
  pub claimed_at : Option Time
  pub started_at : Option Time
  pub finished_at : Option Time
  pub error_code : ErrorCode
  pub result_reason : Text
  pub created_at : Time
  pub updated_at : Time

abbrev pub is_own_source : Option Uuid → Uuid → Bool
is_own_source none id = false
is_own_source (some source) id = source == id

abbrev pub or_next : Option DomainError → Option DomainError → Option DomainError
or_next (some e) rest = some e
or_next none rest = rest

-- Task.Validate
unfoldable pub validate : Task → Option DomainError
unfolding validate_target_profile
validate task = reject (is_nil task.id) invalid_task_identifier "task id must not be empty" (
    reject (is_own_source task.source_task_id task.id) invalid_task_transition
      "task source_task_id must not reference the same task id"
      (reject (is_nil task.account_id) invalid_account_identifier
        "task account id must not be empty"
        (or_next (validate_target_profile task.target_profile) (
          reject (not (is_valid task.status)) invalid_task_status "invalid task status: %s" (
            reject (is_negative task.attempt) invalid_task_transition
              "task attempt must be >= 0, got %d" none)))))

-- What a valid task has.
pub record IsValidTask (task : Task) : Type 0 where
  pub has_id : task.id ≢ 0
  pub other_source : task.source_task_id ≢ some task.id
  pub has_account : task.account_id ≢ 0
  pub has_target : is_blank task.target_profile ≡ false
  pub valid_status : is_valid task.status ≡ true
  pub counted : is_negative task.attempt ≡ false

-- Validate accepts a task exactly if it has an id that is not its source's, an account, a target,
-- a known status and an attempt that is not negative.
pub validate_iff : (task : Task) → (validate task ≡ none) ↔ IsValidTask task
unfolding validate
validate_iff task = (λ h. ground arith, λ v. ground arith)
