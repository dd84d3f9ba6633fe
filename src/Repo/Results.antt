-- ===== src/Repo/Results.antt =====
-- ResultPostgresRepository (internal/repository/postgres/result_postgres.go) with the table
-- follow_results (db/migrations/000009_create_follow_results.up.sql). `fault` is the error of the
-- database connection; `now` is NOW().
pub mod Stored
pub mod Accepted
pub mod History
use follower_bmad.Base.{
  ℕ, ℤ, pos, negsuc, zero, suc, is_negative, Bool, true, false, not, ◌&&◌, ◌||◌, ltb, ◌==◌, Option,
  none, some, is_none, List, [], ◌∷◌, if◌then◌else◌, any,
}
use follower_bmad.Text.{Text, text, is_empty, trim_space}
use follower_bmad.Errors.Code.{
  ErrorCode, DomainError, new_domain_error, follow_result_persist_failed, follow_result_not_found,
  invalid_task_identifier, invalid_task_transition,
}
use follower_bmad.Errors.Value.{GoError, domain_error}
use follower_bmad.Errors.Result.{Result, ok, err, unless_error}
use follower_bmad.Domain.Ids.{Uuid, Time, is_nil, reject}
use follower_bmad.Base.{is_not_positive}
use follower_bmad.Domain.Follow.{
  FollowOutcome, VerificationSignal, FollowResult, is_valid_outcome, is_valid_signal, is_empty_list,
  validate_result,
}
use follower_bmad.Repo.Tasks.{
  TaskRow, or_no_text, or_no_code, nullable_string, nullable_error_code, sql_blank, has_code,
  max_integer,
}
use follower_bmad.Repo.Tasks.Queue.{to_ℕ}

-- A row of table follow_results; `none` is NULL. The column attempt is an INTEGER.
pub record ResultRow : Type 0 where
  pub task_id : Uuid
  pub attempt : ℕ
  pub account_id : Uuid
  pub target_profile : Text
  pub outcome : FollowOutcome
  pub verified : Bool
  pub verification_signal : VerificationSignal
  pub verification_reason : Option Text
  pub error_code : Option ErrorCode
  pub screenshot_object_key : Text
  pub artifact_object_keys : List Text
  pub session_revision : Option ℤ
  pub created_at : Time
  pub updated_at : Time

-- The table, the tasks that its rows refer to, and the audit log. `audit_works` is false where the
-- repository has no audit log or Record fails, which the code ignores.
pub record ResultStore : Type 0 where
  pub results : List ResultRow
  pub tasks : List TaskRow
  pub audit_works : Bool
  pub audit : List (Uuid × ℕ)

abbrev pub or_zero : Option ℤ → ℤ
or_zero none = pos 0
or_zero (some v) = v

-- nullableInt64
abbrev pub nullable_int64 : ℤ → Option ℤ
nullable_int64 (pos zero) = none
nullable_int64 v = some v

-- scanFollowResult
unfoldable pub scan_result : ResultRow → FollowResult
scan_result r = record {
  task_id = r.task_id;
  account_id = r.account_id;
  target_profile = r.target_profile;
  attempt = pos r.attempt;
  outcome = r.outcome;
  verified = r.verified;
  verification_signal = r.verification_signal;
  verification_reason = trim_space (or_no_text r.verification_reason);
  error_code = or_no_code r.error_code;
  screenshot_object_key = r.screenshot_object_key;
  artifact_object_keys = r.artifact_object_keys;
  session_revision = or_zero r.session_revision;
  created_at = r.created_at;
  updated_at = r.updated_at;
}

-- The primary key.
unfoldable pub is_at : Uuid → ℕ → ResultRow → Bool
is_at task attempt r = r.task_id == task && r.attempt == attempt

-- SELECT … WHERE task_id = task AND attempt = attempt
unfoldable pub find_result : Uuid → ℕ → List ResultRow → Option ResultRow
find_result task attempt [] = none
find_result task attempt (r ∷ rows) =
    let rest = find_result task attempt rows in if is_at task attempt r then some r else rest

-- UPDATE … WHERE task_id = task AND attempt = attempt
unfoldable pub update_result : Uuid → ℕ → (ResultRow → ResultRow) → List ResultRow → List ResultRow
update_result task attempt f [] = []
update_result task attempt f (r ∷ rows) =
    (if is_at task attempt r then f r else r) ∷ update_result task attempt f rows

-- The row of the INSERT.
unfoldable pub excluded : Time → FollowResult → ResultRow
excluded now r = record {
  task_id = r.task_id;
  attempt = to_ℕ r.attempt;
  account_id = r.account_id;
  target_profile = r.target_profile;
  outcome = r.outcome;
  verified = r.verified;
  verification_signal = r.verification_signal;
  verification_reason = nullable_string r.verification_reason;
  error_code = nullable_error_code r.error_code;
  screenshot_object_key = r.screenshot_object_key;
  artifact_object_keys = r.artifact_object_keys;
  session_revision = nullable_int64 r.session_revision;
  created_at = now;
  updated_at = now;
}

-- ON CONFLICT (task_id, attempt) DO UPDATE SET …
abbrev pub over : ResultRow → ResultRow → ResultRow
over new old = record new {
  task_id = old.task_id;
  attempt = old.attempt;
  created_at = old.created_at;
}

-- chk_follow_results_verified_vs_error
abbrev pub verified_vs_error : Bool → Option ErrorCode → Bool
verified_vs_error true code = is_none code
verified_vs_error false code = has_code code

abbrev pub positive_or_null : Option ℤ → Bool
positive_or_null none = true
positive_or_null (some v) = not (is_not_positive v)

-- The CHECK constraints.
unfoldable pub check_result : ResultRow → Bool
check_result r =
    ltb 0 r.attempt
    && positive_or_null r.session_revision
    && not (sql_blank r.target_profile)
    && is_valid_outcome r.outcome
    && is_valid_signal r.verification_signal
    && verified_vs_error r.verified r.error_code
    && not (sql_blank r.screenshot_object_key)
    && not (is_empty_list r.artifact_object_keys)

-- fk_follow_results_task_account. A task's account is an account, by the reference of tasks.
abbrev pub refers : ResultRow → TaskRow → Bool
refers r t = t.id == r.task_id && t.account_id == r.account_id

-- The constraints of the table and the range of attempt.
abbrev pub is_admissible : List TaskRow → ResultRow → Bool
is_admissible tasks r = any (refers r) tasks && check_result r && not (ltb max_integer r.attempt)

abbrev pub audited : Uuid → ℕ → ResultStore → List (Uuid × ℕ)
audited task attempt s = if s.audit_works then (task, attempt) ∷ s.audit else s.audit

abbrev persist_failed : Result FollowResult
persist_failed = err (
    domain_error
      (new_domain_error follow_result_persist_failed (text "upsert follow result failed: %v")))

abbrev pub on_conflict :
    ResultRow → ResultStore → Option ResultRow → Result FollowResult × ResultStore
on_conflict new s none = (
  ok (scan_result new),
  record s { results = new ∷ s.results; audit = audited new.task_id new.attempt s },
)
on_conflict new s (some old) = (
  ok (scan_result (over new old)),
  record s {
    results = update_result new.task_id new.attempt (over new) s.results;
    audit = audited new.task_id new.attempt s;
  },
)

-- INSERT … ON CONFLICT … RETURNING …, with the audit event.
abbrev pub write_result : ResultRow → ResultStore → Result FollowResult × ResultStore
write_result new s =
    if is_admissible s.tasks new
    then on_conflict new s (find_result new.task_id new.attempt s.results)
    else (persist_failed, s)

-- The write, unless the result is refused or the connection fails.
abbrev pub if_valid :
    Option DomainError
    → Option GoError
    → ResultStore
    → Result FollowResult × ResultStore
    → Result FollowResult × ResultStore
if_valid (some e) fault s written = (err (domain_error e), s)
if_valid none (some e) s written = (persist_failed, s)
if_valid none none s written = written

-- Upsert
unfoldable pub upsert_result :
    Option GoError → Time → FollowResult → ResultStore → Result FollowResult × ResultStore
upsert_result fault now r s = if_valid (validate_result r) fault s (write_result (excluded now r) s)

abbrev pub read_row : Option ResultRow → Result FollowResult
read_row none = err (
    domain_error (
      new_domain_error follow_result_not_found
        (text "follow result for task %s attempt %d not found")))
read_row (some r) = ok (scan_result r)

abbrev pub read_result : Option GoError → Uuid → ℕ → ResultStore → Result FollowResult
read_result (some e) task attempt s = err (
    domain_error
      (new_domain_error follow_result_persist_failed (text "get follow result failed: %v")))
read_result none task attempt s = read_row (find_result task attempt s.results)

-- GetByTaskAttempt
unfoldable pub get_by_task_attempt : Option GoError → Uuid → ℤ → ResultStore → Result FollowResult
get_by_task_attempt fault task attempt s =
    unless_error
      (reject (is_nil task) invalid_task_identifier "task id must not be empty" (
        reject (is_not_positive attempt) invalid_task_transition "attempt must be > 0, got %d"
          none))
      (read_result fault task (to_ℕ attempt) s)
