-- ===== src/Repo/Results/History.antt =====
-- ListHistory of ResultPostgresRepository (internal/repository/postgres/result_postgres.go). The
-- order of UUIDs is that of their numbers.
pub mod Matching
pub mod Pages
use follower_bmad.Base.{
  ℕ, ℤ, pos, Bool, true, false, ◌&&◌, ◌||◌, ltb, leb, ◌==◌, Option, none, some, List, [], ◌∷◌, map,
  if◌then◌else◌, take, drop, filter,
}
use follower_bmad.Text.{Text, text, text_eq, is_blank, trim_space}
use follower_bmad.Errors.Code.{
  ErrorCode, DomainError, new_domain_error, follow_result_persist_failed,
}
use follower_bmad.Errors.Value.{GoError, domain_error}
use follower_bmad.Errors.Result.{Result, ok, err}
use follower_bmad.Domain.Ids.{Uuid, Time, is_nil}
use follower_bmad.Domain.Status.{TaskStatus, status_text}
use follower_bmad.Domain.Follow.{FollowOutcome, VerificationSignal, outcome_text}
use follower_bmad.Domain.History.{
  FollowResultsHistoryQuery, is_set_outcome, is_set_status, validate_query,
}
use follower_bmad.Repo.Tasks.{TaskRow, or_no_text, or_no_code, find_row}
use follower_bmad.Repo.Tasks.Queue.{to_ℕ}
use follower_bmad.Repo.Results.{ResultRow, ResultStore}

-- domain.FollowResultHistoryEntry
pub record HistoryEntry : Type 0 where
  pub task_id : Uuid
  pub account_id : Uuid
  pub target_profile : Text
  pub attempt : ℤ
  pub task_status : TaskStatus
  pub follow_outcome : FollowOutcome
  pub verified : Bool
  pub verification_signal : VerificationSignal
  pub error_code : ErrorCode
  pub result_reason : Text
  pub created_at : Time
  pub updated_at : Time

-- A row of follow_results fr INNER JOIN tasks t.
abbrev pub Joined : Type 0
Joined = ResultRow × TaskRow

-- scanFollowResultHistoryEntry
unfoldable pub scan_entry : Joined → HistoryEntry
scan_entry (r, t) = record {
  task_id = r.task_id;
  account_id = r.account_id;
  target_profile = r.target_profile;
  attempt = pos r.attempt;
  task_status = t.status;
  follow_outcome = r.outcome;
  verified = r.verified;
  verification_signal = r.verification_signal;
  error_code = or_no_code r.error_code;
  result_reason = trim_space (or_no_text t.result_reason);
  created_at = r.created_at;
  updated_at = r.updated_at;
}

abbrev cons_joined : ResultRow → Option TaskRow → List Joined → List Joined
cons_joined r none rest = rest
cons_joined r (some t) rest = (r, t) ∷ rest

-- FROM follow_results fr INNER JOIN tasks t ON t.id = fr.task_id; tasks.id is a primary key.
unfoldable pub joined : List TaskRow → List ResultRow → List Joined
joined tasks [] = []
joined tasks (r ∷ rows) =
    let rest = joined tasks rows in cons_joined r (find_row r.task_id tasks) rest

abbrev pub is_after : Option Time → Time → Bool
is_after none t = true
is_after (some from) t = leb from t

abbrev pub is_before : Option Time → Time → Bool
is_before none t = true
is_before (some to) t = leb t to

-- The WHERE clause of buildFollowResultsHistoryStatement. A filter that is not set adds nothing.
unfoldable pub matches : FollowResultsHistoryQuery → Joined → Bool
matches q (r, t) =
    (is_nil q.account_id || r.account_id == q.account_id)
    && (is_blank q.target_profile || text_eq r.target_profile q.target_profile)
    && (if is_set_outcome q.outcome
        then text_eq (outcome_text r.outcome) (outcome_text q.outcome)
        else true)
    && (if is_set_status q.task_status
        then text_eq (status_text t.status) (status_text q.task_status)
        else true)
    && is_after q.from r.created_at
    && is_before q.to r.created_at

-- ORDER BY fr.created_at DESC, fr.task_id DESC, fr.attempt DESC: a row is not after another.
unfoldable pub is_first : Joined → Joined → Bool
is_first (r, _) (q, _) =
    ltb q.created_at r.created_at
    || r.created_at == q.created_at
      && (ltb q.task_id r.task_id || r.task_id == q.task_id && leb q.attempt r.attempt)

unfoldable pub place : Joined → List Joined → List Joined
place x [] = x ∷ []
place x (y ∷ ys) = let rest = place x ys in if is_first x y then x ∷ y ∷ ys else y ∷ rest

unfoldable pub ordered : List Joined → List Joined
unfolding place
ordered [] = []
ordered (x ∷ xs) = place x (ordered xs)

-- The rows of the statement, before LIMIT and OFFSET.
unfoldable pub matching : FollowResultsHistoryQuery → ResultStore → List Joined
unfolding joined matches
matching q s = ordered (filter (matches q) (joined s.tasks s.results))

-- LIMIT limit OFFSET offset
abbrev pub page {ℓ} : {A : Type ℓ} → ℕ → ℕ → List A → List A
page limit offset rows = take limit (drop offset rows)

abbrev pub if_valid :
    Option DomainError → Option GoError → List HistoryEntry → Result (List HistoryEntry)
if_valid (some e) fault entries = err (domain_error e)
if_valid none (some e) entries = err (
    domain_error (
      new_domain_error follow_result_persist_failed (text "list follow result history failed: %v")))
if_valid none none entries = ok entries

-- ListHistory
unfoldable pub list_history :
    Option GoError → FollowResultsHistoryQuery → ResultStore → Result (List HistoryEntry)
list_history fault q s =
    if_valid (validate_query q) fault
      (map scan_entry (page (to_ℕ q.limit) (to_ℕ q.offset) (matching q s)))
