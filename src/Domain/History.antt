-- ===== src/Domain/History.antt =====
-- The query of the history of follow results (internal/domain/follow_result_history.go).
use follower_bmad.Base.{
  ℤ, is_negative, is_not_positive, ◌≡◌, ◌≤◌, ◌↔◌, ◌⊎◌, Bool, true, false, not, ◌&&◌, Option, none,
  some, inl, inr, refl, [], ◌∷◌, ltb, arith,
}
use follower_bmad.Text.{Text, is_empty, is_blank}
use follower_bmad.Errors.Code.{
  DomainError, follow_target_profile_required, follow_result_persist_failed, invalid_task_status,
  invalid_task_transition,
}
use follower_bmad.Domain.Ids.{Uuid, Time, reject, validate_target_profile}
use follower_bmad.Domain.Status.{TaskStatus, unlisted, is_valid}
use follower_bmad.Domain.Task.{or_next}
use follower_bmad.Domain.Follow.{FollowOutcome, other_outcome, is_valid_outcome}

-- Text is "" for a filter that is not set; so are `other_outcome []` and `unlisted []`.
pub record FollowResultsHistoryQuery : Type 0 where
  pub account_id : Uuid
  pub target_profile : Text
  pub outcome : FollowOutcome
  pub task_status : TaskStatus
  pub from : Option Time
  pub to : Option Time
  pub limit : ℤ
  pub offset : ℤ

-- query.Outcome != ""
abbrev pub is_set_outcome : FollowOutcome → Bool
is_set_outcome (other_outcome []) = false
is_set_outcome _ = true

-- query.TaskStatus != ""
abbrev pub is_set_status : TaskStatus → Bool
is_set_status (unlisted []) = false
is_set_status _ = true

-- query.From != nil && query.To != nil && query.From.After(*query.To)
abbrev is_reversed : Option Time → Option Time → Bool
is_reversed (some from) (some to) = ltb to from
is_reversed _ _ = false

-- if strings.TrimSpace(rawTarget) != "" { ... }
abbrev validate_target_filter : Text → Option DomainError
validate_target_filter target =
    let checked = validate_target_profile target in
    elim (is_blank target) [ true ↦ none | false ↦ checked ]

-- FollowResultsHistoryQuery.Validate
unfoldable pub validate_query : FollowResultsHistoryQuery → Option DomainError
validate_query q =
    reject (not (is_empty q.target_profile) && is_blank q.target_profile)
      follow_target_profile_required "target profile filter must not be blank when provided"
      (or_next (validate_target_filter q.target_profile) (
        reject (is_set_outcome q.outcome && not (is_valid_outcome q.outcome))
          follow_result_persist_failed "invalid follow outcome filter: %s"
          (reject (is_set_status q.task_status && not (is_valid q.task_status)) invalid_task_status
            "invalid task status filter: %s"
            (reject (is_reversed q.from q.to) invalid_task_transition
              "history time range is invalid: from must be <= to"
              (reject (is_not_positive q.limit) invalid_task_transition
                "history limit must be > 0, got %d"
                (reject (is_negative q.offset) invalid_task_transition
                  "history offset must be >= 0, got %d" none))))))

-- A filter that is not set is the empty text, and a set one is a value that can be found.
pub record IsValidQuery (q : FollowResultsHistoryQuery) : Type 0 where
  pub target : (q.target_profile ≡ []) ⊎ (is_blank q.target_profile ≡ false)
  pub valid_outcome : (q.outcome ≡ other_outcome []) ⊎ (is_valid_outcome q.outcome ≡ true)
  pub valid_status : (q.task_status ≡ unlisted []) ⊎ (is_valid q.task_status ≡ true)
  pub ordered : (f t : Time) → q.from ≡ some f → q.to ≡ some t → f ≤ t
  pub page : is_not_positive q.limit ≡ false
  pub start : is_negative q.offset ≡ false

target_lem :
    (t : Text) → ((not (is_empty t) && is_blank t) ≡ false) ↔ ((t ≡ []) ⊎ (is_blank t ≡ false))
target_lem [] = (λ h. inl refl, λ v. refl)
target_lem (c ∷ t) = (λ h. inr h, λ v. ground arith)

filter_lem : (t : Text) → validate_target_filter t ≡ none
unfolding validate_target_profile
filter_lem t = ground arith

outcome_lem :
    (o : FollowOutcome)
    → ((is_set_outcome o && not (is_valid_outcome o)) ≡ false)
      ↔ ((o ≡ other_outcome []) ⊎ (is_valid_outcome o ≡ true))
unfolding is_valid_outcome
outcome_lem o = (λ h. ground arith, λ v. ground arith)

status_lem :
    (s : TaskStatus)
    → ((is_set_status s && not (is_valid s)) ≡ false) ↔ ((s ≡ unlisted []) ⊎ (is_valid s ≡ true))
unfolding is_valid
status_lem s = (λ h. ground arith, λ v. ground arith)

range_lem :
    (from to : Option Time)
    → (is_reversed from to ≡ false) ↔ ((f t : Time) → from ≡ some f → to ≡ some t → f ≤ t)
range_lem (some a) (some b) = (λ h f t e g. ground arith, λ v. ground (arith, v a b refl refl))
range_lem none to = (λ h f t e g. ground arith, λ v. refl)
range_lem (some a) none = (λ h f t e g. ground arith, λ v. refl)

-- Validate accepts a history query exactly if the target, the outcome and the status it filters
-- by are unset or proper values, its time range is not reversed where both ends are given, its
-- limit is positive and its offset is not negative.
pub query_iff : (q : FollowResultsHistoryQuery) → (validate_query q ≡ none) ↔ IsValidQuery q
unfolding validate_query
query_iff q = (
  λ h. ground (
    arith,
    filter_lem q.target_profile,
    target_lem q.target_profile,
    outcome_lem q.outcome,
    status_lem q.task_status,
    range_lem q.from q.to,
  ),
  λ v. ground (
    arith,
    filter_lem q.target_profile,
    target_lem q.target_profile,
    outcome_lem q.outcome,
    status_lem q.task_status,
    range_lem q.from q.to,
  ),
)
