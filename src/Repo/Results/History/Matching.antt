-- ===== src/Repo/Results/History/Matching.antt =====
-- What the WHERE and ORDER BY clauses of buildFollowResultsHistoryStatement say of a row
-- (internal/repository/postgres/result_postgres.go).
use mathlib.Core.Bool.{false≢true}
use follower_bmad.Base.{
  ◌||◌, sym, ◌∙◌, ◌≡◌, ◌≤◌, ◌<◌, ◌↔◌, ◌⊎◌, refl, inl, inr, Bool, true, false, Option, none, some,
  List, [], ◌∷◌, arith, filter, Bool-cases, if◌then◌else◌,
}
use follower_bmad.Text.{Text, text_eq, is_blank}
use follower_bmad.Text.Search.{text_eq→eq, text_eq_of_eq}
use follower_bmad.Domain.Ids.{Time}
use follower_bmad.Domain.Status.{TaskStatus, unlisted, status_text}
use follower_bmad.Domain.Follow.{FollowOutcome, other_outcome, outcome_text}
use follower_bmad.Domain.History.{FollowResultsHistoryQuery, is_set_outcome, is_set_status}
use follower_bmad.Repo.Results.History.{Joined, is_after, is_before, matches, is_first}

-- A row meets every filter that is set.
pub record IsMatch (q : FollowResultsHistoryQuery) (x : Joined) : Type 0 where
  pub account : (q.account_id ≡ 0) ⊎ (x.0.account_id ≡ q.account_id)
  pub target : (is_blank q.target_profile ≡ true) ⊎ (x.0.target_profile ≡ q.target_profile)
  pub outcome : (q.outcome ≡ other_outcome []) ⊎ (outcome_text x.0.outcome ≡ outcome_text q.outcome)
  pub status : (q.task_status ≡ unlisted []) ⊎ (status_text x.1.status ≡ status_text q.task_status)
  pub from : (t : Time) → q.from ≡ some t → t ≤ x.0.created_at
  pub to : (t : Time) → q.to ≡ some t → x.0.created_at ≤ t

-- A row is later than another, or as late with a greater key or the same.
abbrev pub IsLater : Joined → Joined → Type 0
IsLater x y =
    (y.0.created_at < x.0.created_at)
    ⊎ (x.0.created_at ≡ y.0.created_at)
      × ((y.0.task_id < x.0.task_id) ⊎ (x.0.task_id ≡ y.0.task_id) × (y.0.attempt ≤ x.0.attempt))

pub is_first-IsLater : (x y : Joined) → is_first x y ≡ true → IsLater x y
unfolding is_first
is_first-IsLater x y h = ground arith

set_outcome_lem : (p : FollowOutcome) → (is_set_outcome p ≡ false) ↔ (p ≡ other_outcome [])
set_outcome_lem (other_outcome []) = (λ _. refl, λ _. refl)
set_outcome_lem p = (λ h. ground arith, λ h. ground arith)

set_status_lem : (p : TaskStatus) → (is_set_status p ≡ false) ↔ (p ≡ unlisted [])
set_status_lem (unlisted []) = (λ _. refl, λ _. refl)
set_status_lem p = (λ h. ground arith, λ h. ground arith)

-- A filter by a text adds nothing where it is not set.
text_filter :
    {P : Type 0} (is_set : Bool) (s t : Text)
    → (is_set ≡ false) ↔ P
    → ((if is_set then text_eq s t else true) ≡ true) ↔ (P ⊎ (s ≡ t))
text_filter false s t e = (λ _. inl (e.0 refl), λ _. refl)
text_filter true s t e = (
  λ h. inr (text_eq→eq s t h),
  λ h. elim h [ inl p ↦ absurd (false≢true (sym (e.1 p))) | inr same ↦ text_eq_of_eq s t same ],
)

after_lem : (o : Option Time) (c : Time) → (is_after o c ≡ true) ↔ ((t : Time) → o ≡ some t → t ≤ c)
after_lem none c = (λ h t e. ground arith, λ h. refl)
after_lem (some t) c = (λ h t' e. ground arith, λ h. ground (arith, h t refl))

before_lem :
    (o : Option Time) (c : Time) → (is_before o c ≡ true) ↔ ((t : Time) → o ≡ some t → c ≤ t)
before_lem none c = (λ h t e. ground arith, λ h. refl)
before_lem (some t) c = (λ h t' e. ground arith, λ h. ground (arith, h t refl))

target_lem :
    (wanted s : Text)
    → ((is_blank wanted || text_eq s wanted) ≡ true) ↔ ((is_blank wanted ≡ true) ⊎ (s ≡ wanted))
target_lem wanted s =
    (λ h. ground (arith, text_eq→eq s wanted), λ h. ground (arith, text_eq_of_eq s wanted))

-- The WHERE clause holds of exactly the rows that meet the filters.
pub matches_iff : (q : FollowResultsHistoryQuery) (x : Joined) → (matches q x ≡ true) ↔ IsMatch q x
unfolding matches
matches_iff q x =
    let t = target_lem q.target_profile x.0.target_profile in
    let o =
      text_filter (is_set_outcome q.outcome) (outcome_text x.0.outcome) (outcome_text q.outcome)
        (set_outcome_lem q.outcome) in
    let s =
      text_filter (is_set_status q.task_status) (status_text x.1.status) (status_text q.task_status)
        (set_status_lem q.task_status) in
    let f = after_lem q.from x.0.created_at in
    let u = before_lem q.to x.0.created_at in
    (
      λ h. record {
        account = ground arith;
        target = t.0 (ground arith);
        outcome = o.0 (ground arith);
        status = s.0 (ground arith);
        from = f.0 (ground arith);
        to = u.0 (ground arith);
      },
      λ m.
          ground
            (arith, m.account, t.1 m.target, o.1 m.outcome, s.1 m.status, f.1 m.from, u.1 m.to),
    )

-- The rows that meet the filters, out of all rows.
pub data Selects (q : FollowResultsHistoryQuery) : List Joined → List Joined → Type 0 where
  end : Selects q [] []
  keep :
      {x : Joined} {xs kept : List Joined}
      → IsMatch q x
      → Selects q xs kept
      → Selects q (x ∷ xs) (x ∷ kept)
  skip :
      {x : Joined} {xs kept : List Joined}
      → ¬ IsMatch q x
      → Selects q xs kept
      → Selects q (x ∷ xs) kept

pub filter-Selects :
    (q : FollowResultsHistoryQuery) (xs : List Joined) → Selects q xs (filter (matches q) xs)
filter-Selects q [] = end
filter-Selects q (x ∷ xs) = elim (Bool-cases (matches q x)) [
  | inl hit ↦ rw hit (keep ((matches_iff q x).0 hit) (filter-Selects q xs))
  | inr miss ↦
      rw miss (skip (λ m. false≢true (sym miss ∙ (matches_iff q x).1 m)) (filter-Selects q xs))
]
