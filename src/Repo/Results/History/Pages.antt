-- ===== src/Repo/Results/History/Pages.antt =====
-- The pages of ListHistory and the rows they are cut from
-- (internal/repository/postgres/result_postgres.go).
use mathlib.Core.List.{Perm}
use mathlib.Core.List.Perm
use follower_bmad.Base.{
  ◌≡◌, refl, false, none, List, [], ◌∷◌, map, filter, arith, All, Bool-cases, inl, inr,
}
use follower_bmad.Errors.Result.{Result, ok, err}
use follower_bmad.Domain.History.{FollowResultsHistoryQuery, validate_query}
use follower_bmad.Repo.Tasks.Queue.{to_ℕ}
use follower_bmad.Repo.Results.{ResultStore}
use follower_bmad.Repo.Results.History.Matching.{IsLater, is_first-IsLater, Selects, filter-Selects}
use follower_bmad.Repo.Results.History.{
  Joined, HistoryEntry, scan_entry, joined, matches, is_first, place, ordered, matching, page,
  list_history,
}

-- Each row comes before those that follow it: it is later, or has the greater key.
abbrev pub IsLatestFirst : List Joined → Type 0
IsLatestFirst [] = Unit
IsLatestFirst (x ∷ xs) = All (IsLater x) xs × IsLatestFirst xs

is_first_total : (x y : Joined) → is_first x y ≡ false → IsLater y x
unfolding is_first
is_first_total x y h = ground arith

IsLater-trans : (x y z : Joined) → IsLater x y → IsLater y z → IsLater x z
IsLater-trans x y z h k = ground arith

All-first :
    (x y : Joined) (ys : List Joined) → IsLater x y → All (IsLater y) ys → All (IsLater x) ys
All-first x y [] h k = tt
All-first x y (z ∷ ys) h k = (IsLater-trans x y z h k.0, All-first x y ys h k.1)

All-place :
    (w x : Joined) (ys : List Joined)
    → IsLater w x
    → All (IsLater w) ys
    → All (IsLater w) (place x ys)
unfolding place
All-place w x [] h k = (h, tt)
All-place w x (y ∷ ys) h k = elim (Bool-cases (is_first x y)) [
  | inl before ↦ rw before (h, k)
  | inr after ↦ rw after (k.0, All-place w x ys h k.1)
]

place-IsLatestFirst :
    (x : Joined) (ys : List Joined) → IsLatestFirst ys → IsLatestFirst (place x ys)
unfolding place
place-IsLatestFirst x [] s = (tt, tt)
place-IsLatestFirst x (y ∷ ys) s = elim (Bool-cases (is_first x y)) [
  | inl before ↦
      let later = is_first-IsLater x y before in rw before ((later, All-first x y ys later s.0), s)
  | inr after ↦
      rw after (All-place y x ys (is_first_total x y after) s.0, place-IsLatestFirst x ys s.1)
]

place-Perm : (x : Joined) (ys : List Joined) → Perm (place x ys) (x ∷ ys)
unfolding place
place-Perm x [] = Perm.rfl
place-Perm x (y ∷ ys) = elim (Bool-cases (is_first x y)) [
  | inl before ↦ rw before Perm.rfl
  | inr after ↦ rw after (Perm.trans (Perm.cons y (place-Perm x ys)) (Perm.swap x y ys))
]

ordered-IsLatestFirst : (xs : List Joined) → IsLatestFirst (ordered xs)
unfolding ordered
ordered-IsLatestFirst [] = tt
ordered-IsLatestFirst (x ∷ xs) = place-IsLatestFirst x _ (ordered-IsLatestFirst xs)

ordered-Perm : (xs : List Joined) → Perm (ordered xs) xs
unfolding ordered
ordered-Perm [] = Perm.rfl
ordered-Perm (x ∷ xs) = Perm.trans (place-Perm x _) (Perm.cons x (ordered-Perm xs))

-- The entries are a page of the rows that meet the filters, each once and the latest first.
abbrev pub Lists : FollowResultsHistoryQuery → ResultStore → Result (List HistoryEntry) → Type 0
Lists q s (ok entries) =
    (selected : List Joined) × (rows : List Joined) × Selects q (joined s.tasks s.results) selected
    × Perm rows selected
    × IsLatestFirst rows
    × (entries ≡ map scan_entry (page (to_ℕ q.limit) (to_ℕ q.offset) rows))
Lists q s (err e) = ⊥

-- ListHistory of a valid query over a connection that works gives the entries of the page that the
-- limit and the offset cut from a list of the rows that meet each filter of the query that is set,
-- and of no others, in which each row is later than those that follow it, or as late with a greater
-- task id, or of the same task with an attempt that is no smaller.
pub list_history-Lists :
    (q : FollowResultsHistoryQuery) (s : ResultStore)
    → validate_query q ≡ none
    → Lists q s (list_history none q s)
unfolding list_history matching
list_history-Lists q s v = rw v (
  filter (matches q) (joined s.tasks s.results),
  matching q s,
  filter-Selects q (joined s.tasks s.results),
  ordered-Perm (filter (matches q) (joined s.tasks s.results)),
  ordered-IsLatestFirst (filter (matches q) (joined s.tasks s.results)),
  refl,
)
