-- ===== src/Repo/Tasks/Batch/Reasons.antt =====
-- The reasons for which the batch statement skips a row
-- (internal/repository/postgres/task_postgres.go).
use mathlib.Core.Path.{subst}
use follower_bmad.Base.{
  ◌≡◌, refl, ◌⊎◌, inl, inr, true, false, not, ◌&&◌, List, [], ◌∷◌, arith, Bool-cases,
}
use follower_bmad.Repo.Table.{In}
use follower_bmad.Repo.Tasks.{TaskRow, Store}
use follower_bmad.Repo.Tasks.Batch.{
  InputRow, same_payload, comes_before, eq_index, is_first, payload_unique, payload_duplicates,
  has_account, missing_accounts, is_active_duplicate, copies, active_duplicates, has_index,
}
use follower_bmad.Repo.Tasks.Batch.Members.{any_witness, In-append, filter-In}

-- Why a row is skipped: a row of its index comes later than another with its account and target,
-- or has an account that is not in the table, or has a task of the table that is queued or running.
abbrev pub IsSkippable : List InputRow → Store → InputRow → Type 0
IsSkippable rows s a =
    (b : InputRow) × In b rows
    × (eq_index b.row_index a.row_index ≡ true)
    × (((q : InputRow) × In q rows × (same_payload q b ≡ true) × (comes_before q b ≡ true))
        ⊎ (has_account s b ≡ false)
        ⊎ ((t : TaskRow) × In t s.rows × (is_active_duplicate b t ≡ true)))

copies-In :
    (r b : InputRow) (tasks : List TaskRow)
    → In b (copies r tasks)
    → (r ≡ b) × ((t : TaskRow) × In t tasks × (is_active_duplicate r t ≡ true))
unfolding copies
copies-In r b [] m = elim m [ ]
copies-In r b (x ∷ tasks) m = elim (Bool-cases (is_active_duplicate r x)) [
  | inl hit ↦ elim (rw (hit, copies) at m) [
    | inl e ↦ (e, (x, inl refl, hit))
    | inr n ↦ let k = copies-In r b tasks n in (k.0, (k.1.0, inr k.1.1, k.1.2))
  ]
  | inr miss ↦
      let k = copies-In r b tasks (rw (miss, copies) at m) in (k.0, (k.1.0, inr k.1.1, k.1.2))
]

active-In :
    (tasks : List TaskRow) (unique : List InputRow) (b : InputRow)
    → In b (active_duplicates tasks unique)
    → In b unique × ((t : TaskRow) × In t tasks × (is_active_duplicate b t ≡ true))
unfolding active_duplicates
active-In tasks [] b m = elim m [ ]
active-In tasks (r ∷ unique) b m =
    elim (In-append (copies r tasks) (active_duplicates tasks unique) b m) [
      | inl n ↦
          let k = copies-In r b tasks n in
          (
            inl k.0,
            subst (λ q. (t : TaskRow) × In t tasks × (is_active_duplicate q t ≡ true)) k.0 k.1,
          )
      | inr n ↦ let k = active-In tasks unique b n in (inr k.0, k.1)
    ]

module _ (s : Store) (rows : List InputRow) (a : InputRow) where
  unique-In : (b : InputRow) → In b (payload_unique rows) → In b rows
  unique-In b m = (filter-In (is_first rows) rows b m).0

  pub duplicate-IsSkippable : has_index a (payload_duplicates rows) ≡ true → IsSkippable rows s a
  duplicate-IsSkippable h =
      let k = any_witness (λ q. eq_index q.row_index a.row_index) _ h in
      let f = filter-In (λ r. not (is_first rows r)) rows k.0 k.1 in
      let e =
        any_witness (λ q. same_payload q k.0 && comes_before q k.0) rows (ground (arith, f.1)) in
      (k.0, f.0, k.2, inl (e.0, e.1, ground (arith, e.2), ground (arith, e.2)))

  pub missing-IsSkippable :
      has_index a (missing_accounts s (payload_unique rows)) ≡ true → IsSkippable rows s a
  missing-IsSkippable h =
      let k = any_witness (λ q. eq_index q.row_index a.row_index) _ h in
      let f = filter-In (λ r. not (has_account s r)) (payload_unique rows) k.0 k.1 in
      (k.0, unique-In k.0 f.0, k.2, inr (inl (ground (arith, f.1))))

  pub active-IsSkippable :
      has_index a (active_duplicates s.rows (payload_unique rows)) ≡ true → IsSkippable rows s a
  active-IsSkippable h =
      let k = any_witness (λ q. eq_index q.row_index a.row_index) _ h in
      let f = active-In s.rows (payload_unique rows) k.0 k.1 in
      (k.0, unique-In k.0 f.0, k.2, inr (inr f.1))
