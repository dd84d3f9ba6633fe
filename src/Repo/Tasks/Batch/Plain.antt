-- ===== src/Repo/Tasks/Batch/Plain.antt =====
-- The conditions of the batch statement, told without its tests
-- (internal/repository/postgres/task_postgres.go).
use mathlib.Core.Path.{subst}
use mathlib.Core.Bool.{false≢true}
use follower_bmad.Base.{
  ℤ, pos, negsuc, ◌≡◌, ◌<◌, ◌⊎◌, ◌↔◌, sym, ap, ◌∙◌, inl, inr, true, List, arith, ==_iff, ==_refl,
  ◌==◌, Bool-cases, [],
}
use follower_bmad.Text.Search.{text_eq→eq, text_eq_of_eq}
use follower_bmad.Domain.Status.{queued, running}
use follower_bmad.Repo.Table.{In}
use follower_bmad.Repo.Tasks.{TaskRow, Store}
use follower_bmad.Repo.Tasks.Batch.{
  InputRow, SkippedRow, same_payload, comes_before, lt_index, eq_index, has_account,
  is_active_duplicate,
}
use follower_bmad.Repo.Tasks.Batch.Members.{any_witness, any_of-In}
use follower_bmad.Repo.Tasks.Batch.Parts.{is_reported, eq_index_refl}
use follower_bmad.Repo.Tasks.Batch.Reasons.{IsSkippable}

abbrev pub IsSamePayload : InputRow → InputRow → Type 0
IsSamePayload q r = (q.account_id ≡ r.account_id) × (q.target_profile ≡ r.target_profile)

-- A queued or running task with the account and the target of the row.
abbrev pub IsActive : InputRow → TaskRow → Type 0
IsActive r t =
    (t.account_id ≡ r.account_id)
    × (t.target_profile ≡ r.target_profile)
    × ((t.status ≡ queued) ⊎ (t.status ≡ running))

abbrev pub IsLess : ℤ → ℤ → Type 0
IsLess (pos a) (pos b) = a < b
IsLess (pos a) (negsuc b) = ⊥
IsLess (negsuc a) (pos b) = Unit
IsLess (negsuc a) (negsuc b) = b < a

-- Of a smaller index, or of the same with a smaller id.
abbrev pub IsEarlier : InputRow → InputRow → Type 0
IsEarlier q r =
    IsLess q.row_index r.row_index ⊎ (q.row_index ≡ r.row_index) × (q.task_id < r.task_id)

-- Why the rows of an index may be skipped: one of them comes later than another with its account
-- and target, or has an account that is not in the table, or has a task that is queued or running.
abbrev pub IsSkipped : List InputRow → Store → ℤ → Type 0
IsSkipped rows s index =
    (b : InputRow) × In b rows
    × (b.row_index ≡ index)
    × (((q : InputRow) × In q rows × IsSamePayload q b × IsEarlier q b)
        ⊎ (¬ In b.account_id s.accounts)
        ⊎ ((t : TaskRow) × In t s.rows × IsActive b t))

pub same_payload_iff : (q r : InputRow) → (same_payload q r ≡ true) ↔ IsSamePayload q r
same_payload_iff q r = (
  λ h. (
    ground (arith, text_eq→eq q.target_profile r.target_profile),
    ground (arith, text_eq→eq q.target_profile r.target_profile),
  ),
  λ h. ground (arith, h.0, h.1, text_eq_of_eq q.target_profile r.target_profile h.1),
)

pub is_active_duplicate_iff :
    (r : InputRow) (t : TaskRow) → (is_active_duplicate r t ≡ true) ↔ IsActive r t
is_active_duplicate_iff r t = (
  λ h. (ground arith, text_eq→eq t.target_profile r.target_profile (ground arith), ground arith),
  λ h. ground (arith, h.0, h.2, text_eq_of_eq t.target_profile r.target_profile h.1),
)

pub index_lem : (i j : ℤ) → eq_index i j ≡ true → i ≡ j
index_lem (pos a) (pos b) h = ap pos ((==_iff a b).0 h)
index_lem (negsuc a) (negsuc b) h = ap negsuc ((==_iff a b).0 h)
index_lem (pos a) (negsuc b) h = ground arith
index_lem (negsuc a) (pos b) h = ground arith

less_lem : (i j : ℤ) → lt_index i j ≡ true → IsLess i j
less_lem (pos a) (pos b) h = ground arith
less_lem (negsuc a) (negsuc b) h = ground arith
less_lem (negsuc a) (pos b) h = tt
less_lem (pos a) (negsuc b) h = ground arith

earlier_lem : (q r : InputRow) → comes_before q r ≡ true → IsEarlier q r
unfolding comes_before
earlier_lem q r h = elim (Bool-cases (lt_index q.row_index r.row_index)) [
  | inl less ↦ inl (less_lem _ _ less)
  | inr not_less ↦ inr (index_lem q.row_index r.row_index (ground arith), ground arith)
]

pub has_account_iff :
    (s : Store) (r : InputRow) → (has_account s r ≡ true) ↔ In r.account_id s.accounts
has_account_iff s r = (
  λ h.
      let k = any_witness (λ id. id == r.account_id) s.accounts h in
      subst (λ id. In id s.accounts) ((==_iff k.0 r.account_id).0 k.2) k.1,
  λ m. any_of-In (λ id. id == r.account_id) s.accounts r.account_id m (==_refl r.account_id),
)

pub skippable-IsSkipped :
    (rows : List InputRow) (s : Store) (a : InputRow)
    → IsSkippable rows s a
    → IsSkipped rows s a.row_index
skippable-IsSkipped rows s a (b, m, at, why) = (
  b,
  m,
  index_lem b.row_index a.row_index at,
  elim why [
    | inl (q, n, same, before) ↦ inl (q, n, (same_payload_iff q b).0 same, earlier_lem q b before)
    | inr (inl gone) ↦ inr (inl (λ n. false≢true (sym gone ∙ (has_account_iff s b).1 n)))
    | inr (inr (t, n, dup)) ↦ inr (inr (t, n, (is_active_duplicate_iff b t).0 dup))
  ],
)

pub reported-In :
    (a : InputRow) (rows : List SkippedRow)
    → is_reported a rows ≡ true
    → (e : SkippedRow) × In e rows × (e.row ≡ a.row_index)
reported-In a rows h =
    let k = any_witness (λ (q : SkippedRow). eq_index q.row a.row_index) rows h in
    (k.0, k.1, index_lem _ _ k.2)

-- A row that has the index of a row that is reported.
abbrev pub row_of : SkippedRow → InputRow
row_of e = record { row_index = e.row; task_id = 0; account_id = 0; target_profile = [] }

pub In-reported :
    (e : SkippedRow) (rows : List SkippedRow) → In e rows → is_reported (row_of e) rows ≡ true
In-reported e rows m =
    any_of-In (λ (q : SkippedRow). eq_index q.row e.row) rows e m (eq_index_refl (row_of e))
