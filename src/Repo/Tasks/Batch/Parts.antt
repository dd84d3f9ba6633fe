-- ===== src/Repo/Tasks/Batch/Parts.antt =====
-- What the parts of the batch statement select (internal/repository/postgres/task_postgres.go).
use mathlib.Core.Path.{subst}
use follower_bmad.Base.{
  ◌≡◌, refl, sym, ap, ◌∙◌, inl, inr, Bool, true, false, ◌&&◌, ◌||◌, List, [], ◌∷◌, any, filter,
  arith, Bool-cases, not-true,
}
use follower_bmad.Text.Search.{text_eq_refl, text_eq→eq}
use follower_bmad.Repo.Table.{In}
use follower_bmad.Repo.Tasks.{TaskRow, Store}
use follower_bmad.Repo.Tasks.Batch.{
  InputRow, same_payload, comes_before, lt_index, eq_index, is_first, payload_unique,
  payload_duplicates, SkippedRow, SkipReason, duplicate_active_task, account_missing, skipped_as,
  insert_skipped, sort_skipped, skipped_rows_of, has_account, missing_accounts, is_active_duplicate,
  copies, active_duplicates, has_index,
}
use follower_bmad.Repo.Tasks.Batch.Members.{any-In, any-append}

comes_before-total :
    (a b : InputRow) → comes_before a b ≡ false → comes_before b a ≡ false → a.task_id ≡ b.task_id
unfolding comes_before
comes_before-total a b h k = ground arith

same_payload-sym : (a b : InputRow) → same_payload a b ≡ true → same_payload b a ≡ true
same_payload-sym a b h =
    ground (arith, text_eq→eq a.target_profile b.target_profile, text_eq_refl b.target_profile)

-- Two rows that are both the first with their payload are one.
pub first_unique :
    (rows : List InputRow) (a b : InputRow)
    → In a rows
    → In b rows
    → is_first rows a ≡ true
    → is_first rows b ≡ true
    → same_payload a b ≡ true
    → a.task_id ≡ b.task_id
first_unique rows a b ma mb fa fb same =
    let x = any-In (λ q. same_payload q a && comes_before q a) rows b (not-true _ fa) mb in
    let y = any-In (λ q. same_payload q b && comes_before q b) rows a (not-true _ fb) ma in
    comes_before-total a b (rw same at y) (rw (same_payload-sym a b same) at x)

pub eq_index_refl : (r : InputRow) → eq_index r.row_index r.row_index ≡ true
eq_index_refl r = ground arith

-- A row with an active duplicate has its index among the active duplicates.
copies-has_index :
    (r : InputRow) (tasks : List TaskRow) (t : TaskRow)
    → In t tasks
    → is_active_duplicate r t ≡ true
    → has_index r (copies r tasks) ≡ true
unfolding copies
copies-has_index r [] t m h = elim m [ ]
copies-has_index r (x ∷ tasks) t (inl e) h =
    rw (ap (is_active_duplicate r) e ∙ h, copies, eq_index_refl r) refl
copies-has_index r (x ∷ tasks) t (inr m) h =
    let rest = copies-has_index r tasks t m h in ground arith

pub active-has_index :
    (tasks : List TaskRow) (unique : List InputRow) (r : InputRow) (t : TaskRow)
    → In r unique
    → In t tasks
    → is_active_duplicate r t ≡ true
    → has_index r (active_duplicates tasks unique) ≡ true
unfolding active_duplicates
active-has_index tasks [] r t m n h = elim m [ ]
active-has_index tasks (x ∷ unique) r t (inl e) n h =
    let hit : has_index r (copies x tasks) ≡ true =
      subst (λ y. has_index r (copies y tasks) ≡ true) (sym e) (copies-has_index r tasks t n h) in
    rw
      (
        any-append (λ q. eq_index q.row_index r.row_index) (copies x tasks)
            (active_duplicates tasks unique),
        hit,
      )
      refl
active-has_index tasks (x ∷ unique) r t (inr m) n h =
    let rest = active-has_index tasks unique r t m n h in
    rw
      (
        any-append (λ q. eq_index q.row_index r.row_index) (copies x tasks)
            (active_duplicates tasks unique),
        rest,
      )
      (ground arith)

-- A row without an account has its index among those that miss one.
pub missing-has_index :
    (s : Store) (unique : List InputRow) (r : InputRow)
    → In r unique
    → has_account s r ≡ false
    → has_index r (missing_accounts s unique) ≡ true
missing-has_index s [] r m h = elim m [ ]
missing-has_index s (x ∷ unique) r (inl e) h =
    let gone : has_account s x ≡ false = ap (has_account s) e ∙ h in
    let own : eq_index x.row_index r.row_index ≡ true =
      ap (λ (q : InputRow). eq_index q.row_index r.row_index) e ∙ eq_index_refl r in
    rw (gone, filter, own) refl
missing-has_index s (x ∷ unique) r (inr m) h =
    let rest = missing-has_index s unique r m h in
    elim (Bool-cases (has_account s x)) [
      | inl there ↦ rw (there, filter) rest
      | inr gone ↦ rw (gone, filter, rest) (ground arith)
    ]

-- The index of the row is among the skipped ones.
abbrev pub is_reported : InputRow → List SkippedRow → Bool
is_reported r = any (λ q. eq_index q.row r.row_index)

any-insert_skipped :
    (p : SkippedRow → Bool) (r : SkippedRow) (rows : List SkippedRow)
    → any p (insert_skipped r rows) ≡ (p r || any p rows)
unfolding insert_skipped
any-insert_skipped p r [] = refl
any-insert_skipped p r (q ∷ rows) =
    let rest = any-insert_skipped p r rows in
    elim (Bool-cases (lt_index q.row r.row)) [
      | inl later ↦ rw (later, insert_skipped, rest) (swap (p q) (p r) (any p rows))
      | inr here ↦ rw (here, insert_skipped) refl
    ]
  where
    swap : (b c d : Bool) → (b || (c || d)) ≡ (c || (b || d))
    swap b c d = ground arith

any-sort_skipped :
    (p : SkippedRow → Bool) (rows : List SkippedRow) → any p (sort_skipped rows) ≡ any p rows
unfolding sort_skipped
any-sort_skipped p [] = refl
any-sort_skipped p (r ∷ rows) =
    any-insert_skipped p r (sort_skipped rows) ∙ ap (λ b. p r || b) (any-sort_skipped p rows)

any-skipped_as :
    (r : InputRow) (reason : SkipReason) (rows : List InputRow)
    → is_reported r (skipped_as reason rows) ≡ has_index r rows
unfolding skipped_as
any-skipped_as r reason [] = refl
any-skipped_as r reason (q ∷ rows) =
    ap (λ b. eq_index q.row_index r.row_index || b) (any-skipped_as r reason rows)

pub reported_lem :
    (s : Store) (rows : List InputRow) (r : InputRow)
    → is_reported r (skipped_rows_of s rows) ≡ (
        has_index r (payload_duplicates rows)
        || (has_index r (missing_accounts s (payload_unique rows))
            || has_index r (active_duplicates s.rows (payload_unique rows))))
reported_lem s rows r =
    any-sort_skipped (λ q. eq_index q.row r.row_index) _
    ∙ rw
        (
          any-append (λ (q : SkippedRow). eq_index q.row r.row_index)
              (skipped_as duplicate_active_task (payload_duplicates rows)) _,
          any-append (λ (q : SkippedRow). eq_index q.row r.row_index)
              (skipped_as account_missing (missing_accounts s (payload_unique rows))) _,
          any-skipped_as r duplicate_active_task (payload_duplicates rows),
          any-skipped_as r account_missing (missing_accounts s (payload_unique rows)),
          any-skipped_as r duplicate_active_task (active_duplicates s.rows (payload_unique rows)),
        )
        refl
