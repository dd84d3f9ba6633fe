-- ===== src/Repo/Tasks/Consistent/Batches.antt =====
-- The rows of a batch and the constraints of the table
-- (internal/repository/postgres/task_postgres.go).
use follower_bmad.Base.{
  ℕ, ◌≡◌, ◌≢◌, inl, inr, true, false, ◌||◌, Option, none, some, List, [], ◌∷◌, ◌++◌, arith, All,
  Bool-cases, Option-cases, or_false, is_some, ◌==◌,
}
use follower_bmad.Errors.Value.{GoError}
use follower_bmad.Domain.Ids.{Uuid, Time}
use follower_bmad.Repo.Table.{Distinct, find, find-none-All}
use follower_bmad.Repo.Tasks.{TaskRow, Store, row_key, find_row, check_row}
use follower_bmad.Repo.Tasks.Batch.{
  InputRow, ValidatedRow, check_rows, input_rows, inserted_rows, has_id, collides, has_blank,
  insertable, payload_unique, write_batch, enqueue_batch,
}
use follower_bmad.Repo.Tasks.Consistent.{IsConsistent}
use follower_bmad.Repo.Tasks.Consistent.Rows.{queued_row-check_row}

-- An id that neither the new rows nor the old ones have.
inserted-other :
    (now : Time) (id : Uuid) (created : List InputRow) (rows : List TaskRow)
    → has_id id created ≡ false
    → find_row id rows ≡ none
    → All (λ y. id ≢ row_key y) (inserted_rows now created ++ rows)
unfolding inserted_rows
inserted-other now id [] rows h e = find-none-All row_key id rows e
inserted-other now id (r ∷ created) rows h e =
    let f = or_false (r.task_id == id) (has_id id created) h in
    (ground arith, inserted-other now id created rows f.1 e)

inserted-Distinct :
    (now : Time) (created : List InputRow) (rows : List TaskRow)
    → collides created rows ≡ false
    → Distinct row_key rows
    → Distinct row_key (inserted_rows now created ++ rows)
unfolding inserted_rows collides
inserted-Distinct now [] rows h d = d
inserted-Distinct now (r ∷ created) rows h d =
    let f =
      or_false (is_some (find_row r.task_id rows))
        (has_id r.task_id created || collides created rows) h in
    let g = or_false (has_id r.task_id created) (collides created rows) f.1 in
    let gone : find_row r.task_id rows ≡ none = ground arith in
    (inserted-other now r.task_id created rows g.0 gone, inserted-Distinct now created rows g.1 d)

inserted-check_row :
    (now : Time) (created : List InputRow) (rows : List TaskRow)
    → has_blank created ≡ false
    → All (λ r. check_row r ≡ true) rows
    → All (λ r. check_row r ≡ true) (inserted_rows now created ++ rows)
unfolding inserted_rows
inserted-check_row now [] rows h c = c
inserted-check_row now (r ∷ created) rows h c =
    let f = or_false _ _ h in
    (
      queued_row-check_row now r.task_id none r.account_id r.target_profile 0 (λ e. ground arith)
          f.0,
      inserted-check_row now created rows f.1 c,
    )

-- The old rows are found as before.
pub inserted-found :
    (now : Time) (created : List InputRow) (rows : List TaskRow) (id : Uuid) (r : TaskRow)
    → collides created rows ≡ false
    → find_row id rows ≡ some r
    → find_row id (inserted_rows now created ++ rows) ≡ some r
unfolding inserted_rows collides find
inserted-found now [] rows id r h e = e
inserted-found now (q ∷ created) rows id r h e =
    let f =
      or_false (is_some (find_row q.task_id rows))
        (has_id q.task_id created || collides created rows) h in
    let g = or_false (has_id q.task_id created) (collides created rows) f.1 in
    let rest : find_row id (inserted_rows now created ++ rows) ≡ some r =
      inserted-found now created rows id r g.1 e in
    ground arith

write_batch-IsConsistent :
    (now : Time) (rows : List InputRow) (s : Store)
    → IsConsistent s.rows
    → IsConsistent (write_batch now rows s).1.rows
unfolding write_batch
write_batch-IsConsistent now rows s h =
    let created = insertable s (payload_unique rows) in
    elim (Bool-cases (has_blank created || collides created s.rows)) [
      | inl bad ↦ rw (bad, write_batch) h
      | inr good ↦
          let f = or_false _ _ good in
          rw (good, write_batch)
            (
              inserted-Distinct now created s.rows f.1 h.0,
              inserted-check_row now created s.rows f.0 h.1,
            )
    ]

pub enqueue_batch-IsConsistent :
    (fault : Option GoError) (now : Time) (fresh : ℕ → Uuid) (rows : List ValidatedRow) (s : Store)
    → IsConsistent s.rows
    → IsConsistent (enqueue_batch fault now fresh rows s).1.rows
unfolding enqueue_batch
enqueue_batch-IsConsistent fault now fresh [] s h = h
enqueue_batch-IsConsistent fault now fresh (r ∷ rows) s h =
    elim (Option-cases (check_rows (r ∷ rows))) [
      | inr (e, bad) ↦ rw (bad, enqueue_batch) h
      | inl good ↦ elim (Option-cases fault) [
        | inr (e, down) ↦ rw (good, down, enqueue_batch) h
        | inl up ↦
            rw (good, up, enqueue_batch)
              (write_batch-IsConsistent now (input_rows fresh 0 (r ∷ rows)) s h)
      ]
    ]
