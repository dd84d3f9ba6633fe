-- ===== src/Repo/Tasks/Consistent/Calls.antt =====
-- The calls of task_postgres.go and the constraints of the table.
use mathlib.Core.Path.{subst}
use mathlib.Core.Option.{some-injective, none-ne-some}
use follower_bmad.Text.Trim.{sql_blank_lem}
use follower_bmad.Base.{
  ap, ◌∙◌, ◌≡◌, ◌≢◌, refl, sym, inl, inr, Bool, true, false, Option, none, some, List, ◌∷◌, arith,
  Bool-cases, Option-cases, not, ◌&&◌,
}
use follower_bmad.Text.{Text, is_blank}
use follower_bmad.Errors.Code.{ErrorCode}
use follower_bmad.Errors.Value.{GoError}
use follower_bmad.Errors.Result.{Result, ok, err}
use follower_bmad.Domain.Ids.{Uuid, Time, is_nil}
use follower_bmad.Domain.Status.{TaskStatus, is_queued}
use follower_bmad.Domain.Admin.{AdminAction, retry_action, allowed, denied, AdminResult, evaluate}
use follower_bmad.Domain.Admin.Laws.{Admin, AdminSpec, evaluate_lem}
use follower_bmad.Domain.Task.{Task, validate, validate_iff}
use follower_bmad.Repo.Table.{
  update, find_sound, find_key, find-none-All, All-update_found, Distinct-update, find-In,
}
use follower_bmad.Repo.Tasks.{
  TaskRow, Store, row_key, find_row, check_row, write_rows-rows, task_claimed, nullable_string,
  sql_blank,
}
use follower_bmad.Repo.Tasks.Queue.{
  queued_row, insert_row, scanned, enqueue, next_task, mark_running, take_row, claim_next_queued,
  with_defaults, nullable_source, to_ℕ,
}
use follower_bmad.Repo.Tasks.Queue.Order.{Selects, next_task-Selects}
use follower_bmad.Repo.Tasks.Complete.{
  Interleaving, complete, mark_finished, final_code, final_reason,
}
use follower_bmad.Repo.Tasks.Complete.Laws.{complete-Completes}
use follower_bmad.Repo.Tasks.Complete.Promise.{Completes}
use follower_bmad.Repo.Tasks.Admin.{
  apply_admin_transition, retry_from_task, mark_transitioned, cancel_reason, retried,
  apply_evaluated, retry_evaluated,
}
use follower_bmad.Repo.Tasks.Consistent.{IsConsistent}
use follower_bmad.Repo.Tasks.Consistent.Rows.{
  mark_running-check_row, mark_finished-check_row, mark_transitioned-check_row,
  queued_row-check_row,
}

found-check_row :
    (id : Uuid) (r : TaskRow) (rows : List TaskRow)
    → IsConsistent rows
    → find_row id rows ≡ some r
    → check_row r ≡ true
found-check_row id r rows h found =
    (find_sound row_key (λ q. check_row q ≡ true) id rows h.1 found).1

-- A write of one row that keeps its id.
update-IsConsistent :
    (id : Uuid) (f : TaskRow → TaskRow) (r : TaskRow) (rows : List TaskRow)
    → ((q : TaskRow) → (f q).id ≡ q.id)
    → find_row id rows ≡ some r
    → check_row (f r) ≡ true
    → IsConsistent rows
    → IsConsistent (update row_key id f rows)
update-IsConsistent id f r rows keeps found good h = (
  Distinct-update row_key id f rows keeps h.0,
  All-update_found row_key (λ q. check_row q ≡ true) id f rows r h.0 found good h.1,
)

insert_row-IsConsistent :
    (r : TaskRow) (s : Store)
    → (find_row r.id s.rows ≡ none → check_row r ≡ true)
    → IsConsistent s.rows
    → IsConsistent (insert_row r s).1.rows
unfolding insert_row
insert_row-IsConsistent r s good h = elim (Option-cases (find_row r.id s.rows)) [
  | inr (q, e) ↦ rw (e, insert_row) h
  | inl e ↦
      let new : IsConsistent (r ∷ s.rows) =
        ((find-none-All row_key r.id s.rows e, h.0), (good e, h.1)) in
      ground arith
]

pub take_row-IsConsistent :
    (now : Time) (claimed_by : Text) (r : TaskRow) (s : Store)
    → find_row r.id s.rows ≡ some r
    → is_queued r.status ≡ true
    → is_blank claimed_by ≡ false
    → IsConsistent s.rows
    → IsConsistent (take_row now claimed_by r s).1.rows
unfolding take_row
take_row-IsConsistent now claimed_by r s found q named h =
    let f = mark_running now claimed_by in
    let good =
      mark_running-check_row now claimed_by r (found-check_row r.id r s.rows h found) q named in
    ground (
      arith,
      write_rows-rows task_claimed r.id (update row_key r.id f s.rows) s,
      update-IsConsistent r.id f r s.rows (λ _. refl) found good h,
    )

pub claim_next_queued-IsConsistent :
    (fault : Option GoError) (locked : Uuid → Bool) (now : Time) (claimed_by : Text) (s : Store)
    → IsConsistent s.rows
    → IsConsistent (claim_next_queued fault locked now claimed_by s).1.rows
unfolding claim_next_queued
claim_next_queued-IsConsistent fault locked now claimed_by s h =
    elim (Bool-cases (is_blank claimed_by)) [
      | inl blank ↦ rw (blank, claim_next_queued) h
      | inr named ↦ elim (Option-cases (next_task locked s.rows)) [
        | inl e ↦ ground arith
        | inr (r, e) ↦
            let first = subst (Selects locked s.rows) e (next_task-Selects locked s.rows) in
            let found = find-In row_key r s.rows h.0 first.0 in
            ground
              (arith, take_row-IsConsistent now claimed_by r s found (waiting r first.1) named h)
      ]
    ]
  where
    waiting :
        (r : TaskRow) → (is_queued r.status && not (locked r.id)) ≡ true → is_queued r.status ≡ true
    waiting r w = ground arith

pub complete-IsConsistent :
    (net : Interleaving) (now : Time) (id : Uuid) (claimed_by : Text) (final : TaskStatus)
    (code : ErrorCode) (reason : Text) (s : Store)
    → IsConsistent s.rows
    → IsConsistent (net.before_write s).rows
    → IsConsistent (net.before_reread (net.before_write s)).rows
    → IsConsistent (complete net now id claimed_by final code reason s).1.rows
complete-IsConsistent net now id claimed_by final code reason s h h' h'' =
    finish (complete net now id claimed_by final code reason s)
      (complete-Completes net now id claimed_by final code reason s)
  where
    finish :
        (p : Result Task × Store)
        → Completes net now id claimed_by final code reason s p
        → IsConsistent p.1.rows
    finish (ok t, s') c =
        let f = mark_finished now final (final_code final code) (final_reason final reason) in
        let good =
          mark_finished-check_row now final code reason c.0
            (found-check_row id c.0 (net.before_write s).rows h' c.1) c.2 c.4 in
        rw c.8 (update-IsConsistent id f c.0 (net.before_write s).rows (λ _. refl) c.1 good h')
    finish (err e, s') (inl same, why) = rw same h
    finish (err e, s') ((inr (inl same)), why) = rw same h'
    finish (err e, s') ((inr (inr same)), why) = rw same h''

pub enqueue-IsConsistent :
    (fault : Option GoError) (now : Time) (fresh : Uuid) (task : Task) (s : Store)
    → IsConsistent s.rows
    → IsConsistent (enqueue fault now fresh task s).1.rows
unfolding enqueue
enqueue-IsConsistent fault now fresh task s h =
    let t = with_defaults fresh task in
    elim (Option-cases (validate t)) [
      | inr (e, bad) ↦ ground arith
      | inl good ↦
          let v = (validate_iff t).0 good in
          let r =
            queued_row now t.id (nullable_source t.source_task_id) t.account_id t.target_profile
              (to_ℕ t.attempt) in
          let check =
            queued_row-check_row now t.id (nullable_source t.source_task_id) t.account_id
              t.target_profile (to_ℕ t.attempt) (not_own t.source_task_id t.id v.other_source)
              (sql_blank_lem t.target_profile v.has_target) in
          ground (
            arith,
            scanned-IsConsistent (insert_row r s) (insert_row-IsConsistent r s (λ _. check) h),
          )
    ]
  where
    not_own :
        (source : Option Uuid) (id : Uuid) → source ≢ some id → nullable_source source ≢ some id
    not_own source id other = ground arith

    scanned-IsConsistent :
        (p : Result TaskRow × Store) → IsConsistent p.1.rows → IsConsistent (scanned p).1.rows
    scanned-IsConsistent (ok r, s) h = h
    scanned-IsConsistent (err e, s) h = h

pub apply_admin_transition-IsConsistent :
    (fault : Option GoError) (now : Time) (id : Uuid) (action : AdminAction) (reason : Text)
    (s : Store)
    → IsConsistent s.rows
    → IsConsistent (apply_admin_transition fault now id action reason s).1.rows
unfolding apply_admin_transition
apply_admin_transition-IsConsistent fault now id action reason s h = elim (Bool-cases (is_nil id)) [
  | inl nil ↦ rw (nil, apply_admin_transition) h
  | inr given ↦ elim (Option-cases fault) [
    | inr (e, down) ↦ rw (given, down, apply_admin_transition) h
    | inl up ↦ elim (Option-cases (find_row id s.rows)) [
      | inl gone ↦ rw (given, up, gone, apply_admin_transition) h
      | inr (r, found) ↦
          rw (given, up, found, apply_admin_transition)
            (evaluated r found (evaluate r.status action) (evaluate_lem r.status action))
    ]
  ]
]
  where
    evaluated :
        (r : TaskRow)
        → find_row id s.rows ≡ some r
        → (o : AdminResult) → AdminSpec r.status action o
        → IsConsistent (apply_evaluated now id reason r s o).1.rows
    evaluated r found (denied e) spec = h
    evaluated r found (allowed t) spec =
        let f =
          mark_transitioned now t.to_status (nullable_string (cancel_reason t.action reason)) in
        let good =
          mark_transitioned-check_row now t.action t.to_status reason r
            (found-check_row id r s.rows h found)
            (subst (λ a. Admin r.status a t.to_status) (sym spec.1) spec.0) in
        update-IsConsistent id f r s.rows (λ _. refl) found good h

pub retry_from_task-IsConsistent :
    (fault : Option GoError) (now : Time) (fresh source_id : Uuid) (s : Store)
    → IsConsistent s.rows
    → IsConsistent (retry_from_task fault now fresh source_id s).1.rows
unfolding retry_from_task
retry_from_task-IsConsistent fault now fresh source_id s h = elim (Bool-cases (is_nil source_id)) [
  | inl nil ↦ rw (nil, retry_from_task) h
  | inr given ↦ elim (Option-cases fault) [
    | inr (e, down) ↦ rw (given, down, retry_from_task) h
    | inl up ↦ elim (Option-cases (find_row source_id s.rows)) [
      | inl gone ↦ rw (given, up, gone, retry_from_task) h
      | inr (r, found) ↦
          rw (given, up, found, retry_from_task)
            (evaluated r found (evaluate r.status retry_action))
    ]
  ]
]
  where
    absent :
        (r : TaskRow)
        → find_row source_id s.rows ≡ some r
        → r.id ≡ source_id
        → find_row fresh s.rows ≡ none
        → r.id ≢ fresh
    absent r found own gone same =
        none-ne-some r (sym gone ∙ ap (λ k. find_row k s.rows) (sym same ∙ own) ∙ found)

    given_target : (r : TaskRow) → check_row r ≡ true → sql_blank r.target_profile ≡ false
    given_target r good = unfold check_row in ground arith

    after_insert :
        (p : Result TaskRow × Store)
        → IsConsistent p.1.rows
        → IsConsistent (retried fresh (scanned p) s).1.rows
    after_insert (ok r, s') k = k
    after_insert (err e, s') k = h

    evaluated :
        (r : TaskRow)
        → find_row source_id s.rows ≡ some r
        → (o : AdminResult) → IsConsistent (retry_evaluated now fresh r s o).1.rows
    evaluated r found (denied e) = h
    evaluated r found (allowed t) =
        let q = queued_row now fresh (some r.id) r.account_id r.target_profile 0 in
        let own = find_key row_key source_id s.rows found in
        after_insert (insert_row q s) (
          insert_row-IsConsistent q s
            (λ e.
              queued_row-check_row now fresh (some r.id) r.account_id r.target_profile 0
                (λ same. absent r found own e (some-injective _ _ same))
                (given_target r (found-check_row source_id r s.rows h found)))
            h)
