-- ===== src/Repo/Tasks/Admin/Laws.antt =====
-- What an operator's action does to the task, to the others and to the audit log.
use mathlib.Core.Option.{none-ne-some}
use follower_bmad.Base.{
  ◌≡◌, ◌≢◌, refl, sym, ap, ◌∙◌, inl, inr, true, false, none, some, ◌∷◌, any, ◌==◌, ==_iff,
  Bool-cases,
}
use follower_bmad.Text.{Text}
use follower_bmad.Errors.Result.{Result, ok, err}
use follower_bmad.Domain.Ids.{Uuid, Time, is_nil}
use follower_bmad.Domain.Status.{TaskStatus}
use follower_bmad.Domain.Admin.{AdminAction, retry_action, AdminResult, allowed, denied, evaluate}
use follower_bmad.Domain.Admin.Laws.{Admin, AdminSpec, evaluate_lem}
use follower_bmad.Domain.Task.{Task}
use follower_bmad.Repo.Table.{find, find_key}
use follower_bmad.Repo.Tasks.{TaskRow, Store, row_key, find_row, scan_task, nullable_string}
use follower_bmad.Repo.Tasks.Queue.{queued_row, insert_row}
use follower_bmad.Repo.Tasks.Admin.{
  mark_transitioned, cancel_reason, transition_audit, retry_from_task, retry_evaluated,
}

-- What an action on the row `r` does. It succeeds exactly if the status allows it: then the row is
-- in the new status, owned by nobody, with the reason of a cancellation and no other result, no
-- other row has changed, and the action is in the audit log. Otherwise nothing is written.
abbrev pub Transitions :
    Time → Uuid → AdminAction → Text → TaskRow → Store → Result Task × Store → Type 0
Transitions now id action reason r s (ok t, s') =
    (to : TaskStatus) × Admin r.status action to
    × (t ≡ scan_task (mark_transitioned now to (nullable_string (cancel_reason action reason)) r))
    × (find_row id s'.rows
        ≡ some (mark_transitioned now to (nullable_string (cancel_reason action reason)) r))
    × ((j : Uuid) → j ≢ id → find_row j s'.rows ≡ find_row j s.rows)
    × (s'.audit ≡ record { action = transition_audit action; target_id = id } ∷ s.audit)
Transitions now id action reason r s (err e, s') =
    (s' ≡ s) × ((to : TaskStatus) → ¬ Admin r.status action to)

-- What a retry of the row `r` does: the row stays, and a queued task for its account and target
-- that refers to it is new; or the status does not allow a retry, and nothing is written.
abbrev pub Retries : Time → Uuid → TaskRow → Store → Result Task × Store → Type 0
Retries now fresh r s (ok t, s') =
    let q = queued_row now fresh (some r.id) r.account_id r.target_profile 0 in
    ((to : TaskStatus) × Admin r.status retry_action to)
    × (t ≡ scan_task q)
    × (s'.rows ≡ q ∷ s.rows)
    × (find_row r.id s'.rows ≡ some r)
Retries now fresh r s (err e, s') =
    (s' ≡ s) × ((to : TaskStatus) → ¬ Admin r.status retry_action to)

module _ (now : Time) (fresh : Uuid) (r : TaskRow) (s : Store) where
  -- The row that a retry inserts.
  abbrev copy : TaskRow
  copy = queued_row now fresh (some r.id) r.account_id r.target_profile 0

  module _ (new : find_row fresh s.rows ≡ none)
      (account : any (λ id. id == r.account_id) s.accounts ≡ true)
      (found : find_row r.id s.rows ≡ some r) where
    inserted_lem : insert_row copy s ≡ (ok copy, record s { rows = copy ∷ s.rows })
    unfolding insert_row
    inserted_lem = rw (new, account, found, insert_row) refl

    still_found : find_row r.id (copy ∷ s.rows) ≡ some r
    unfolding find
    still_found = elim (Bool-cases (fresh == r.id)) [
      | inl same ↦ absurd (
          none-ne-some r
            (sym new ∙ ap (λ k. find_row k s.rows) ((==_iff fresh r.id).0 same) ∙ found))
      | inr other ↦ rw other found
    ]

    retry_evaluated-Retries :
        (o : AdminResult)
        → AdminSpec r.status retry_action o
        → Retries now fresh r s (retry_evaluated now fresh r s o)
    retry_evaluated-Retries (denied e) spec = (refl, spec.0)
    retry_evaluated-Retries (allowed t) spec =
        rw inserted_lem ((t.to_status, spec.0), refl, refl, still_found)

-- RetryFromTask, with no database fault, a new id, and an account that is still there: it succeeds
-- exactly if the status of the source allows a retry. Then the source stays as it is, and one
-- queued task for its account and target that refers to it is new. Otherwise nothing is written.
pub retry_from_task-Retries :
    (now : Time) (fresh source_id : Uuid) (r : TaskRow) (s : Store)
    → is_nil source_id ≡ false
    → find_row source_id s.rows ≡ some r
    → find_row fresh s.rows ≡ none
    → any (λ id. id == r.account_id) s.accounts ≡ true
    → Retries now fresh r s (retry_from_task none now fresh source_id s)
unfolding retry_from_task
retry_from_task-Retries now fresh source_id r s given found new account =
    let own : find_row r.id s.rows ≡ some r =
      ap (λ k. find_row k s.rows) (find_key row_key source_id s.rows found) ∙ found in
    rw (given, found, retry_from_task)
      (retry_evaluated-Retries now fresh r s new account own (evaluate r.status retry_action)
        (evaluate_lem r.status retry_action))
