-- ===== src/Repo/Tasks/Queue.antt =====
-- Enqueue and ClaimNextQueued (internal/repository/postgres/task_postgres.go).
pub mod Order
pub mod Drain
use follower_bmad.Base.{
  ℕ, ◌+◌, suc, ℤ, pos, negsuc, Bool, true, false, not, ◌&&◌, ◌||◌, Option, none, some, List, [],
  ◌∷◌, ltb, leb, ◌==◌, is_none, if◌then◌else◌, any, is_some,
}
use follower_bmad.Text.{Text, text, is_blank, is_empty}
use follower_bmad.Errors.Code.{invalid_task_transition, invalid_task_claimed_by, new_domain_error}
use follower_bmad.Errors.Value.{GoError, domain_error, plain}
use follower_bmad.Errors.Result.{Result, ok, err, unless_error}
use follower_bmad.Domain.Ids.{Uuid, Time, is_nil}
use follower_bmad.Domain.Status.{TaskStatus, queued, running, unlisted, is_queued}
use follower_bmad.Domain.Task.{Task, validate}
use follower_bmad.Repo.Table.{find, update}
use follower_bmad.Repo.Tasks.{
  TaskRow, Store, row_key, find_row, scan_task, write_rows, task_claimed, failed, max_integer,
}

-- task.ID and task.Status with the defaults of Enqueue; `fresh` is uuid.New().
abbrev pub with_defaults : Uuid → Task → Task
with_defaults fresh task = record task {
  id = if is_nil task.id then fresh else task.id;
  status = elim task.status [ unlisted [] ↦ queued | other ↦ other ];
}

abbrev pub to_ℕ : ℤ → ℕ
to_ℕ (pos n) = n
to_ℕ (negsuc n) = 0

-- The row of the INSERT of Enqueue.
abbrev pub queued_row : Time → Uuid → Option Uuid → Uuid → Text → ℕ → TaskRow
queued_row now id source account target attempt = record {
  id = id;
  source_task_id = source;
  account_id = account;
  target_profile = target;
  status = queued;
  attempt = attempt;
  claimed_by = none;
  claimed_at = none;
  started_at = none;
  finished_at = none;
  error_code = none;
  result_reason = none;
  created_at = now;
  updated_at = now;
}

-- nullableUUID over *task.SourceTaskID
abbrev pub nullable_source : Option Uuid → Option Uuid
nullable_source none = none
nullable_source (some id) = if is_nil id then none else some id

-- INSERT INTO tasks: the primary key, the references and the range of attempt.
unfoldable pub insert_row : TaskRow → Store → Result TaskRow × Store
unfolding find
insert_row r s =
    if is_some (find_row r.id s.rows)
    then (err (plain (text "duplicate key value violates tasks_pkey")), s)
    else if not (any (λ id. id == r.account_id) s.accounts)
    then (err (plain (text "insert violates tasks_account_id_fkey")), s)
    else if not (elim r.source_task_id [ none ↦ true | some id ↦ is_some (find_row id s.rows) ])
    then (err (plain (text "insert violates tasks_source_task_id_fkey")), s)
    else if ltb max_integer r.attempt
    then (err (plain (text "integer out of range")), s)
    else (ok r, record s { rows = r ∷ s.rows })

abbrev pub scanned : Result TaskRow × Store → Result Task × Store
scanned (ok r, s) = (ok (scan_task r), s)
scanned (err e, s) = (err e, s)

-- Enqueue
unfoldable pub enqueue : Option GoError → Time → Uuid → Task → Store → Result Task × Store
enqueue fault now fresh task s =
    let t = with_defaults fresh task in
    if not (is_queued t.status)
    then (failed invalid_task_transition (text "enqueue supports only queued status, got %s"), s)
    else elim (validate t) [
      | some e ↦ (err (domain_error e), s)
      | none ↦ elim fault [
        | some e ↦ (err e, s)
        | none ↦ scanned (
            insert_row
              (queued_row now t.id (nullable_source t.source_task_id) t.account_id t.target_profile
                (to_ℕ t.attempt))
              s)
      ]
    ]

-- ORDER BY created_at, id
unfoldable pub is_before : TaskRow → TaskRow → Bool
is_before a b = ltb a.created_at b.created_at || (a.created_at == b.created_at && leb a.id b.id)

abbrev pub earlier : TaskRow → Option TaskRow → TaskRow
earlier r none = r
earlier r (some q) = if is_before r q then r else q

-- The row that next_task selects: the first queued row that no other transaction has locked.
unfoldable pub next_task : (Uuid → Bool) → List TaskRow → Option TaskRow
next_task locked [] = none
next_task locked (r ∷ rows) =
    let rest = next_task locked rows in
    if is_queued r.status && not (locked r.id) then some (earlier r rest) else rest

abbrev pub mark_running : Time → Text → TaskRow → TaskRow
mark_running now claimed_by r = record r {
  status = running;
  claimed_by = some claimed_by;
  claimed_at = some now;
  started_at = some now;
  attempt = r.attempt + 1;
  updated_at = now;
}

-- The UPDATE of ClaimNextQueued, the commit and the audit record.
unfoldable pub take_row : Time → Text → TaskRow → Store → Result (Option Task) × Store
take_row now claimed_by r s =
    if ltb r.attempt max_integer
    then (
      ok (some (scan_task (mark_running now claimed_by r))),
      write_rows task_claimed r.id (update row_key r.id (mark_running now claimed_by) s.rows) s,
    )
    else (err (plain (text "integer out of range")), s)

-- ClaimNextQueued. `locked` are the rows that other transactions hold, which SKIP LOCKED passes
-- over.
unfoldable pub claim_next_queued :
    Option GoError → (Uuid → Bool) → Time → Text → Store → Result (Option Task) × Store
claim_next_queued fault locked now claimed_by s =
    if is_blank claimed_by
    then (failed invalid_task_claimed_by (text "claimed_by must not be empty"), s)
    else elim fault [
      | some e ↦ (err e, s)
      | none ↦ elim (next_task locked s.rows) [
        | none ↦ (ok none, s)
        | some r ↦ take_row now claimed_by r s
      ]
    ]
