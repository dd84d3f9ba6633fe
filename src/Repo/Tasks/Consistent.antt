-- ===== src/Repo/Tasks/Consistent.antt =====
-- The constraints of table tasks (db/migrations), and histories of calls of
-- TaskPostgresRepository (internal/repository/postgres/task_postgres.go).
pub mod Rows
pub mod Batches
pub mod Calls
pub mod History
use follower_bmad.Base.{ℕ, ◌≡◌, true, Bool, List, Option, All}
use follower_bmad.Text.{Text}
use follower_bmad.Errors.Code.{ErrorCode}
use follower_bmad.Errors.Value.{GoError}
use follower_bmad.Domain.Ids.{Uuid, Time}
use follower_bmad.Domain.Status.{TaskStatus}
use follower_bmad.Domain.Admin.{AdminAction}
use follower_bmad.Domain.Task.{Task}
use follower_bmad.Repo.Table.{Distinct}
use follower_bmad.Repo.Tasks.{TaskRow, Store, row_key, check_row}
use follower_bmad.Repo.Tasks.Queue.{enqueue, claim_next_queued}
use follower_bmad.Repo.Tasks.Complete.{Interleaving, complete}
use follower_bmad.Repo.Tasks.Batch.{ValidatedRow, enqueue_batch}
use follower_bmad.Repo.Tasks.Admin.{apply_admin_transition, retry_from_task}

-- The primary key and the CHECK constraints hold.
abbrev pub IsConsistent : List TaskRow → Type 0
IsConsistent rows = Distinct row_key rows × All (λ r. check_row r ≡ true) rows

-- Histories of calls of all the writers of the table. What other connections do during a Complete
-- is a history too.
pub data Run : Store → Store → Type 0 where
  start : {s : Store} → Run s s
  enqueued :
      {s t : Store} (fault : Option GoError) (now : Time) (fresh : Uuid) (task : Task)
      → Run s t
      → Run s (enqueue fault now fresh task t).1
  batch_enqueued :
      {s t : Store} (fault : Option GoError) (now : Time) (fresh : ℕ → Uuid)
      (rows : List ValidatedRow)
      → Run s t
      → Run s (enqueue_batch fault now fresh rows t).1
  claimed :
      {s t : Store} (fault : Option GoError) (locked : Uuid → Bool) (now : Time) (claimed_by : Text)
      → Run s t
      → Run s (claim_next_queued fault locked now claimed_by t).1
  completed :
      {s t : Store} (net : Interleaving) (now : Time) (id : Uuid) (claimed_by : Text)
      (final : TaskStatus) (code : ErrorCode) (reason : Text)
      → Run s t
      → Run t (net.before_write t)
      → Run (net.before_write t) (net.before_reread (net.before_write t))
      → Run s (complete net now id claimed_by final code reason t).1
  transitioned :
      {s t : Store} (fault : Option GoError) (now : Time) (id : Uuid) (action : AdminAction)
      (reason : Text)
      → Run s t
      → Run s (apply_admin_transition fault now id action reason t).1
  retried_from :
      {s t : Store} (fault : Option GoError) (now : Time) (fresh source_id : Uuid)
      → Run s t
      → Run s (retry_from_task fault now fresh source_id t).1
