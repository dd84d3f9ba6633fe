-- ===== src/Tests/Tasks.antt =====
-- Runs of TaskPostgresRepository on two tasks.
use follower_bmad.Base.{◌≤◌, arith, ◌≡◌, ◌≢◌, refl, inr, Bool, false, none, some, [], ◌∷◌, arith}
use follower_bmad.Text.{codes, is_blank, trim_space, trim_left, is_space}
use follower_bmad.Errors.Code.{follow_action_unavailable}
use follower_bmad.Errors.Result.{ok}
use follower_bmad.Domain.Ids.{Uuid, no_code}
use follower_bmad.Domain.Status.{success, canceled, fail}
use follower_bmad.Domain.Admin.{cancel_action}
use follower_bmad.Repo.Table.{find, update, Distinct}
use follower_bmad.Repo.Tasks.{
  TaskRow, Store, row_key, find_row, check_row, scan_task, write_rows, record_audit,
}
use follower_bmad.Repo.Tasks.Batch.{enqueue_batch}
use follower_bmad.Tests.Batch.{fresh_id, sample_rows}
use follower_bmad.Repo.Tasks.Queue.{claim_next_queued, mark_running, next_task, is_before, take_row}
use follower_bmad.Repo.Tasks.Queue.Drain.{HasRoom, NoneWaits, waiting_count, claims, claims-drain}
use follower_bmad.Repo.Tasks.Queue.Order.{Takes, claim_next_queued-Takes, claim_next_queued-differ}
use follower_bmad.Repo.Tasks.Complete.{Interleaving, complete}
use follower_bmad.Repo.Tasks.Complete.Laws.{complete-Completes}
use follower_bmad.Repo.Tasks.Complete.Promise.{Completes}
use follower_bmad.Repo.Tasks.Admin.{apply_admin_transition, retry_from_task}
use follower_bmad.Repo.Tasks.Admin.Laws.{Retries, retry_from_task-Retries}
use follower_bmad.Repo.Tasks.Consistent.{
  IsConsistent, Run, start, completed, batch_enqueued, transitioned,
}
use follower_bmad.Repo.Tasks.Consistent.History.{Run-IsConsistent}
use follower_bmad.Repo.Tasks.Life.{Keeps}
use follower_bmad.Repo.Tasks.Life.History.{Run-Keeps, Run-final}
use follower_bmad.Tests.{worker_one, queued_sample, running_sample, tasks_store}

-- No fault, and nobody else acts.
abbrev quiet : Interleaving
quiet = record {
  read_fault = none;
  before_write = λ s. s;
  write_fault = none;
  before_reread = λ s. s;
  reread_fault = none;
}

abbrev nothing_locked : Uuid → Bool
nothing_locked id = false

two-Distinct : Distinct row_key tasks_store.rows
two-Distinct = (((λ e. ground arith), tt), (tt, tt))

two-IsConsistent : IsConsistent tasks_store.rows
unfolding check_row
two-IsConsistent = (two-Distinct, (refl, (refl, tt)))

named : is_blank worker_one ≡ false
unfolding is_blank is_space trim_space trim_left
named = refl

-- The waiting task is canceled, and worker-1 completes its own.
abbrev canceled_store : Store
canceled_store = (apply_admin_transition none 8 12 cancel_action [] tasks_store).1

abbrev final_store : Store
final_store =
    (complete quiet 9 11 worker_one success no_code []
      (enqueue_batch none 8 fresh_id sample_rows canceled_store).1).1

abbrev sample_run : Run tasks_store final_store
sample_run =
    completed quiet 9 11 worker_one success no_code []
      (batch_enqueued none 8 fresh_id sample_rows (transitioned none 8 12 cancel_action [] start))
      start start

Run-IsConsistent_example : IsConsistent final_store.rows
Run-IsConsistent_example = Run-IsConsistent sample_run two-IsConsistent

Run-Keeps_example : Keeps tasks_store.rows final_store.rows
Run-Keeps_example = Run-Keeps sample_run two-IsConsistent

complete-Completes_example :
    Completes quiet 9 11 worker_one fail follow_action_unavailable
      (codes "gone")
      tasks_store
      (complete quiet 9 11 worker_one fail follow_action_unavailable (codes "gone") tasks_store)
complete-Completes_example =
    complete-Completes quiet 9 11 worker_one fail follow_action_unavailable (codes "gone")
      tasks_store

claim_next_queued-Takes_example :
    Takes nothing_locked 6 worker_one tasks_store
      (claim_next_queued none nothing_locked 6 worker_one tasks_store)
claim_next_queued-Takes_example =
    claim_next_queued-Takes nothing_locked 6 worker_one tasks_store two-Distinct named

-- The one waiting task is taken by the first of two claims.
tasks-HasRoom : HasRoom nothing_locked tasks_store.rows
tasks-HasRoom = ((λ w. ground arith), ((λ w. omega arith), tt))

few_wait : waiting_count nothing_locked tasks_store.rows ≤ 2
unfolding waiting_count
few_wait = omega arith

claims-drain_example :
    NoneWaits nothing_locked (claims nothing_locked (λ n. 9) worker_one 2 tasks_store).rows
claims-drain_example =
    claims-drain nothing_locked (λ n. 9) worker_one 2 tasks_store two-Distinct tasks-HasRoom named
      few_wait

-- A canceled task, and a completion of the other one.
abbrev canceled_row : TaskRow
canceled_row = record queued_sample {
  status = canceled;
  finished_at = some 8;
  result_reason = some (codes "no longer wanted");
}

abbrev settled_store : Store
settled_store = record tasks_store { rows = running_sample ∷ canceled_row ∷ [] }

abbrev settled_run :
    Run settled_store (complete quiet 9 11 worker_one success no_code [] settled_store).1
settled_run = completed quiet 9 11 worker_one success no_code [] start start start

settled-IsConsistent : IsConsistent settled_store.rows
unfolding check_row
settled-IsConsistent = ((((λ e. ground arith), tt), (tt, tt)), (refl, (refl, tt)))

settled-found : find_row 12 settled_store.rows ≡ some canceled_row
unfolding find
settled-found = refl

Run-final_example :
    (q : TaskRow) × (find_row 12
        (complete quiet 9 11 worker_one success no_code [] settled_store).1.rows
      ≡ some q)
    × (q.status ≡ canceled)
Run-final_example =
    Run-final settled_run 12 canceled_row settled-IsConsistent settled-found (inr refl)

-- Two waiting tasks, claimed one after the other.
abbrev second_sample : TaskRow
second_sample = record queued_sample { id = 13; created_at = 4 }

abbrev waiting_store : Store
waiting_store = record tasks_store { rows = second_sample ∷ queued_sample ∷ [] }

abbrev once_claimed : Store
once_claimed = (claim_next_queued none nothing_locked 6 worker_one waiting_store).1

abbrev twice_claimed : Store
twice_claimed = (claim_next_queued none nothing_locked 7 worker_one once_claimed).1

waiting-Distinct : Distinct row_key waiting_store.rows
waiting-Distinct = (((λ e. ground arith), tt), (tt, tt))

first_claim :
    claim_next_queued none nothing_locked 6 worker_one waiting_store
    ≡ (ok (some (scan_task (mark_running 6 worker_one queued_sample))), once_claimed)
unfolding claim_next_queued next_task is_before take_row is_blank is_space trim_space trim_left
    write_rows record_audit
first_claim = refl

second_claim :
    claim_next_queued none nothing_locked 7 worker_one once_claimed
    ≡ (ok (some (scan_task (mark_running 7 worker_one second_sample))), twice_claimed)
unfolding claim_next_queued next_task is_before take_row is_blank is_space trim_space trim_left
    write_rows record_audit update
second_claim = refl

claim_next_queued-differ_example :
    (scan_task (mark_running 6 worker_one queued_sample)).id
    ≢ (scan_task (mark_running 7 worker_one second_sample)).id
claim_next_queued-differ_example =
    claim_next_queued-differ nothing_locked nothing_locked 6 7 worker_one worker_one waiting_store
      once_claimed twice_claimed (scan_task (mark_running 6 worker_one queued_sample))
      (scan_task (mark_running 7 worker_one second_sample)) waiting-Distinct named named first_claim
      second_claim

-- A task that failed.
abbrev failed_row : TaskRow
failed_row = record running_sample {
  status = fail;
  finished_at = some 7;
  error_code = some follow_action_unavailable;
}

abbrev failed_store : Store
failed_store = record tasks_store { rows = failed_row ∷ queued_sample ∷ [] }

failed-found : find_row 11 failed_store.rows ≡ some failed_row
unfolding find
failed-found = refl

no_copy : find_row 14 failed_store.rows ≡ none
unfolding find
no_copy = refl

retry_from_task-Retries_example :
    Retries 8 14 failed_row failed_store (retry_from_task none 8 14 11 failed_store)
retry_from_task-Retries_example =
    retry_from_task-Retries 8 14 11 failed_row failed_store refl failed-found no_copy refl
