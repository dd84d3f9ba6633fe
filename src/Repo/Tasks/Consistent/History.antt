-- ===== src/Repo/Tasks/Consistent/History.antt =====
-- Histories of calls of TaskPostgresRepository and the constraints of table tasks.
use follower_bmad.Repo.Tasks.{Store}
use follower_bmad.Repo.Tasks.Consistent.{
  IsConsistent, Run, start, enqueued, batch_enqueued, claimed, completed, transitioned,
  retried_from,
}
use follower_bmad.Repo.Tasks.Consistent.Batches.{enqueue_batch-IsConsistent}
use follower_bmad.Repo.Tasks.Consistent.Calls.{
  claim_next_queued-IsConsistent, complete-IsConsistent, enqueue-IsConsistent,
  apply_admin_transition-IsConsistent, retry_from_task-IsConsistent,
}

-- After any history of calls of the repository, Enqueue, EnqueueValidatedBatch, ClaimNextQueued,
-- Complete, the operator's transitions and RetryFromTask, from a table with distinct ids and valid
-- rows, the ids are still distinct and every row satisfies the CHECK constraints (but for the order
-- of its times): each status has exactly the owner, the times, the code and the reason that belong
-- to it.
pub Run-IsConsistent : {s t : Store} → Run s t → IsConsistent s.rows → IsConsistent t.rows
Run-IsConsistent start h = h
Run-IsConsistent (enqueued {s} {t} fault now fresh task run) h =
    enqueue-IsConsistent fault now fresh task t (Run-IsConsistent run h)
Run-IsConsistent (batch_enqueued {s} {t} fault now fresh rows run) h =
    enqueue_batch-IsConsistent fault now fresh rows t (Run-IsConsistent run h)
Run-IsConsistent (claimed {s} {t} fault locked now claimed_by run) h =
    claim_next_queued-IsConsistent fault locked now claimed_by t (Run-IsConsistent run h)
Run-IsConsistent (completed {s} {t} net now id claimed_by final code reason run before reread) h =
    let h' = Run-IsConsistent run h in
    let h'' = Run-IsConsistent before h' in
    complete-IsConsistent net now id claimed_by final code reason t h' h''
      (Run-IsConsistent reread h'')
Run-IsConsistent (transitioned {s} {t} fault now id action reason run) h =
    apply_admin_transition-IsConsistent fault now id action reason t (Run-IsConsistent run h)
Run-IsConsistent (retried_from {s} {t} fault now fresh source_id run) h =
    retry_from_task-IsConsistent fault now fresh source_id t (Run-IsConsistent run h)
