-- ===== src/Repo/Tasks/Life/History.antt =====
-- The life of a task over histories of calls of TaskPostgresRepository.
use mathlib.Core.Path.{subst}
use follower_bmad.Base.{◌≡◌, ◌⊎◌, refl, sym, true, some, arith}
use follower_bmad.Domain.Ids.{Uuid}
use follower_bmad.Domain.Status.{TaskStatus, success, canceled, can_transition_to}
use follower_bmad.Domain.Admin.{AdminAction}
use follower_bmad.Domain.Admin.Laws.{Admin, retry_retried, retry_failed, cancel_queued}
use follower_bmad.Repo.Tasks.{TaskRow, Store, find_row}
use follower_bmad.Repo.Tasks.Consistent.{
  IsConsistent, Run, start, enqueued, batch_enqueued, claimed, completed, transitioned,
  retried_from,
}
use follower_bmad.Repo.Tasks.Consistent.History.{Run-IsConsistent}
use follower_bmad.Repo.Tasks.Life.{
  Life, stays, by_worker, by_operator, Keeps, Keeps-refl, Keeps-trans,
}
use follower_bmad.Repo.Tasks.Life.Calls.{
  enqueue-Keeps, enqueue_batch-Keeps, claim_next_queued-Keeps, complete-Keeps,
  apply_admin_transition-Keeps, retry_from_task-Keeps,
}

-- After any history of calls of the repository, batches included, no task is lost: each row of a
-- consistent table is still there, with the same source, account, target and creation time, with no
-- fewer attempts, and in a status that transitions of the worker and of the operator lead to.
pub Run-Keeps : {s t : Store} → Run s t → IsConsistent s.rows → Keeps s.rows t.rows
Run-Keeps (start {s}) h = Keeps-refl s.rows
Run-Keeps (enqueued {s} {t} fault now fresh task run) h =
    Keeps-trans s.rows t.rows _ (Run-Keeps run h) (enqueue-Keeps fault now fresh task t)
Run-Keeps (batch_enqueued {s} {t} fault now fresh rows run) h =
    Keeps-trans s.rows t.rows _ (Run-Keeps run h) (enqueue_batch-Keeps fault now fresh rows t)
Run-Keeps (claimed {s} {t} fault locked now claimed_by run) h =
    Keeps-trans s.rows t.rows _ (Run-Keeps run h)
      (claim_next_queued-Keeps fault locked now claimed_by t (Run-IsConsistent run h).0)
Run-Keeps (completed {s} {t} net now id claimed_by final code reason run before reread) h =
    let h' = Run-IsConsistent run h in
    Keeps-trans s.rows t.rows _ (Run-Keeps run h) (
      complete-Keeps net now id claimed_by final code reason t (Run-Keeps before h')
        (Run-Keeps reread (Run-IsConsistent before h')))
Run-Keeps (transitioned {s} {t} fault now id action reason run) h =
    Keeps-trans s.rows t.rows _ (Run-Keeps run h)
      (apply_admin_transition-Keeps fault now id action reason t)
Run-Keeps (retried_from {s} {t} fault now fresh source_id run) h =
    Keeps-trans s.rows t.rows _ (Run-Keeps run h)
      (retry_from_task-Keeps fault now fresh source_id t)

no_operator :
    {t u : TaskStatus} {a : AdminAction} → Admin t a u → ¬ ((t ≡ success) ⊎ (t ≡ canceled))
no_operator retry_retried h = ground arith
no_operator retry_failed h = ground arith
no_operator cancel_queued h = ground arith

final-Life : {s t : TaskStatus} → Life s t → (s ≡ success) ⊎ (s ≡ canceled) → t ≡ s
final-Life stays h = refl
final-Life (by_worker {s} {t} {u} p e) h =
    absurd (no_worker t u e (subst (λ x. (x ≡ success) ⊎ (x ≡ canceled)) (sym (final-Life p h)) h))
  where
    no_worker :
        (t u : TaskStatus) → can_transition_to t u ≡ true → ¬ ((t ≡ success) ⊎ (t ≡ canceled))
    no_worker t u e h = unfold can_transition_to in ground arith
final-Life (by_operator {s} {t} {u} {a} p e) h =
    absurd (no_operator e (subst (λ x. (x ≡ success) ⊎ (x ≡ canceled)) (sym (final-Life p h)) h))

-- A task of a consistent table that has succeeded, or that an operator has canceled, is still there
-- with that status after any history of calls of the repository, batches included.
pub Run-final :
    {s t : Store} (run : Run s t) (id : Uuid) (r : TaskRow)
    → IsConsistent s.rows
    → find_row id s.rows ≡ some r
    → (r.status ≡ success) ⊎ (r.status ≡ canceled)
    → (q : TaskRow) × (find_row id t.rows ≡ some q) × (q.status ≡ r.status)
Run-final run id r h found final =
    let k = Run-Keeps run h id r found in (k.0, k.1, final-Life k.2.life final)
