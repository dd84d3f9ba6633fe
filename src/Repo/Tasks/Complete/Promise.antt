-- ===== src/Repo/Tasks/Complete/Promise.antt =====
-- What Complete may make of the table, and why it refuses
-- (internal/repository/postgres/task_postgres.go).
use follower_bmad.Base.{◌≡◌, ◌≢◌, refl, ◌⊎◌, true, none, some, arith}
use follower_bmad.Text.{Text, is_blank}
use follower_bmad.Errors.Code.{ErrorCode, DomainError, code_text}
use follower_bmad.Errors.Value.{GoError}
use follower_bmad.Errors.Result.{Result, ok, err}
use follower_bmad.Domain.Ids.{Uuid, Time}
use follower_bmad.Domain.Status.{TaskStatus, running, success, validate_task_completion}
use follower_bmad.Domain.Task.{Task}
use follower_bmad.Repo.Tasks.{
  TaskRow, Store, find_row, scan_task, row_key, nullable_string, nullable_error_code,
}
use follower_bmad.Repo.Table.{update}
use follower_bmad.Repo.Tasks.Complete.{Interleaving, mark_finished, final_code, final_reason}

-- The row is there, running and held by the worker.
abbrev pub IsHeldRunning : Uuid → Text → Store → Type 0
IsHeldRunning id claimed_by s =
    (r : TaskRow) × (find_row id s.rows ≡ some r)
    × (r.status ≡ running)
    × (r.claimed_by ≡ some claimed_by)

-- Why a completion is refused.
pub data IsRefused (net : Interleaving) (id : Uuid) (claimed_by : Text) (final : TaskStatus)
    (code : ErrorCode) (reason : Text) (s : Store) : Type 0 where
  no_id : id ≡ 0 → IsRefused net id claimed_by final code reason s
  no_worker : is_blank claimed_by ≡ true → IsRefused net id claimed_by final code reason s
  read_failed :
      {e : GoError} → net.read_fault ≡ some e → IsRefused net id claimed_by final code reason s
  write_failed :
      {e : GoError} → net.write_fault ≡ some e → IsRefused net id claimed_by final code reason s
  not_allowed :
      {e : DomainError}
      → validate_task_completion running final code reason ≡ some e
      → IsRefused net id claimed_by final code reason s
  not_held : ¬ IsHeldRunning id claimed_by s → IsRefused net id claimed_by final code reason s
  lost :
      ¬ IsHeldRunning id claimed_by (net.before_write s)
      → IsRefused net id claimed_by final code reason s

-- `q` is the row `r` with the status, finished now, with no code and no reason for success and else
-- with those given, the empty ones as NULL.
pub record IsFinished (now : Time) (final : TaskStatus) (code : ErrorCode) (reason : Text)
    (r q : TaskRow) : Type 0 where
  pub status : q.status ≡ final
  pub finished : q.finished_at ≡ some now
  pub updated : q.updated_at ≡ now
  pub success_code : final ≡ success → q.error_code ≡ none
  pub success_reason : final ≡ success → q.result_reason ≡ none
  pub failure_code : final ≢ success → q.error_code ≡ nullable_error_code code
  pub failure_reason : final ≢ success → q.result_reason ≡ nullable_string reason
  pub rest :
      record q {
        status = r.status;
        finished_at = r.finished_at;
        updated_at = r.updated_at;
        error_code = r.error_code;
        result_reason = r.result_reason;
      }
      ≡ r

pub mark_finished-IsFinished :
    (now : Time) (final : TaskStatus) (code : ErrorCode) (reason : Text) (r : TaskRow)
    → IsFinished now final code reason r
        (mark_finished now final (final_code final code) (final_reason final reason) r)
unfolding nullable_error_code nullable_string code_text
mark_finished-IsFinished now final code reason r = record {
  status = refl;
  finished = refl;
  updated = refl;
  success_code = λ e. rw e refl;
  success_reason = λ e. rw e refl;
  failure_code = λ e. ground arith;
  failure_reason = λ e. ground arith;
  rest = refl;
}

-- What Complete does to the table as it stands when its write begins. On success the row is there,
-- running and held by the worker; it is then finished with the status, and with the code and the
-- reason unless that is success, and no other row has changed. On an error the table is one that
-- the other connections left, and there is a reason for it.
abbrev pub Completes :
    Interleaving
    → Time
    → Uuid
    → Text
    → TaskStatus
    → ErrorCode
    → Text
    → Store
    → Result Task × Store
    → Type 0
Completes net now id claimed_by final code reason s (ok t, s') =
    let f = mark_finished now final (final_code final code) (final_reason final reason) in
    (r : TaskRow) × (find_row id (net.before_write s).rows ≡ some r)
    × (r.status ≡ running)
    × (r.claimed_by ≡ some claimed_by)
    × (validate_task_completion running final code reason ≡ none)
    × (t ≡ scan_task (f r))
    × (find_row id s'.rows ≡ some (f r))
    × ((j : Uuid) → j ≢ id → find_row j s'.rows ≡ find_row j (net.before_write s).rows)
    × (s'.rows ≡ update row_key id f (net.before_write s).rows)
    × IsFinished now final code reason r (f r)
Completes net now id claimed_by final code reason s (err e, s') =
    ((s' ≡ s) ⊎ (s' ≡ net.before_write s) ⊎ (s' ≡ net.before_reread (net.before_write s)))
    × IsRefused net id claimed_by final code reason s
