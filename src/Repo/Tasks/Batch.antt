-- ===== src/Repo/Tasks/Batch.antt =====
-- EnqueueValidatedBatch (internal/repository/postgres/task_postgres.go). Its one statement is
-- translated by its named parts.
pub mod Members
pub mod Parts
pub mod Reasons
pub mod Plain
pub mod Keys
pub mod Unique
use Prim.Native.Nat.{◌+◌, ◌%◌, ◌-◌}
use follower_bmad.Base.{
  ℕ, ℤ, pos, negsuc, is_not_positive, Bool, true, false, not, ◌&&◌, ◌||◌, Option, none, some, List,
  [], ◌∷◌, ◌++◌, length, any, filter, ltb, is_some, ◌==◌, if◌then◌else◌,
}
use follower_bmad.Text.{Text, text, codes, text_eq, trim_space}
use follower_bmad.Errors.Code.{
  ErrorCode, DomainError, new_domain_error, invalid_task_transition, invalid_account_identifier,
  task_queue_write_failed,
}
use follower_bmad.Errors.Value.{GoError, domain_error}
use follower_bmad.Errors.Result.{Result, ok, err}
use follower_bmad.Domain.Ids.{Uuid, Time, is_nil, reject}
use follower_bmad.Domain.Status.{TaskStatus, queued, running}
use follower_bmad.Repo.Tasks.{TaskRow, Store, failed, find_row, sql_blank}
use follower_bmad.Repo.Tasks.Queue.{queued_row}

-- EnqueueValidatedRow
pub record ValidatedRow : Type 0 where
  pub row : ℤ
  pub account_id : Uuid
  pub target_profile : Text

-- input_rows
pub record InputRow : Type 0 where
  pub row_index : ℤ
  pub task_id : Uuid
  pub account_id : Uuid
  pub target_profile : Text

-- EnqueueSkippedRow, its message being enqueueSkipReasonMessage of its code
pub data SkipReason : Type 0 where
  duplicate_active_task account_missing : SkipReason

pub record SkippedRow : Type 0 where
  pub row : ℤ
  pub reason : SkipReason

abbrev pub reason_code : SkipReason → Text
reason_code duplicate_active_task = codes "duplicate_active_task"
reason_code account_missing = codes "account_not_found"

-- enqueueSkipReasonMessage on the two codes that the statement gives
abbrev pub reason_message : SkipReason → Text
reason_message duplicate_active_task =
    codes "active queued/running task already exists for account_id+target_profile"
reason_message account_missing = codes "account_id does not exist"

-- EnqueueValidatedBatchResult
pub record BatchResult : Type 0 where
  pub rows_created : ℕ
  pub rows_skipped : ℕ
  pub skipped_rows : List SkippedRow

-- int32(row), which wraps around
abbrev pub int32 : ℤ → ℤ
int32 (negsuc n) = negsuc n
int32 (pos n) =
    let m = n % 4294967296 in if ltb m 2147483648 then pos m else negsuc (4294967295 - m)

-- The checks of the loop over the rows.
unfoldable pub check_rows : List ValidatedRow → Option DomainError
check_rows [] = none
check_rows (r ∷ rows) =
    reject (is_not_positive r.row) invalid_task_transition
      "batch enqueue row index must be greater than zero"
      (reject (is_nil r.account_id) invalid_account_identifier
        "batch enqueue account_id must not be empty" (check_rows rows))

-- The arguments of the statement; the nth row gets the id `fresh n`, a uuid.New().
unfoldable pub input_rows : (ℕ → Uuid) → ℕ → List ValidatedRow → List InputRow
input_rows fresh n [] = []
input_rows fresh n (r ∷ rows) =
    record {
      row_index = int32 r.row;
      task_id = fresh n;
      account_id = r.account_id;
      target_profile = trim_space r.target_profile;
    }
    ∷ input_rows fresh (1 + n) rows

abbrev pub same_payload : InputRow → InputRow → Bool
same_payload a b = a.account_id == b.account_id && text_eq a.target_profile b.target_profile

abbrev pub lt_index : ℤ → ℤ → Bool
lt_index (pos a) (pos b) = ltb a b
lt_index (pos a) (negsuc b) = false
lt_index (negsuc a) (pos b) = true
lt_index (negsuc a) (negsuc b) = ltb b a

abbrev pub eq_index : ℤ → ℤ → Bool
eq_index (pos a) (pos b) = a == b
eq_index (negsuc a) (negsuc b) = a == b
eq_index _ _ = false

-- ORDER BY row_index, task_id
unfoldable pub comes_before : InputRow → InputRow → Bool
comes_before a b =
    lt_index a.row_index b.row_index
    || (eq_index a.row_index b.row_index && ltb a.task_id b.task_id)

-- payload_rank = 1
abbrev pub is_first : List InputRow → InputRow → Bool
is_first rows r = not (any (λ q. same_payload q r && comes_before q r) rows)

-- payload_unique and payload_duplicates
abbrev pub payload_unique : List InputRow → List InputRow
payload_unique rows = filter (is_first rows) rows

abbrev pub payload_duplicates : List InputRow → List InputRow
payload_duplicates rows = filter (λ r. not (is_first rows r)) rows

abbrev pub has_account : Store → InputRow → Bool
has_account s r = any (λ id. id == r.account_id) s.accounts

-- missing_accounts
abbrev pub missing_accounts : Store → List InputRow → List InputRow
missing_accounts s unique = filter (λ r. not (has_account s r)) unique

-- status IN ('queued', 'running')
abbrev pub is_active_status : TaskStatus → Bool
is_active_status queued = true
is_active_status running = true
is_active_status _ = false

abbrev pub is_active_duplicate : InputRow → TaskRow → Bool
is_active_duplicate r t =
    t.account_id == r.account_id
    && text_eq t.target_profile r.target_profile
    && is_active_status t.status

-- One copy of the row for each active task with its account and target.
unfoldable pub copies : InputRow → List TaskRow → List InputRow
copies r [] = []
copies r (t ∷ tasks) =
    let rest = copies r tasks in if is_active_duplicate r t then r ∷ rest else rest

-- active_duplicates
unfoldable pub active_duplicates : List TaskRow → List InputRow → List InputRow
active_duplicates tasks [] = []
active_duplicates tasks (r ∷ unique) = copies r tasks ++ active_duplicates tasks unique

abbrev pub has_index : InputRow → List InputRow → Bool
has_index r rows = any (λ q. eq_index q.row_index r.row_index) rows

-- insertable
abbrev pub insertable : Store → List InputRow → List InputRow
insertable s unique =
    filter
      (λ r.
        not (has_index r (missing_accounts s unique))
        && not (has_index r (active_duplicates s.rows unique)))
      unique

unfoldable pub skipped_as : SkipReason → List InputRow → List SkippedRow
skipped_as reason [] = []
skipped_as reason (r ∷ rows) =
    record { row = r.row_index; reason = reason } ∷ skipped_as reason rows

-- ORDER BY row_index
unfoldable pub insert_skipped : SkippedRow → List SkippedRow → List SkippedRow
insert_skipped r [] = r ∷ []
insert_skipped r (q ∷ rows) =
    let rest = insert_skipped r rows in if lt_index q.row r.row then q ∷ rest else r ∷ q ∷ rows

unfoldable pub sort_skipped : List SkippedRow → List SkippedRow
unfolding insert_skipped
sort_skipped [] = []
sort_skipped (r ∷ rows) = insert_skipped r (sort_skipped rows)

unfoldable pub inserted_rows : Time → List InputRow → List TaskRow
inserted_rows now [] = []
inserted_rows now (r ∷ rows) =
    queued_row now r.task_id none r.account_id r.target_profile 0 ∷ inserted_rows now rows

abbrev pub skipped_rows_of : Store → List InputRow → List SkippedRow
skipped_rows_of s rows =
    let unique = payload_unique rows in
    sort_skipped (
      skipped_as duplicate_active_task (payload_duplicates rows)
      ++ (skipped_as account_missing (missing_accounts s unique)
          ++ skipped_as duplicate_active_task (active_duplicates s.rows unique)))

abbrev pub batch_result : Store → List InputRow → BatchResult
batch_result s rows =
    let skipped = skipped_rows_of s rows in
    record {
      rows_created = length (insertable s (payload_unique rows));
      rows_skipped = length skipped;
      skipped_rows = skipped;
    }

abbrev pub no_rows : BatchResult
no_rows = record { rows_created = 0; rows_skipped = 0; skipped_rows = [] }

abbrev pub has_id : Uuid → List InputRow → Bool
has_id id = any (λ (q : InputRow). q.task_id == id)

-- The primary key refuses an id that is in the table or that comes twice.
unfoldable pub collides : List InputRow → List TaskRow → Bool
collides [] rows = false
collides (r ∷ created) rows =
    is_some (find_row r.task_id rows) || (has_id r.task_id created || collides created rows)

abbrev pub has_blank : List InputRow → Bool
has_blank = any (λ (r : InputRow). sql_blank r.target_profile)

-- The statement. A row whose target SQL finds blank violates chk_tasks_target_profile_nonempty.
unfoldable pub write_batch : Time → List InputRow → Store → Result BatchResult × Store
write_batch now rows s =
    let created = insertable s (payload_unique rows) in
    if has_blank created || collides created s.rows
    then (failed task_queue_write_failed (text "batch enqueue execution failed: %v"), s)
    else (ok (batch_result s rows), record s { rows = inserted_rows now created ++ s.rows })

-- EnqueueValidatedBatch
unfoldable pub enqueue_batch :
    Option GoError → Time → (ℕ → Uuid) → List ValidatedRow → Store → Result BatchResult × Store
enqueue_batch fault now fresh [] s = (ok no_rows, s)
enqueue_batch fault now fresh (r ∷ rows) s = elim (check_rows (r ∷ rows)) [
  | some e ↦ (err (domain_error e), s)
  | none ↦ elim fault [
    | some e ↦ (failed task_queue_write_failed (text "batch enqueue execution failed: %v"), s)
    | none ↦ write_batch now (input_rows fresh 0 (r ∷ rows)) s
  ]
]
