-- ===== src/Http/Import.antt =====
-- POST /api/v1/tasks:csv (importCSV of internal/transport/http/admin_tasks_handler.go) over the
-- queue of tasks. Headers, telemetry and the actor of the audit log are left out.
use follower_bmad.Base.{
  ℕ, zero, suc, ◌≡◌, ◌≢◌, ◌⊎◌, inl, inr, sym, arith, refl, Bool, true, false, Option, some, List,
  [], ◌∷◌, if◌then◌else◌, ap, ◌∙◌, length,
}
use follower_bmad.Text.{Text}
use follower_bmad.Errors.Code.{task_queue_write_failed}
use follower_bmad.Errors.Value.{GoError, is_domain_error_code}
use follower_bmad.Errors.Result.{Result, ok, err, is_ok}
use follower_bmad.Domain.Ids.{Uuid, Time}
use follower_bmad.Repo.Tasks.{Store}
use follower_bmad.Repo.Tasks.Batch.{
  ValidatedRow, BatchResult, SkippedRow, input_rows, enqueue_batch,
}
use follower_bmad.Repo.Tasks.Batch.Unique.{Batches, enqueue_batch-Batches}
use follower_bmad.Http.Csv.{
  Reading, RowError, SchemaError, Validation, Checked, accepted, rejected, validate_csv,
}
use follower_bmad.Http.Csv.Rows.{Validates, validate_csv-Validates, is_readable}

-- The AdminErrorCode of a response.
pub data AdminCode : Type 0 where
  csv_schema_invalid csv_row_invalid queue_write_failed internal_admin_api_error : AdminCode

-- adminCSVImportReport; its summary repeats the numbers.
pub record ImportReport : Type 0 where
  pub rows_total : ℕ
  pub rows_valid : ℕ
  pub rows_invalid : ℕ
  pub rows_created : ℕ
  pub rows_skipped : ℕ
  pub invalid_rows : List RowError
  pub skipped_rows : List SkippedRow

-- A response: the report with status 200, or the status, the code and the details of an error.
pub data Response : Type 0 where
  imported : ImportReport → Response
  schema_refused : SchemaError → Response
  refused : ℕ → AdminCode → Validation → Response

abbrev report_of : Validation → BatchResult → ImportReport
report_of v b = record {
  rows_total = v.rows_total;
  rows_valid = v.rows_valid;
  rows_invalid = v.rows_invalid;
  rows_created = b.rows_created;
  rows_skipped = b.rows_skipped;
  invalid_rows = v.invalid_rows;
  skipped_rows = b.skipped_rows;
}

abbrev write_code : GoError → AdminCode
write_code e =
    if is_domain_error_code (some e) task_queue_write_failed
    then queue_write_failed
    else internal_admin_api_error

abbrev after_batch : Validation → Result BatchResult × Store → Response × Store
after_batch v (ok b, s) = (imported (report_of v b), s)
after_batch v (err e, s) = (refused 500 (write_code e) v, s)

-- if result.RowsValid == 0 { … }; if handler.queueWriter == nil { … }
abbrev queue_rows :
    Bool
    → Validation
    → ℕ
    → (List ValidatedRow → Store → Result BatchResult × Store)
    → Store
    → Response × Store
queue_rows has_writer v zero enqueue s = (refused 422 csv_row_invalid v, s)
queue_rows false v (suc n) enqueue s = (refused 500 internal_admin_api_error v, s)
queue_rows true v (suc n) enqueue s = after_batch v (enqueue v.valid_rows s)

abbrev after_validation :
    Bool
    → Checked
    → (List ValidatedRow → Store → Result BatchResult × Store)
    → Store
    → Response × Store
after_validation has_writer (rejected e) enqueue s = (schema_refused e, s)
after_validation has_writer (accepted v) enqueue s = queue_rows has_writer v v.rows_valid enqueue s

-- importCSV, with TaskPostgresRepository as the queue writer, if there is one.
unfoldable pub import_csv :
    (Text → Text)
    → (Text → Option Uuid)
    → Bool
    → Option GoError
    → Time
    → (ℕ → Uuid)
    → List Reading
    → Store
    → Response × Store
import_csv lower parse has_writer fault now fresh readings s =
    after_validation has_writer (validate_csv lower parse readings) (enqueue_batch fault now fresh)
      s

-- The numbers and the lists of a report are those of the validation and of the batch.
pub record Reports (r : ImportReport) (v : Validation) (b : BatchResult) : Type 0 where
  total : r.rows_total ≡ v.rows_total
  valid : r.rows_valid ≡ v.rows_valid
  invalid : r.rows_invalid ≡ v.rows_invalid
  created : r.rows_created ≡ b.rows_created
  skipped : r.rows_skipped ≡ b.rows_skipped
  invalid_list : r.invalid_rows ≡ v.invalid_rows
  skipped_list : r.skipped_rows ≡ b.skipped_rows

-- What an import does. A report comes with the queue as the batch of the file's valid rows leaves
-- it and has the numbers of both; a refusal leaves the queue as it is, and is 422, only for a file
-- without a valid row, or 500, only without a queue writer or where the batch fails.
abbrev pub Imports :
    (Text → Text)
    → (Text → Option Uuid)
    → Bool
    → Option GoError
    → Time
    → (ℕ → Uuid)
    → List Reading
    → Store
    → Response × Store
    → Type 0
Imports lower parse has_writer fault now fresh readings s (imported r, s') =
    (v : Validation) × (b : BatchResult) × Validates parse lower readings (accepted v)
    × Batches now (input_rows fresh 0 v.valid_rows) s (ok b, s')
    × Reports r v b
    × (v.valid_rows ≢ [])
Imports lower parse has_writer fault now fresh readings s (schema_refused e, s') =
    (s' ≡ s) × (is_readable parse lower readings ≡ false)
Imports lower parse has_writer fault now fresh readings s (refused status code v, s') =
    (s' ≡ s)
    × Validates parse lower readings (accepted v)
    × (status ≡ 422 → v.valid_rows ≡ [])
    × ((status ≡ 422)
        ⊎ (status ≡ 500)
          × ((has_writer ≡ false)
              ⊎ (is_ok (enqueue_batch fault now fresh v.valid_rows s).0 ≡ false)))

module _ (lower : Text → Text) (parse : Text → Option Uuid) (now : Time) (fresh : ℕ → Uuid)
    (readings : List Reading) (s : Store) where
  not_422 : (n : ℕ) → n ≡ 500 → n ≢ 422
  not_422 n e = omega (arith, e)

  batch_lem :
      (has_writer : Bool) (fault : Option GoError) (v : Validation) (p : Result BatchResult × Store)
      → Validates parse lower readings (accepted v)
      → v.valid_rows ≢ []
      → p ≡ enqueue_batch fault now fresh v.valid_rows s
      → Batches now (input_rows fresh 0 v.valid_rows) s p
      → Imports lower parse has_writer fault now fresh readings s (after_batch v p)
  batch_lem has_writer fault v (ok b, s') valid some_row at h = (
    v,
    b,
    valid,
    h,
    record {
      total = refl;
      valid = refl;
      invalid = refl;
      created = refl;
      skipped = refl;
      invalid_list = refl;
      skipped_list = refl;
    },
    some_row,
  )
  batch_lem has_writer fault v (err e, s') valid some_row at h =
      (h, valid, (λ x. absurd (not_422 500 refl x)), inr (refl, inr (sym (ap (λ q. is_ok q.0) at))))

  zero_lem : (n : ℕ) → zero ≢ suc n
  zero_lem n = omega arith

  empty_lem : {A : Type 0} (xs : List A) → zero ≡ length xs → xs ≡ []
  empty_lem [] e = refl
  empty_lem (x ∷ xs) e = absurd (zero_lem (length xs) e)

  some_lem : {A : Type 0} (n : ℕ) (xs : List A) → suc n ≡ length xs → xs ≢ []
  some_lem n xs e h = omega (arith, e ∙ ap length h)

  queued_lem :
      (has_writer : Bool) (fault : Option GoError) (v : Validation) (n : ℕ)
      → n ≡ v.rows_valid
      → Validates parse lower readings (accepted v)
      → Imports lower parse has_writer fault now fresh readings s
          (queue_rows has_writer v n (enqueue_batch fault now fresh) s)
  queued_lem has_writer fault v zero e valid =
      (refl, valid, (λ _. empty_lem v.valid_rows (e ∙ valid.6)), inl refl)
  queued_lem false fault v (suc n) e valid =
      (refl, valid, (λ x. absurd (not_422 500 refl x)), inr (refl, inl refl))
  queued_lem true fault v (suc n) e valid =
      batch_lem true fault v _ valid (some_lem n v.valid_rows (e ∙ valid.6)) refl
        (enqueue_batch-Batches fault now fresh v.valid_rows s)

  checked_lem :
      (has_writer : Bool) (fault : Option GoError) (c : Checked)
      → Validates parse lower readings c
      → Imports lower parse has_writer fault now fresh readings s
          (after_validation has_writer c (enqueue_batch fault now fresh) s)
  checked_lem has_writer fault (rejected e) valid = (refl, valid)
  checked_lem has_writer fault (accepted v) valid =
      queued_lem has_writer fault v v.rows_valid refl valid

  -- An import that reports has validated the file as Validates says, has at least one valid row,
  -- and has queued the valid rows as a batch does: its report has the numbers of all, valid and
  -- invalid rows and the invalid ones from the validation, and the numbers of created and skipped
  -- rows and the skipped ones from the batch. An import that is refused has left the queue as it
  -- was: with an error of the schema only where the file cannot be read or has no header, with
  -- status 422 only where the file has no valid row, and else with status 500, only without a queue
  -- writer or where the batch of the valid rows fails.
  pub import_csv-Imports :
      (has_writer : Bool) (fault : Option GoError)
      → Imports lower parse has_writer fault now fresh readings s
          (import_csv lower parse has_writer fault now fresh readings s)
  unfolding import_csv
  import_csv-Imports has_writer fault =
      checked_lem has_writer fault _ (validate_csv-Validates parse lower readings)
