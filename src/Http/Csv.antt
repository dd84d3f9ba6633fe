-- ===== src/Http/Csv.antt =====
-- The validation of a CSV of tasks (internal/transport/http/admin_csv_validator.go). What the
-- reader of encoding/csv gives until io.EOF is a list; `lower` is strings.ToLower and `parse` is
-- uuid.Parse.
pub mod Rows
use follower_bmad.Base.{
  ℕ, zero, suc, pos, Bool, true, false, not, ◌&&◌, Option, none, some, List, [], ◌∷◌, length, map,
  if◌then◌else◌,
}
use follower_bmad.Text.{Text, codes, text_eq, trim_space}
use follower_bmad.Errors.Result.{Result, ok, err}
use follower_bmad.Domain.Ids.{Uuid}
use follower_bmad.Domain.TargetProfile.{normalize_target}
use follower_bmad.Repo.Tasks.Batch.{ValidatedRow}

-- What one Read gives: a record, or an error with its text.
pub data Reading : Type 0 where
  a_record : List Text → Reading
  unreadable : Text → Reading

-- The field that a row is refused for.
pub data RowField : Type 0 where
  whole_row account_id_field target_profile_field : RowField

-- adminCSVRowError, its message being that of its field
pub record RowError : Type 0 where
  pub row : ℕ
  pub field : RowField

-- adminCSVSchemaError
pub data SchemaError : Type 0 where
  header_required : SchemaError
  header_unparsed : Text → SchemaError
  header_unexpected : List Text → SchemaError
  row_unparsed : ℕ → Text → SchemaError

-- adminCSVValidationResult
pub record Validation : Type 0 where
  pub rows_total : ℕ
  pub rows_valid : ℕ
  pub rows_invalid : ℕ
  pub invalid_rows : List RowError
  pub valid_rows : List ValidatedRow

-- The result, or the error; the result that comes with an error is not used.
pub data Checked : Type 0 where
  accepted : Validation → Checked
  rejected : SchemaError → Checked

-- What a row of the file is found to be.
pub data CheckedRow : Type 0 where
  valid_row : ValidatedRow → CheckedRow
  invalid_row : RowError → CheckedRow

abbrev refuse : ℕ → RowField → CheckedRow
refuse n field = invalid_row (record { row = n; field = field })

abbrev with_target : ℕ → Uuid → Result Text → CheckedRow
with_target n id (err e) = refuse n target_profile_field
with_target n id (ok url) =
    valid_row (record { row = pos n; account_id = id; target_profile = url })

abbrev with_account : ℕ → Text → Option Uuid → CheckedRow
with_account n target none = refuse n account_id_field
with_account n target (some id) = with_target n id (normalize_target (trim_space target))

-- The body of the loop of Validate.
unfoldable pub check_record : (Text → Option Uuid) → ℕ → List Text → CheckedRow
check_record parse n (account ∷ target ∷ []) = with_account n target (parse (trim_space account))
check_record parse n _ = refuse n whole_row

abbrev pub no_rows : Validation
no_rows = record {
  rows_total = 0;
  rows_valid = 0;
  rows_invalid = 0;
  invalid_rows = [];
  valid_rows = [];
}

-- A row before the others.
abbrev pub add_row : CheckedRow → Checked → Checked
add_row row (rejected e) = rejected e
add_row (valid_row r) (accepted v) =
    accepted (record v { rows_total = suc v.rows_total; valid_rows = r ∷ v.valid_rows })
add_row (invalid_row e) (accepted v) =
    accepted (record v { rows_total = suc v.rows_total; invalid_rows = e ∷ v.invalid_rows })

-- for rowNumber := n; ; rowNumber++ { … }
unfoldable pub check_rows : (Text → Option Uuid) → ℕ → List Reading → Checked
unfolding check_record
check_rows parse n [] = accepted no_rows
check_rows parse n (unreadable reason ∷ rest) = rejected (row_unparsed n reason)
check_rows parse n (a_record fields ∷ rest) =
    add_row (check_record parse n fields) (check_rows parse (suc n) rest)

-- result.RowsValid = …; result.RowsInvalid = …
abbrev pub counted : Checked → Checked
counted (rejected e) = rejected e
counted (accepted v) =
    accepted (record v { rows_valid = length v.valid_rows; rows_invalid = length v.invalid_rows })

-- normalizeCSVHeader
abbrev pub normalize_header : (Text → Text) → List Text → List Text
normalize_header lower = map (λ column. trim_space (lower column))

abbrev is_header : List Text → Bool
is_header (a ∷ b ∷ []) = text_eq a (codes "account_id") && text_eq b (codes "target_profile")
is_header _ = false

-- isExpectedCSVHeader
unfoldable pub is_expected_header : (Text → Text) → List Text → Bool
is_expected_header lower header = is_header (normalize_header lower header)

-- adminCSVValidator.Validate
unfoldable pub validate_csv : (Text → Text) → (Text → Option Uuid) → List Reading → Checked
unfolding is_expected_header check_rows
validate_csv lower parse [] = rejected header_required
validate_csv lower parse (unreadable reason ∷ rest) = rejected (header_unparsed reason)
validate_csv lower parse (a_record header ∷ rest) =
    let rows = counted (check_rows parse 2 rest) in
    if is_expected_header lower header
    then rows
    else rejected (header_unexpected (normalize_header lower header))
