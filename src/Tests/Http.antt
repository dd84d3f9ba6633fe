-- ===== src/Tests/Http.antt =====
-- A CSV with a row to queue, rows to report, and a row that blocks the import.
use follower_bmad.Base.{◌≡◌, refl, true, Option, none, some, if◌then◌else◌, [], ◌∷◌, ◌+◌, ℕ, List}
use follower_bmad.Text.{Text, codes, text_eq, is_space, trim_space, trim_left, has_prefix}
use follower_bmad.Errors.Code.{code_text}
use follower_bmad.Errors.Value.{is_domain_error_code, as_domain_error}
use follower_bmad.Domain.Ids.{Uuid}
use follower_bmad.Domain.TargetProfile.{matches, is_digit, profile_prefix, normalize_target}
use follower_bmad.Repo.Tasks.Batch as Batch
use follower_bmad.Http.Csv.{
  Reading, a_record, validate_csv, is_expected_header, check_rows, check_record,
}
use follower_bmad.Http.Csv.Rows.{Validates, validate_csv-Validates}
use follower_bmad.Http.Import.{
  Response, Imports, refused, internal_admin_api_error, import_csv, import_csv-Imports,
}
use follower_bmad.Tests.{tasks_store}

-- A parser that knows two UUIDs, the nil one among them.
abbrev parse_two : Text → Option Uuid
parse_two t =
    if text_eq t (codes "acc-1") then some 1 else if text_eq t (codes "nil") then some 0 else none

abbrev same_text : Text → Text
same_text t = t

abbrev new_id : ℕ → Uuid
new_id n = 20 + n

abbrev header : Reading
header = a_record (codes "account_id" ∷ codes " target_profile" ∷ [])

abbrev good_row : Reading
good_row = a_record (codes " acc-1" ∷ codes "https://oskelly.ru/profile/12" ∷ [])

abbrev sample_file : List Reading
sample_file =
    header
    ∷ good_row
    ∷ a_record (codes "acc-1" ∷ [])
    ∷ a_record (codes "acc-2" ∷ codes "https://oskelly.ru/profile/12" ∷ [])
    ∷ []

validate_csv-Validates_example :
    Validates parse_two same_text sample_file (validate_csv same_text parse_two sample_file)
validate_csv-Validates_example = validate_csv-Validates parse_two same_text sample_file

import_csv-Imports_example :
    Imports same_text parse_two true none 9 new_id sample_file tasks_store
      (import_csv same_text parse_two true none 9 new_id sample_file tasks_store)
import_csv-Imports_example =
    import_csv-Imports same_text parse_two 9 new_id sample_file tasks_store true none

-- The nil UUID is a valid row for the validator and an error of the batch for the queue.
abbrev blocked_file : List Reading
blocked_file =
    header ∷ good_row ∷ a_record (codes "nil" ∷ codes "https://oskelly.ru/profile/13" ∷ []) ∷ []

abbrev IsInternalError : Response → Type 0
IsInternalError (refused status code v) = (status ≡ 500) × (code ≡ internal_admin_api_error)
IsInternalError _ = ⊥

nil_account_blocks :
    IsInternalError (import_csv same_text parse_two true none 9 new_id blocked_file tasks_store).0
unfolding import_csv validate_csv is_expected_header check_rows check_record text_eq trim_space
    trim_left is_space normalize_target matches has_prefix is_digit profile_prefix
    Batch.enqueue_batch Batch.check_rows is_domain_error_code as_domain_error code_text
nil_account_blocks = (refl, refl)
