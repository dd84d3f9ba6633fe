-- ===== src/Tests/Batch.antt =====
-- Batches over two tasks.
use follower_bmad.Base.{ℕ, ◌+◌, ◌≡◌, refl, pos, none, List, [], ◌∷◌}
use follower_bmad.Text.{codes, text_eq, trim_space, trim_left, is_space}
use follower_bmad.Errors.Result.{ok}
use follower_bmad.Domain.Ids.{Uuid}
use follower_bmad.Repo.Tasks.Batch.{
  ValidatedRow, BatchResult, duplicate_active_task, account_missing, check_rows, input_rows,
  comes_before, copies, active_duplicates, skipped_as, insert_skipped, sort_skipped, write_batch,
  enqueue_batch, collides,
}
use follower_bmad.Repo.Table.{find}
use follower_bmad.Repo.Tasks.Batch.Unique.{Batches, enqueue_batch-Batches}
use follower_bmad.Tests.{target, tasks_store}

abbrev pub fresh_id : ℕ → Uuid
fresh_id n = 100 + n

-- A new target twice, and an account that is not there.
abbrev pub sample_rows : List ValidatedRow
sample_rows =
    record { row = pos 1; account_id = 1; target_profile = codes " other " }
    ∷ record { row = pos 2; account_id = 1; target_profile = codes "other" }
    ∷ record { row = pos 3; account_id = 9; target_profile = codes "other" }
    ∷ []

enqueue_batch-Batches_example :
    Batches 9
      (input_rows fresh_id 0 sample_rows)
      tasks_store
      (enqueue_batch none 9 fresh_id sample_rows tasks_store)
enqueue_batch-Batches_example = enqueue_batch-Batches none 9 fresh_id sample_rows tasks_store

abbrev sample_result : BatchResult
sample_result = record {
  rows_created = 1;
  rows_skipped = 2;
  skipped_rows =
      record { row = pos 2; reason = duplicate_active_task }
      ∷ record { row = pos 3; reason = account_missing }
      ∷ [];
}

sample_batch : (enqueue_batch none 9 fresh_id sample_rows tasks_store).0 ≡ ok sample_result
unfolding enqueue_batch check_rows input_rows trim_space trim_left is_space write_batch text_eq
    comes_before copies active_duplicates skipped_as sort_skipped insert_skipped collides find
sample_batch = refl

-- Two active tasks have the target of the one row, which is reported twice.
abbrev taken_row : List ValidatedRow
taken_row = record { row = pos 1; account_id = 1; target_profile = target } ∷ []

abbrev twice_reported : BatchResult
twice_reported = record {
  rows_created = 0;
  rows_skipped = 2;
  skipped_rows =
      record { row = pos 1; reason = duplicate_active_task }
      ∷ record { row = pos 1; reason = duplicate_active_task }
      ∷ [];
}

double_report : (enqueue_batch none 9 fresh_id taken_row tasks_store).0 ≡ ok twice_reported
unfolding enqueue_batch check_rows input_rows trim_space trim_left is_space write_batch text_eq
    comes_before copies active_duplicates skipped_as sort_skipped insert_skipped collides find
double_report = refl
