-- ===== src/Tests/Results.antt =====
-- Two attempts of a task with stored results, and their history.
use follower_bmad.Base.{ℕ, ◌≡◌, ◌↔◌, refl, pos, true, false, none, some, [], ◌∷◌, List}
use follower_bmad.Text.{codes, is_blank, is_space, trim_space, trim_left}
use follower_bmad.Errors.Code.{follow_target_unreachable, is_blank_code}
use follower_bmad.Errors.Result.{ok, is_ok}
use follower_bmad.Domain.Ids.{no_code}
use follower_bmad.Domain.Status.{unlisted}
use follower_bmad.Domain.Follow.{
  FollowResult, completed, target_unreachable, other_outcome, signal_confirmed,
  signal_target_unreachable, is_valid_outcome, is_valid_signal, validate_result,
}
use follower_bmad.Domain.History.{FollowResultsHistoryQuery, validate_query}
use follower_bmad.Repo.Results.{ResultRow, ResultStore, upsert_result}
use follower_bmad.Repo.Results.Stored.{Upserts, upsert_result-Upserts}
use follower_bmad.Repo.Results.Accepted.{IsStorable, upsert_result_iff}
use follower_bmad.Repo.Results.History.{
  HistoryEntry, scan_entry, matching, joined, matches, ordered, place, is_first, list_history,
}
use follower_bmad.Repo.Results.History.Pages.{Lists, list_history-Lists}
use follower_bmad.Repo.Table.{find}
use follower_bmad.Tests.{target, running_sample, queued_sample}

abbrev unreached : ResultRow
unreached = record {
  task_id = 11;
  attempt = 1;
  account_id = 1;
  target_profile = target;
  outcome = target_unreachable;
  verified = false;
  verification_signal = signal_target_unreachable;
  verification_reason = none;
  error_code = some follow_target_unreachable;
  screenshot_object_key = codes "one/screenshot/1.png";
  artifact_object_keys = codes "one/artifacts/1.json" ∷ [];
  session_revision = none;
  created_at = 6;
  updated_at = 6;
}

abbrev followed : ResultRow
followed = record unreached {
  attempt = 2;
  outcome = completed;
  verified = true;
  verification_signal = signal_confirmed;
  error_code = none;
  created_at = 9;
  updated_at = 9;
}

abbrev results_store : ResultStore
results_store = record {
  results = unreached ∷ followed ∷ [];
  tasks = running_sample ∷ queued_sample ∷ [];
  audit_works = true;
  audit = [];
}

-- The first attempt's result is stored again, now as a success.
abbrev corrected : FollowResult
corrected = record {
  task_id = 11;
  account_id = 1;
  target_profile = target;
  attempt = pos 1;
  outcome = completed;
  verified = true;
  verification_signal = signal_confirmed;
  verification_reason = codes " seen ";
  error_code = no_code;
  screenshot_object_key = codes "one/screenshot/3.png";
  artifact_object_keys = codes "one/artifacts/3.json" ∷ [];
  session_revision = pos 4;
  created_at = 0;
  updated_at = 0;
}

corrected_valid : validate_result corrected ≡ none
unfolding validate_result is_valid_outcome is_valid_signal is_blank is_blank_code is_space
    trim_space trim_left
corrected_valid = refl

upsert_result-Upserts_example :
    Upserts 12 corrected results_store (upsert_result none 12 corrected results_store)
upsert_result-Upserts_example = upsert_result-Upserts none 12 corrected results_store

upsert_result_iff_example :
    (is_ok (upsert_result none 12 corrected results_store).0 ≡ true)
    ↔ IsStorable corrected results_store
upsert_result_iff_example = upsert_result_iff 12 corrected results_store corrected_valid

abbrev everything : FollowResultsHistoryQuery
everything = record {
  account_id = 1;
  target_profile = [];
  outcome = other_outcome [];
  task_status = unlisted [];
  from = some 3;
  to = none;
  limit = pos 1;
  offset = pos 0;
}

everything_valid : validate_query everything ≡ none
unfolding validate_query is_blank trim_space trim_left
everything_valid = refl

list_history-Lists_example :
    Lists everything results_store (list_history none everything results_store)
list_history-Lists_example = list_history-Lists everything results_store everything_valid

abbrev latest : List HistoryEntry
latest = scan_entry (followed, running_sample) ∷ []

abbrev earliest : List HistoryEntry
earliest = scan_entry (unreached, running_sample) ∷ []

abbrev at_page : ℕ → ℕ → FollowResultsHistoryQuery → FollowResultsHistoryQuery
at_page limit offset q = record q { limit = pos limit; offset = pos offset }

page_of_latest : list_history none (at_page 1 0 everything) results_store ≡ ok latest
unfolding list_history validate_query is_blank trim_space trim_left matching joined matches ordered
    place is_first find
page_of_latest = refl

page_of_earliest : list_history none (at_page 1 1 everything) results_store ≡ ok earliest
unfolding list_history validate_query is_blank trim_space trim_left matching joined matches ordered
    place is_first find
page_of_earliest = refl
