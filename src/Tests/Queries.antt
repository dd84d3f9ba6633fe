-- ===== src/Tests/Queries.antt =====
-- History queries, target URLs and bootstrap logins at concrete values.
use follower_bmad.Base.{◌≡◌, ◌↔◌, pos, Bool, false, ◌==◌, refl, none, some, [], ◌∷◌}
use follower_bmad.Text.{Text, codes, is_blank, is_space, trim_space, has_prefix, trim_left}
use follower_bmad.Errors.Result.{ok}
use follower_bmad.Domain.Ids.{Bytes}
use follower_bmad.Domain.Status.{success, is_valid}
use follower_bmad.Domain.Account.{other_source, normalize_credential_source}
use follower_bmad.Domain.Follow.{completed, is_valid_outcome}
use follower_bmad.Domain.History.{FollowResultsHistoryQuery, validate_query}
use follower_bmad.Domain.TargetProfile.{
  IsProfile, is_digit, profile_prefix, matches, normalize_target, normalize_target_iff,
}
use follower_bmad.Domain.Bootstrap.{
  LoginInput, LoginResult, login_success, is_valid_source, validate_login_input,
  validate_login_result, is_valid_login,
}

abbrev successes : FollowResultsHistoryQuery
successes = record {
  account_id = 1;
  target_profile = [];
  outcome = completed;
  task_status = success;
  from = some 3;
  to = some 9;
  limit = pos 20;
  offset = pos 0;
}

accepts_successes : validate_query successes ≡ none
unfolding validate_query is_valid is_valid_outcome is_blank trim_space
accepts_successes = refl

abbrev profile : Text
profile = codes "https://oskelly.ru/profile/12"

abbrev padded_profile : Text
padded_profile = 32 ∷ profile

normalizes_padded : normalize_target padded_profile ≡ ok profile
unfolding normalize_target trim_space trim_left is_space matches has_prefix profile_prefix is_digit
normalizes_padded = refl

normalize_target_iff_example :
    (normalize_target padded_profile ≡ ok profile)
    ↔ ((profile ≡ trim_space padded_profile) × IsProfile profile)
normalize_target_iff_example = normalize_target_iff padded_profile profile

-- A number is wanted: the bare prefix is refused.
refuses_prefix : matches profile_prefix ≡ false
unfolding matches has_prefix profile_prefix
refuses_prefix = refl

abbrev unknown_source : LoginInput
unknown_source = record {
  task_id = 11;
  account_id = 1;
  attempt = pos 1;
  execution_context_id = codes "context-1";
  credential_source = other_source (codes "keychain");
  credential_ref = codes "account-1";
}

accepts_unknown_source : validate_login_input unknown_source ≡ none
unfolding validate_login_input is_valid_source normalize_credential_source is_blank trim_space
    trim_left is_space
accepts_unknown_source = refl

-- A JSON test that accepts each text that begins with a brace, `{}` for one.
abbrev begins_with_brace : Bytes → Bool
begins_with_brace [] = false
begins_with_brace (c ∷ rest) = c == 123

abbrev logged_in : LoginResult
logged_in = record {
  outcome = login_success;
  session_payload = codes "{}";
  auth_screenshots = [];
  engine = codes "chromedp";
  duration_ms = pos 40;
}

accepts_logged_in : validate_login_result begins_with_brace logged_in ≡ none
unfolding validate_login_result is_valid_login
accepts_logged_in = refl
