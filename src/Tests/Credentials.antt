-- ===== src/Tests/Credentials.antt =====
-- The credentials resolver on an environment with two variables and one file.
use follower_bmad.Base.{◌≡◌, ◌⊎◌, refl, Option, none, some, [], if◌then◌else◌}
use follower_bmad.Text.{Text, codes, text_eq, is_blank, is_space, trim_space, trim_left, has_prefix}
use follower_bmad.Errors.Result.{ok}
use follower_bmad.Domain.Account.{env, file, normalize_credential_source}
use follower_bmad.Domain.Bootstrap.{AccountCredentials, validate_credentials}
use follower_bmad.Credentials.{
  Resolver, trim_prefix, split_two, split_credential_ref_pair, resolve_from_file, resolve_source,
  resolve,
}
use follower_bmad.Credentials.Resolved.{IsFromEnv, IsFromFile, resolve-IsResolved}

abbrev environment : Text → Option Text
environment name =
    if text_eq name (codes "A")
    then some (codes "ann")
    else if text_eq name (codes "B")
    then some (codes "s3")
    else none

abbrev resolver : Resolver
resolver = record {
  lookup_env = environment;
  read_file = λ path. some (codes "{}");
  unmarshal = λ payload.
      some (record { raw_username = []; raw_password = codes "s3"; raw_login = codes "ann" });
}

abbrev credentials : AccountCredentials
credentials = record { username = codes "ann"; password = codes "s3" }

abbrev env_reference : Text
env_reference = codes "env://A,B"

valid_credentials : validate_credentials credentials ≡ none
unfolding validate_credentials is_blank trim_space trim_left is_space
valid_credentials = refl

trimmed : trim_space env_reference ≡ env_reference
unfolding trim_space trim_left is_space
trimmed = refl

abbrev two_names : Text × Text
two_names = (codes "A", codes "B")

from_environment : IsFromEnv resolver (trim_space env_reference) credentials
unfolding trim_space trim_left is_space trim_prefix has_prefix split_two split_credential_ref_pair
    text_eq
from_environment = record {
  names = two_names;
  named = refl;
  user_value = refl;
  password_value = refl;
}

resolves_file : resolve resolver none file (codes "file:///run/ann") ≡ ok credentials
unfolding resolve resolve_source resolve_from_file normalize_credential_source validate_credentials
    is_blank trim_space trim_left is_space trim_prefix has_prefix
resolves_file = refl

resolve-IsResolved_example :
    ((file ≡ env) × IsFromEnv resolver (trim_space (codes "file:///run/ann")) credentials
      ⊎ (file ≡ file) × IsFromFile resolver (trim_space (codes "file:///run/ann")) credentials)
    × (validate_credentials credentials ≡ none)
resolve-IsResolved_example =
    resolve-IsResolved resolver none file (codes "file:///run/ann") credentials resolves_file
