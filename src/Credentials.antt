-- ===== src/Credentials.antt =====
-- The resolver of account credentials (internal/credentials/resolver.go).
pub mod Resolved
use follower_bmad.Base.{
  ℕ, Bool, true, false, ◌||◌, Option, none, some, String, [], ◌∷◌, ◌==◌, if◌then◌else◌, drop,
  length,
}
use follower_bmad.Text.{Text, text, codes, is_empty, is_blank, trim_space, has_prefix}
use follower_bmad.Errors.Code.{
  ErrorCode, DomainError, new_domain_error, auth_bootstrap_failed, auth_challenge_blocked,
}
use follower_bmad.Errors.Value.{GoError, domain_error}
use follower_bmad.Errors.Result.{Result, ok, err, unless_error}
use follower_bmad.Domain.Ids.{Bytes}
use follower_bmad.Domain.Account.{
  CredentialSource, env, vault, file, manual, other_source, normalize_credential_source,
}
use follower_bmad.Domain.Bootstrap.{AccountCredentials, validate_credentials}

-- The JSON object that a credential file holds; a member that is missing is "".
pub record RawCredentials : Type 0 where
  pub raw_username : Text
  pub raw_password : Text
  pub raw_login : Text

-- Resolver: os.LookupEnv and os.ReadFile, or what a test puts in their place, and json.Unmarshal
-- into the raw credentials. `none` is false, and an error.
pub record Resolver : Type 0 where
  pub lookup_env : Text → Option Text
  pub read_file : Text → Option Bytes
  pub unmarshal : Bytes → Option RawCredentials

abbrev pub failed {ℓ} : {A : Type ℓ} → ErrorCode → String → Result A
failed code message = err (domain_error (new_domain_error code (text message)))

-- strings.TrimPrefix(s, prefix)
unfoldable pub trim_prefix : Text → Text → Text
trim_prefix s prefix = if has_prefix s prefix then drop (length prefix) s else s

abbrev cons_first : ℕ → Option (Text × Text) → Option (Text × Text)
cons_first c none = none
cons_first c (some p) = some (c ∷ p.0, p.1)

-- strings.SplitN(s, separator, 2), where it gives two parts; `none` where it gives one.
unfoldable pub split_two : ℕ → Text → Option (Text × Text)
split_two separator [] = none
split_two separator (c ∷ s) =
    let rest = split_two separator s in if c == separator then some ([], s) else cons_first c rest

-- splitCredentialRefPair: at the first comma, and without one at the first colon.
unfoldable pub split_credential_ref_pair : Text → Option (Text × Text)
split_credential_ref_pair reference =
    let at_colon = split_two 58 reference in
    elim (split_two 44 reference) [ none ↦ at_colon | some p ↦ some p ]

-- A variable that is set and not blank.
abbrev pub env_variable : Option Text → Result Text
env_variable none = failed auth_bootstrap_failed "env credential variable %s is missing"
env_variable (some v) =
    if is_blank v
    then failed auth_bootstrap_failed "env credential variable %s is missing"
    else ok v

abbrev pub validated : AccountCredentials → Result AccountCredentials
validated c = unless_error (validate_credentials c) (ok c)

abbrev pub from_values : Result Text → Result Text → Result AccountCredentials
from_values (err e) password = err e
from_values (ok u) (err e) = err e
from_values (ok u) (ok p) = validated (record { username = u; password = p })

abbrev pub from_variables : Resolver → Option (Text × Text) → Result AccountCredentials
from_variables r none =
    failed auth_bootstrap_failed
      "env credential reference must declare username/password variable names"
from_variables r (some p) =
    if is_empty (trim_space p.0) || is_empty (trim_space p.1)
    then failed auth_bootstrap_failed "env credential variable names must not be empty"
    else from_values (env_variable (r.lookup_env (trim_space p.0)))
        (env_variable (r.lookup_env (trim_space p.1)))

-- Resolver.resolveFromEnv
unfoldable pub resolve_from_env : Resolver → Text → Result AccountCredentials
resolve_from_env r reference =
    from_variables r (split_credential_ref_pair (trim_prefix reference (codes "env://")))

abbrev pub raw_name : RawCredentials → Text
raw_name raw =
    if is_empty (trim_space raw.raw_username)
    then trim_space raw.raw_login
    else trim_space raw.raw_username

abbrev pub from_raw : Option RawCredentials → Result AccountCredentials
from_raw none = failed auth_bootstrap_failed "credential file must be valid JSON"
from_raw (some raw) = validated (record { username = raw_name raw; password = raw.raw_password })

abbrev pub from_payload : Resolver → Option Bytes → Result AccountCredentials
from_payload r none = failed auth_bootstrap_failed "cannot read credential file"
from_payload r (some payload) = from_raw (r.unmarshal payload)

abbrev pub file_path : Text → Text
file_path reference = trim_space (trim_prefix reference (codes "file://"))

-- Resolver.resolveFromFile
unfoldable pub resolve_from_file : Resolver → Text → Result AccountCredentials
resolve_from_file r reference =
    if is_empty (file_path reference)
    then failed auth_bootstrap_failed "file credential path must not be empty"
    else from_payload r (r.read_file (file_path reference))

-- The switch over the normalised source.
unfoldable pub resolve_source : Resolver → CredentialSource → Text → Result AccountCredentials
resolve_source r env reference = resolve_from_env r reference
resolve_source r file reference = resolve_from_file r reference
resolve_source r vault reference =
    failed auth_bootstrap_failed "credential source vault is not configured"
resolve_source r manual reference =
    failed auth_challenge_blocked "credential source manual requires operator interaction"
resolve_source r (other_source t) reference =
    failed auth_challenge_blocked "credential source manual requires operator interaction"

-- Resolver.Resolve, with the context's error first.
unfoldable pub resolve :
    Resolver → Option GoError → CredentialSource → Text → Result AccountCredentials
resolve r (some e) source reference = err e
resolve r none source reference =
    if is_empty (trim_space reference)
    then failed auth_bootstrap_failed "credential reference must not be empty"
    else resolve_source r (normalize_credential_source source) (trim_space reference)
