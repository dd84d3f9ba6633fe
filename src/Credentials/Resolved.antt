-- ===== src/Credentials/Resolved.antt =====
-- What the credentials resolver returns (internal/credentials/resolver.go).
use follower_bmad.Base.{◌≡◌, refl, ap, sym, ◌⊎◌, false, Option, none, some, arith, inl, inr}
use follower_bmad.Text.{Text, codes, is_blank, trim_space}
use follower_bmad.Errors.Value.{GoError}
use follower_bmad.Errors.Result.{Result, ok, err}
use follower_bmad.Domain.Ids.{Bytes}
use follower_bmad.Domain.Account.{
  CredentialSource, env, vault, file, manual, other_source, normalize_credential_source,
}
use follower_bmad.Domain.Bootstrap.{AccountCredentials, validate_credentials}
use follower_bmad.Credentials.{
  RawCredentials, Resolver, raw_name, file_path, trim_prefix, split_credential_ref_pair,
  env_variable, validated, from_values, from_variables, from_raw, from_payload, resolve_from_env,
  resolve_from_file, resolve_source, resolve,
}

-- The values of the two variables that the reference names.
pub record IsFromEnv (r : Resolver) (reference : Text) (c : AccountCredentials) : Type 0 where
  pub names : Text × Text
  pub named : split_credential_ref_pair (trim_prefix reference (codes "env://")) ≡ some names
  pub user_value : r.lookup_env (trim_space names.0) ≡ some c.username
  pub password_value : r.lookup_env (trim_space names.1) ≡ some c.password

-- What stands in the file that the reference names.
pub record IsFromFile (r : Resolver) (reference : Text) (c : AccountCredentials) : Type 0 where
  pub payload : Bytes
  pub raw : RawCredentials
  pub content : r.read_file (file_path reference) ≡ some payload
  pub parsed : r.unmarshal payload ≡ some raw
  pub user_member : c.username ≡ raw_name raw
  pub password_member : c.password ≡ raw.raw_password

validated_lem :
    (c d : AccountCredentials) → validated c ≡ ok d → (c ≡ d) × (validate_credentials d ≡ none)
validated_lem c d h = ground arith

env_variable_lem : (o : Option Text) (v : Text) → env_variable o ≡ ok v → o ≡ some v
env_variable_lem o v h = ground arith

from_values_lem :
    (u p : Result Text) (c : AccountCredentials)
    → from_values u p ≡ ok c
    → (u ≡ ok c.username) × (p ≡ ok c.password) × (validate_credentials c ≡ none)
from_values_lem (err e) p c h = ground arith
from_values_lem (ok u) (err e) c h = ground arith
from_values_lem (ok u) (ok p) c h =
    let v = validated_lem (record { username = u; password = p }) c h in
    (ap (λ d. ok d.username) v.0, ap (λ d. ok d.password) v.0, v.1)

-- Names that are not empty are looked up.
looked_up :
    (r : Resolver) (p : Text × Text) (c : AccountCredentials)
    → from_variables r (some p) ≡ ok c
    → from_values
        (env_variable (r.lookup_env (trim_space p.0)))
        (env_variable (r.lookup_env (trim_space p.1)))
      ≡ ok c
looked_up r p c h = ground arith

from_pair :
    (r : Resolver) (reference : Text) (o : Option (Text × Text)) (c : AccountCredentials)
    → split_credential_ref_pair (trim_prefix reference (codes "env://")) ≡ o
    → from_variables r o ≡ ok c
    → IsFromEnv r reference c × (validate_credentials c ≡ none)
from_pair r reference none c e h = ground arith
from_pair r reference (some p) c e h =
    let v = from_values_lem _ _ c (looked_up r p c h) in
    (
      record {
        names = p;
        named = e;
        user_value = env_variable_lem _ c.username v.0;
        password_value = env_variable_lem _ c.password v.1;
      },
      v.2,
    )

from_object :
    (r : Resolver) (reference : Text) (payload : Bytes) (o : Option RawCredentials)
    (c : AccountCredentials)
    → r.read_file (file_path reference) ≡ some payload
    → r.unmarshal payload ≡ o
    → from_raw o ≡ ok c
    → IsFromFile r reference c × (validate_credentials c ≡ none)
from_object r reference payload none c e f h = ground arith
from_object r reference payload (some raw) c e f h =
    let v = validated_lem (record { username = raw_name raw; password = raw.raw_password }) c h in
    (
      record {
        payload = payload;
        raw = raw;
        content = e;
        parsed = f;
        user_member = sym (ap (λ d. d.username) v.0);
        password_member = sym (ap (λ d. d.password) v.0);
      },
      v.1,
    )

from_content :
    (r : Resolver) (reference : Text) (o : Option Bytes) (c : AccountCredentials)
    → r.read_file (file_path reference) ≡ o
    → from_payload r o ≡ ok c
    → IsFromFile r reference c × (validate_credentials c ≡ none)
from_content r reference none c e h = ground arith
from_content r reference (some payload) c e h = from_object r reference payload _ c e refl h

from_env :
    (r : Resolver) (reference : Text) (c : AccountCredentials)
    → resolve_from_env r reference ≡ ok c
    → IsFromEnv r reference c × (validate_credentials c ≡ none)
unfolding resolve_from_env
from_env r reference c h = from_pair r reference _ c refl h

from_file :
    (r : Resolver) (reference : Text) (c : AccountCredentials)
    → resolve_from_file r reference ≡ ok c
    → IsFromFile r reference c × (validate_credentials c ≡ none)
unfolding resolve_from_file
from_file r reference c h =
    ground (arith, from_content r reference (r.read_file (file_path reference)) c refl)

from_source :
    (r : Resolver) (source : CredentialSource) (reference : Text) (c : AccountCredentials)
    → resolve_source r source reference ≡ ok c
    → ((source ≡ env) × IsFromEnv r reference c ⊎ (source ≡ file) × IsFromFile r reference c)
      × (validate_credentials c ≡ none)
unfolding resolve_source
from_source r env reference c h = let v = from_env r reference c h in (inl (refl, v.0), v.1)
from_source r file reference c h = let v = from_file r reference c h in (inr (refl, v.0), v.1)
from_source r vault reference c h = ground arith
from_source r manual reference c h = ground arith
from_source r (other_source t) reference c h = ground arith

env_lem : (s : CredentialSource) → normalize_credential_source s ≡ env → s ≡ env
unfolding normalize_credential_source
env_lem s h = ground arith

file_lem : (s : CredentialSource) → normalize_credential_source s ≡ file → s ≡ file
unfolding normalize_credential_source
file_lem s h = ground arith

-- Credentials that are resolved are valid, and they are the values of the two environment
-- variables that the trimmed reference names, where the source is env, or what stands in the JSON
-- file at its path, where the source is file. No other source gives any.
pub resolve-IsResolved :
    (r : Resolver) (context : Option GoError) (source : CredentialSource) (reference : Text)
    (c : AccountCredentials)
    → resolve r context source reference ≡ ok c
    → ((source ≡ env) × IsFromEnv r (trim_space reference) c
        ⊎ (source ≡ file) × IsFromFile r (trim_space reference) c)
      × (validate_credentials c ≡ none)
unfolding resolve
resolve-IsResolved r (some e) source reference c h = ground arith
resolve-IsResolved r none source reference c h =
    let v =
      from_source r (normalize_credential_source source) (trim_space reference) c (ground arith) in
    (source_of source v.0, v.1)
  where
    source_of :
        (s : CredentialSource)
        → (normalize_credential_source s ≡ env) × IsFromEnv r (trim_space reference) c
          ⊎ (normalize_credential_source s ≡ file) × IsFromFile r (trim_space reference) c
        → (s ≡ env) × IsFromEnv r (trim_space reference) c
          ⊎ (s ≡ file) × IsFromFile r (trim_space reference) c
    source_of s (inl v) = inl (env_lem s v.0, v.1)
    source_of s (inr v) = inr (file_lem s v.0, v.1)

values_present :
    (c : AccountCredentials)
    → validate_credentials c ≡ none
    → (env_variable (some c.username) ≡ ok c.username)
      × (env_variable (some c.password) ≡ ok c.password)
unfolding validate_credentials
values_present c h = (ground arith, ground arith)

validated-ok : (c : AccountCredentials) → validate_credentials c ≡ none → validated c ≡ ok c
validated-ok c h = ground arith

-- A reference to two environment variables whose names are not blank and whose values are valid
-- credentials gives these.
pub resolve-env :
    (r : Resolver) (reference : Text) (c : AccountCredentials)
    (v : IsFromEnv r (trim_space reference) c)
    → validate_credentials c ≡ none
    → is_blank reference ≡ false
    → is_blank v.names.0 ≡ false
    → is_blank v.names.1 ≡ false
    → resolve r none env reference ≡ ok c
unfolding resolve resolve_source normalize_credential_source resolve_from_env is_blank
resolve-env r reference c v valid given user password =
    rw
      (
        given,
        v.named,
        user,
        password,
        v.user_value,
        v.password_value,
        (values_present c valid).0,
        (values_present c valid).1,
      )
      (validated-ok c valid)
