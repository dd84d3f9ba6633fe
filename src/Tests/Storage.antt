-- ===== src/Tests/Storage.antt =====
-- A bucket in memory, and the sessions of an account in it.
use follower_bmad.Base.{
  ℕ, ◌+◌, ◌≡◌, refl, pos, Bool, true, not, ◌&&◌, none, some, List, [], ◌∷◌, map, filter, leb,
  if◌then◌else◌, Bool-cases, inl, inr,
}
use follower_bmad.Text.{
  Text, text, codes, text_eq, is_blank, is_space, trim_space, trim_left, has_prefix,
}
use follower_bmad.Text.Search.{text_eq_refl, text_eq→eq}
use follower_bmad.Errors.Code.{code_text, new_domain_error, session_payload_missing}
use follower_bmad.Errors.Value.{domain_error, plain, is_domain_error_code, as_domain_error}
use follower_bmad.Errors.Result.{Result, ok, err}
use follower_bmad.Domain.Ids.{Bytes, no_code}
use follower_bmad.Domain.Session.{SessionMetadata, valid, validate, is_valid}
use follower_bmad.Repo.Table.{find}
use follower_bmad.Repo.Sessions.{get_by_account_id, upsert, insert_session, inserted, set_restored}
use follower_bmad.Storage.Keys.{
  Names, normalize_login_key, session_payload_object_key, clean_path, join_path,
  format_key_timestamp, session_history_object_key, resolve_object_owner_key,
  is_session_object_owned, has_suffix, session_payload_prefix,
}
use follower_bmad.Storage.Sequence.{
  Request, issue, IsIncreasing, issue-IsIncreasing, sequence_key, last_of,
  next_unique_key_timestamp,
}
use follower_bmad.Storage.Objects.{ObjectClient, IsLawful, IsMissing, Stored}
use follower_bmad.Storage.Sessions.{session_key_of, save}
use follower_bmad.Browser.Restorer.{
  Moment, Restorable, restore, save_session, int64_suc, next_revision,
}
use follower_bmad.Browser.Restorer.RoundTrip.{IsWhole, restore-save_session}
use follower_bmad.Browser.Restorer.Loss.{Loses, save_session-Loses}
use follower_bmad.Tests.Sessions.{empty_table}

abbrev Bucket : Type 0
Bucket = List (Text × Bytes)

abbrev missing : Result Bytes
missing = err (domain_error (new_domain_error session_payload_missing (text "missing")))

read_bucket : Text → Bucket → Result Bytes
read_bucket k [] = missing
read_bucket k (p ∷ o) = if text_eq p.0 k then ok p.1 else read_bucket k o

abbrev others_of : Text → Bucket → Bucket
others_of k = filter (λ p. not (text_eq p.0 k))

abbrev memory : ObjectClient Bucket
memory = record {
  put = λ k b o. (none, (k, b) ∷ o);
  get = read_bucket;
  delete = λ k o. (none, others_of k o);
}

IsMissing-others_of : (k : Text) (o : Bucket) → IsMissing (read_bucket k (others_of k o))
unfolding read_bucket is_domain_error_code
IsMissing-others_of k [] = text_eq_refl (code_text session_payload_missing)
IsMissing-others_of k (p ∷ o) = elim (Bool-cases (text_eq p.0 k)) [
  | inl hit ↦ rw hit (IsMissing-others_of k o)
  | inr miss ↦ rw (miss, miss) (IsMissing-others_of k o)
]

memory-IsLawful : IsLawful memory
unfolding read_bucket
memory-IsLawful = record {
  get-put = λ k b o e. rw (text_eq_refl k) refl;
  get-put_other = λ k j b o e. elim (Bool-cases (text_eq k j)) [
    | inl hit ↦ absurd (e (text_eq→eq k j hit))
    | inr miss ↦ rw miss refl
  ];
  get-delete = λ k o e. IsMissing-others_of k o;
}

-- unicode.ToLower on ASCII
abbrev ascii_lower : ℕ → ℕ
ascii_lower c = if leb 65 c && leb c 90 then c + 32 else c

abbrev names : Names
names = record { lower = ascii_lower; uuid_text = λ id. codes "u1" }

normalizes_login : normalize_login_key names (codes "gm-liker@yandex.ru") ≡ codes "gmliker_yandexru"
unfolding normalize_login_key trim_space trim_left is_space
normalizes_login = refl

-- Two logins with one key.
shares_key :
    normalize_login_key names (codes "john.doe@x.ru")
    ≡ normalize_login_key names (codes "johndoe@x.ru")
unfolding normalize_login_key trim_space trim_left is_space
shares_key = refl

lays_out_history :
    session_history_object_key names (codes "gm-liker@yandex.ru") 1776939072000000000
    ≡ codes "gmliker_yandexru/history/2026-04-23-101112.json"
unfolding session_history_object_key normalize_login_key trim_space trim_left is_space join_path
    clean_path format_key_timestamp text_eq has_prefix
lays_out_history = refl

cleans_path : clean_path (codes "/../a//b/./c/../d/") ≡ codes "/a/b/d"
unfolding clean_path
cleans_path = refl

-- The session object of any login passes the check of every account.
owns_any_latest : is_session_object_owned names 1 (codes "someone/latest.json") ≡ true
unfolding is_session_object_owned session_payload_prefix normalize_login_key trim_space trim_left
    is_space clean_path has_suffix has_prefix
owns_any_latest = refl

abbrev three_screenshots : List Request
three_screenshots =
    record { owner = codes "ann"; kind = codes "screenshot"; now = 5300000000 }
    ∷ record { owner = codes "ann"; kind = codes "screenshot"; now = 5400000000 }
    ∷ record { owner = codes "ann"; kind = codes "screenshot"; now = 4000000000 }
    ∷ []

issues_three :
    map (λ p. p.1) (issue names three_screenshots []) ≡ 5000000000 ∷ 6000000000 ∷ 7000000000 ∷ []
unfolding issue next_unique_key_timestamp sequence_key last_of normalize_login_key trim_space
    trim_left is_space text_eq
issues_three = refl

issue-IsIncreasing_example : IsIncreasing (issue names three_screenshots [])
issue-IsIncreasing_example = issue-IsIncreasing names three_screenshots [] tt

abbrev braces : Bytes
braces = codes "{}"

abbrev any_json : Bytes → Bool
any_json b = true

abbrev calm : Moment
calm = record {
  on_get = none;
  on_update = none;
  on_restored = none;
  on_upsert = none;
  now = 7;
  callers = [];
}

abbrev empty_sessions : Restorable Bucket
empty_sessions = record { sessions = empty_table; bucket = record { objects = []; last = [] } }

abbrev login : Text
login = codes "ann@x.ru"

abbrev key : Text
key = codes "ann_xru/latest.json"

abbrev first_session : SessionMetadata
first_session = record {
  account_id = 1;
  revision = pos 1;
  status = valid;
  object_key = key;
  error_code = no_code;
  last_restored_at = none;
  created_at = 7;
  updated_at = 7;
}

abbrev first_bucket : Stored Bucket
first_bucket = record { objects = (key, braces) ∷ []; last = [] }

key_lem : session_key_of names login 1 ≡ key
unfolding session_payload_object_key resolve_object_owner_key normalize_login_key is_blank
    trim_space trim_left is_space join_path clean_path text_eq has_prefix
key_lem = refl

abbrev saved_sessions : Restorable Bucket
saved_sessions = (save_session memory names any_json calm 1 login braces empty_sessions).1

saves_first :
    save_session memory names any_json calm 1 login braces empty_sessions
    ≡ (ok first_session, saved_sessions)
unfolding save_session save get_by_account_id upsert insert_session inserted validate is_valid
    code_text find is_domain_error_code as_domain_error session_payload_object_key
    resolve_object_owner_key normalize_login_key is_blank trim_space trim_left is_space join_path
    clean_path text_eq has_prefix read_bucket
saves_first = refl

owns_key : is_session_object_owned names 1 (session_key_of names login 1) ≡ true
unfolding is_session_object_owned session_payload_prefix has_suffix session_payload_object_key
    resolve_object_owner_key normalize_login_key is_blank trim_space trim_left is_space join_path
    clean_path text_eq has_prefix
owns_key = refl

restore-save_session_example :
    ((restore memory names any_json calm 1 saved_sessions).0
      ≡ ok (set_restored 7 first_session, braces))
    × (next_revision memory names any_json calm
          (get_by_account_id calm.on_get 1 empty_sessions.sessions)
        ≡ ok (pos 1))
restore-save_session_example =
    restore-save_session memory memory-IsLawful names any_json calm calm 1 login braces
      first_session empty_sessions saved_sessions saves_first owns_key refl refl

abbrev whole_sessions : Restorable Bucket
whole_sessions = record {
  sessions = record empty_table { sessions = first_session ∷ [] };
  bucket = first_bucket;
}

-- The database fails when the metadata of the second session is stored.
abbrev upsert_fails : Moment
upsert_fails = record calm { on_upsert = some (plain (codes "connection reset")) }

first-IsWhole :
    IsWhole memory memory-IsLawful names any_json 1 key braces first_session whole_sessions
unfolding get_by_account_id find read_bucket text_eq
first-IsWhole = record { in_table = refl; has_key = refl; in_bucket = refl; is_json = refl }

abbrev second_bucket : Stored Bucket
second_bucket = (save memory names any_json 1 login (pos 2) braces 7 first_bucket).1

saves_second :
    save memory names any_json 1 login (pos 2) braces 7 first_bucket ≡ (ok key, second_bucket)
unfolding save session_payload_object_key resolve_object_owner_key normalize_login_key is_blank
    trim_space trim_left is_space join_path clean_path text_eq has_prefix read_bucket
saves_second = refl

save_session-Loses_example :
    Loses memory memory-IsLawful names any_json
      (λ k o. refl)
      1
      key
      first_session
      (save_session memory names any_json upsert_fails 1 login braces whole_sessions).1
unfolding int64_suc
save_session-Loses_example =
    save_session-Loses memory memory-IsLawful names any_json (λ k o. refl) upsert_fails
      (plain (codes "connection reset")) 1 login key braces braces first_session whole_sessions
      second_bucket refl refl first-IsWhole saves_second
