-- ===== src/Repo/Sessions.antt =====
-- SessionPostgresRepository (internal/repository/postgres/session_postgres.go) with the table
-- account_sessions (db/migrations). A row is the domain.SessionMetadata that scanning gives, NULL
-- as an error code being "". `fault` is the error of the database connection; `now` is NOW().
pub mod Valid
pub mod Reading
use follower_bmad.Base.{
  ℕ, Bool, true, false, not, ◌&&◌, ◌==◌, Option, none, some, List, [], ◌∷◌, if◌then◌else◌, any,
}
use follower_bmad.Text.{Text, text, is_empty}
use follower_bmad.Errors.Code.{
  ErrorCode, DomainError, new_domain_error, code_text, session_metadata_not_found,
  invalid_session_status,
}
use follower_bmad.Errors.Value.{GoError, domain_error, plain}
use follower_bmad.Errors.Result.{Result, ok, err}
use follower_bmad.Domain.Ids.{Uuid, Time, no_code}
use follower_bmad.Domain.Session.{
  SessionMetadata, SessionStatus, valid, is_valid, is_valid_session, validate,
}
use follower_bmad.Repo.Table.{find, update}

-- The actions of the audit log's events.
pub data SessionAction : Type 0 where
  metadata_upserted status_changed restored : SessionAction

-- The table, the accounts that a row may belong to, and the audit log. `audit_works` is false
-- where the repository has no audit log or Record fails, which the code ignores.
pub record SessionStore : Type 0 where
  pub sessions : List SessionMetadata
  pub account_ids : List Uuid
  pub audit_works : Bool
  pub audit : List (SessionAction × Uuid)

abbrev pub session_key : SessionMetadata → ℕ
session_key m = m.account_id

abbrev pub audited : SessionAction → Uuid → SessionStore → List (SessionAction × Uuid)
audited action id s = if s.audit_works then (action, id) ∷ s.audit else s.audit

abbrev not_found : Result SessionMetadata
not_found = err (
    domain_error (
      new_domain_error session_metadata_not_found
        (text "session metadata for account %s not found")))

-- GetByAccountID
unfoldable pub get_by_account_id : Option GoError → Uuid → SessionStore → Result SessionMetadata
get_by_account_id (some e) id s = err e
get_by_account_id none id s = elim (find session_key id s.sessions) [
  | none ↦ not_found
  | some m ↦ ok m
]

-- COALESCE(EXCLUDED.last_restored_at, account_sessions.last_restored_at)
abbrev pub coalesce : Option Time → Option Time → Option Time
coalesce none old = old
coalesce (some t) old = some t

-- ON CONFLICT (account_id) DO UPDATE SET …
unfoldable pub overwrite : Time → SessionMetadata → SessionMetadata → SessionMetadata
overwrite now m old = record old {
  revision = m.revision;
  status = m.status;
  object_key = m.object_key;
  error_code = m.error_code;
  last_restored_at = coalesce m.last_restored_at old.last_restored_at;
  updated_at = now;
}

-- The row that INSERT makes, with the defaults of the table.
unfoldable pub inserted : Time → SessionMetadata → SessionMetadata
inserted now m = record m { created_at = now; updated_at = now }

abbrev pub returned :
    SessionAction
    → Uuid
    → (SessionMetadata → SessionMetadata)
    → SessionStore
    → Option SessionMetadata
    → Result SessionMetadata × SessionStore
returned action id f s none = (not_found, s)
returned action id f s (some m) = (
  ok (f m),
  record s { sessions = update session_key id f s.sessions; audit = audited action id s },
)

-- UPDATE … WHERE account_id = id RETURNING …, with the audit event.
abbrev pub returning :
    SessionAction
    → Uuid
    → (SessionMetadata → SessionMetadata)
    → SessionStore
    → Result SessionMetadata × SessionStore
returning action id f s = returned action id f s (find session_key id s.sessions)

-- INSERT … ON CONFLICT … RETURNING …; a row needs its account.
unfoldable pub insert_session :
    Time → SessionMetadata → SessionStore → Result SessionMetadata × SessionStore
unfolding inserted
insert_session now m s =
    if any (λ id. id == m.account_id) s.account_ids
    then (
      ok (inserted now m),
      record s {
        sessions = inserted now m ∷ s.sessions;
        audit = audited metadata_upserted m.account_id s;
      },
    )
    else (err (plain (text "insert violates foreign key on account_sessions")), s)

abbrev pub on_conflict :
    Time
    → SessionMetadata
    → SessionStore
    → Option SessionMetadata
    → Result SessionMetadata × SessionStore
on_conflict now m s none = insert_session now m s
on_conflict now m s (some old) = returning metadata_upserted m.account_id (overwrite now m) s

abbrev pub write_session :
    Time → SessionMetadata → SessionStore → Result SessionMetadata × SessionStore
write_session now m s = on_conflict now m s (find session_key m.account_id s.sessions)

-- The write, unless the metadata is refused or the connection fails.
abbrev pub if_valid :
    Option DomainError
    → Option GoError
    → SessionStore
    → Result SessionMetadata × SessionStore
    → Result SessionMetadata × SessionStore
if_valid (some e) fault s written = (err (domain_error e), s)
if_valid none (some e) s written = (err e, s)
if_valid none none s written = written

-- Upsert
unfoldable pub upsert :
    Option GoError → Time → SessionMetadata → SessionStore → Result SessionMetadata × SessionStore
upsert fault now m s = if_valid (validate m) fault s (write_session now m s)

abbrev pub set_status : Time → SessionStatus → ErrorCode → SessionMetadata → SessionMetadata
set_status now status code m = record m { status = status; error_code = code; updated_at = now }

-- UpdateStatus
unfoldable pub update_status :
    Option GoError
    → Time
    → Uuid
    → SessionStatus
    → ErrorCode
    → SessionStore
    → Result SessionMetadata × SessionStore
update_status fault now id status code s =
    let written = returning status_changed id (set_status now status code) s in
    if not (is_valid status)
    then (
      err (
          domain_error
            (new_domain_error invalid_session_status (text "invalid session status: %s"))),
      s,
    )
    else if is_valid_session status && not (is_empty (code_text code))
    then (
      err (
          domain_error (
            new_domain_error invalid_session_status
              (text "valid session status must not have error code"))),
      s,
    )
    else elim fault [ some e ↦ (err e, s) | none ↦ written ]

abbrev pub set_restored : Time → SessionMetadata → SessionMetadata
set_restored now m = record m {
  status = valid;
  error_code = no_code;
  last_restored_at = some now;
  updated_at = now;
}

-- MarkRestored
unfoldable pub mark_restored :
    Option GoError → Time → Uuid → SessionStore → Result SessionMetadata × SessionStore
mark_restored (some e) now id s = (err e, s)
mark_restored none now id s = returning restored id (set_restored now) s
