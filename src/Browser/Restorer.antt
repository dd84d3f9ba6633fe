-- ===== src/Browser/Restorer.antt =====
-- SessionRestorer (internal/browser/session_restorer.go) over the table of sessions and the bucket
-- of their payloads. Logs are left out; `callers` is what runtime.Callers sees.
pub mod RoundTrip
pub mod Loss
use follower_bmad.Base.{
  ℕ, ◌+◌, ◌==◌, zero, suc, ℤ, pos, negsuc, Bool, true, false, Option, none, some, List, [],
  if◌then◌else◌,
}
use follower_bmad.Text.{Text, codes}
use follower_bmad.Errors.Code.{
  ErrorCode, session_metadata_not_found, session_payload_missing, session_payload_corrupted,
  session_ownership_mismatch,
}
use follower_bmad.Errors.Value.{GoError, Frame, joined, is_domain_error_code, lifecycle_error_code}
use follower_bmad.Errors.Stack.{wrap}
use follower_bmad.Errors.Result.{Result, ok, err}
use follower_bmad.Domain.Ids.{Uuid, Time, Bytes, no_code}
use follower_bmad.Domain.Session.{SessionMetadata, SessionStatus, valid, invalid, unavailable}
use follower_bmad.Repo.Sessions.{
  SessionStore, get_by_account_id, upsert, update_status, mark_restored,
}
use follower_bmad.Storage.Keys.{Names}
use follower_bmad.Storage.Objects.{ObjectClient, Stored}
use follower_bmad.Storage.Sessions.{save, load}

-- The errors of the database in each call, if any, and the clock.
pub record Moment : Type 0 where
  pub on_get : Option GoError
  pub on_update : Option GoError
  pub on_restored : Option GoError
  pub on_upsert : Option GoError
  pub now : Time
  pub callers : List Frame

-- The restorer's state: the sessions in the database, and the bucket.
pub record Restorable (O : Type 0) : Type 0 where
  pub sessions : SessionStore
  pub bucket : Stored O

-- statusForRestoreError
unfoldable pub status_for_restore_error : GoError → SessionStatus
status_for_restore_error e =
    if is_domain_error_code (some e) session_payload_missing
    then unavailable
    else if is_domain_error_code (some e) session_payload_corrupted
    then invalid
    else if is_domain_error_code (some e) session_ownership_mismatch
    then invalid
    else invalid

-- r + 1 on int64
unfoldable pub int64_suc : ℤ → ℤ
int64_suc (pos n) = if n == 0x7fffffffffffffff then negsuc 0x7fffffffffffffff else pos (n + 1)
int64_suc (negsuc zero) = pos 0
int64_suc (negsuc (suc n)) = negsuc n

module _ {O : Type 0} (client : ObjectClient O) (names : Names) (json_valid : Bytes → Bool)
    (m : Moment) where
  -- The answer to a payload that cannot be loaded, after the status has been updated.
  abbrev pub after_status :
      GoError
      → Stored O
      → Result SessionMetadata × SessionStore
      → Result (SessionMetadata × Bytes) × Restorable O
  after_status e bucket (ok _, s) = (err e, record { sessions = s; bucket = bucket })
  after_status e bucket (err f, s) = (
    err (joined e (wrap (some f) (codes "failed to update session status") m.callers)),
    record { sessions = s; bucket = bucket },
  )

  abbrev pub after_restored :
      Bytes
      → Stored O
      → Result SessionMetadata × SessionStore
      → Result (SessionMetadata × Bytes) × Restorable O
  after_restored payload bucket (err e, s) = (err e, record { sessions = s; bucket = bucket })
  after_restored payload bucket (ok metadata, s) =
      (ok (metadata, payload), record { sessions = s; bucket = bucket })

  abbrev pub after_load :
      Uuid → Restorable O → Result Bytes → Result (SessionMetadata × Bytes) × Restorable O
  after_load id r (err e) = after_status e r.bucket (
      update_status m.on_update m.now id (status_for_restore_error e) (lifecycle_error_code e)
        r.sessions)
  after_load id r (ok payload) =
      after_restored payload r.bucket (mark_restored m.on_restored m.now id r.sessions)

  abbrev pub after_metadata :
      Uuid → Restorable O → Result SessionMetadata → Result (SessionMetadata × Bytes) × Restorable O
  after_metadata id r (err e) = (err e, r)
  after_metadata id r (ok metadata) =
      after_load id r (load client names json_valid id metadata.object_key r.bucket.objects)

  -- SessionRestorer.Restore
  unfoldable pub restore : Uuid → Restorable O → Result (SessionMetadata × Bytes) × Restorable O
  restore id r = after_metadata id r (get_by_account_id m.on_get id r.sessions)

  -- nextRevision
  abbrev pub next_revision : Result SessionMetadata → Result ℤ
  next_revision (ok current) = ok (int64_suc current.revision)
  next_revision (err e) =
      if is_domain_error_code (some e) session_metadata_not_found then ok (pos 1) else err e

  abbrev pub saved_metadata : Uuid → ℤ → Text → SessionMetadata
  saved_metadata id revision key = record {
    account_id = id;
    revision = revision;
    status = valid;
    object_key = key;
    error_code = no_code;
    last_restored_at = none;
    created_at = 0;
    updated_at = 0;
  }

  -- The object is deleted where its metadata could not be stored.
  abbrev pub after_cleanup :
      GoError → SessionStore → Stored O → Option GoError × O → Result SessionMetadata × Restorable O
  after_cleanup e s bucket (none, o) =
      (err e, record { sessions = s; bucket = record bucket { objects = o } })
  after_cleanup e s bucket (some f, o) = (
    err (joined e (wrap (some f) (codes "failed to cleanup session object") m.callers)),
    record { sessions = s; bucket = record bucket { objects = o } },
  )

  abbrev pub after_upsert :
      Text
      → Stored O
      → Result SessionMetadata × SessionStore
      → Result SessionMetadata × Restorable O
  after_upsert key bucket (ok metadata, s) = (ok metadata, record { sessions = s; bucket = bucket })
  after_upsert key bucket (err e, s) = after_cleanup e s bucket (client.delete key bucket.objects)

  abbrev pub after_save :
      Uuid → ℤ → SessionStore → Result Text × Stored O → Result SessionMetadata × Restorable O
  after_save id revision s (err e, bucket) = (err e, record { sessions = s; bucket = bucket })
  after_save id revision s (ok key, bucket) =
      after_upsert key bucket (upsert m.on_upsert m.now (saved_metadata id revision key) s)

  abbrev pub save_revision :
      Uuid → Text → Bytes → Restorable O → Result ℤ → Result SessionMetadata × Restorable O
  save_revision id login payload r (err e) = (err e, r)
  save_revision id login payload r (ok revision) =
      after_save id revision r.sessions
        (save client names json_valid id login revision payload m.now r.bucket)

  -- SessionRestorer.Save
  unfoldable pub save_session :
      Uuid → Text → Bytes → Restorable O → Result SessionMetadata × Restorable O
  save_session id login payload r =
      save_revision id login payload r (next_revision (get_by_account_id m.on_get id r.sessions))
