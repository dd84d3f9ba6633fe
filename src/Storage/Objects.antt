-- ===== src/Storage/Objects.antt =====
-- The object client of package storage (internal/storage/session_store.go, where it is
-- sessionObjectClient), and the stores of screenshots and artifacts over it (screenshot_store.go,
-- artifact_store.go). The bucket of a store is fixed.
use follower_bmad.Base.{
  ℕ, ◌≡◌, ◌≢◌, ◌==◌, map, Bool, true, not, ◌||◌, Option, none, some, [], ◌∷◌, if◌then◌else◌,
}
use follower_bmad.Text.{Text, text, codes, is_empty, trim_space, text_eq, contains, has_prefix}
use follower_bmad.Errors.Code.{
  ErrorCode, new_domain_error, session_payload_missing, invalid_account_identifier,
  artifact_persist_failed, session_ownership_mismatch,
}
use follower_bmad.Errors.Value.{GoError, domain_error, is_domain_error_code}
use follower_bmad.Errors.Result.{Result, ok, err}
use follower_bmad.Domain.Ids.{Uuid, Time, Bytes, is_nil}
use follower_bmad.Storage.Keys.{
  Names, resolve_object_owner_key, screenshot_object_key, execution_artifact_object_key,
  is_task_artifact_owned, has_suffix,
}
use follower_bmad.Storage.Sequence.{Sequencer, next_unique_key_timestamp}

-- sessionObjectClient on objects `O`
pub record ObjectClient (O : Type 0) : Type 0 where
  pub put : Text → Bytes → O → Option GoError × O
  pub get : Text → O → Result Bytes
  pub delete : Text → O → Option GoError × O

abbrev pub IsMissing : Result Bytes → Type 0
IsMissing (ok b) = ⊥
IsMissing (err e) = is_domain_error_code (some e) session_payload_missing ≡ true

-- What MinIO promises of a bucket: an object that was put is read, one that was deleted is missing,
-- and a call on one object leaves the others alone.
pub record IsLawful {O : Type 0} (client : ObjectClient O) : Type 0 where
  pub get-put :
      (k : Text) (b : Bytes) (o : O)
      → (client.put k b o).0 ≡ none
      → client.get k (client.put k b o).1 ≡ ok b
  pub get-put_other :
      (k j : Text) (b : Bytes) (o : O) → k ≢ j → client.get j (client.put k b o).1 ≡ client.get j o
  pub get-delete :
      (k : Text) (o : O)
      → (client.delete k o).0 ≡ none
      → IsMissing (client.get k (client.delete k o).1)

-- minio.ErrorResponse, as far as the client reads it
pub record MinioError : Type 0 where
  pub status_code : ℕ
  pub code : Text

-- isMissingObjectError; `lowered` is the error's text in lower case.
unfoldable pub is_missing_object_error : Option MinioError → Text → Bool
unfolding contains
is_missing_object_error (some e) lowered =
    e.status_code == 404
    || (text_eq e.code (codes "NoSuchKey") || text_eq e.code (codes "NoSuchObject"))
is_missing_object_error none lowered =
    contains lowered (codes "no such key")
    || (contains lowered (codes "specified key does not exist")
        || contains lowered (codes "not found"))

-- What io.ReadAll of an object gives: its bytes, or an error with what errors.As finds in it and
-- its text in lower case.
pub data ReadResult : Type 0 where
  read : Bytes → ReadResult
  read_failed : GoError → Option MinioError → Text → ReadResult

-- MinioSessionObjectClient.Get, from what GetObject and ReadAll answer
unfoldable pub minio_get : Result (Unit {0}) → ReadResult → Result Bytes
minio_get (err e) r = err e
minio_get (ok _) (read payload) = ok payload
minio_get (ok _) (read_failed e minio lowered) =
    if is_missing_object_error minio lowered
    then err (
        domain_error
          (new_domain_error session_payload_missing (text "session payload object %q is missing")))
    else err e

-- contentTypeForObject
unfoldable pub content_type : Names → Text → Bytes → Text
unfolding has_suffix has_prefix
content_type names key payload =
    let normalized = map names.lower (trim_space key) in
    if has_suffix normalized (codes ".png") || has_prefix payload (0x89 ∷ 0x50 ∷ 0x4e ∷ 0x47 ∷ [])
    then codes "image/png"
    else if has_suffix normalized (codes ".json")
    then codes "application/json"
    else codes "application/octet-stream"

-- The objects of a bucket, and the timestamps that this process has given out.
pub record Stored (O : Type 0) : Type 0 where
  pub objects : O
  pub last : Sequencer

abbrev pub failed {ℓ} : {A : Type ℓ} → ErrorCode → Text → Result A
failed code message = err (domain_error (new_domain_error code message))

module _ {O : Type 0} (client : ObjectClient O) (names : Names) where
  abbrev pub put_as : Text → Text → Bytes → Stored O → Result Text × Stored O
  put_as message key payload st =
      let written = client.put key payload st.objects in
      let st' = record st { objects = written.1 } in
      elim written.0 [
        | some e ↦ (failed artifact_persist_failed message, st')
        | none ↦ (ok key, st')
      ]

  -- Save of the two stores, by the kind of object, its key and the message of a failed put.
  abbrev save_object :
      Text
      → (Text → Time → Text)
      → Text
      → Text
      → Text
      → Uuid
      → Text
      → Bytes
      → Time
      → Stored O
      → Result Text × Stored O
  save_object kind key_at id_message empty_message message id login payload now st =
      let owner = resolve_object_owner_key names login id in
      let issued = next_unique_key_timestamp names owner kind now st.last in
      if is_nil id
      then (failed invalid_account_identifier id_message, st)
      else if is_empty payload
      then (failed artifact_persist_failed empty_message, st)
      else put_as message (key_at owner issued.0) payload (record st { last = issued.1 })

  -- ScreenshotStore.Save
  unfoldable pub save_screenshot : Uuid → Text → Bytes → Time → Stored O → Result Text × Stored O
  save_screenshot =
      save_object (codes "screenshot") (screenshot_object_key names)
        (text "screenshot save requires non-empty account id")
        (text "screenshot payload must not be empty") (text "save screenshot object %q: %v")

  -- ArtifactStore.Save
  unfoldable pub save_artifact : Uuid → Text → Bytes → Time → Stored O → Result Text × Stored O
  save_artifact =
      save_object (codes "artifact") (execution_artifact_object_key names)
        (text "artifact save requires non-empty account id")
        (text "artifact payload must not be empty") (text "save artifact object %q: %v")

  -- ScreenshotStore.Load
  unfoldable pub load_screenshot : Uuid → Text → O → Result Bytes
  load_screenshot id key o =
      if not (is_task_artifact_owned names id key)
      then failed session_ownership_mismatch
          (text "screenshot object %q does not belong to account %s")
      else elim (client.get key o) [
        | err e ↦ failed artifact_persist_failed (text "load screenshot object %q: %v")
        | ok payload ↦ ok payload
      ]
