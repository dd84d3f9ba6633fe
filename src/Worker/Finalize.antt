-- ===== src/Worker/Finalize.antt =====
-- FinalizeFollowExecution (internal/worker/execution_service.go) with the stores that it writes,
-- and screenshot_payload.go. Logs are left out. An object store is the list of its keys.
pub mod Promise
pub mod Cleanup
use follower_bmad.Base.{
  ℕ, ℤ, Bool, true, false, not, ◌&&◌, ◌||◌, Option, none, some, List, [], ◌∷◌, if◌then◌else◌,
  filter,
}
use follower_bmad.Text.{Text, text, is_blank, text_eq, has_prefix}
use follower_bmad.Errors.Code.{
  ErrorCode, new_domain_error, artifact_persist_failed, follow_result_persist_failed,
}
use follower_bmad.Errors.Value.{GoError, domain_error, joined, join}
use follower_bmad.Errors.Result.{Result, ok, err}
use follower_bmad.Domain.Ids.{Bytes}
use follower_bmad.Domain.Session.{SessionMetadata}
use follower_bmad.Domain.Follow.{FollowFlowDiagnostics, VerificationResult, FollowResult}
use follower_bmad.Domain.Follow.Finalization.{FinalizationInput, validate_finalization}
use follower_bmad.Worker.Policy.{save_session_payload}

-- The keys of the saved screenshots and artifacts.
pub record Objects : Type 0 where
  pub screenshots : List Text
  pub artifacts : List Text

-- The dependencies of the service and what they answer; `placeholder` is the PNG that
-- png.Encode makes of a 2 x 2 image.
pub record Dependencies : Type 0 where
  pub has_stores : Bool
  pub has_results : Bool
  pub placeholder : Bytes
  pub save_screenshot : Bytes → Result Text
  pub save_artifact : FollowFlowDiagnostics → VerificationResult → Result Text
  pub delete_screenshot : Text → Option GoError
  pub delete_artifact : Text → Option GoError
  pub save_session : Option (Bytes → Result SessionMetadata)
  pub upsert : FollowResult → Result FollowResult

abbrev pub failed {ℓ} : {A : Type ℓ} → ErrorCode → Text → Result A
failed code message = err (domain_error (new_domain_error code message))

-- pngSignature
abbrev pub png_signature : Bytes
png_signature = 0x89 ∷ 0x50 ∷ 0x4e ∷ 0x47 ∷ 0x0d ∷ 0x0a ∷ 0x1a ∷ 0x0a ∷ []

-- normalizeScreenshotPayload
unfoldable pub normalize_screenshot : Bytes → Bytes → Bytes
normalize_screenshot placeholder payload =
    if has_prefix payload png_signature then payload else placeholder

abbrev pub without : Text → List Text → List Text
without key = filter (λ k. not (text_eq k key))

abbrev pub delete_screenshot_of : Dependencies → Text → Objects → Option GoError × Objects
delete_screenshot_of d key o = elim (d.delete_screenshot key) [
  | some e ↦ (some e, o)
  | none ↦ (none, record o { screenshots = without key o.screenshots })
]

abbrev pub delete_artifact_of : Dependencies → Text → Objects → Option GoError × Objects
delete_artifact_of d key o = elim (d.delete_artifact key) [
  | some e ↦ (some e, o)
  | none ↦ (none, record o { artifacts = without key o.artifacts })
]

-- The keys that a finalization has saved.
pub record Saved : Type 0 where
  pub screenshot_key : Text
  pub artifact_keys : List Text

abbrev pub with_cleanup {ℓ} : {A : Type ℓ} → GoError → Option GoError × Objects → Result A × Objects
with_cleanup e (none, o) = (err e, o)
with_cleanup e (some f, o) = (err (joined e f), o)

abbrev pub after_artifact : Dependencies → Text → Objects → Result Text → Result Saved × Objects
after_artifact d key o (err e) =
    with_cleanup
      (domain_error
        (new_domain_error artifact_persist_failed (text "persist execution artifact failed: %v")))
      (delete_screenshot_of d key o)
after_artifact d key o (ok k) = (
  ok (record { screenshot_key = key; artifact_keys = k ∷ [] }),
  record o { artifacts = k ∷ o.artifacts },
)

abbrev pub after_screenshot :
    Dependencies → FinalizationInput → Objects → Result Text → Result Saved × Objects
after_screenshot d i o (err e) =
    (failed artifact_persist_failed (text "persist screenshot failed: %v"), o)
after_screenshot d i o (ok key) =
    after_artifact d key (record o { screenshots = key ∷ o.screenshots })
      (d.save_artifact i.follow_diagnostics i.verification)

-- persistFollowArtifacts. The payload of the artifact always has a JSON form.
unfoldable pub persist_artifacts :
    Dependencies → FinalizationInput → Objects → Result Saved × Objects
persist_artifacts d i o =
    after_screenshot d i o
      (d.save_screenshot (normalize_screenshot d.placeholder i.verification.screenshot_payload))

abbrev pub clean_keys :
    Dependencies → List Text → Option GoError × Objects → Option GoError × Objects
clean_keys d [] p = p
clean_keys d (k ∷ keys) (e, o) =
    clean_keys d keys
      (if is_blank k then (e, o) else let p = delete_artifact_of d k o in (join e p.0, p.1))

-- cleanupFollowArtifacts
unfoldable pub cleanup_artifacts : Dependencies → Saved → Objects → Option GoError × Objects
cleanup_artifacts d saved o = clean_keys d saved.artifact_keys (
    if is_blank saved.screenshot_key
    then (none, o)
    else delete_screenshot_of d saved.screenshot_key o)

-- The result that is stored.
abbrev pub built_result : FinalizationInput → Saved → ℤ → FollowResult
built_result i saved revision = record {
  task_id = i.task_id;
  account_id = i.account_id;
  target_profile = i.target_profile;
  attempt = i.attempt;
  outcome = i.follow_outcome;
  verified = i.verification.verified;
  verification_signal = i.verification.signal;
  verification_reason = i.verification.reason;
  error_code = i.verification.error_code;
  screenshot_object_key = saved.screenshot_key;
  artifact_object_keys = saved.artifact_keys;
  session_revision = revision;
  created_at = 0;
  updated_at = 0;
}

abbrev pub after_upsert :
    Dependencies → Saved → Objects → Result FollowResult → Result FollowResult × Objects
after_upsert d saved o (ok stored) = (ok stored, o)
after_upsert d saved o (err e) =
    with_cleanup
      (domain_error
        (new_domain_error follow_result_persist_failed (text "persist follow result failed: %v")))
      (cleanup_artifacts d saved o)

abbrev pub call_saver : Option (Bytes → Result SessionMetadata) → Bytes → Result SessionMetadata
call_saver none payload = save_session_payload none
call_saver (some save) payload = save_session_payload (some (save payload))

abbrev pub revision_of : Result SessionMetadata → Result ℤ
revision_of (err e) = err e
revision_of (ok metadata) = ok metadata.revision

-- sessionRevision, after the session has been saved if it changed
abbrev pub saved_revision : Dependencies → FinalizationInput → Result ℤ
saved_revision d i =
    if i.verification.session_changed
    then revision_of (call_saver d.save_session i.session_payload)
    else ok i.session_revision

abbrev pub after_session :
    Dependencies → FinalizationInput → Saved → Objects → Result ℤ → Result FollowResult × Objects
after_session d i saved o (err e) = with_cleanup e (cleanup_artifacts d saved o)
after_session d i saved o (ok revision) =
    after_upsert d saved o (d.upsert (built_result i saved revision))

abbrev pub after_persist :
    Dependencies → FinalizationInput → Result Saved × Objects → Result FollowResult × Objects
after_persist d i (err e, o) = (err e, o)
after_persist d i (ok saved, o) = after_session d i saved o (saved_revision d i)

-- FinalizeFollowExecution
unfoldable pub finalize_execution :
    Dependencies → FinalizationInput → Objects → Result FollowResult × Objects
finalize_execution d i o = elim (validate_finalization i) [
  | some e ↦ (err (domain_error e), o)
  | none ↦
      if not d.has_stores
      then (failed artifact_persist_failed (text "artifact stores are not configured"), o)
      else if not d.has_results
      then (
        failed follow_result_persist_failed (text "follow result repository is not configured"),
        o,
      )
      else after_persist d i (persist_artifacts d i o)
]
