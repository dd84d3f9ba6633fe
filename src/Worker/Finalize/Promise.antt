-- ===== src/Worker/Finalize/Promise.antt =====
-- What FinalizeFollowExecution relies on and what it may leave in its stores
-- (internal/worker/execution_service.go).
use follower_bmad.Base.{is_negative, ◌≡◌, true, false, none, some, List, [], ◌∷◌, All}
use follower_bmad.Text.{Text, is_blank, text_eq}
use follower_bmad.Errors.Code.{DomainError}
use follower_bmad.Errors.Value.{GoError}
use follower_bmad.Errors.Result.{Result, ok, err}
use follower_bmad.Domain.Ids.{Bytes}
use follower_bmad.Domain.Session.{SessionMetadata}
use follower_bmad.Domain.Follow.{
  FollowResult, VerificationResult, FollowFlowDiagnostics, validate_result,
}
use follower_bmad.Domain.Follow.Finalization.{FinalizationInput, validate_finalization}
use follower_bmad.Worker.Finalize.{Objects, Dependencies, Saved, call_saver}

-- A key that is not blank and that the store does not have.
abbrev pub IsNew : Text → List Text → Type 0
IsNew key keys = (is_blank key ≡ false) × All (λ k. text_eq k key ≡ false) keys

-- What the finalization relies on: the stores give new keys and delete what they are asked to,
-- and the session saver gives no negative revision.
pub record IsReliable (d : Dependencies) (o : Objects) : Type 0 where
  pub new_screenshot :
      (payload : Bytes) (key : Text) → d.save_screenshot payload ≡ ok key → IsNew key o.screenshots
  pub new_artifact :
      (f : FollowFlowDiagnostics) (v : VerificationResult) (key : Text)
      → d.save_artifact f v ≡ ok key
      → IsNew key o.artifacts
  pub deletes_screenshots : (key : Text) → d.delete_screenshot key ≡ none
  pub deletes_artifacts : (key : Text) → d.delete_artifact key ≡ none
  pub counts_revisions :
      (payload : Bytes) (m : SessionMetadata)
      → call_saver d.save_session payload ≡ ok m
      → is_negative m.revision ≡ false

-- The keys of a finalization are new to the stores as they were.
abbrev pub AreNew : Saved → Text → Objects → Type 0
AreNew saved k o =
    IsNew saved.screenshot_key o.screenshots × (saved.artifact_keys ≡ k ∷ []) × IsNew k o.artifacts

abbrev pub with_saved : Saved → Text → Objects → Objects
with_saved saved k o = record {
  screenshots = saved.screenshot_key ∷ o.screenshots;
  artifacts = k ∷ o.artifacts;
}

-- The result for the input: the fields of its run and of its verification, under the two keys,
-- with the revision of the session that was saved if the session had changed.
pub record IsResultOf (d : Dependencies) (i : FinalizationInput) (key k : Text) (r : FollowResult)
    : Type 0 where
  pub task : r.task_id ≡ i.task_id
  pub account : r.account_id ≡ i.account_id
  pub target : r.target_profile ≡ i.target_profile
  pub attempt : r.attempt ≡ i.attempt
  pub outcome : r.outcome ≡ i.follow_outcome
  pub verified : r.verified ≡ i.verification.verified
  pub signal : r.verification_signal ≡ i.verification.signal
  pub reason : r.verification_reason ≡ i.verification.reason
  pub code : r.error_code ≡ i.verification.error_code
  pub screenshot : r.screenshot_object_key ≡ key
  pub artifact : r.artifact_object_keys ≡ k ∷ []
  pub kept_revision :
      i.verification.session_changed ≡ false → r.session_revision ≡ i.session_revision
  pub new_revision :
      i.verification.session_changed ≡ true
      → (m : SessionMetadata) × (call_saver d.save_session i.session_payload ≡ ok m)
        × (r.session_revision ≡ m.revision)
  pub valid : validate_result r ≡ none

-- Why a finalization fails.
pub data Fails (d : Dependencies) (i : FinalizationInput) : Type 0 where
  is_invalid : {e : DomainError} → validate_finalization i ≡ some e → Fails d i
  no_stores : d.has_stores ≡ false → Fails d i
  no_results : d.has_results ≡ false → Fails d i
  screenshot_failed :
      {payload : Bytes} {e : GoError} → d.save_screenshot payload ≡ err e → Fails d i
  artifact_failed :
      {e : GoError} → d.save_artifact i.follow_diagnostics i.verification ≡ err e → Fails d i
  session_failed :
      {e : GoError}
      → i.verification.session_changed ≡ true
      → call_saver d.save_session i.session_payload ≡ err e
      → Fails d i
  upsert_failed :
      {key k : Text} {r : FollowResult} {e : GoError}
      → IsResultOf d i key k r
      → d.upsert r ≡ err e
      → Fails d i

-- What a finalization does.
abbrev pub Finalizes :
    Dependencies → FinalizationInput → Objects → Result FollowResult × Objects → Type 0
Finalizes d i o (err e, o') = (o' ≡ o) × Fails d i
Finalizes d i o (ok stored, o') =
    (key : Text) × (k : Text) × (r : FollowResult) × IsResultOf d i key k r
    × (d.upsert r ≡ ok stored)
    × (o'.screenshots ≡ key ∷ o.screenshots)
    × (o'.artifacts ≡ k ∷ o.artifacts)
