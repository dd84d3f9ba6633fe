-- ===== src/Worker/Finalize/Cleanup.antt =====
-- What FinalizeFollowExecution leaves in its stores (internal/worker/execution_service.go).
use follower_bmad.Base.{
  ℤ, is_negative, ◌≡◌, refl, sym, ap, inl, inr, Bool, true, false, not, not-true, none, List, [],
  ◌∷◌, All, arith, Bool-cases, Option-cases, if◌then◌else◌,
}
use follower_bmad.Text.{Text, is_blank, text_eq}
use follower_bmad.Text.Trim.{empty-is_blank}
use follower_bmad.Errors.Code.{code_text, is_blank_code_lem}
use follower_bmad.Text.Search.{text_eq_refl}
use follower_bmad.Errors.Value.{GoError}
use follower_bmad.Errors.Result.{Result, ok, err, ok-injective}
use follower_bmad.Domain.Ids.{Bytes}
use follower_bmad.Domain.Session.{SessionMetadata}
use follower_bmad.Domain.Follow.{FollowResult, validate_result, validate_verification}
use follower_bmad.Domain.Follow.Finalization.{FinalizationInput, validate_finalization}
use follower_bmad.Worker.Finalize.{
  Objects, Dependencies, Saved, without, with_cleanup, after_artifact, delete_screenshot_of,
  delete_artifact_of, after_screenshot, persist_artifacts, cleanup_artifacts, built_result,
  call_saver, revision_of, after_upsert, saved_revision, after_session, after_persist,
  finalize_execution,
}
use follower_bmad.Worker.Finalize.Promise.{
  IsNew, IsReliable, AreNew, with_saved, IsResultOf, Fails, is_invalid, no_stores, no_results,
  screenshot_failed, artifact_failed, session_failed, upsert_failed, Finalizes,
}

filter_others :
    (key : Text) (keys : List Text)
    → All (λ k. text_eq k key ≡ false) keys
    → without key keys ≡ keys
filter_others key [] h = refl
filter_others key (k ∷ keys) h = rw h.0 (ap (◌∷◌ k) (filter_others key keys h.1))

without-new : (key : Text) (keys : List Text) → IsNew key keys → without key (key ∷ keys) ≡ keys
without-new key keys h = rw (text_eq_refl key) (filter_others key keys h.1)

delete_screenshot-new :
    (d : Dependencies) (key : Text) (keys artifacts : List Text)
    → d.delete_screenshot key ≡ none
    → IsNew key keys
    → delete_screenshot_of d key (record { screenshots = key ∷ keys; artifacts = artifacts })
      ≡ (none, record { screenshots = keys; artifacts = artifacts })
delete_screenshot-new d key keys artifacts e new =
    rw (e, delete_screenshot_of)
      (ap (λ x. (none, record { screenshots = x; artifacts = artifacts }))
        (without-new key keys new))

delete_artifact-new :
    (d : Dependencies) (key : Text) (screenshots keys : List Text)
    → d.delete_artifact key ≡ none
    → IsNew key keys
    → delete_artifact_of d key (record { screenshots = screenshots; artifacts = key ∷ keys })
      ≡ (none, record { screenshots = screenshots; artifacts = keys })
delete_artifact-new d key screenshots keys e new =
    rw (e, delete_artifact_of)
      (ap (λ x. (none, record { screenshots = screenshots; artifacts = x }))
        (without-new key keys new))

cleanup_artifacts_lem :
    (d : Dependencies) (o : Objects) (saved : Saved) (k : Text)
    → IsReliable d o
    → AreNew saved k o
    → cleanup_artifacts d saved (with_saved saved k o) ≡ (none, o)
unfolding cleanup_artifacts
cleanup_artifacts_lem d o saved k rely new =
    rw
      (
        new.1,
        new.0.0,
        new.2.0,
        delete_screenshot-new d saved.screenshot_key o.screenshots (k ∷ o.artifacts)
            (rely.deletes_screenshots saved.screenshot_key) new.0,
        delete_artifact-new d k o.screenshots o.artifacts (rely.deletes_artifacts k) new.2,
      )
      refl

-- A finalization that cleans up and reports `e`.
cleaned-Finalizes :
    (d : Dependencies) (i : FinalizationInput) (o : Objects) (saved : Saved) (k : Text)
    (e : GoError)
    → IsReliable d o
    → AreNew saved k o
    → Fails d i
    → Finalizes d i o (with_cleanup e (cleanup_artifacts d saved (with_saved saved k o)))
cleaned-Finalizes d i o saved k e rely new why =
    rw (cleanup_artifacts_lem d o saved k rely new) (refl, why)

built_result-valid :
    (i : FinalizationInput) (saved : Saved) (k : Text) (revision : ℤ)
    → validate_finalization i ≡ none
    → is_blank saved.screenshot_key ≡ false
    → saved.artifact_keys ≡ k ∷ []
    → is_negative revision ≡ false
    → validate_result (built_result i saved revision) ≡ none
unfolding validate_finalization validate_result validate_verification
built_result-valid i saved k revision v given one counted =
    let code = i.verification.error_code in
    ground (arith, is_blank_code_lem code, empty-is_blank (code_text code))

answer_counted :
    (r : Result SessionMetadata) {revision : ℤ}
    → ((m : SessionMetadata) → r ≡ ok m → is_negative m.revision ≡ false)
    → revision_of r ≡ ok revision
    → is_negative revision ≡ false
answer_counted (ok m) h e = ground (arith, h m refl)
answer_counted (err x) h e = ground arith

revision-counted :
    (d : Dependencies) (i : FinalizationInput) (o : Objects) (revision : ℤ)
    → IsReliable d o
    → validate_finalization i ≡ none
    → saved_revision d i ≡ ok revision
    → is_negative revision ≡ false
revision-counted d i o revision rely v e = elim (Bool-cases i.verification.session_changed) [
  | inl changed ↦
      answer_counted (call_saver d.save_session i.session_payload)
        (λ m. rely.counts_revisions i.session_payload m) (rw (changed, saved_revision) at e)
  | inr kept ↦ unfold validate_finalization in ground arith
]

answer_revision :
    (r : Result SessionMetadata) {revision : ℤ}
    → revision_of r ≡ ok revision
    → (m : SessionMetadata) × (r ≡ ok m) × (revision ≡ m.revision)
answer_revision (ok m) e = (m, refl, sym (ok-injective _ _ e))
answer_revision (err x) e = ground arith

built_result-IsResultOf :
    (d : Dependencies) (i : FinalizationInput) (o : Objects) (saved : Saved) (k : Text)
    (revision : ℤ)
    → IsReliable d o
    → AreNew saved k o
    → validate_finalization i ≡ none
    → saved_revision d i ≡ ok revision
    → IsResultOf d i saved.screenshot_key k (built_result i saved revision)
built_result-IsResultOf d i o saved k revision rely new v s = record {
  task = refl;
  account = refl;
  target = refl;
  attempt = refl;
  outcome = refl;
  verified = refl;
  signal = refl;
  reason = refl;
  code = refl;
  screenshot = refl;
  artifact = new.1;
  kept_revision = λ kept. sym (ok-injective _ _ (rw (kept, saved_revision) at s));
  new_revision = λ changed. answer_revision _ (rw (changed, saved_revision) at s);
  valid =
      built_result-valid i saved k revision v new.0.0 new.1
        (revision-counted d i o revision rely v s);
}

after_upsert-Finalizes :
    (d : Dependencies) (i : FinalizationInput) (o : Objects) (saved : Saved) (k : Text)
    (revision : ℤ) (r : Result FollowResult)
    → IsReliable d o
    → AreNew saved k o
    → validate_finalization i ≡ none
    → saved_revision d i ≡ ok revision
    → d.upsert (built_result i saved revision) ≡ r
    → Finalizes d i o (after_upsert d saved (with_saved saved k o) r)
after_upsert-Finalizes d i o saved k revision (ok stored) rely new v s u = (
  saved.screenshot_key,
  k,
  built_result i saved revision,
  built_result-IsResultOf d i o saved k revision rely new v s,
  u,
  refl,
  refl,
)
after_upsert-Finalizes d i o saved k revision (err e) rely new v s u =
    cleaned-Finalizes d i o saved k _ rely new
      (upsert_failed (built_result-IsResultOf d i o saved k revision rely new v s) u)

answer_failed :
    (r : Result SessionMetadata) (e : GoError) → revision_of r ≡ err e → (f : GoError) × (r ≡ err f)
answer_failed (ok m) e h = ground arith
answer_failed (err f) e h = (f, refl)

session-Fails :
    (d : Dependencies) (i : FinalizationInput) (e : GoError)
    → saved_revision d i ≡ err e
    → Fails d i
session-Fails d i e s = elim (Bool-cases i.verification.session_changed) [
  | inl changed ↦ session_failed changed (answer_failed _ e (rw (changed, saved_revision) at s)).1
  | inr kept ↦ absurd (not_err _ e (rw (kept, saved_revision) at s))
]
  where
    not_err : (n : ℤ) (e : GoError) → ¬ (ok n ≡ err e)
    not_err n e h = ground arith

after_session-Finalizes :
    (d : Dependencies) (i : FinalizationInput) (o : Objects) (saved : Saved) (k : Text)
    (r : Result ℤ)
    → IsReliable d o
    → AreNew saved k o
    → validate_finalization i ≡ none
    → saved_revision d i ≡ r
    → Finalizes d i o (after_session d i saved (with_saved saved k o) r)
after_session-Finalizes d i o saved k (ok revision) rely new v s =
    after_upsert-Finalizes d i o saved k revision _ rely new v s refl
after_session-Finalizes d i o saved k (err e) rely new v s =
    cleaned-Finalizes d i o saved k e rely new (session-Fails d i e s)

-- The artifact and what follows it, once the screenshot is saved under `key`.
after_artifact-Finalizes :
    (d : Dependencies) (i : FinalizationInput) (o : Objects) (key : Text) (r : Result Text)
    → IsReliable d o
    → IsNew key o.screenshots
    → validate_finalization i ≡ none
    → d.save_artifact i.follow_diagnostics i.verification ≡ r
    → Finalizes d i o (
        after_persist d i (after_artifact d key (record o { screenshots = key ∷ o.screenshots }) r))
after_artifact-Finalizes d i o key (ok k) rely new v e =
    after_session-Finalizes d i o (record { screenshot_key = key; artifact_keys = k ∷ [] }) k _ rely
      (new, refl, rely.new_artifact _ _ k e) v refl
after_artifact-Finalizes d i o key (err e) rely new v h =
    rw (delete_screenshot-new d key o.screenshots o.artifacts (rely.deletes_screenshots key) new)
      (refl, artifact_failed h)

after_screenshot-Finalizes :
    (d : Dependencies) (i : FinalizationInput) (o : Objects) (payload : Bytes) (r : Result Text)
    → IsReliable d o
    → validate_finalization i ≡ none
    → d.save_screenshot payload ≡ r
    → Finalizes d i o (after_persist d i (after_screenshot d i o r))
after_screenshot-Finalizes d i o payload (ok key) rely v e =
    after_artifact-Finalizes d i o key _ rely (rely.new_screenshot payload key e) v refl
after_screenshot-Finalizes d i o payload (err e) rely v h = (refl, screenshot_failed h)

if-Finalizes :
    (d : Dependencies) (i : FinalizationInput) (o : Objects) (b : Bool)
    (p q : Result FollowResult × Objects)
    → (b ≡ true → Finalizes d i o p)
    → Finalizes d i o q
    → Finalizes d i o (if b then p else q)
if-Finalizes d i o true p q h k = h refl
if-Finalizes d i o false p q h k = k

-- Over reliable stores FinalizeFollowExecution either reports an error, and then the screenshots
-- and the artifacts are those of before, or it returns what the upsert answers for a valid result:
-- that result has each field of the run and of the verification, the keys of the one new screenshot
-- and of the one new artifact, and the revision of the session that it saved if the session had
-- changed, else the revision of the input. It reports an error only for an invalid input, without
-- stores, or where a save or the upsert of that result fails. What the session saver has written is
-- not undone.
pub finalize_execution-Finalizes :
    (d : Dependencies) (i : FinalizationInput) (o : Objects)
    → IsReliable d o
    → Finalizes d i o (finalize_execution d i o)
unfolding finalize_execution persist_artifacts
finalize_execution-Finalizes d i o rely = elim (Option-cases (validate_finalization i)) [
  | inr (e, bad) ↦ rw (bad, finalize_execution) (refl, is_invalid bad)
  | inl good ↦
      rw (good, finalize_execution, persist_artifacts)
        (if-Finalizes d i o (not d.has_stores) _ _ (λ h. (refl, no_stores (not-true _ h)))
          (if-Finalizes d i o (not d.has_results) _ _ (λ h. (refl, no_results (not-true _ h)))
            (after_screenshot-Finalizes d i o _ _ rely good refl)))
]
