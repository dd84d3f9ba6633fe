-- ===== src/Tests/Services.antt =====
-- Runs of the account guard and of a finalization.
use mathlib.Core.Path.{subst}
use follower_bmad.Base.{is_negative, ◌≡◌, refl, pos, true, false, none, some, [], ◌∷◌}
use follower_bmad.Text.{codes, is_blank, is_space, trim_space, trim_left, text_eq}
use follower_bmad.Errors.Value.{plain}
use follower_bmad.Errors.Result.{ok, err, ok-injective}
use follower_bmad.Domain.Ids.{no_code}
use follower_bmad.Domain.Account.{default_runtime_guardrails}
use follower_bmad.Domain.Session.{SessionMetadata, valid}
use follower_bmad.Domain.Follow.{completed}
use follower_bmad.Domain.Follow.Finalization.{FinalizationInput}
use follower_bmad.Worker.Policy.{save_session_payload}
use follower_bmad.Worker.Guard.{acquire}
use follower_bmad.Worker.Guard.Exclusive.{IsExclusive, Acquires, acquire-Acquires}
use follower_bmad.Worker.Guard.Postgres.{Faults, postgres, holder, postgres-IsExclusive}
use follower_bmad.Worker.Finalize.{Dependencies, Objects, finalize_execution}
use follower_bmad.Worker.Finalize.Cleanup.{finalize_execution-Finalizes}
use follower_bmad.Worker.Finalize.Promise.{IsNew, IsReliable, Finalizes}
use follower_bmad.Tests.{target, accounts_store}
use follower_bmad.Tests.Worker.{confirmed}

-- The account cannot be read after it has been claimed.
abbrev read_fails : Faults
read_fails = record {
  on_check = none;
  on_claim = none;
  on_release = none;
  on_get = some (plain (codes "connection reset"));
  on_update = none;
}

postgres-IsExclusive_example : IsExclusive holder (postgres read_fails 6)
postgres-IsExclusive_example = postgres-IsExclusive read_fails 6

acquire-Acquires_example :
    Acquires holder (postgres read_fails 6) 1 (codes "worker-2") accounts_store (
      acquire
        (postgres read_fails 6)
        default_runtime_guardrails
        []
        1
        (codes "worker-2")
        accounts_store)
acquire-Acquires_example =
    acquire-Acquires holder (postgres read_fails 6) default_runtime_guardrails []
      (postgres-IsExclusive read_fails 6) 1 (codes "worker-2") accounts_store

abbrev pub sample_metadata : SessionMetadata
sample_metadata = record {
  account_id = 1;
  revision = pos 4;
  status = valid;
  object_key = codes "one/latest.json";
  error_code = no_code;
  last_restored_at = none;
  created_at = 1;
  updated_at = 9;
}

-- The result cannot be stored.
abbrev upsert_fails : Dependencies
upsert_fails = record {
  has_stores = true;
  has_results = true;
  placeholder = 137 ∷ [];
  save_screenshot = λ payload. ok (codes "one/screenshot/2.png");
  save_artifact = λ diagnostics verification. ok (codes "one/artifacts/2.json");
  delete_screenshot = λ key. none;
  delete_artifact = λ key. none;
  save_session = some (λ payload. ok sample_metadata);
  upsert = λ result. err (plain (codes "connection reset"));
}

abbrev sample_objects : Objects
sample_objects = record {
  screenshots = codes "one/screenshot/1.png" ∷ [];
  artifacts = codes "one/artifacts/1.json" ∷ [];
}

abbrev sample_finalization : FinalizationInput
sample_finalization = record {
  task_id = 11;
  account_id = 1;
  account_login = codes "one";
  target_profile = target;
  attempt = pos 1;
  session_revision = pos 3;
  follow_outcome = completed;
  follow_diagnostics = record {
    engine = codes "playwright";
    warmup_completed = true;
    warmup_duration_ms = pos 10;
    execution_duration_ms = pos 20;
  };
  verification = confirmed;
  session_payload = [];
}

IsNew-screenshot_key : IsNew (codes "one/screenshot/2.png") sample_objects.screenshots
unfolding is_blank is_space trim_space trim_left text_eq
IsNew-screenshot_key = (refl, (refl, tt))

IsNew-artifact_key : IsNew (codes "one/artifacts/2.json") sample_objects.artifacts
unfolding is_blank is_space trim_space trim_left text_eq
IsNew-artifact_key = (refl, (refl, tt))

sample-IsReliable : IsReliable upsert_fails sample_objects
unfolding save_session_payload
sample-IsReliable = record {
  new_screenshot = λ payload key e.
      subst (λ k. IsNew k sample_objects.screenshots) (ok-injective _ _ e) IsNew-screenshot_key;
  new_artifact = λ f v key e.
      subst (λ k. IsNew k sample_objects.artifacts) (ok-injective _ _ e) IsNew-artifact_key;
  deletes_screenshots = λ key. refl;
  deletes_artifacts = λ key. refl;
  counts_revisions = λ payload m e.
      subst (λ (x : SessionMetadata). is_negative x.revision ≡ false)
        (ok-injective sample_metadata m e) refl;
}

finalize_execution-Finalizes_example :
    Finalizes upsert_fails sample_finalization sample_objects
      (finalize_execution upsert_fails sample_finalization sample_objects)
finalize_execution-Finalizes_example =
    finalize_execution-Finalizes upsert_fails sample_finalization sample_objects sample-IsReliable
