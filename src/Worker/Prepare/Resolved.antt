-- ===== src/Worker/Prepare/Resolved.antt =====
-- What the resolution of a bootstrap gives (internal/worker/execution_service.go).
use follower_bmad.Base.{
  ◌≡◌, refl, ◌∙◌, ◌⊎◌, inl, inr, true, false, not, Option, none, some, Bool-cases, if_ind, List, [],
  ◌∷◌,
}
use follower_bmad.Text.{Text, is_empty, is_blank}
use follower_bmad.Errors.Code.{DomainError}
use follower_bmad.Errors.Result.{Result, ok, err}
use follower_bmad.Domain.Ids.{Uuid, Bytes}
use follower_bmad.Domain.Task.{Task}
use follower_bmad.Domain.Session.{SessionMetadata}
use follower_bmad.Domain.Bootstrap.{
  LoginOutcome, LoginResult, login_success, auth_challenge, auth_invalid, auth_runtime_error,
  other_login, validate_login_result, login_result_iff,
}
use follower_bmad.Worker.Policy.{save_session_payload}
use follower_bmad.Worker.Guard.Exclusive.{Same}
use follower_bmad.Worker.Program.{Prepared}
use follower_bmad.Worker.Prepare.{Services}
use follower_bmad.Worker.Prepare.Bootstrap.{
  saved, after_save, after_success, after_outcome, after_login, checked_login, login_input,
  save_stages, persist_screenshots, saved_stages, resolve_bootstrap,
}
use follower_bmad.Worker.Prepare.Holding.{IsQuiet}

-- A session that a login made: the saver was given its payload and answered with its metadata.
pub record IsSaved {W : Type 0} (s : Services W) (task : Task) (prepared p : Prepared) (u : W)
    : Type 0 where
  pub before : W
  pub saves :
      s.save_session task.account_id prepared.account_with_proxy.account.username p.session_payload
        before
      ≡ (ok p.session_metadata, u)
  pub has_payload : is_empty p.session_payload ≡ false
  pub is_json : s.json_valid p.session_payload ≡ true
  pub ready : p.ready_for_follow_flow ≡ true
  pub resolved : p.bootstrap_required ≡ false
  pub same_context : p.execution_context_id ≡ prepared.execution_context_id
  pub same_account : p.account_with_proxy ≡ prepared.account_with_proxy

module _ {W : Type 0} (holder : Uuid → W → Text) (s : Services W) (law : IsQuiet holder s) where
  abbrev pub Resolves : Task → Prepared → W → Result Prepared × W → Type 0
  Resolves task prepared w (ok p, u) =
      Same holder w u
      × ((prepared.bootstrap_required ≡ false) × (p ≡ prepared) × (u ≡ w)
          ⊎ (prepared.bootstrap_required ≡ true) × IsSaved s task prepared p u)
  Resolves task prepared w (err e, u) = Same holder w u × (prepared.bootstrap_required ≡ true)

  save_stages-Same :
      (id : Uuid) (stages : List (Text × Bytes)) (w : W) → Same holder w (save_stages s id stages w)
  save_stages-Same id [] w = λ j. refl
  save_stages-Same id (p ∷ ps) w = λ j.
      save_stages-Same id ps (s.save_artifact id [] p.1 w).1 j ∙ law.artifact_keeps id [] p.1 w j

  persist_screenshots-Same :
      (task : Task) (stages : List (Text × Bytes)) (w : W)
      → Same holder w (persist_screenshots s task stages w)
  unfolding persist_screenshots
  persist_screenshots-Same task stages w = elim (Bool-cases s.has_artifacts) [
    | inl given ↦ rw given (save_stages-Same task.account_id (saved_stages stages) w)
    | inr lacking ↦ rw lacking (λ j. refl)
  ]

  module _ (task : Task) (prepared : Prepared) (required : prepared.bootstrap_required ≡ true)
      (w : W) where
    after_save-Resolves :
        (payload : Bytes) (v : W) (r : Result SessionMetadata × W)
        → Same holder w r.1
        → s.save_session task.account_id prepared.account_with_proxy.account.username payload v ≡ r
        → is_empty payload ≡ false
        → s.json_valid payload ≡ true
        → Resolves task prepared w (after_save s prepared payload (saved s r))
    unfolding save_session_payload
    after_save-Resolves payload v (err e, u) h e' a b = (h, required)
    after_save-Resolves payload v (ok m, u) h e' a b = (
      h,
      inr (
        required,
        record {
          before = v;
          saves = e';
          has_payload = a;
          is_json = b;
          ready = refl;
          resolved = refl;
          same_context = refl;
          same_account = refl;
        },
      ),
    )

    after_success-Resolves :
        (payload : Bytes) (v : W)
        → Same holder w v
        → is_empty payload ≡ false
        → s.json_valid payload ≡ true
        → Resolves task prepared w (after_success s task prepared payload v)
    after_success-Resolves payload v h a b =
        if_ind (Resolves task prepared w) (not s.has_saver) _ _ (λ _. (h, required))
          (λ _.
            after_save-Resolves payload v _
              (λ j. law.save_keeps task.account_id _ payload v j ∙ h j) refl a b)

    after_outcome-Resolves :
        (o : LoginOutcome) (payload : Bytes) (v : W)
        → Same holder w v
        → (o ≡ login_success → is_empty payload ≡ false)
        → (o ≡ login_success → s.json_valid payload ≡ true)
        → Resolves task prepared w (after_outcome s task prepared o payload v)
    after_outcome-Resolves login_success payload v h a b =
        after_success-Resolves payload v h (a refl) (b refl)
    after_outcome-Resolves auth_challenge payload v h a b = (h, required)
    after_outcome-Resolves auth_invalid payload v h a b = (h, required)
    after_outcome-Resolves auth_runtime_error payload v h a b = (h, required)
    after_outcome-Resolves (other_login t) payload v h a b = (h, required)

    checked_login-Resolves :
        (r : LoginResult) (v : W) (o : Option DomainError)
        → validate_login_result s.json_valid r ≡ o
        → Same holder w v
        → Resolves task prepared w (checked_login s task prepared r v o)
    checked_login-Resolves r v (some e) h k = (k, required)
    checked_login-Resolves r v none h k =
        let valid = (login_result_iff s.json_valid r).0 h in
        after_outcome-Resolves r.outcome r.session_payload _
          (λ j. persist_screenshots-Same task r.auth_screenshots v j ∙ k j) valid.has_payload
          valid.is_json

    after_login-Resolves :
        (r : Result LoginResult × W)
        → Same holder w r.1
        → Resolves task prepared w (after_login s task prepared r)
    after_login-Resolves (err e, v) h = (h, required)
    after_login-Resolves (ok r, v) h = checked_login-Resolves r v _ refl h

  same : (w : W) → Same holder w w
  same w j = refl

  -- Resolving a bootstrap moves no account. A context that requires none is given back as it is,
  -- and no dependency is called. Otherwise a context that is given back is ready for follows and
  -- requires no bootstrap, has the same account and context, and has the payload, not empty and
  -- JSON, that the session saver was given at last, and the metadata that it answered with.
  pub resolve_bootstrap-Resolves :
      (task : Task) (prepared : Prepared) (w : W)
      → Resolves task prepared w (resolve_bootstrap s task prepared w)
  unfolding resolve_bootstrap
  resolve_bootstrap-Resolves task prepared w =
      let P = Resolves task prepared w in
      elim (Bool-cases prepared.bootstrap_required) [
        | inr unneeded ↦
            if_ind P (not prepared.bootstrap_required) _ _
              (λ _. (same w, inl (unneeded, refl, refl))) (λ e. cc)
        | inl required ↦
            if_ind P (not prepared.bootstrap_required) _ _ (λ e. cc)
              (λ _.
                if_ind P (not s.login_enabled) _ _ (λ _. (same w, required))
                  (λ _.
                    if_ind P (not s.has_login) _ _ (λ _. (same w, required))
                      (λ _.
                        if_ind P (is_blank prepared.account_with_proxy.account.credential_ref) _ _
                          (λ _. (same w, required))
                          (λ _.
                            after_login-Resolves task prepared required w _
                              (law.login_keeps (login_input s task prepared) w)))))
      ]
