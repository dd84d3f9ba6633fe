-- ===== src/Worker/Prepare/Bootstrap.antt =====
-- ResolveBootstrapForClaimedTask (internal/worker/execution_service.go).
use follower_bmad.Base.{
  Bool, true, false, not, ◌&&◌, ◌||◌, Option, none, some, List, [], ◌∷◌, ◌++◌, reverse, ltb, leb,
  ◌==◌, if◌then◌else◌, filter,
}
use follower_bmad.Text.{Text, text, codes, is_empty, is_blank, trim_space}
use follower_bmad.Errors.Code.{
  ErrorCode, DomainError, auth_bootstrap_disabled, auth_bootstrap_required, auth_bootstrap_failed,
  auth_invalid_credentials, auth_challenge_blocked, session_save_failed,
}
use follower_bmad.Errors.Value.{domain_error}
use follower_bmad.Errors.Result.{Result, ok, err}
use follower_bmad.Domain.Ids.{Uuid, Bytes, no_code}
use follower_bmad.Domain.Task.{Task}
use follower_bmad.Domain.Account.{normalize_credential_source}
use follower_bmad.Domain.Session.{SessionMetadata}
use follower_bmad.Domain.Bootstrap.{
  LoginInput, LoginResult, LoginOutcome, login_success, auth_invalid, auth_challenge,
  auth_runtime_error, validate_login_result,
}
use follower_bmad.Worker.Policy.{save_session_payload}
use follower_bmad.Worker.Program.{Prepared}
use follower_bmad.Worker.Prepare.{Services, refused}

-- bootstrapErrorCodeForOutcome
unfoldable pub bootstrap_error_code : LoginOutcome → ErrorCode
bootstrap_error_code auth_invalid = auth_invalid_credentials
bootstrap_error_code auth_challenge = auth_challenge_blocked
bootstrap_error_code auth_runtime_error = auth_bootstrap_failed
bootstrap_error_code _ = auth_bootstrap_failed

-- a <= b for strings
abbrev text_le : Text → Text → Bool
text_le [] t = true
text_le (c ∷ s) [] = false
text_le (c ∷ s) (d ∷ t) = ltb c d || c == d && text_le s t

abbrev insert_stage : Text × Bytes → List (Text × Bytes) → List (Text × Bytes)
insert_stage p [] = p ∷ []
insert_stage p (q ∷ qs) = if text_le p.0 q.0 then p ∷ q ∷ qs else q ∷ insert_stage p qs

abbrev sort_stages : List (Text × Bytes) → List (Text × Bytes)
sort_stages [] = []
sort_stages (p ∷ ps) = insert_stage p (sort_stages ps)

-- The screenshots that are saved, in the order of their stages; the map is its entries.
unfoldable pub saved_stages : List (Text × Bytes) → List (Text × Bytes)
saved_stages screenshots =
    filter (λ p. not (is_empty p.1)) (sort_stages (filter (λ p. not (is_blank p.0)) screenshots))

-- A symbol of a slug: the text so far, from its end, and whether that ends with a dash.
abbrev slug_from : Text → Text → Bool → Text
slug_from [] out last_dash = reverse out
slug_from (c ∷ s) out last_dash =
    let kept = slug_from s (c ∷ out) false in
    let dashed = slug_from s (45 ∷ out) true in
    let skipped = slug_from s out true in
    if leb 97 c && leb c 122 || leb 48 c && leb c 57
    then kept
    else if not last_dash
    then dashed
    else skipped

abbrev trim_dashes : Text → Text
trim_dashes [] = []
trim_dashes (c ∷ s) = let rest = trim_dashes s in if c == 45 then rest else c ∷ s

-- bootstrapAuthScreenshotArtifactName; `to_lower` is strings.ToLower.
unfoldable pub screenshot_artifact_name : (Text → Text) → Text → Text
screenshot_artifact_name to_lower stage =
    let normalized = to_lower (trim_space stage) in
    let slug = reverse (trim_dashes (reverse (trim_dashes (slug_from normalized [] false)))) in
    if is_empty normalized
    then codes "bootstrap-auth.png"
    else if is_empty slug
    then codes "bootstrap-auth.png"
    else codes "bootstrap-" ++ (slug ++ codes ".png")

module _ {W : Type 0} (s : Services W) where
  -- The loop of persistBootstrapAuthScreenshots, which goes on after an error.
  abbrev pub save_stages : Uuid → List (Text × Bytes) → W → W
  save_stages id [] w = w
  save_stages id (p ∷ ps) w = save_stages id ps (s.save_artifact id [] p.1 w).1

  -- persistBootstrapAuthScreenshots
  unfoldable pub persist_screenshots : Task → List (Text × Bytes) → W → W
  persist_screenshots task screenshots w =
      if not s.has_artifacts then w else save_stages task.account_id (saved_stages screenshots) w

  -- saveSessionPayload with a saver
  abbrev pub saved : Result SessionMetadata × W → Result SessionMetadata × W
  saved (r, w) = (save_session_payload (some r), w)

  abbrev pub after_save : Prepared → Bytes → Result SessionMetadata × W → Result Prepared × W
  after_save prepared payload (err e, w) = (err e, w)
  after_save prepared payload (ok metadata, w) = (
    ok (record prepared {
      session_metadata = metadata;
      session_payload = payload;
      ready_for_follow_flow = true;
      bootstrap_required = false;
      bootstrap_reason = no_code;
      bootstrap_source = no_code;
    }),
    w,
  )

  abbrev pub after_success : Task → Prepared → Bytes → W → Result Prepared × W
  after_success task prepared payload w =
      if not s.has_saver
      then refused s session_save_failed (text "session saver is not configured") w
      else after_save prepared payload (
          saved
            (s.save_session task.account_id prepared.account_with_proxy.account.username payload w))

  abbrev pub after_outcome : Task → Prepared → LoginOutcome → Bytes → W → Result Prepared × W
  after_outcome task prepared login_success payload w = after_success task prepared payload w
  after_outcome task prepared outcome payload w =
      refused s (bootstrap_error_code outcome) (text "bootstrap login failed with outcome %s") w

  abbrev pub checked_login :
      Task → Prepared → LoginResult → W → Option DomainError → Result Prepared × W
  checked_login task prepared r w (some e) = (err (domain_error e), w)
  checked_login task prepared r w none =
      after_outcome task prepared r.outcome r.session_payload
        (persist_screenshots task r.auth_screenshots w)

  abbrev pub after_login : Task → Prepared → Result LoginResult × W → Result Prepared × W
  after_login task prepared (err e, w) = (err e, w)
  after_login task prepared (ok r, w) =
      checked_login task prepared r w (validate_login_result s.json_valid r)

  abbrev pub login_input : Task → Prepared → LoginInput
  login_input task prepared = record {
    task_id = task.id;
    account_id = task.account_id;
    attempt = task.attempt;
    execution_context_id = prepared.execution_context_id;
    credential_source =
        normalize_credential_source prepared.account_with_proxy.account.credential_source;
    credential_ref = trim_space prepared.account_with_proxy.account.credential_ref;
  }

  -- ResolveBootstrapForClaimedTask
  unfoldable pub resolve_bootstrap : Task → Prepared → W → Result Prepared × W
  resolve_bootstrap task prepared w =
      if not prepared.bootstrap_required
      then (ok prepared, w)
      else if not s.login_enabled
      then refused s auth_bootstrap_disabled
          (text "bootstrap login is disabled by session.bootstrap_login_enabled policy") w
      else if not s.has_login
      then refused s auth_bootstrap_required
          (text "bootstrap login runner is not configured; bootstrap resolution is pending") w
      else if is_blank prepared.account_with_proxy.account.credential_ref
      then refused s auth_bootstrap_failed (text "bootstrap credential reference is missing") w
      else after_login task prepared (s.login (login_input task prepared) w)
