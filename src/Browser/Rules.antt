-- ===== src/Browser/Rules.antt =====
-- How the follow flow reads errors and addresses (internal/browser/oskelly_follow_rules.go, and
-- containsAny of bootstrap_login_flow.go). `lower` is strings.ToLower.
use follower_bmad.Base.{
  Bool, true, false, not, ◌&&◌, Option, none, some, List, [], ◌∷◌, String, if◌then◌else◌, any, drop,
  take, length, all,
}
use follower_bmad.Text.{
  Text, text, codes, is_empty, trim_space, has_prefix, contains, index, index_any,
}
use follower_bmad.Errors.Code.{
  ErrorCode, DomainError, new_domain_error, follow_target_profile_required, session_payload_invalid,
  auth_bootstrap_required, follow_action_unavailable, follow_target_unreachable,
  follow_navigation_failed,
}
use follower_bmad.Errors.Value.{
  GoError, domain_error, as_domain_error, is_context_error, error_text,
}
use follower_bmad.Domain.TargetProfile.{is_digit}

abbrev pub navigation_error : String → GoError
navigation_error message = domain_error (new_domain_error follow_navigation_failed (text message))

-- containsAny
unfoldable pub contains_any : Text → List Text → Bool
contains_any content markers = any (λ marker. contains content marker) markers

-- The codes that normalizePlaywrightFollowError lets through.
abbrev pub is_follow_code : ErrorCode → Bool
is_follow_code follow_target_profile_required = true
is_follow_code session_payload_invalid = true
is_follow_code follow_action_unavailable = true
is_follow_code follow_target_unreachable = true
is_follow_code follow_navigation_failed = true
is_follow_code auth_bootstrap_required = true
is_follow_code _ = false

abbrev auth_markers : List Text
auth_markers =
    codes "/login"
    ∷ codes "authentication required"
    ∷ codes "authorization required"
    ∷ codes "unauthorized"
    ∷ codes "forbidden"
    ∷ []

abbrev unreachable_markers : List Text
unreachable_markers =
    codes "net::err_name_not_resolved"
    ∷ codes "net::err_connection"
    ∷ codes "net::err_internet_disconnected"
    ∷ codes "status=404"
    ∷ codes "status=410"
    ∷ codes "not found"
    ∷ codes "target unreachable"
    ∷ []

abbrev unavailable_markers : List Text
unavailable_markers =
    codes "not visible"
    ∷ codes "not enabled"
    ∷ codes "element is disabled"
    ∷ codes "action unavailable"
    ∷ []

-- The error that the text of another error stands for.
unfoldable pub error_of_text : Text → DomainError
error_of_text lowered =
    if contains_any lowered auth_markers
    then new_domain_error auth_bootstrap_required
        (text "session authentication is required before follow flow")
    else if contains_any lowered unreachable_markers
    then new_domain_error follow_target_unreachable (text "target profile is unreachable")
    else if contains_any lowered unavailable_markers
    then new_domain_error follow_action_unavailable (text "follow action is unavailable")
    else new_domain_error follow_navigation_failed (text "playwright follow flow failed")

abbrev pub kept_follow_error : Option DomainError → DomainError → GoError
kept_follow_error none other = domain_error other
kept_follow_error (some d) other =
    if is_follow_code d.code then domain_error d else domain_error other

-- normalizePlaywrightFollowError
unfoldable pub normalize_follow_error : (Text → Text) → GoError → GoError
normalize_follow_error lower e =
    if is_context_error e
    then navigation_error "playwright follow flow timed out"
    else kept_follow_error (as_domain_error e) (error_of_text (lower (error_text e)))

-- ^/profile/[0-9]+$
abbrev is_profile_path : Text → Bool
is_profile_path path =
    let number = drop (length (codes "/profile/")) path in
    has_prefix path (codes "/profile/") && (not (is_empty number) && all is_digit number)

abbrev before_query : Text → Text
before_query path = elim (index_any path (codes "?#")) [ none ↦ path | some at ↦ take at path ]

abbrev after_host : Text → Bool
after_host normalized = elim (index normalized (codes "://oskelly.ru")) [
  | none ↦ false
  | some at ↦
      is_profile_path (before_query (drop (length (codes "://oskelly.ru")) (drop at normalized)))
]

-- isResolvedOskellyProfileURL
unfoldable pub is_resolved_profile_url : (Text → Text) → Text → Bool
is_resolved_profile_url lower url =
    let normalized = trim_space (lower url) in
    if is_empty normalized
    then false
    else if not (has_prefix normalized (codes "https://oskelly.ru"))
        && not (has_prefix normalized (codes "http://oskelly.ru"))
    then false
    else after_host normalized
