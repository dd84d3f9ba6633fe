-- ===== src/Storage/Keys.antt =====
-- The keys of objects (internal/storage/object_keys.go). An instant is in nanoseconds since 1970.
use follower_bmad.Base.{
  ℕ, zero, suc, ◌+◌, ◌-◌, ◌*◌, ◌/◌, ◌%◌, Bool, true, false, not, ◌&&◌, ◌||◌, Option, none, some,
  List, [], ◌∷◌, ◌++◌, map, reverse, filter, ltb, ◌==◌, if◌then◌else◌, length,
}
use follower_bmad.Text.{Text, codes, is_empty, is_blank, trim_space, text_eq, has_prefix, contains}
use follower_bmad.Domain.Ids.{Uuid, Time, is_nil}

-- What the packages use of Unicode's case table and of google/uuid: unicode.ToLower and String.
pub record Names : Type 0 where
  pub lower : ℕ → ℕ
  pub uuid_text : Uuid → Text

-- loginStripPattern: @ . - +
abbrev pub is_stripped : ℕ → Bool
is_stripped c = c == 64 || c == 46 || c == 45 || c == 43

-- normalizeLoginPart
unfoldable pub normalize_login_part : Text → Text
normalize_login_part value = filter (λ c. not (is_stripped c)) (trim_space value)

-- The text before the first character `separator`, and what follows it.
abbrev pub before_first : ℕ → Text → Text
before_first separator [] = []
before_first separator (c ∷ s) =
    let rest = before_first separator s in if c == separator then [] else c ∷ rest

abbrev pub after_first : ℕ → Text → Option Text
after_first separator [] = none
after_first separator (c ∷ s) =
    let rest = after_first separator s in if c == separator then some s else rest

abbrev or_unknown : Text → Text
or_unknown s = if is_empty s then codes "unknown" else s

abbrev pub join_login : Text → Option Text → Text
join_login local none = or_unknown local
join_login local (some domain) =
    if is_empty local
    then or_unknown domain
    else if is_empty domain
    then local
    else local ++ (95 ∷ domain)

abbrev pub part_of : Option Text → Option Text
part_of none = none
part_of (some t) = some (normalize_login_part t)

-- NormalizeOSKELLYLoginKey
unfoldable pub normalize_login_key : Names → Text → Text
unfolding normalize_login_part
normalize_login_key names login =
    let normalized = map names.lower (trim_space login) in
    if is_empty normalized
    then codes "unknown"
    else join_login (normalize_login_part (before_first 64 normalized))
        (part_of (after_first 64 normalized))

-- The segments of a path between its slashes.
abbrev pub prepend : ℕ → List Text → List Text
prepend c [] = (c ∷ []) ∷ []
prepend c (s ∷ ss) = (c ∷ s) ∷ ss

abbrev pub segments : Text → List Text
segments [] = [] ∷ []
segments (c ∷ s) = let rest = segments s in if c == 47 then [] ∷ rest else prepend c rest

abbrev is_parent : Text → Bool
is_parent s = text_eq s (codes "..")

-- A segment taken into the path so far, whose last segment comes first.
abbrev push_segment : Bool → List Text → Text → List Text
push_segment rooted [] s =
    if is_empty s || text_eq s (codes ".") then [] else if is_parent s && rooted then [] else s ∷ []
push_segment rooted (top ∷ out) s =
    if is_empty s || text_eq s (codes ".")
    then top ∷ out
    else if not (is_parent s) || is_parent top
    then s ∷ top ∷ out
    else out

abbrev push_segments : Bool → List Text → List Text → List Text
push_segments rooted out [] = out
push_segments rooted out (s ∷ ss) = push_segments rooted (push_segment rooted out s) ss

abbrev pub join_segments : List Text → Text
join_segments [] = []
join_segments (s ∷ []) = s
join_segments (s ∷ t ∷ ss) = s ++ (47 ∷ join_segments (t ∷ ss))

-- path.Clean
unfoldable pub clean_path : Text → Text
unfolding text_eq has_prefix
clean_path path =
    let rooted = has_prefix path (codes "/") in
    let out = join_segments (reverse (push_segments rooted [] (segments path))) in
    if rooted then 47 ∷ out else if is_empty out then codes "." else out

-- path.Join, of elements that are not all empty
unfoldable pub join_path : List Text → Text
join_path elements = clean_path (join_segments (filter (λ s. not (is_empty s)) elements))

abbrev second : ℕ
second = 1000000000

-- The number in `width` decimal digits.
abbrev pub padded : ℕ → ℕ → Text
padded zero n = []
padded (suc width) n = padded width (n / 10) ++ (48 + n % 10) ∷ []

-- The year, the month and the day of a number of days since 1970-01-01.
pub record Civil : Type 0 where
  pub year : ℕ
  pub month : ℕ
  pub day : ℕ

abbrev pub civil_of_days : ℕ → Civil
civil_of_days days =
    let z = days + 719468 in
    let era = z / 146097 in
    let day_of_era = z % 146097 in
    let year_of_era =
      (day_of_era - day_of_era / 1460 + day_of_era / 36524 - day_of_era / 146096) / 365 in
    let day_of_year = day_of_era - (365 * year_of_era + year_of_era / 4 - year_of_era / 100) in
    let shifted = (5 * day_of_year + 2) / 153 in
    let month = if ltb shifted 10 then shifted + 3 else shifted - 9 in
    record {
      year = year_of_era + era * 400 + (if ltb month 3 then 1 else 0);
      month = month;
      day = day_of_year - (153 * shifted + 2) / 5 + 1;
    }

-- formatKeyTimestamp, in years of four digits
unfoldable pub format_key_timestamp : Time → Text
format_key_timestamp at =
    let seconds = at / second in
    let date = civil_of_days (seconds / 86400) in
    let clock = seconds % 86400 in
    padded 4 date.year
    ++ (45 ∷ padded 2 date.month
        ++ (45 ∷ padded 2 date.day
            ++ (45 ∷ padded 2 (clock / 3600)
                ++ (padded 2 (clock % 3600 / 60) ++ padded 2 (clock % 60)))))

-- SessionPayloadPrefix
unfoldable pub session_payload_prefix : Names → Text → Text
session_payload_prefix names owner = normalize_login_key names owner ++ codes "/"

-- SessionPayloadObjectKey
unfoldable pub session_payload_object_key : Names → Text → Text
session_payload_object_key names owner =
    join_path (normalize_login_key names owner ∷ codes "latest.json" ∷ [])

abbrev dated_key : Names → Text → Text → Time → Text → Text
dated_key names owner folder at extension =
    join_path
      (normalize_login_key names owner ∷ folder ∷ (format_key_timestamp at ++ extension) ∷ [])

-- SessionHistoryObjectKey
unfoldable pub session_history_object_key : Names → Text → Time → Text
session_history_object_key names owner at =
    dated_key names owner (codes "history") at (codes ".json")

-- ScreenshotObjectKey
unfoldable pub screenshot_object_key : Names → Text → Time → Text
screenshot_object_key names owner at = dated_key names owner (codes "screenshot") at (codes ".png")

-- ExecutionArtifactObjectKey
unfoldable pub execution_artifact_object_key : Names → Text → Time → Text
execution_artifact_object_key names owner at =
    dated_key names owner (codes "artifacts") at (codes ".json")

-- ResolveObjectOwnerKey
unfoldable pub resolve_object_owner_key : Names → Text → Uuid → Text
resolve_object_owner_key names login id =
    if not (is_blank login)
    then login
    else if is_nil id
    then codes "unknown"
    else names.uuid_text id

-- strings.HasSuffix(s, suffix)
unfoldable pub has_suffix : Text → Text → Bool
unfolding has_prefix
has_suffix s suffix = has_prefix (reverse s) (reverse suffix)

-- strings.Count(s, "/")
abbrev pub slashes : Text → ℕ
slashes s = length (filter (λ c. c == 47) s)

-- normalized == "." || HasPrefix(normalized, "/") || HasPrefix(normalized, "../")
abbrev is_outside : Text → Bool
is_outside path =
    text_eq path (codes ".") || has_prefix path (codes "/") || has_prefix path (codes "../")

-- IsSessionObjectOwnedByAccount
unfoldable pub is_session_object_owned : Names → Uuid → Text → Bool
unfolding text_eq has_prefix
is_session_object_owned names id key =
    let path = clean_path (trim_space key) in
    if is_outside path
    then false
    else has_prefix path (session_payload_prefix names (names.uuid_text id))
      || (has_suffix path (codes "/latest.json") && slashes path == 1)

-- IsTaskArtifactOwnedByAccount
unfoldable pub is_task_artifact_owned : Names → Uuid → Text → Bool
unfolding text_eq has_prefix contains
is_task_artifact_owned names id key =
    let path = clean_path (trim_space key) in
    if is_outside path
    then false
    else if has_prefix path (session_payload_prefix names (names.uuid_text id))
    then true
    else if ltb (slashes path) 2
    then false
    else contains path (codes "/screenshot/")
      || contains path (codes "/artifacts/")
      || contains path (codes "/history/")
