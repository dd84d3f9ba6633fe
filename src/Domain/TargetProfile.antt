-- ===== src/Domain/TargetProfile.antt =====
-- The form of a target profile's URL (internal/domain/target_profile.go).
use follower_bmad.Base.{
  ℕ, ◌≡◌, refl, ap, sym, ◌∙◌, Bool, true, false, not, ◌&&◌, none, [], ◌∷◌, ◌++◌, leb, all, ◌↔◌,
  drop-length_append, length, drop, arith,
}
use follower_bmad.Text.{Text, codes, is_empty, trim_space, has_prefix}
use follower_bmad.Text.Trim.{trim_space_idem}
use follower_bmad.Errors.Code.{follow_target_profile_required}
use follower_bmad.Errors.Result.{Result, ok, unless_error}
use follower_bmad.Domain.Ids.{reject}

-- [0-9]
unfoldable pub is_digit : ℕ → Bool
is_digit c = leb 48 c && leb c 57

-- The literal part of OskellyTargetProfileURLPattern.
unfoldable pub profile_prefix : Text
profile_prefix = codes "https://oskelly.ru/profile/"

-- [0-9]+$
abbrev is_number : Text → Bool
is_number s = not (is_empty s) && all is_digit s

-- oskellyTargetProfileURLMatcher.MatchString
unfoldable pub matches : Text → Bool
matches s = has_prefix s profile_prefix && is_number (drop (length profile_prefix) s)

-- NormalizeOskellyTargetProfileURL
unfoldable pub normalize_target : Text → Result Text
normalize_target target =
    let normalized = trim_space target in
    unless_error
      (reject (is_empty normalized) follow_target_profile_required
        "target_profile must not be empty"
        (reject (not (matches normalized)) follow_target_profile_required
          "target_profile must match https://oskelly.ru/profile/<NUM>" none))
      (ok normalized)

prefix_split : (s p : Text) → has_prefix s p ≡ true → s ≡ p ++ drop (length p) s
unfolding has_prefix
prefix_split s [] h = refl
prefix_split [] (d ∷ p) h = ground arith
prefix_split (c ∷ s) (d ∷ p) h = ground (arith, prefix_split s p)

-- A profile's address: the prefix and a number.
pub record IsProfile (url : Text) : Type 0 where
  pub number : Text
  pub has_digits : is_number number ≡ true
  pub split : url ≡ profile_prefix ++ number

matches-IsProfile : (s : Text) → matches s ≡ true → IsProfile s
unfolding matches
matches-IsProfile s h = record {
  number = drop (length profile_prefix) s;
  has_digits = ground arith;
  split = prefix_split s profile_prefix (ground arith);
}

accepted :
    (target url : Text)
    → normalize_target target ≡ ok url
    → (url ≡ trim_space target) × (is_empty url ≡ false) × (matches url ≡ true)
unfolding normalize_target
accepted target url h = ground arith

accept :
    (target url : Text)
    → url ≡ trim_space target
    → is_empty url ≡ false
    → matches url ≡ true
    → normalize_target target ≡ ok url
unfolding normalize_target
accept target url e a b = rw (sym e) (ground arith)

has_prefix-append : (p s : Text) → has_prefix (p ++ s) p ≡ true
unfolding has_prefix
has_prefix-append [] s = refl
has_prefix-append (c ∷ p) s = ground (arith, has_prefix-append p s)

IsProfile-matches : (s : Text) → IsProfile s → matches s ≡ true
unfolding matches
IsProfile-matches s p =
    rw
      (
        p.split,
        has_prefix-append profile_prefix p.number,
        drop-length_append profile_prefix p.number,
      )
      p.has_digits

IsProfile-not_empty : (s : Text) → IsProfile s → is_empty s ≡ false
unfolding profile_prefix
IsProfile-not_empty s p = rw p.split refl

-- A target is accepted, with a URL for it, exactly if that is the target without the space around
-- it and is the address of a profile: the prefix followed by digits only, at least one.
pub normalize_target_iff :
    (target url : Text)
    → (normalize_target target ≡ ok url) ↔ ((url ≡ trim_space target) × IsProfile url)
normalize_target_iff target url = (
  λ h. let a = accepted target url h in (a.0, matches-IsProfile url a.2),
  λ v. accept target url v.0 (IsProfile-not_empty url v.1) (IsProfile-matches url v.1),
)

-- The URL that a target is accepted with is accepted in its turn, with itself.
pub normalize_target_idem :
    (target url : Text) → normalize_target target ≡ ok url → normalize_target url ≡ ok url
normalize_target_idem target url h =
    let a = accepted target url h in
    accept url url (a.0 ∙ sym (trim_space_idem target) ∙ ap trim_space (sym a.0)) a.1 a.2
