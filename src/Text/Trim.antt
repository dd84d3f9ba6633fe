-- ===== src/Text/Trim.antt =====
-- TrimSpace and blank texts.
use mathlib.Core.List.{reverse-cons, reverse-append, reverse-reverse}
use follower_bmad.Base.{
  ◌==◌, ℕ, Bool, true, false, not, not-true, ◌≡◌, refl, ◌∙◌, ◌&&◌, [], ◌∷◌, ◌++◌, reverse, arith,
  all,
}
use follower_bmad.Text.{is_blank, is_empty, Text, is_space, trim_left, trim_space}

pub all-append : (s t : Text) → all is_space (s ++ t) ≡ (all is_space s && all is_space t)
all-append [] t = refl
all-append (c ∷ s) t = ground (arith, all-append s t)

pub all-reverse : (s : Text) → all is_space (reverse s) ≡ all is_space s
all-reverse [] = refl
all-reverse (c ∷ s) =
    rw (reverse-cons c s, all-append (reverse s) (c ∷ []), all-reverse s) (ground arith)

trim_left_blank : (s : Text) → all is_space s ≡ true → trim_left s ≡ []
unfolding trim_left
trim_left_blank [] h = refl
trim_left_blank (c ∷ s) h = ground (arith, trim_left_blank s)

all-trim_left : (s : Text) → all is_space (trim_left s) ≡ all is_space s
unfolding trim_left
all-trim_left [] = refl
all-trim_left (c ∷ s) = ground (arith, all-trim_left s)

pub all-trim_space : (s : Text) → all is_space (trim_space s) ≡ all is_space s
unfolding trim_space
all-trim_space s =
    all-reverse (trim_left (reverse (trim_left s)))
    ∙ all-trim_left (reverse (trim_left s))
    ∙ all-reverse (trim_left s)
    ∙ all-trim_left s

-- Does a text not begin with a space.
abbrev pub is_solid : Text → Bool
is_solid [] = true
is_solid (c ∷ s) = not (is_space c)

trim_left_solid : (s : Text) → is_solid s ≡ true → trim_left s ≡ s
unfolding trim_left
trim_left_solid [] h = refl
trim_left_solid (c ∷ s) h = ground arith

solid-trim_left : (s : Text) → is_solid (trim_left s) ≡ true
unfolding trim_left
solid-trim_left [] = refl
solid-trim_left (c ∷ s) = ground (arith, solid-trim_left s)

trim_left-snoc :
    (s : Text) (c : ℕ) → is_space c ≡ false → trim_left (s ++ c ∷ []) ≡ trim_left s ++ c ∷ []
unfolding trim_left
trim_left-snoc [] c h = ground arith
trim_left-snoc (d ∷ s) c h = ground (arith, trim_left-snoc s c h)

solid-trim_right :
    (s : Text) → is_solid s ≡ true → is_solid (reverse (trim_left (reverse s))) ≡ true
unfolding trim_left
solid-trim_right [] h = refl
solid-trim_right (c ∷ s) h =
    rw
      (
        reverse-cons c s,
        trim_left-snoc (reverse s) c (not-true _ h),
        reverse-append (trim_left (reverse s)) (c ∷ []),
      )
      h

-- A text with no space at either end is left alone.
pub trim_space_solid :
    (s : Text) → is_solid s ≡ true → is_solid (reverse s) ≡ true → trim_space s ≡ s
unfolding trim_space
trim_space_solid s front back =
    rw (trim_left_solid s front, trim_left_solid (reverse s) back) (reverse-reverse s)

pub trim_space_ends :
    (s : Text) → (is_solid (trim_space s) ≡ true) × (is_solid (reverse (trim_space s)) ≡ true)
unfolding trim_space
trim_space_ends s = (
  solid-trim_right (trim_left s) (solid-trim_left s),
  rw reverse-reverse (solid-trim_left (reverse (trim_left s))),
)

pub trim_space_idem : (s : Text) → trim_space (trim_space s) ≡ trim_space s
trim_space_idem s = trim_space_solid (trim_space s) (trim_space_ends s).0 (trim_space_ends s).1

-- strings.TrimSpace(s) == "" says that all of s is space.
pub is_blank-all : (s : Text) → is_blank s ≡ all is_space s
unfolding is_blank
is_blank-all s = empty_all (trim_space s) (trim_space_ends s).0 ∙ all-trim_space s
  where
    empty_all : (t : Text) → is_solid t ≡ true → is_empty t ≡ all is_space t
    empty_all [] h = refl
    empty_all (c ∷ t) h = ground arith

all_spaces : (s : Text) → all (λ c. c == 32) s ≡ true → all is_space s ≡ true
unfolding is_space
all_spaces [] h = refl
all_spaces (c ∷ s) h = ground (arith, all_spaces s)

-- What Go finds not blank, SQL's BTRIM, which trims spaces only, does not find blank either.
pub sql_blank_lem : (s : Text) → is_blank s ≡ false → all (λ c. c == 32) s ≡ false
sql_blank_lem s h = ground (arith, all_spaces s, is_blank-all s)

pub empty-is_blank : (t : Text) → is_empty t ≡ true → is_blank t ≡ true
unfolding is_blank trim_space
empty-is_blank [] h = refl
empty-is_blank (c ∷ t) h = cc
