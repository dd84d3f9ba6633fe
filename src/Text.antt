-- ===== src/Text.antt =====
-- Go strings, and the functions of package strings that the program calls. A text is the list of
-- its code points: valid UTF-8, read rune by rune, as strings.TrimSpace reads it.
pub mod Trim
pub mod Search
use Prim.Native.Char.{code}
use follower_bmad.Base.{
  ℕ, ◌+◌, String, Bool, true, false, ◌&&◌, ◌||◌, Option, none, some, List, [], ◌∷◌, reverse, ltb,
  leb, ◌==◌, if◌then◌else◌, drop, length, suc, any,
}

abbrev pub Text : Type 0
Text = List ℕ

abbrev pub codes : String → Text
codes String.[] = []
codes (String.◌∷◌ c s) = code c ∷ codes s

-- A literal of the source. It stays shut where nothing reads its characters.
unfoldable pub text : String → Text
text s = codes s

-- unicode.IsSpace
unfoldable pub is_space : ℕ → Bool
is_space c =
    (leb 9 c && leb c 13)
    || c == 32
    || c == 0x85
    || c == 0xa0
    || c == 0x1680
    || (leb 0x2000 c && leb c 0x200a)
    || c == 0x2028
    || c == 0x2029
    || c == 0x202f
    || c == 0x205f
    || c == 0x3000

unfoldable pub trim_left : Text → Text
trim_left [] = []
trim_left (c ∷ s) = let rest = trim_left s in if is_space c then rest else c ∷ s

-- strings.TrimSpace
unfoldable pub trim_space : Text → Text
unfolding trim_left
trim_space s = reverse (trim_left (reverse (trim_left s)))

abbrev pub is_empty : Text → Bool
is_empty [] = true
is_empty (_ ∷ _) = false

-- strings.TrimSpace(s) == ""
unfoldable pub is_blank : Text → Bool
unfolding trim_space
is_blank s = is_empty (trim_space s)

-- a == b
unfoldable pub text_eq : Text → Text → Bool
text_eq [] [] = true
text_eq (c ∷ s) (d ∷ t) = c == d && text_eq s t
text_eq _ _ = false

-- strings.HasPrefix(s, prefix)
unfoldable pub has_prefix : Text → Text → Bool
has_prefix s [] = true
has_prefix [] (d ∷ p) = false
has_prefix (c ∷ s) (d ∷ p) = c == d && has_prefix s p

abbrev pub suc_index : Option ℕ → Option ℕ
suc_index none = none
suc_index (some i) = some (suc i)

-- strings.Index(s, substr), with `none` for -1. A substring that is not empty is searched.
unfoldable pub index : Text → Text → Option ℕ
unfolding has_prefix
index [] p = if is_empty p then some 0 else none
index (c ∷ s) p = let rest = index s p in if has_prefix (c ∷ s) p then some 0 else suc_index rest

-- strings.Contains(s, substr)
unfoldable pub contains : Text → Text → Bool
unfolding index
contains s p = elim (index s p) [ none ↦ false | some _ ↦ true ]

-- strings.IndexAny(s, chars)
unfoldable pub index_any : Text → Text → Option ℕ
index_any [] chars = none
index_any (c ∷ s) chars =
    let rest = index_any s chars in if any (λ d. c == d) chars then some 0 else suc_index rest
