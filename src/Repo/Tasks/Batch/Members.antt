-- ===== src/Repo/Tasks/Batch/Members.antt =====
-- Rows of a list and the tests that they pass.
use mathlib.Core.Bool.{false≢true}
use follower_bmad.Base.{
  ◌≡◌, refl, sym, ap, ◌∙◌, ◌⊎◌, inl, inr, Bool, true, false, ◌||◌, List, [], ◌∷◌, ◌++◌, any, filter,
  arith, Bool-cases, or_false,
}
use follower_bmad.Repo.Table.{In}

module _ {A : Type 0} (p : A → Bool) where
  pub any-In : (xs : List A) (a : A) → any p xs ≡ false → In a xs → p a ≡ false
  any-In [] a h m = elim m [ ]
  any-In (x ∷ xs) a h (inl e) = ap p (sym e) ∙ (or_false _ _ h).0
  any-In (x ∷ xs) a h (inr m) = any-In xs a (or_false _ _ h).1 m

  pub any_witness : (xs : List A) → any p xs ≡ true → (a : A) × In a xs × (p a ≡ true)
  any_witness [] h = absurd (false≢true h)
  any_witness (x ∷ xs) h = elim (Bool-cases (p x)) [
    | inl hit ↦ (x, inl refl, hit)
    | inr miss ↦ let k = any_witness xs (rw miss at h) in (k.0, inr k.1, k.2)
  ]

  pub any-append : (xs ys : List A) → any p (xs ++ ys) ≡ (any p xs || any p ys)
  any-append [] ys = refl
  any-append (x ∷ xs) ys = ground (arith, any-append xs ys)

  pub filter-In : (xs : List A) (a : A) → In a (filter p xs) → In a xs × (p a ≡ true)
  filter-In [] a m = elim m [ ]
  filter-In (x ∷ xs) a m = elim (Bool-cases (p x)) [
    | inl kept ↦ elim (rw (kept, filter) at m) [
      | inl e ↦ (inl e, ap p (sym e) ∙ kept)
      | inr n ↦ let k = filter-In xs a n in (inr k.0, k.1)
    ]
    | inr dropped ↦ let k = filter-In xs a (rw (dropped, filter) at m) in (inr k.0, k.1)
  ]

  pub any_of-In : (xs : List A) (a : A) → In a xs → p a ≡ true → any p xs ≡ true
  any_of-In [] a m h = elim m [ ]
  any_of-In (x ∷ xs) a (inl e) h = rw (ap p e ∙ h) refl
  any_of-In (x ∷ xs) a (inr m) h = let rest = any_of-In xs a m h in ground arith

  pub In-filter : (xs : List A) (a : A) → In a xs → p a ≡ true → In a (filter p xs)
  In-filter [] a m h = elim m [ ]
  In-filter (x ∷ xs) a (inl e) h = rw (ap p e ∙ h, filter) (inl e)
  In-filter (x ∷ xs) a (inr m) h = elim (Bool-cases (p x)) [
    | inl kept ↦ rw (kept, filter) (inr (In-filter xs a m h))
    | inr dropped ↦ rw (dropped, filter) (In-filter xs a m h)
  ]

-- What no row of a list has, no row of a part of it has.
pub any-filter :
    {A : Type 0} (p q : A → Bool) (xs : List A) → any p xs ≡ false → any p (filter q xs) ≡ false
any-filter p q [] h = refl
any-filter p q (x ∷ xs) h =
    let f = or_false (p x) (any p xs) h in
    let rest = any-filter p q xs f.1 in
    elim (Bool-cases (q x)) [
      | inl kept ↦ rw (kept, filter, f.0) rest
      | inr dropped ↦ rw (dropped, filter) rest
    ]

pub In-append : {A : Type 0} (xs ys : List A) (a : A) → In a (xs ++ ys) → In a xs ⊎ In a ys
In-append [] ys a m = inr m
In-append (x ∷ xs) ys a (inl e) = inl (inl e)
In-append (x ∷ xs) ys a (inr m) = elim (In-append xs ys a m) [ inl k ↦ inl (inr k) | inr k ↦ inr k ]
