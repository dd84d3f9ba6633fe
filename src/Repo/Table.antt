-- ===== src/Repo/Table.antt =====
-- A table with a numeric primary key, as the list of its rows.
use mathlib.Core.Path.{subst}
use mathlib.Core.Option.{some-injective}
use mathlib.Core.Option.{none-ne-some}
use follower_bmad.Base.{
  ==_refl, false, ◌≢◌, sym, ◌⊎◌, ==_iff, ℕ, ◌≡◌, refl, inl, inr, Bool, List, [], ◌∷◌, Option, none,
  some, arith, ◌==◌, if◌then◌else◌, All, Bool-cases,
}

All-Unit {ℓ} : {A : Type ℓ} (xs : List A) → All (λ _. Unit {0}) xs
All-Unit [] = tt
All-Unit (x ∷ xs) = (tt, All-Unit xs)

-- A row stands in a table.
abbrev pub In : {A : Type 0} → A → List A → Type 0
In a [] = ⊥
In a (x ∷ xs) = (x ≡ a) ⊎ In a xs

module _ {A : Type 0} (key : A → ℕ) where
  -- SELECT … WHERE id = k
  unfoldable pub find : ℕ → List A → Option A
  find k [] = none
  find k (x ∷ xs) = if key x == k then some x else find k xs

  -- UPDATE … WHERE id = k
  unfoldable pub update : ℕ → (A → A) → List A → List A
  update k f [] = []
  update k f (x ∷ xs) = (if key x == k then f x else x) ∷ update k f xs

  abbrev pub map_if : Bool → (A → A) → Option A → Option A
  map_if b f none = none
  map_if b f (some a) = some (if b then f a else a)

  pub find-update :
      (k j : ℕ) (f : A → A) (xs : List A)
      → ((x : A) → key (f x) ≡ key x)
      → find j (update k f xs) ≡ map_if (k == j) f (find j xs)
  unfolding find update
  find-update k j f [] h = refl
  find-update k j f (x ∷ xs) h = ground (arith, h x, find-update k j f xs h)

  -- The row that is found, if any, has the key and every property that all rows have.
  pub find_sound {κ} :
      (P : A → Type κ) (k : ℕ) (xs : List A) {a : A}
      → All P xs
      → find k xs ≡ some a
      → (key a ≡ k) × P a
  unfolding find
  find_sound P k [] h e = ground arith
  find_sound P k (x ∷ xs) h e = elim (Bool-cases (key x == k)) [
    | inl hit ↦
        let same = some-injective _ _ (rw (hit, find) at e) in
        (rw same at ((==_iff _ k).0 hit), subst P same h.0)
    | inr miss ↦ find_sound P k xs h.1 (rw (miss, find) at e)
  ]

  pub find_key : (k : ℕ) (xs : List A) {a : A} → find k xs ≡ some a → key a ≡ k
  find_key k xs e = (find_sound (λ _. Unit {0}) k xs (All-Unit xs) e).0

  -- An update keeps a property of every row where the new row has it.
  pub All-update {κ} :
      (P : A → Type κ) (k : ℕ) (f : A → A) (xs : List A)
      → ((x : A) → key x ≡ k → P x → P (f x))
      → All P xs
      → All P (update k f xs)
  unfolding update
  All-update P k f [] step h = tt
  All-update P k f (x ∷ xs) step h = elim (Bool-cases (key x == k)) [
    | inl hit ↦ rw (hit, update) (step x ((==_iff _ k).0 hit) h.0, All-update P k f xs step h.1)
    | inr miss ↦ rw (miss, update) (h.0, All-update P k f xs step h.1)
  ]

  -- The primary key: no two rows have the same id.
  abbrev pub Distinct : List A → Type 0
  Distinct [] = Unit
  Distinct (x ∷ xs) = All (λ y. key x ≢ key y) xs × Distinct xs

  pub find-none-All : (k : ℕ) (xs : List A) → find k xs ≡ none → All (λ y. k ≢ key y) xs
  unfolding find
  find-none-All k [] e = tt
  find-none-All k (x ∷ xs) e = elim (Bool-cases (key x == k)) [
    | inl hit ↦ absurd (none-ne-some _ (sym (rw (hit, find) at e)))
    | inr miss ↦ (ground arith, find-none-All k xs (rw (miss, find) at e))
  ]

  -- An update of a key that no row has writes nothing.
  pub update_absent :
      (k : ℕ) (f : A → A) (xs : List A) → All (λ y. k ≢ key y) xs → update k f xs ≡ xs
  unfolding update
  update_absent k f [] h = refl
  update_absent k f (x ∷ xs) h = ground (arith, h.0, update_absent k f xs h.1)

  -- With a primary key, a write of the row that is found needs the property of that row alone.
  pub All-update_found {κ} :
      (P : A → Type κ) (k : ℕ) (f : A → A) (xs : List A) (a : A)
      → Distinct xs
      → find k xs ≡ some a
      → P (f a)
      → All P xs
      → All P (update k f xs)
  unfolding find update
  All-update_found P k f [] a d e p h = tt
  All-update_found P k f (x ∷ xs) a d e p h = elim (Bool-cases (key x == k)) [
    | inl hit ↦
        let same = some-injective _ _ (rw (hit, find) at e) in
        let alone : All (λ y. k ≢ key y) xs =
          subst (λ n. All (λ y. n ≢ key y) xs) ((==_iff _ k).0 hit) d.0 in
        rw (hit, update_absent k f xs alone, update) (rw same p, h.1)
    | inr miss ↦
        rw (miss, update) (h.0, All-update_found P k f xs a d.1 (rw (miss, find) at e) p h.1)
  ]

  Distinct_head-update :
      (n k : ℕ) (f : A → A) (xs : List A)
      → ((x : A) → key (f x) ≡ key x)
      → All (λ y. n ≢ key y) xs
      → All (λ y. n ≢ key y) (update k f xs)
  Distinct_head-update n k f xs keeps h =
      All-update (λ y. n ≢ key y) k f xs (λ x _ p. rw (keeps x) p) h

  pub Distinct-update :
      (k : ℕ) (f : A → A) (xs : List A)
      → ((x : A) → key (f x) ≡ key x)
      → Distinct xs
      → Distinct (update k f xs)
  unfolding update
  Distinct-update k f [] keeps d = tt
  Distinct-update k f (x ∷ xs) keeps d = elim (Bool-cases (key x == k)) [
    | inl hit ↦
        rw (hit, update)
          (
            subst (λ n. All (λ y. n ≢ key y) (update k f xs)) (sym (keeps x))
                (Distinct_head-update (key x) k f xs keeps d.0),
            Distinct-update k f xs keeps d.1,
          )
    | inr miss ↦
        rw (miss, update)
          (Distinct_head-update (key x) k f xs keeps d.0, Distinct-update k f xs keeps d.1)
  ]

  pub All-In {κ} : (P : A → Type κ) (a : A) (xs : List A) → All P xs → In a xs → P a
  All-In P a [] h m = elim m [ ]
  All-In P a (x ∷ xs) h (inl e) = subst P e h.0
  All-In P a (x ∷ xs) h (inr m) = All-In P a xs h.1 m

  -- A row of the table is the one that its key finds.
  pub find-In : (a : A) (xs : List A) → Distinct xs → In a xs → find (key a) xs ≡ some a
  unfolding find
  find-In a [] d m = elim m [ ]
  find-In a (x ∷ xs) d (inl e) = rw (e, ==_refl (key a), find)
  find-In a (x ∷ xs) d (inr m) =
      let other : (key x == key a) ≡ false =
        ground (arith, All-In (λ y. key x ≢ key y) a xs d.0 m) in
      rw (other, find) (find-In a xs d.1 m)
