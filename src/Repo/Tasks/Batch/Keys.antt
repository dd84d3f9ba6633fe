-- ===== src/Repo/Tasks/Batch/Keys.antt =====
-- The ids that a batch inserts (internal/repository/postgres/task_postgres.go).
use mathlib.Core.Path.{subst}
use mathlib.Core.Option.{some-injective}
use follower_bmad.Base.{
  ◌≡◌, ◌≢◌, refl, sym, ap, ◌∙◌, inl, inr, Bool, false, none, List, [], ◌∷◌, filter, arith, All,
  Bool-cases, or_false, ◌==◌,
}
use follower_bmad.Domain.Ids.{Uuid}
use follower_bmad.Repo.Table.{In, Distinct, find, find-In}
use follower_bmad.Repo.Tasks.{TaskRow, find_row}
use follower_bmad.Repo.Tasks.Batch.{InputRow, has_id, collides}

abbrev pub input_key : InputRow → Uuid
input_key r = r.task_id

other_ids :
    (id : Uuid) (rows : List InputRow) → has_id id rows ≡ false → All (λ y. id ≢ input_key y) rows
other_ids id [] h = tt
other_ids id (r ∷ rows) h =
    let f = or_false (r.task_id == id) (has_id id rows) h in (ground arith, other_ids id rows f.1)

collides_head :
    (r : InputRow) (created : List InputRow) (rows : List TaskRow)
    → collides (r ∷ created) rows ≡ false
    → (find_row r.task_id rows ≡ none)
      × (has_id r.task_id created ≡ false)
      × (collides created rows ≡ false)
unfolding collides
collides_head r created rows h = (ground arith, ground arith, ground arith)

pub collides-Distinct :
    (created : List InputRow) (rows : List TaskRow)
    → collides created rows ≡ false
    → Distinct input_key created
collides-Distinct [] rows h = tt
collides-Distinct (r ∷ created) rows h =
    let f = collides_head r created rows h in
    (other_ids r.task_id created f.1, collides-Distinct created rows f.2)

pub collides-fresh :
    (created : List InputRow) (rows : List TaskRow) (a : InputRow)
    → collides created rows ≡ false
    → In a created
    → find_row a.task_id rows ≡ none
collides-fresh [] rows a h m = elim m [ ]
collides-fresh (r ∷ created) rows a h (inl e) =
    subst (λ (q : InputRow). find_row q.task_id rows ≡ none) e (collides_head r created rows h).0
collides-fresh (r ∷ created) rows a h (inr m) =
    collides-fresh created rows a (collides_head r created rows h).2 m

pub same_id_lem :
    (created : List InputRow) (a b : InputRow)
    → Distinct input_key created
    → In a created
    → In b created
    → a.task_id ≡ b.task_id
    → a ≡ b
same_id_lem created a b d m n e = some-injective a b (
    sym (find-In input_key a created d m)
    ∙ ap (λ k. find input_key k created) e
    ∙ find-In input_key b created d n)

-- A part of rows that do not collide.
module _ (p : InputRow → Bool) where
  has_id-filter :
      (id : Uuid) (rows : List InputRow)
      → has_id id rows ≡ false
      → has_id id (filter p rows) ≡ false
  has_id-filter id [] h = refl
  has_id-filter id (r ∷ rows) h =
      let f = or_false (r.task_id == id) (has_id id rows) h in
      let rest = has_id-filter id rows f.1 in
      elim (Bool-cases (p r)) [
        | inl kept ↦ rw (kept, filter, f.0) rest
        | inr dropped ↦ rw (dropped, filter) rest
      ]

  pub collides-filter :
      (created : List InputRow) (rows : List TaskRow)
      → collides created rows ≡ false
      → collides (filter p created) rows ≡ false
  unfolding collides
  collides-filter [] rows h = refl
  collides-filter (r ∷ created) rows h =
      let f = collides_head r created rows h in
      let rest = collides-filter created rows f.2 in
      elim (Bool-cases (p r)) [
        | inl kept ↦
            rw (kept, filter, collides, f.0, has_id-filter r.task_id created f.1, rest) refl
        | inr dropped ↦ rw (dropped, filter) rest
      ]
