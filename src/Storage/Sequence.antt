-- ===== src/Storage/Sequence.antt =====
-- The timestamps in the keys of objects: NextUniqueKeyTimestamp (internal/storage/object_keys.go).
use mathlib.Core.Path.{subst}
use follower_bmad.Base.{
  if_ind, ltb→lt, ◌+◌, ◌-◌, ◌%◌, ◌≤◌, ◌≡◌, refl, ap, ◌∙◌, false, Option, none, some, List, [], ◌∷◌,
  ◌++◌, map, ltb, if◌then◌else◌, All, arith, Bool-cases, inl, inr,
}
use follower_bmad.Text.{Text, trim_space, text_eq}
use follower_bmad.Text.Search.{text_eq_refl, text_eq→eq}
use follower_bmad.Domain.Ids.{Time}
use follower_bmad.Storage.Keys.{Names, normalize_login_key}

-- keyTimestampSequencer.last
abbrev pub Sequencer : Type 0
Sequencer = List (Text × Time)

unfoldable pub last_of : Text → Sequencer → Option Time
last_of key [] = none
last_of key (p ∷ last) = if text_eq p.0 key then some p.1 else last_of key last

-- sequenceKey
unfoldable pub sequence_key : Names → Text → Text → Text
sequence_key names owner kind =
    normalize_login_key names owner ++ (124 ∷ trim_space (map names.lower kind))

-- now.UTC().Truncate(time.Second)
abbrev pub whole_second : Time → Time
whole_second now = now - now % 1000000000

abbrev pub after_last : Time → Option Time → Time
after_last base none = base
after_last base (some last) = if ltb last base then base else last + 1000000000

-- NextUniqueKeyTimestamp
unfoldable pub next_unique_key_timestamp : Names → Text → Text → Time → Sequencer → Time × Sequencer
next_unique_key_timestamp names owner kind now last =
    let key = sequence_key names owner kind in
    let at = after_last (whole_second now) (last_of key last) in (at, (key, at) ∷ last)

-- A call: the owner, the kind of object and the clock.
pub record Request : Type 0 where
  pub owner : Text
  pub kind : Text
  pub now : Time

-- The calls of one process in their order, under the sequencer's mutex: the sequence key and the
-- timestamp of each.
unfoldable pub issue : Names → List Request → Sequencer → List (Text × Time)
unfolding next_unique_key_timestamp
issue names [] last = []
issue names (r ∷ rs) last =
    let next = next_unique_key_timestamp names r.owner r.kind r.now last in
    (sequence_key names r.owner r.kind, next.0) ∷ issue names rs next.1

-- A later timestamp of the key lies at least one second after.
abbrev pub Later : Text → Time → Text × Time → Type 0
Later key at p = p.0 ≡ key → at + 1000000000 ≤ p.1

abbrev pub IsWhole : Text × Time → Type 0
IsWhole p = p.1 % 1000000000 ≡ 0

abbrev pub IsIncreasing : List (Text × Time) → Type 0
IsIncreasing [] = Unit
IsIncreasing (p ∷ ps) = IsWhole p × All (Later p.0 p.1) ps × IsIncreasing ps

after_last-whole :
    (now : Time) (o : Option Time)
    → ((at : Time) → o ≡ some at → at % 1000000000 ≡ 0)
    → after_last (whole_second now) o % 1000000000 ≡ 0
after_last-whole now none h = omega arith
after_last-whole now (some last) h =
    if_ind (λ (t : Time). t % 1000000000 ≡ 0) (ltb last (whole_second now)) _ _ (λ _. omega arith)
      (λ _. omega (arith, h last refl))

after_last-le :
    (now : Time) (o : Option Time) (at : Time)
    → at % 1000000000 ≡ 0
    → o ≡ some at
    → at + 1000000000 ≤ after_last (whole_second now) o
after_last-le now none at w e = cc
after_last-le now (some last) at w e =
    let same : last ≡ at = cc in
    if_ind (λ (t : Time). at + 1000000000 ≤ t) (ltb last (whole_second now)) _ _
      (λ less. omega (arith, ltb→lt last (whole_second now) less, same)) (λ _. omega (arith, same))

last_of-whole :
    (key : Text) (last : Sequencer) (at : Time)
    → All IsWhole last
    → last_of key last ≡ some at
    → at % 1000000000 ≡ 0
unfolding last_of
last_of-whole key [] at h e = cc
last_of-whole key (p ∷ last) at h e = ground (arith, last_of-whole key last at)

last_of-hit : (key : Text) (at : Time) (last : Sequencer) → last_of key ((key, at) ∷ last) ≡ some at
unfolding last_of
last_of-hit key at last = rw (text_eq_refl key) refl

last_of-miss :
    (key other : Text) (at : Time) (last : Sequencer)
    → text_eq other key ≡ false
    → last_of key ((other, at) ∷ last) ≡ last_of key last
unfolding last_of
last_of-miss key other at last h = rw h refl

All-Later :
    (key : Text) (at t : Time) (ps : List (Text × Time))
    → at ≤ t
    → All (Later key t) ps
    → All (Later key at) ps
All-Later key at t [] h k = tt
All-Later key at t (p ∷ ps) h k = ((λ e. omega (arith, k.0 e)), All-Later key at t ps h k.1)

module _ (names : Names) where
  issue-Later :
      (rs : List Request) (last : Sequencer) (key : Text) (at : Time)
      → All IsWhole last
      → last_of key last ≡ some at
      → All (Later key at) (issue names rs last)
  unfolding issue
  issue-Later [] last key at w h = tt
  issue-Later (r ∷ rs) last key at w h =
      let k = sequence_key names r.owner r.kind in
      let t = after_last (whole_second r.now) (last_of k last) in
      let whole = after_last-whole r.now (last_of k last) (λ u e. last_of-whole k last u w e) in
      let grows : k ≡ key → at + 1000000000 ≤ t = λ e.
        after_last-le r.now (last_of k last) at (last_of-whole key last at w h)
          (ap (λ x. last_of x last) e ∙ h) in
      (
        grows,
        elim (Bool-cases (text_eq k key)) [
          | inl hit ↦
              let e = text_eq→eq k key hit in
              All-Later key at t _ (omega (arith, grows e)) (
                issue-Later rs ((k, t) ∷ last) key t (whole, w)
                  (subst (λ (x : Text). last_of x ((k, t) ∷ last) ≡ some t) e
                    (last_of-hit k t last)))
          | inr miss ↦
              issue-Later rs ((k, t) ∷ last) key at (whole, w) (last_of-miss key k t last miss ∙ h)
        ],
      )

  -- Over any calls, from earlier ones that were whole seconds, the timestamps are whole seconds
  -- and those of one owner and kind of object are at least one second apart, in their order.
  pub issue-IsIncreasing :
      (rs : List Request) (last : Sequencer) → All IsWhole last → IsIncreasing (issue names rs last)
  unfolding issue
  issue-IsIncreasing [] last w = tt
  issue-IsIncreasing (r ∷ rs) last w =
      let k = sequence_key names r.owner r.kind in
      let t = after_last (whole_second r.now) (last_of k last) in
      let whole = after_last-whole r.now (last_of k last) (λ u e. last_of-whole k last u w e) in
      (
        whole,
        issue-Later rs ((k, t) ∷ last) k t (whole, w) (last_of-hit k t last),
        issue-IsIncreasing rs ((k, t) ∷ last) (whole, w),
      )
