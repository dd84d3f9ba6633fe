-- ===== src/Repo/Tasks/Queue/Drain.antt =====
-- ClaimNextQueued called again and again (internal/repository/postgres/task_postgres.go).
use mathlib.Core.Path.{subst}
use mathlib.Core.Bool.{false≢true}
use follower_bmad.Base.{
  ℕ, zero, suc, ◌<◌, ◌≤◌, ◌≡◌, ◌≢◌, ◌⊎◌, refl, sym, ap, inl, inr, Bool, true, false, none, some,
  List, [], ◌∷◌, arith, All, Bool-cases, Option-cases, if◌then◌else◌, ◌==◌, ==_refl, ltb,
}
use follower_bmad.Text.{Text, is_blank}
use follower_bmad.Domain.Ids.{Uuid, Time}
use follower_bmad.Repo.Table.{update, In, Distinct, All-In}
use follower_bmad.Repo.Tasks.{TaskRow, Store, row_key, task_claimed, max_integer, write_rows-rows}
use follower_bmad.Repo.Tasks.Queue.{next_task, mark_running, take_row, claim_next_queued}
use follower_bmad.Repo.Tasks.Queue.Order.{
  is_waiting, Selects, next_task-Selects, claim_next_queued-Distinct,
}

module _ (locked : Uuid → Bool) where
  -- How many rows a claim may take.
  unfoldable pub waiting_count : List TaskRow → ℕ
  waiting_count [] = 0
  waiting_count (r ∷ rows) =
      let rest = waiting_count rows in if is_waiting locked r then suc rest else rest

  -- Claims one after the other, the n-th from the end at `clock n`.
  unfoldable pub claims : (ℕ → Time) → Text → ℕ → Store → Store
  claims clock worker zero s = s
  claims clock worker (suc n) s =
      claims clock worker n (claim_next_queued none locked (clock n) worker s).1

  -- The attempts of a waiting task can be counted up.
  abbrev pub HasRoom : List TaskRow → Type 0
  HasRoom = All (λ r. is_waiting locked r ≡ true → r.attempt < max_integer)

  abbrev pub NoneWaits : List TaskRow → Type 0
  NoneWaits = All (λ r. is_waiting locked r ≡ false)

  not_empty : (n : ℕ) → ¬ (suc n ≤ 0)
  not_empty n h = omega (arith, h)

  count_zero : (rows : List TaskRow) → waiting_count rows ≤ 0 → NoneWaits rows
  unfolding waiting_count
  count_zero [] h = tt
  count_zero (r ∷ rows) h = elim (Bool-cases (is_waiting locked r)) [
    | inl w ↦ absurd (not_empty (waiting_count rows) (rw (w, waiting_count) at h))
    | inr idle ↦ (idle, count_zero rows (rw (idle, waiting_count) at h))
  ]

  none_count : (rows : List TaskRow) (n : ℕ) → NoneWaits rows → waiting_count rows ≤ n
  unfolding waiting_count
  none_count [] n h = omega arith
  none_count (r ∷ rows) n h = rw h.0 (none_count rows n h.1)

  update_absent :
      (k : Uuid) (f : TaskRow → TaskRow) (rows : List TaskRow)
      → All (λ y. k ≢ row_key y) rows
      → update row_key k f rows ≡ rows
  unfolding update
  update_absent k f [] h = refl
  update_absent k f (x ∷ rows) h =
      let other : (row_key x == k) ≡ false = ground (arith, h.0) in
      rw (other, update_absent k f rows h.1) refl

  module _ (now : Time) (worker : Text) where
    -- A row that is taken waits no longer; no other row changes.
    count-update :
        (r : TaskRow) (rows : List TaskRow)
        → Distinct row_key rows
        → In r rows
        → is_waiting locked r ≡ true
        → waiting_count rows
          ≡ suc (waiting_count (update row_key r.id (mark_running now worker) rows))
    unfolding waiting_count update
    count-update r [] d m w = elim m [ ]
    count-update r (x ∷ rows) d (inl e) w =
        rw
          (
            e,
            w,
            ==_refl r.id,
            update_absent r.id (mark_running now worker) rows
                (subst (λ k. All (λ y. k ≢ row_key y) rows) (ap row_key e) d.0),
          )
          refl
    count-update r (x ∷ rows) d (inr m) w =
        let other : (row_key x == row_key r) ≡ false =
          ground (arith, All-In row_key (λ y. row_key x ≢ row_key y) r rows d.0 m) in
        let rest = count-update r rows d.1 m w in
        elim (Bool-cases (is_waiting locked x)) [
          | inl k ↦ rw (other, k, rest) refl
          | inr k ↦ rw (other, k, rest) refl
        ]

    room-update :
        (k : Uuid) (rows : List TaskRow)
        → HasRoom rows
        → HasRoom (update row_key k (mark_running now worker) rows)
    unfolding update
    room-update k [] h = tt
    room-update k (x ∷ rows) h = elim (Bool-cases (row_key x == k)) [
      | inl hit ↦ rw hit ((λ w. absurd (false≢true w)), room-update k rows h.1)
      | inr miss ↦ rw miss (h.0, room-update k rows h.1)
    ]

    -- A claim finds nothing to take, or leaves one waiting row less.
    abbrev Advances : Store → Store → Type 0
    Advances s s' =
        NoneWaits s.rows × (s' ≡ s)
        ⊎ (waiting_count s.rows ≡ suc (waiting_count s'.rows)) × HasRoom s'.rows

    take-Advances :
        (r : TaskRow) (s : Store)
        → Distinct row_key s.rows
        → HasRoom s.rows
        → Selects locked s.rows (some r)
        → Advances s (take_row now worker r s).1
    unfolding take_row
    take-Advances r s d h found =
        let room : ltb r.attempt max_integer ≡ true = ground (
          arith,
          All-In row_key (λ q. is_waiting locked q ≡ true → q.attempt < max_integer) r s.rows h
              found.0,
        ) in
        let rows = update row_key r.id (mark_running now worker) s.rows in
        let e = write_rows-rows task_claimed r.id rows s in
        rw (room, take_row)
          (inr (
            subst (λ xs. waiting_count s.rows ≡ suc (waiting_count xs)) (sym e)
                (count-update r s.rows d found.0 found.1),
            subst HasRoom (sym e) (room-update r.id s.rows h),
          ))

    claim-Advances :
        (s : Store)
        → Distinct row_key s.rows
        → HasRoom s.rows
        → is_blank worker ≡ false
        → Advances s (claim_next_queued none locked now worker s).1
    unfolding claim_next_queued
    claim-Advances s d h named = elim (Option-cases (next_task locked s.rows)) [
      | inl e ↦
          rw (named, e, claim_next_queued)
            (inl (subst (Selects locked s.rows) e (next_task-Selects locked s.rows), refl))
      | inr (r, e) ↦
          rw (named, e, claim_next_queued)
            (take-Advances r s d h
              (subst (Selects locked s.rows) e (next_task-Selects locked s.rows)))
    ]

  -- Claims by a worker whose name is not blank, with no database fault and nothing queued in
  -- between, empty the queue: after as many claims as there are tasks that wait, or more, no task
  -- waits, that is, every queued task is one that another transaction has locked. The attempts of
  -- waiting tasks must be below the largest INTEGER; with one that is not, every claim fails.
  pub claims-drain :
      (clock : ℕ → Time) (worker : Text) (n : ℕ) (s : Store)
      → Distinct row_key s.rows
      → HasRoom s.rows
      → is_blank worker ≡ false
      → waiting_count s.rows ≤ n
      → NoneWaits (claims clock worker n s).rows
  unfolding claims
  claims-drain clock worker zero s d h named few = count_zero s.rows few
  claims-drain clock worker (suc n) s d h named few =
      let next = (claim_next_queued none locked (clock n) worker s).1 in
      let d' = claim_next_queued-Distinct locked (clock n) worker s d in
      elim (claim-Advances (clock n) worker s d h named) [
        | inl idle ↦
            claims-drain clock worker n next d'
              (subst (λ (x : Store). HasRoom x.rows) (sym idle.1) h) named
              (subst (λ (x : Store). waiting_count x.rows ≤ n) (sym idle.1)
                (none_count s.rows n idle.0))
        | inr step ↦ claims-drain clock worker n next d' step.1 named (omega (arith, step.0, few))
      ]
