-- ===== src/Repo/Tasks/Queue/Order.antt =====
-- The order of ClaimNextQueued, and the task that it takes
-- (internal/repository/postgres/task_postgres.go).
use mathlib.Core.Path.{subst}
use mathlib.Core.Bool.{false≢true}
use follower_bmad.Base.{
  ◌+◌, ◌<◌, ◌≤◌, ◌⊎◌, ◌≡◌, ◌≢◌, refl, sym, ap, ◌∙◌, inl, inr, Bool, true, false, not, ◌&&◌, Option,
  none, some, List, [], ◌∷◌, arith, All, Bool-cases, Option-cases, ltb,
}
use follower_bmad.Text.{Text, is_blank}
use follower_bmad.Errors.Result.{Result, ok, err}
use follower_bmad.Domain.Ids.{Uuid, Time}
use follower_bmad.Domain.Status.{is_queued, running}
use follower_bmad.Domain.Task.{Task}
use follower_bmad.Repo.Table.{update, find-In, In, Distinct, Distinct-update}
use follower_bmad.Repo.Tasks.{
  TaskRow, Store, row_key, find_row, scan_task, task_claimed, max_integer, written_lem,
  write_rows-rows,
}
use follower_bmad.Repo.Tasks.Queue.{
  is_before, earlier, next_task, mark_running, take_row, claim_next_queued,
}

-- A row that a claim may take: queued, and locked by no other transaction.
abbrev pub is_waiting : (Uuid → Bool) → TaskRow → Bool
is_waiting locked r = is_queued r.status && not (locked r.id)

-- The order of the queue: by creation and then by id.
abbrev pub Precedes : TaskRow → TaskRow → Type 0
Precedes r q = (r.created_at < q.created_at) ⊎ (r.created_at ≡ q.created_at) × (r.id ≤ q.id)

-- `r` comes first among the rows that a claim may take.
abbrev pub IsFirst : (Uuid → Bool) → TaskRow → List TaskRow → Type 0
IsFirst locked r = All (λ q. is_waiting locked q ≡ true → Precedes r q)

abbrev pub Selects : (Uuid → Bool) → List TaskRow → Option TaskRow → Type 0
Selects locked rows none = All (λ q. is_waiting locked q ≡ false) rows
Selects locked rows (some r) = In r rows × (is_waiting locked r ≡ true) × IsFirst locked r rows

Precedes-refl : (r : TaskRow) → Precedes r r
Precedes-refl r = inr (refl, omega arith)

is_before-Precedes : (r q : TaskRow) → is_before r q ≡ true → Precedes r q
unfolding is_before
is_before-Precedes r q h = ground arith

not_before-Precedes : (r q : TaskRow) → is_before r q ≡ false → Precedes q r
unfolding is_before
not_before-Precedes r q h = ground arith

Precedes-trans : (p q r : TaskRow) → Precedes p q → Precedes q r → Precedes p r
Precedes-trans p q r h k = ground arith

IsFirst-before :
    (locked : Uuid → Bool) (r q : TaskRow) (rows : List TaskRow)
    → Precedes r q
    → IsFirst locked q rows
    → IsFirst locked r rows
IsFirst-before locked r q [] h f = tt
IsFirst-before locked r q (x ∷ rows) h f =
    ((λ w. Precedes-trans r q x h (f.0 w)), IsFirst-before locked r q rows h f.1)

none-IsFirst :
    (locked : Uuid → Bool) (r : TaskRow) (rows : List TaskRow)
    → All (λ q. is_waiting locked q ≡ false) rows
    → IsFirst locked r rows
none-IsFirst locked r [] h = tt
none-IsFirst locked r (x ∷ rows) h = ((λ w. cc (h.0)), none-IsFirst locked r rows h.1)

earlier_first : (r q : TaskRow) → is_before r q ≡ true → earlier r (some q) ≡ r
earlier_first r q h = rw h

earlier_second : (r q : TaskRow) → is_before r q ≡ false → earlier r (some q) ≡ q
earlier_second r q h = rw h

earlier-Selects :
    (locked : Uuid → Bool) (r : TaskRow) (rows : List TaskRow) (o : Option TaskRow)
    → is_waiting locked r ≡ true
    → Selects locked rows o
    → Selects locked (r ∷ rows) (some (earlier r o))
earlier-Selects locked r rows none w h =
    (inl refl, w, ((λ _. Precedes-refl r), none-IsFirst locked r rows h))
earlier-Selects locked r rows (some q) w h = elim (Bool-cases (is_before r q)) [
  | inl before ↦
      subst (λ x. Selects locked (r ∷ rows) (some x)) (sym (earlier_first r q before))
        (
          inl refl,
          w,
          (
            (λ _. Precedes-refl r),
            IsFirst-before locked r q rows (is_before-Precedes r q before) h.2,
          ),
        )
  | inr after ↦
      subst (λ x. Selects locked (r ∷ rows) (some x)) (sym (earlier_second r q after))
        (inr h.0, h.1, ((λ _. not_before-Precedes r q after), h.2))
]

skip-Selects :
    (locked : Uuid → Bool) (r : TaskRow) (rows : List TaskRow) (o : Option TaskRow)
    → is_waiting locked r ≡ false
    → Selects locked rows o
    → Selects locked (r ∷ rows) o
skip-Selects locked r rows none idle h = (idle, h)
skip-Selects locked r rows (some q) idle h = (inr h.0, h.1, ((λ w. cc idle), h.2))

pub next_task-Selects :
    (locked : Uuid → Bool) (rows : List TaskRow) → Selects locked rows (next_task locked rows)
unfolding next_task
next_task-Selects locked [] = tt
next_task-Selects locked (r ∷ rows) = elim (Bool-cases (is_waiting locked r)) [
  | inl w ↦
      rw (w, next_task)
        (earlier-Selects locked r rows (next_task locked rows) w (next_task-Selects locked rows))
  | inr idle ↦
      rw (idle, next_task)
        (skip-Selects locked r rows (next_task locked rows) idle (next_task-Selects locked rows))
]

-- `q` is the row `r`, running, held by the claimer since now, with one attempt more.
pub record IsTaken (now : Time) (claimed_by : Text) (r q : TaskRow) : Type 0 where
  runs : q.status ≡ running
  claimer : q.claimed_by ≡ some claimed_by
  claimed : q.claimed_at ≡ some now
  started : q.started_at ≡ some now
  updated : q.updated_at ≡ now
  counted : q.attempt ≡ r.attempt + 1
  rest :
      record q {
        status = r.status;
        claimed_by = r.claimed_by;
        claimed_at = r.claimed_at;
        started_at = r.started_at;
        attempt = r.attempt;
        updated_at = r.updated_at;
      }
      ≡ r

-- What a claim does. It takes the first waiting row: that row is then running, held by the claimer
-- with both times set and one attempt more, and no other row has changed. It returns nothing only
-- if no row waits. It fails only if the first waiting row has the largest attempt, and writes
-- nothing then.
abbrev pub Takes : (Uuid → Bool) → Time → Text → Store → Result (Option Task) × Store → Type 0
Takes locked now claimed_by s (ok none, s') =
    (s' ≡ s) × All (λ q. is_waiting locked q ≡ false) s.rows
Takes locked now claimed_by s (ok (some t), s') =
    (r : TaskRow) × (find_row r.id s.rows ≡ some r)
    × (is_waiting locked r ≡ true)
    × IsFirst locked r s.rows
    × (t ≡ scan_task (mark_running now claimed_by r))
    × (find_row r.id s'.rows ≡ some (mark_running now claimed_by r))
    × ((j : Uuid) → j ≢ r.id → find_row j s'.rows ≡ find_row j s.rows)
    × IsTaken now claimed_by r (mark_running now claimed_by r)
Takes locked now claimed_by s (err e, s') =
    (s' ≡ s)
    × ((r : TaskRow) × In r s.rows
        × (is_waiting locked r ≡ true)
        × IsFirst locked r s.rows
        × (max_integer ≤ r.attempt))

take_first-Takes :
    (locked : Uuid → Bool) (now : Time) (claimed_by : Text) (s : Store) (r : TaskRow)
    → Distinct row_key s.rows
    → Selects locked s.rows (some r)
    → Takes locked now claimed_by s (take_row now claimed_by r s)
unfolding take_row
take_first-Takes locked now claimed_by s r d h = elim (Bool-cases (ltb r.attempt max_integer)) [
  | inr full ↦ rw (full, take_row) (refl, (r, h.0, h.1, h.2, ground arith))
  | inl room ↦
      let found = find-In row_key r s.rows d h.0 in
      let w = written_lem task_claimed r.id (mark_running now claimed_by) r s (λ _. refl) found in
      rw (room, take_row)
        (
          r,
          found,
          h.1,
          h.2,
          refl,
          w.0,
          w.1,
          record {
            runs = refl;
            claimer = refl;
            claimed = refl;
            started = refl;
            updated = refl;
            counted = refl;
            rest = refl;
          },
        )
]

-- ClaimNextQueued, for a claimer whose name is not blank and with no database fault, takes the
-- earliest queued task that no other transaction has locked, by creation and then by id: the task
-- is then running and held by the claimer since now, with one attempt more, and no other has
-- changed. It returns no task only if
-- none is queued and free, and fails, with nothing written, only if the earliest one's attempt is
-- already the largest integer.
pub claim_next_queued-Takes :
    (locked : Uuid → Bool) (now : Time) (claimed_by : Text) (s : Store)
    → Distinct row_key s.rows
    → is_blank claimed_by ≡ false
    → Takes locked now claimed_by s (claim_next_queued none locked now claimed_by s)
unfolding claim_next_queued
claim_next_queued-Takes locked now claimed_by s d named =
    elim (Option-cases (next_task locked s.rows)) [
      | inl e ↦
          rw (named, e, claim_next_queued)
            (refl, subst (Selects locked s.rows) e (next_task-Selects locked s.rows))
      | inr (r, e) ↦
          rw (named, e, claim_next_queued)
            (take_first-Takes locked now claimed_by s r d
              (subst (Selects locked s.rows) e (next_task-Selects locked s.rows)))
    ]

take_row-Distinct :
    (now : Time) (claimed_by : Text) (r : TaskRow) (s : Store)
    → Distinct row_key s.rows
    → Distinct row_key (take_row now claimed_by r s).1.rows
unfolding take_row
take_row-Distinct now claimed_by r s d =
    let f = mark_running now claimed_by in
    ground (
      arith,
      write_rows-rows task_claimed r.id (update row_key r.id f s.rows) s,
      Distinct-update row_key r.id f s.rows (λ _. refl) d,
    )

pub claim_next_queued-Distinct :
    (locked : Uuid → Bool) (now : Time) (claimed_by : Text) (s : Store)
    → Distinct row_key s.rows
    → Distinct row_key (claim_next_queued none locked now claimed_by s).1.rows
unfolding claim_next_queued
claim_next_queued-Distinct locked now claimed_by s d =
    elim (Option-cases (next_task locked s.rows)) [
      | inl e ↦ ground arith
      | inr (r, e) ↦ ground (arith, take_row-Distinct now claimed_by r s d)
    ]

not_waiting :
    (locked : Uuid → Bool) (r q : TaskRow)
    → some r ≡ some q
    → is_waiting locked q ≡ true
    → is_queued r.status ≡ true
not_waiting locked r q e w = ground arith

-- Of two claims in a row, whoever makes them and whatever else is locked, the second never gets
-- the task that the first one got.
pub claim_next_queued-differ :
    (locked locked' : Uuid → Bool) (now later : Time) (worker other : Text) (s s' s'' : Store)
    (t t' : Task)
    → Distinct row_key s.rows
    → is_blank worker ≡ false
    → is_blank other ≡ false
    → claim_next_queued none locked now worker s ≡ (ok (some t), s')
    → claim_next_queued none locked' later other s' ≡ (ok (some t'), s'')
    → t.id ≢ t'.id
unfolding scan_task
claim_next_queued-differ locked locked' now later worker other s s' s'' t t' d n n' e e' same =
    let c : Takes locked now worker s (ok (some t), s') =
      subst (Takes locked now worker s) e (claim_next_queued-Takes locked now worker s d n) in
    let d' : Distinct row_key s'.rows =
      subst (λ x. Distinct row_key x.1.rows) e (claim_next_queued-Distinct locked now worker s d) in
    let c' : Takes locked' later other s' (ok (some t'), s'') =
      subst (Takes locked' later other s') e'
        (claim_next_queued-Takes locked' later other s' d' n') in
    let one : c.0.id ≡ c'.0.id =
      sym (ap (λ (x : Task). x.id) c.4) ∙ same ∙ ap (λ (x : Task). x.id) c'.4 in
    false≢true (
      not_waiting locked' (mark_running now worker c.0) c'.0
        (sym c.5 ∙ ap (λ k. find_row k s'.rows) one ∙ c'.1) c'.2)
