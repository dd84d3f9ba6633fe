-- ===== src/Repo/Tasks/Life/Calls.antt =====
-- What each call of task_postgres.go does to the rows that are there.
use mathlib.Core.Path.{subst}
use mathlib.Core.Option.{none-ne-some}
use follower_bmad.Base.{
  ℕ, List, [], ◌∷◌, ◌||◌, or_false, ◌≡◌, refl, sym, ap, ◌∙◌, inl, inr, Bool, true, not, ◌&&◌,
  Option, none, some, arith, Bool-cases, Option-cases, ◌==◌, ==_iff,
}
use follower_bmad.Text.{Text, is_blank}
use follower_bmad.Errors.Code.{ErrorCode}
use follower_bmad.Errors.Value.{GoError}
use follower_bmad.Errors.Result.{Result, ok, err}
use follower_bmad.Domain.Ids.{Uuid, Time, is_nil}
use follower_bmad.Domain.Status.{
  TaskStatus, running, is_queued, can_transition_to, validate_task_completion,
}
use follower_bmad.Domain.Status.Graph.{validation_iff}
use follower_bmad.Domain.Admin.{AdminAction, AdminResult, allowed, denied, evaluate, retry_action}
use follower_bmad.Domain.Admin.Laws.{Admin, AdminSpec, evaluate_lem}
use follower_bmad.Domain.Task.{Task, validate}
use follower_bmad.Repo.Table.{Distinct, find, update, find-update}
use follower_bmad.Repo.Tasks.{TaskRow, Store, row_key, find_row, nullable_string}
use follower_bmad.Repo.Tasks.Queue.{
  queued_row, insert_row, scanned, enqueue, with_defaults, nullable_source, to_ℕ, mark_running,
  claim_next_queued,
}
use follower_bmad.Repo.Tasks.Queue.Order.{Takes, claim_next_queued-Takes}
use follower_bmad.Repo.Tasks.Complete.{
  Interleaving, complete, mark_finished, final_code, final_reason,
}
use follower_bmad.Repo.Tasks.Complete.Laws.{complete-Completes}
use follower_bmad.Repo.Tasks.Complete.Promise.{Completes}
use follower_bmad.Repo.Tasks.Admin.{
  apply_admin_transition, apply_evaluated, mark_transitioned, cancel_reason, retry_from_task,
  retry_evaluated, retried,
}
use follower_bmad.Repo.Tasks.Batch.{
  InputRow, ValidatedRow, check_rows, input_rows, collides, has_blank, insertable, payload_unique,
  write_batch, enqueue_batch,
}
use follower_bmad.Repo.Tasks.Consistent.Batches.{inserted-found}
use follower_bmad.Repo.Tasks.Life.{
  stays, by_worker, by_operator, Follows, Follows-refl, Keeps, Keeps-refl, Keeps-trans,
  written-Keeps,
}

running-Follows :
    (now : Time) (claimed_by : Text) (r : TaskRow)
    → is_queued r.status ≡ true
    → Follows r (mark_running now claimed_by r)
running-Follows now claimed_by r q = record {
  same_id = refl;
  same_source = refl;
  same_account = refl;
  same_target = refl;
  same_creation = refl;
  counted = omega arith;
  life = by_worker stays (start r.status q);
}
  where
    start : (s : TaskStatus) → is_queued s ≡ true → can_transition_to s running ≡ true
    start s q = unfold can_transition_to in ground arith

finished-Follows :
    (now : Time) (final : TaskStatus) (code : ErrorCode) (reason : Text) (r : TaskRow)
    → r.status ≡ running
    → validate_task_completion running final code reason ≡ none
    → Follows r (mark_finished now final (final_code final code) (final_reason final reason) r)
finished-Follows now final code reason r run v = record {
  same_id = refl;
  same_source = refl;
  same_account = refl;
  same_target = refl;
  same_creation = refl;
  counted = omega arith;
  life = by_worker stays (subst (λ s. can_transition_to s final ≡ true) (sym run) accepted);
}
  where
    accepted : can_transition_to running final ≡ true
    accepted =
        unfold can_transition_to in ground (arith, (validation_iff running final code reason).1.0 v)

pub insert_row-Keeps : (r : TaskRow) (s : Store) → Keeps s.rows (insert_row r s).1.rows
unfolding insert_row find
insert_row-Keeps r s id x found = elim (Option-cases (find_row r.id s.rows)) [
  | inr (q, there) ↦ (x, rw (there, insert_row) found, Follows-refl x)
  | inl free ↦ elim (Bool-cases (r.id == id)) [
    | inl hit ↦
        absurd
          (none-ne-some x (sym free ∙ ap (λ k. find_row k s.rows) ((==_iff r.id id).0 hit) ∙ found))
    | inr miss ↦ (x, ground arith, Follows-refl x)
  ]
]

scanned-Keeps :
    (p : Result TaskRow × Store) (s : Store)
    → Keeps s.rows p.1.rows
    → Keeps s.rows (scanned p).1.rows
scanned-Keeps (ok r, t) s h = h
scanned-Keeps (err e, t) s h = h

pub enqueue-Keeps :
    (fault : Option GoError) (now : Time) (fresh : Uuid) (task : Task) (s : Store)
    → Keeps s.rows (enqueue fault now fresh task s).1.rows
unfolding enqueue
enqueue-Keeps fault now fresh task s =
    let t = with_defaults fresh task in
    let r =
      queued_row now t.id (nullable_source t.source_task_id) t.account_id t.target_profile
        (to_ℕ t.attempt) in
    elim (Bool-cases (is_queued t.status)) [
      | inr other ↦ rw (other, enqueue) (Keeps-refl s.rows)
      | inl is ↦ elim (Option-cases (validate t)) [
        | inr (e, bad) ↦ rw (is, bad, enqueue) (Keeps-refl s.rows)
        | inl good ↦ elim (Option-cases fault) [
          | inr (e, down) ↦ rw (is, good, down, enqueue) (Keeps-refl s.rows)
          | inl up ↦
              rw (is, good, up, enqueue) (scanned-Keeps (insert_row r s) s (insert_row-Keeps r s))
        ]
      ]
    ]

write_batch-Keeps :
    (now : Time) (rows : List InputRow) (s : Store) → Keeps s.rows (write_batch now rows s).1.rows
unfolding write_batch
write_batch-Keeps now rows s =
    let created = insertable s (payload_unique rows) in
    elim (Bool-cases (has_blank created || collides created s.rows)) [
      | inl bad ↦ rw (bad, write_batch) (Keeps-refl s.rows)
      | inr good ↦
          let f = or_false _ _ good in
          rw (good, write_batch)
            (λ id r found. (r, inserted-found now created s.rows id r f.1 found, Follows-refl r))
    ]

pub enqueue_batch-Keeps :
    (fault : Option GoError) (now : Time) (fresh : ℕ → Uuid) (rows : List ValidatedRow) (s : Store)
    → Keeps s.rows (enqueue_batch fault now fresh rows s).1.rows
unfolding enqueue_batch
enqueue_batch-Keeps fault now fresh [] s = Keeps-refl s.rows
enqueue_batch-Keeps fault now fresh (r ∷ rows) s = elim (Option-cases (check_rows (r ∷ rows))) [
  | inr (e, bad) ↦ rw (bad, enqueue_batch) (Keeps-refl s.rows)
  | inl good ↦ elim (Option-cases fault) [
    | inr (e, down) ↦ rw (good, down, enqueue_batch) (Keeps-refl s.rows)
    | inl up ↦
        rw (good, up, enqueue_batch) (write_batch-Keeps now (input_rows fresh 0 (r ∷ rows)) s)
  ]
]

pub claim_next_queued-Keeps :
    (fault : Option GoError) (locked : Uuid → Bool) (now : Time) (claimed_by : Text) (s : Store)
    → Distinct row_key s.rows
    → Keeps s.rows (claim_next_queued fault locked now claimed_by s).1.rows
unfolding claim_next_queued
claim_next_queued-Keeps (some e) locked now claimed_by s d =
    elim (Bool-cases (is_blank claimed_by)) [
      | inl blank ↦ rw (blank, claim_next_queued) (Keeps-refl s.rows)
      | inr named ↦ rw (named, claim_next_queued) (Keeps-refl s.rows)
    ]
claim_next_queued-Keeps none locked now claimed_by s d = elim (Bool-cases (is_blank claimed_by)) [
  | inl blank ↦ rw (blank, claim_next_queued) (Keeps-refl s.rows)
  | inr named ↦
      taken (claim_next_queued none locked now claimed_by s)
        (claim_next_queued-Takes locked now claimed_by s d named)
]
  where
    waiting :
        (r : TaskRow) → (is_queued r.status && not (locked r.id)) ≡ true → is_queued r.status ≡ true
    waiting r w = ground arith

    taken :
        (p : Result (Option Task) × Store) → Takes locked now claimed_by s p → Keeps s.rows p.1.rows
    taken (ok none, s') t = rw t.0 (Keeps-refl s.rows)
    taken (ok (some x), s') t =
        written-Keeps t.0.id t.0 (mark_running now claimed_by t.0) s.rows s'.rows t.1 t.5 t.6
          (running-Follows now claimed_by t.0 (waiting t.0 t.2))
    taken (err e, s') t = rw t.0 (Keeps-refl s.rows)

pub complete-Keeps :
    (net : Interleaving) (now : Time) (id : Uuid) (claimed_by : Text) (final : TaskStatus)
    (code : ErrorCode) (reason : Text) (s : Store)
    → Keeps s.rows (net.before_write s).rows
    → Keeps (net.before_write s).rows (net.before_reread (net.before_write s)).rows
    → Keeps s.rows (complete net now id claimed_by final code reason s).1.rows
complete-Keeps net now id claimed_by final code reason s before reread =
    finish (complete net now id claimed_by final code reason s)
      (complete-Completes net now id claimed_by final code reason s)
  where
    finish :
        (p : Result Task × Store)
        → Completes net now id claimed_by final code reason s p
        → Keeps s.rows p.1.rows
    finish (ok t, s') c =
        let f = mark_finished now final (final_code final code) (final_reason final reason) in
        Keeps-trans s.rows (net.before_write s).rows s'.rows before (
          written-Keeps id c.0 (f c.0) (net.before_write s).rows s'.rows c.1 c.6 c.7
            (finished-Follows now final code reason c.0 c.2 c.4))
    finish (err e, s') (inl same, why) = rw same (Keeps-refl s.rows)
    finish (err e, s') ((inr (inl same)), why) = rw same before
    finish (err e, s') ((inr (inr same)), why) = rw same (
        Keeps-trans s.rows (net.before_write s).rows (net.before_reread (net.before_write s)).rows
          before reread)

transitioned-Follows :
    (now : Time) (action : AdminAction) (to : TaskStatus) (reason : Option Text) (r : TaskRow)
    → Admin r.status action to
    → Follows r (mark_transitioned now to reason r)
transitioned-Follows now action to reason r a = record {
  same_id = refl;
  same_source = refl;
  same_account = refl;
  same_target = refl;
  same_creation = refl;
  counted = omega arith;
  life = by_operator stays a;
}

apply_evaluated-Keeps :
    (now : Time) (id : Uuid) (action : AdminAction) (reason : Text) (r : TaskRow) (s : Store)
    (o : AdminResult)
    → find_row id s.rows ≡ some r
    → AdminSpec r.status action o
    → Keeps s.rows (apply_evaluated now id reason r s o).1.rows
apply_evaluated-Keeps now id action reason r s (denied e) found spec = Keeps-refl s.rows
apply_evaluated-Keeps now id action reason r s (allowed t) found spec =
    let f = mark_transitioned now t.to_status (nullable_string (cancel_reason t.action reason)) in
    written-Keeps id r (f r) s.rows (update row_key id f s.rows) found
      (ground (arith, find-update row_key id id f s.rows (λ _. refl)))
      (λ j other. ground (arith, find-update row_key id j f s.rows (λ _. refl)))
      (transitioned-Follows now action t.to_status (nullable_string (cancel_reason t.action reason))
        r spec.0)

pub apply_admin_transition-Keeps :
    (fault : Option GoError) (now : Time) (id : Uuid) (action : AdminAction) (reason : Text)
    (s : Store)
    → Keeps s.rows (apply_admin_transition fault now id action reason s).1.rows
unfolding apply_admin_transition
apply_admin_transition-Keeps fault now id action reason s = elim (Bool-cases (is_nil id)) [
  | inl nil ↦ rw (nil, apply_admin_transition) (Keeps-refl s.rows)
  | inr given ↦ elim (Option-cases fault) [
    | inr (e, down) ↦ rw (given, down, apply_admin_transition) (Keeps-refl s.rows)
    | inl up ↦ elim (Option-cases (find_row id s.rows)) [
      | inl gone ↦ rw (given, up, gone, apply_admin_transition) (Keeps-refl s.rows)
      | inr (r, found) ↦
          rw (given, up, found, apply_admin_transition)
            (apply_evaluated-Keeps now id action reason r s (evaluate r.status action) found
              (evaluate_lem r.status action))
    ]
  ]
]

retried-Keeps :
    (fresh : Uuid) (p : Result TaskRow × Store) (s : Store)
    → Keeps s.rows p.1.rows
    → Keeps s.rows (retried fresh (scanned p) s).1.rows
retried-Keeps fresh (ok r, t) s h = h
retried-Keeps fresh (err e, t) s h = Keeps-refl s.rows

retry_evaluated-Keeps :
    (now : Time) (fresh : Uuid) (r : TaskRow) (s : Store) (o : AdminResult)
    → Keeps s.rows (retry_evaluated now fresh r s o).1.rows
retry_evaluated-Keeps now fresh r s (denied e) = Keeps-refl s.rows
retry_evaluated-Keeps now fresh r s (allowed t) =
    let q = queued_row now fresh (some r.id) r.account_id r.target_profile 0 in
    retried-Keeps fresh (insert_row q s) s (insert_row-Keeps q s)

pub retry_from_task-Keeps :
    (fault : Option GoError) (now : Time) (fresh source_id : Uuid) (s : Store)
    → Keeps s.rows (retry_from_task fault now fresh source_id s).1.rows
unfolding retry_from_task
retry_from_task-Keeps fault now fresh source_id s = elim (Bool-cases (is_nil source_id)) [
  | inl nil ↦ rw (nil, retry_from_task) (Keeps-refl s.rows)
  | inr given ↦ elim (Option-cases fault) [
    | inr (e, down) ↦ rw (given, down, retry_from_task) (Keeps-refl s.rows)
    | inl up ↦ elim (Option-cases (find_row source_id s.rows)) [
      | inl gone ↦ rw (given, up, gone, retry_from_task) (Keeps-refl s.rows)
      | inr (r, found) ↦
          rw (given, up, found, retry_from_task)
            (retry_evaluated-Keeps now fresh r s (evaluate r.status retry_action))
    ]
  ]
]
