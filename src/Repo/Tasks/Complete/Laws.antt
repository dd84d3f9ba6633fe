-- ===== src/Repo/Tasks/Complete/Laws.antt =====
-- Complete with what other connections do in between
-- (internal/repository/postgres/task_postgres.go).
use mathlib.Core.Path.{subst}
use mathlib.Core.Bool.{false≢true}
use mathlib.Core.Option.{none-ne-some, some-injective}
use follower_bmad.Base.{
  ◌≡◌, refl, sym, ap, ◌∙◌, false, ==_iff, Option, ◌⊎◌, inl, inr, true, none, some, arith,
  Bool-cases, Option-cases,
}
use follower_bmad.Text.{Text, text, is_blank, text_eq}
use follower_bmad.Text.Search.{text_eq→eq, text_eq_refl, text_eq_of_eq}
use follower_bmad.Errors.Code.{ErrorCode, DomainError, new_domain_error, task_not_found}
use follower_bmad.Errors.Value.{GoError, domain_error}
use follower_bmad.Errors.Result.{Result, ok, err}
use follower_bmad.Domain.Ids.{Uuid, Time, is_nil}
use follower_bmad.Domain.Status.{TaskStatus, running, validate_task_completion}
use follower_bmad.Domain.Status.Graph.{validation_iff}
use follower_bmad.Repo.Tasks.{
  TaskRow, Store, find_row, written_lem, write_rows-rows, row_key, select_row, or_no_text,
}
use follower_bmad.Repo.Table.{update}
use follower_bmad.Repo.Tasks.Complete.{
  Interleaving, mark_finished, is_completable, final_code, final_reason, completed_action,
  write_completion, complete_read, complete,
}
use follower_bmad.Repo.Tasks.Complete.Promise.{
  IsHeldRunning, IsRefused, no_id, no_worker, read_failed, write_failed, not_allowed, not_held,
  lost, mark_finished-IsFinished, Completes,
}

completable_lem :
    (claimed_by : Text) (r : TaskRow)
    → is_completable claimed_by r ≡ true
    → (r.status ≡ running) × (r.claimed_by ≡ some claimed_by)
completable_lem claimed_by r h = elim (Option-cases r.claimed_by) [
  | inl e ↦ ground arith
  | inr (c, e) ↦ ground (arith, text_eq→eq c claimed_by)
]

not_completable :
    (id : Uuid) (claimed_by : Text) (r : TaskRow) (s : Store)
    → find_row id s.rows ≡ some r
    → is_completable claimed_by r ≡ false
    → ¬ IsHeldRunning id claimed_by s
not_completable id claimed_by r s found other h =
    let same : h.0 ≡ r = some-injective h.0 r (sym h.1 ∙ found) in
    false≢true (
      sym other
      ∙ held_row (subst (λ (q : TaskRow). q.status ≡ running) same h.2)
          (subst (λ (q : TaskRow). q.claimed_by ≡ some claimed_by) same h.3))
  where
    held_row :
        r.status ≡ running → r.claimed_by ≡ some claimed_by → is_completable claimed_by r ≡ true
    held_row run own = rw (run, own) (ground (arith, text_eq_refl claimed_by))

write_completion-Completes :
    (net : Interleaving) (now : Time) (id : Uuid) (claimed_by : Text) (final : TaskStatus)
    (code : ErrorCode) (reason : Text) (s : Store)
    → validate_task_completion running final code reason ≡ none
    → Completes net now id claimed_by final code reason s (
        write_completion net now id claimed_by final
          (final_code final code)
          (final_reason final reason)
          (net.before_write s))
unfolding write_completion
write_completion-Completes net now id claimed_by final code reason s v =
    elim (Option-cases net.write_fault) [
      | inr (e, broken) ↦ simp (broken, write_completion) (inr (inl refl), write_failed broken)
      | inl up ↦ elim (Option-cases (find_row id (net.before_write s).rows)) [
        | inl gone ↦
            rw (up, gone, write_completion)
              (inr (inr refl), lost (λ h. none-ne-some _ (sym gone ∙ h.1)))
        | inr (r, found) ↦ elim (Bool-cases (is_completable claimed_by r)) [
          | inr other ↦
              rw (up, found, other, write_completion)
                (
                  inr (inr refl),
                  lost (not_completable id claimed_by r (net.before_write s) found other),
                )
          | inl mine ↦
              let f = mark_finished now final (final_code final code) (final_reason final reason) in
              let held = completable_lem claimed_by r mine in
              let w =
                written_lem (completed_action final) id f r (net.before_write s) (λ _. refl)
                  found in
              rw (up, found, mine, write_completion)
                (
                  r,
                  found,
                  held.0,
                  held.1,
                  v,
                  refl,
                  w.0,
                  w.1,
                  write_rows-rows (completed_action final) id
                      (update row_key id f (net.before_write s).rows) (net.before_write s),
                  mark_finished-IsFinished now final code reason r,
                )
        ]
      ]
    ]

-- A read row that another worker has.
read_other :
    (id : Uuid) (claimed_by : Text) (current : TaskRow) (s : Store)
    → find_row id s.rows ≡ some current
    → text_eq (or_no_text current.claimed_by) claimed_by ≡ false
    → ¬ IsHeldRunning id claimed_by s
read_other id claimed_by current s found other h =
    let same : h.0 ≡ current = some-injective h.0 current (sym h.1 ∙ found) in
    let own : or_no_text current.claimed_by ≡ claimed_by =
      ap or_no_text (subst (λ (q : TaskRow). q.claimed_by ≡ some claimed_by) same h.3) in
    false≢true (sym other ∙ text_eq_of_eq _ _ own)

-- A read row whose status does not allow the completion.
read_status :
    (net : Interleaving) (id : Uuid) (claimed_by : Text) (final : TaskStatus) (code : ErrorCode)
    (reason : Text) (s : Store) (current : TaskRow) (e : DomainError)
    → find_row id s.rows ≡ some current
    → validate_task_completion current.status final code reason ≡ some e
    → IsRefused net id claimed_by final code reason s
read_status net id claimed_by final code reason s current e found bad =
    elim (Option-cases (validate_task_completion running final code reason)) [
      | inr (d, never) ↦ not_allowed never
      | inl good ↦ not_held (λ h.
          let same : h.0 ≡ current = some-injective h.0 current (sym h.1 ∙ found) in
          let run = subst (λ (q : TaskRow). q.status ≡ running) same h.2 in
          none-ne-some e
            (sym good ∙ ap (λ x. validate_task_completion x final code reason) (sym run) ∙ bad))
    ]

-- From the row that was read on.
read_row-Completes :
    (net : Interleaving) (now : Time) (id : Uuid) (claimed_by : Text) (final : TaskStatus)
    (code : ErrorCode) (reason : Text) (s : Store) (current : TaskRow)
    → find_row id s.rows ≡ some current
    → Completes net now id claimed_by final code reason s
        (complete_read net now id claimed_by final code reason s (ok current))
unfolding complete_read
read_row-Completes net now id claimed_by final code reason s current found =
    elim (Bool-cases (text_eq (or_no_text current.claimed_by) claimed_by)) [
      | inr other ↦
          rw (other, complete_read)
            (inl refl, not_held (read_other id claimed_by current s found other))
      | inl mine ↦ elim (Option-cases (validate_task_completion current.status final code reason)) [
        | inr (e, bad) ↦
            rw (mine, bad, complete_read)
              (inl refl, read_status net id claimed_by final code reason s current e found bad)
        | inl good ↦
            let is_run = ((validation_iff current.status final code reason).1.0 good).0 in
            rw (mine, good, complete_read)
              (write_completion-Completes net now id claimed_by final code reason s
                (subst (λ x. validate_task_completion x final code reason ≡ none) is_run good))
      ]
    ]

select_row-cases :
    (fault : Option GoError) (id : Uuid) (s : Store)
    → ((r : TaskRow) × (select_row fault id s ≡ ok r) × (find_row id s.rows ≡ some r))
      ⊎ ((e : GoError) × (select_row fault id s ≡ err e)
          × (((d : GoError) × (fault ≡ some d)) ⊎ (find_row id s.rows ≡ none)))
select_row-cases (some e) id s = inr (e, refl, inl (e, refl))
select_row-cases none id s = elim (Option-cases (find_row id s.rows)) [
  | inl gone ↦ inr (
    domain_error (new_domain_error task_not_found (text "task %s not found")),
    rw (gone, select_row) refl,
    inr gone,
  )
  | inr (r, found) ↦ inl (r, rw (found, select_row) refl, found)
]

read-Completes :
    (net : Interleaving) (now : Time) (id : Uuid) (claimed_by : Text) (final : TaskStatus)
    (code : ErrorCode) (reason : Text) (s : Store)
    → Completes net now id claimed_by final code reason s
        (complete_read net now id claimed_by final code reason s (select_row net.read_fault id s))
unfolding complete_read
read-Completes net now id claimed_by final code reason s =
    let P : Result TaskRow → Type 0 = λ x.
      Completes net now id claimed_by final code reason s
        (complete_read net now id claimed_by final code reason s x) in
    elim (select_row-cases net.read_fault id s) [
      | inl (r, at, found) ↦
          subst P (sym at) (read_row-Completes net now id claimed_by final code reason s r found)
      | inr (e, at, inl (d, down)) ↦ subst P (sym at) (inl refl, read_failed down)
      | inr (e, at, inr gone) ↦
          subst P (sym at) (inl refl, not_held (λ h. none-ne-some _ (sym gone ∙ h.1)))
    ]

-- Complete, for every fault and whatever other connections do. If it succeeds, then when its write
-- begins the row is there, running and held by the worker, and the status, the code and the reason
-- are valid for a running task; the row is then finished now with that status, with no code and no
-- reason for success and else with those given, and no other row has changed. If it reports an
-- error, the table is as other connections left it, and either the id or the worker's name is
-- missing, the read or the write has failed, the status, code and reason are not valid for a
-- running task, or the row was not running and held by the worker when it was read or when it was
-- written.
pub complete-Completes :
    (net : Interleaving) (now : Time) (id : Uuid) (claimed_by : Text) (final : TaskStatus)
    (code : ErrorCode) (reason : Text) (s : Store)
    → Completes net now id claimed_by final code reason s
        (complete net now id claimed_by final code reason s)
unfolding complete
complete-Completes net now id claimed_by final code reason s = elim (Bool-cases (is_nil id)) [
  | inl nil ↦ rw (nil, complete) (inl refl, no_id ((==_iff id 0).0 nil))
  | inr given ↦ elim (Bool-cases (is_blank claimed_by)) [
    | inl blank ↦ rw (given, blank, complete) (inl refl, no_worker blank)
    | inr named ↦
        rw (given, named, complete) (read-Completes net now id claimed_by final code reason s)
  ]
]
