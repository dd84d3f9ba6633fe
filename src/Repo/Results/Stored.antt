-- ===== src/Repo/Results/Stored.antt =====
-- Upsert and GetByTaskAttempt over one store (result_postgres.go).
use mathlib.Core.Option.{some-injective}
use follower_bmad.Base.{
  ℕ, ℤ, pos, zero, suc, is_not_positive, ◌≡◌, refl, ap, inl, inr, ◌↔◌, true, false, Option, none,
  some, List, [], ◌∷◌, arith, Bool-cases, if_ind,
}
use follower_bmad.Text.{Text, trim_space}
use follower_bmad.Errors.Code.{ErrorCode, DomainError, code_text}
use follower_bmad.Errors.Value.{GoError}
use follower_bmad.Errors.Result.{Result, ok, err}
use follower_bmad.Domain.Ids.{Uuid, Time, is_nil}
use follower_bmad.Domain.Follow.{FollowResult, validate_result}
use follower_bmad.Repo.Tasks.{or_no_text, or_no_code, nullable_string, nullable_error_code}
use follower_bmad.Repo.Tasks.Queue.{to_ℕ}
use follower_bmad.Repo.Results.{
  ResultRow, ResultStore, or_zero, nullable_int64, scan_result, is_at, find_result, update_result,
  excluded, over, is_admissible, on_conflict, write_result, if_valid, upsert_result,
  get_by_task_attempt,
}

-- The row that is found has the key.
find_key :
    (task : Uuid) (attempt : ℕ) (rows : List ResultRow) (r : ResultRow)
    → find_result task attempt rows ≡ some r
    → (r.task_id ≡ task) × (r.attempt ≡ attempt)
unfolding find_result is_at
find_key task attempt [] r h = ground arith
find_key task attempt (x ∷ rows) r h = ground (arith, find_key task attempt rows r)

is_at_iff :
    (task : Uuid) (attempt : ℕ) (r : ResultRow)
    → (is_at task attempt r ≡ true) ↔ ((r.task_id ≡ task) × (r.attempt ≡ attempt))
unfolding is_at
is_at_iff task attempt r = ground arith

is_at_refl : (r : ResultRow) → is_at r.task_id r.attempt r ≡ true
is_at_refl r = (is_at_iff r.task_id r.attempt r).1 (refl, refl)

-- A row has one key.
other_key :
    (task t : Uuid) (attempt a : ℕ) (r : ResultRow)
    → ¬ ((t ≡ task) × (a ≡ attempt))
    → is_at task attempt r ≡ true
    → is_at t a r ≡ false
unfolding is_at
other_key task t attempt a r n h = ground arith

module _ (f : ResultRow → ResultRow)
    (same : (t : Uuid) (a : ℕ) (x : ResultRow) → is_at t a (f x) ≡ is_at t a x) where
  find-update_result :
      (task : Uuid) (attempt : ℕ) (rows : List ResultRow) (r : ResultRow)
      → find_result task attempt rows ≡ some r
      → find_result task attempt (update_result task attempt f rows) ≡ some (f r)
  unfolding find_result update_result
  find-update_result task attempt [] r h = ground arith
  find-update_result task attempt (x ∷ rows) r h = elim (Bool-cases (is_at task attempt x)) [
    | inl hit ↦
        rw (hit, same task attempt x, hit) (ap (λ o. some (f o)) (some-injective _ _ (rw hit at h)))
    | inr miss ↦ rw (miss, miss) (find-update_result task attempt rows r (rw miss at h))
  ]

  find_other-update_result :
      (task t : Uuid) (attempt a : ℕ) (rows : List ResultRow)
      → ¬ ((t ≡ task) × (a ≡ attempt))
      → find_result t a (update_result task attempt f rows) ≡ find_result t a rows
  unfolding find_result update_result
  find_other-update_result task t attempt a [] n = refl
  find_other-update_result task t attempt a (x ∷ rows) n =
      elim (Bool-cases (is_at task attempt x)) [
        | inl hit ↦
            rw (hit, same t a x, other_key task t attempt a x n hit)
              (find_other-update_result task t attempt a rows n)
        | inr miss ↦ rw (miss, find_other-update_result task t attempt a rows n) refl
      ]

nullable_string_lem : (t : Text) → or_no_text (nullable_string t) ≡ t
unfolding nullable_string
nullable_string_lem [] = refl
nullable_string_lem (c ∷ t) = refl

nullable_code_lem : (c : ErrorCode) → or_no_code (nullable_error_code c) ≡ c
unfolding nullable_error_code code_text
nullable_code_lem (ErrorCode.unlisted []) = refl
nullable_code_lem (ErrorCode.unlisted (c ∷ t)) = refl
nullable_code_lem _ = refl

nullable_int64_lem : (v : ℤ) → or_zero (nullable_int64 v) ≡ v
nullable_int64_lem (pos zero) = refl
nullable_int64_lem (pos (suc n)) = refl
nullable_int64_lem (ℤ.negsuc n) = refl

to_ℕ_lem : (v : ℤ) → is_not_positive v ≡ false → pos (to_ℕ v) ≡ v
to_ℕ_lem (pos n) h = refl
to_ℕ_lem (ℤ.negsuc n) h = ground arith

-- A stored result is the given one, but for the spaces around its reason and its times.
abbrev pub Reports : Time → Time → FollowResult → FollowResult → Type 0
Reports created now r stored = stored ≡ record r {
  verification_reason = trim_space r.verification_reason;
  created_at = created;
  updated_at = now;
}

excluded-Reports :
    (now : Time) (r : FollowResult)
    → is_not_positive r.attempt ≡ false
    → Reports now now r (scan_result (excluded now r))
unfolding scan_result excluded
excluded-Reports now r h =
    rw
      (
        to_ℕ_lem r.attempt h,
        nullable_string_lem r.verification_reason,
        nullable_code_lem r.error_code,
        nullable_int64_lem r.session_revision,
      )
      refl

positive_attempt : (r : FollowResult) → validate_result r ≡ none → is_not_positive r.attempt ≡ false
unfolding validate_result
positive_attempt r h = ground arith

has_task : (r : FollowResult) → validate_result r ≡ none → is_nil r.task_id ≡ false
unfolding validate_result
has_task r h = ground arith

-- The time of a row's creation.
abbrev pub created_of : Time → Option ResultRow → Time
created_of now none = now
created_of now (some old) = old.created_at

-- An upsert that succeeds has stored the result under its task and attempt: reading it there
-- gives what the upsert returned, which is the given result with its reason trimmed, the time of
-- the first insertion and the time of this one; every other row is as before. One that fails has
-- written nothing.
abbrev pub Upserts : Time → FollowResult → ResultStore → Result FollowResult × ResultStore → Type 0
Upserts now r s (ok stored, s') =
    (get_by_task_attempt none r.task_id r.attempt s' ≡ ok stored)
    × Reports (created_of now (find_result r.task_id (to_ℕ r.attempt) s.results)) now r stored
    × ((t : Uuid) (a : ℕ)
        → ¬ ((t ≡ r.task_id) × (a ≡ to_ℕ r.attempt))
        → find_result t a s'.results ≡ find_result t a s.results)
Upserts now r s (err e, s') = s' ≡ s

read_lem :
    (r : FollowResult) (row : ResultRow) (s : ResultStore)
    → validate_result r ≡ none
    → find_result r.task_id (to_ℕ r.attempt) s.results ≡ some row
    → get_by_task_attempt none r.task_id r.attempt s ≡ ok (scan_result row)
unfolding get_by_task_attempt
read_lem r row s v h = rw (has_task r v, positive_attempt r v, h) refl

head_found :
    (t : Uuid) (a : ℕ) (x : ResultRow) (rows : List ResultRow)
    → is_at t a x ≡ true
    → find_result t a (x ∷ rows) ≡ some x
unfolding find_result
head_found t a x rows h = rw h refl

head_missed :
    (t : Uuid) (a : ℕ) (x : ResultRow) (rows : List ResultRow)
    → is_at t a x ≡ false
    → find_result t a (x ∷ rows) ≡ find_result t a rows
unfolding find_result
head_missed t a x rows h = rw h refl

over-same :
    (new : ResultRow) (t : Uuid) (a : ℕ) (x : ResultRow) → is_at t a (over new x) ≡ is_at t a x
unfolding is_at
over-same new t a x = refl

over-Reports :
    (now : Time) (r : FollowResult) (old : ResultRow)
    → is_not_positive r.attempt ≡ false
    → (old.task_id ≡ r.task_id) × (old.attempt ≡ to_ℕ r.attempt)
    → Reports old.created_at now r (scan_result (over (excluded now r) old))
unfolding scan_result excluded
over-Reports now r old h k =
    rw
      (
        k.0,
        k.1,
        to_ℕ_lem r.attempt h,
        nullable_string_lem r.verification_reason,
        nullable_code_lem r.error_code,
        nullable_int64_lem r.session_revision,
      )
      refl

written_lem :
    (now : Time) (r : FollowResult) (s : ResultStore) (o : Option ResultRow)
    → validate_result r ≡ none
    → find_result r.task_id (to_ℕ r.attempt) s.results ≡ o
    → Upserts now r s (on_conflict (excluded now r) s o)
unfolding excluded
written_lem now r s none v h = (
  read_lem r (excluded now r) _ v (head_found _ _ _ s.results (is_at_refl (excluded now r))),
  rw h (excluded-Reports now r (positive_attempt r v)),
  λ t a n.
      head_missed t a (excluded now r) s.results
        (other_key r.task_id t (to_ℕ r.attempt) a _ n (is_at_refl (excluded now r))),
)
written_lem now r s (some old) v h =
    let new = excluded now r in
    (
      read_lem r (over new old) _ v
          (find-update_result (over new) (over-same new) _ _ s.results old h),
      rw h (over-Reports now r old (positive_attempt r v) (find_key _ _ s.results old h)),
      λ t a n. find_other-update_result (over new) (over-same new) _ t _ a s.results n,
    )

-- After an upsert that succeeds, the result is read back under its task and attempt as the upsert
-- returned it: the given result with its reason trimmed, the time of the key's first insertion and
-- the time of this upsert; no other row has changed. An upsert that fails has written nothing.
pub upsert_result-Upserts :
    (fault : Option GoError) (now : Time) (r : FollowResult) (s : ResultStore)
    → Upserts now r s (upsert_result fault now r s)
unfolding upsert_result excluded
upsert_result-Upserts fault now r s = refused_lem (validate_result r) fault refl
  where
    stored_lem : validate_result r ≡ none → Upserts now r s (write_result (excluded now r) s)
    stored_lem v =
        if_ind (Upserts now r s) (is_admissible s.tasks (excluded now r)) _ _
          (λ _. written_lem now r s _ v refl) (λ _. refl)

    refused_lem :
        (o : Option DomainError) (fault : Option GoError)
        → validate_result r ≡ o
        → Upserts now r s (if_valid o fault s (write_result (excluded now r) s))
    refused_lem (some e) fault v = refl
    refused_lem none (some e) v = refl
    refused_lem none none v = stored_lem v
