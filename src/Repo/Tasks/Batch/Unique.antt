-- ===== src/Repo/Tasks/Batch/Unique.antt =====
-- The tasks that a batch creates and the rows that it skips
-- (internal/repository/postgres/task_postgres.go).
use mathlib.Core.Path.{subst}
use mathlib.Core.Bool.{false≢true}
use follower_bmad.Base.{
  ℕ, ◌≡◌, refl, sym, ap, ◌∙◌, ◌⊎◌, inl, inr, Bool, true, false, not, ◌&&◌, ◌||◌, Option, List, [],
  ◌∷◌, ◌++◌, length, arith, Bool-cases, Option-cases, or_false, none,
}
use follower_bmad.Errors.Value.{GoError}
use follower_bmad.Errors.Result.{Result, ok, err}
use follower_bmad.Domain.Ids.{Uuid, Time}
use follower_bmad.Repo.Table.{In, Distinct}
use follower_bmad.Repo.Tasks.{TaskRow, Store, find_row}
use follower_bmad.Repo.Tasks.Batch.{
  ValidatedRow, InputRow, BatchResult, SkippedRow, input_rows, check_rows, is_first, payload_unique,
  payload_duplicates, skipped_as, sort_skipped, skipped_rows_of, has_account, missing_accounts,
  is_active_duplicate, active_duplicates, has_index, insertable, inserted_rows, write_batch,
  enqueue_batch, has_blank, collides,
}
use follower_bmad.Repo.Tasks.Batch.Members.{filter-In, any_of-In, In-filter}
use follower_bmad.Repo.Tasks.Batch.Keys.{input_key, collides-Distinct, collides-fresh, same_id_lem}
use follower_bmad.Repo.Tasks.Batch.Reasons.{
  IsSkippable, duplicate-IsSkippable, missing-IsSkippable, active-IsSkippable,
}
use follower_bmad.Repo.Tasks.Batch.Plain.{
  IsSamePayload, IsActive, IsSkipped, same_payload_iff, is_active_duplicate_iff, has_account_iff,
  skippable-IsSkipped, reported-In, row_of, In-reported,
}
use follower_bmad.Repo.Tasks.Queue.{queued_row}
use follower_bmad.Domain.Status.{queued}
use follower_bmad.Repo.Tasks.Batch.Parts.{
  first_unique, eq_index_refl, active-has_index, missing-has_index, is_reported, reported_lem,
}

-- The task that is queued for a row.
pub record IsQueuedFor (now : Time) (a : InputRow) (q : TaskRow) : Type 0 where
  same_id : q.id ≡ a.task_id
  same_account : q.account_id ≡ a.account_id
  same_target : q.target_profile ≡ a.target_profile
  status : q.status ≡ queued
  attempt : q.attempt ≡ 0
  source : q.source_task_id ≡ none
  claimer : q.claimed_by ≡ none
  created : q.created_at ≡ now

-- What a batch does. On success the tasks that it creates stand before the old ones, and their
-- number is reported. Each one has an account of the table, and no queued or running task of the
-- old ones has its account and target; of the created rows no two have the same account and target.
-- Every other row is reported as skipped, and there is a reason for each row reported. On an error
-- nothing is written.
abbrev pub Batches : Time → List InputRow → Store → Result BatchResult × Store → Type 0
Batches now rows s (err e, s') = s' ≡ s
Batches now rows s (ok result, s') =
    (created : List InputRow) × (s'.rows ≡ inserted_rows now created ++ s.rows)
    × (result.rows_created ≡ length created)
    × (result.rows_skipped ≡ length result.skipped_rows)
    × Distinct input_key created
    × ((a : InputRow) → In a created → find_row a.task_id s.rows ≡ none)
    × ((a : InputRow)
        → In a created
        → In a rows
          × In a.account_id s.accounts
          × ((q : TaskRow) × In q s'.rows × IsQueuedFor now a q))
    × ((a b : InputRow) → In a created → In b created → IsSamePayload a b → a ≡ b)
    × ((a : InputRow) (t : TaskRow) → In a created → In t s.rows → ¬ IsActive a t)
    × ((a : InputRow)
        → In a rows
        → In a created ⊎ ((e : SkippedRow) × In e result.skipped_rows × (e.row ≡ a.row_index)))
    × ((e : SkippedRow) → In e result.skipped_rows → IsSkipped rows s e.row)

-- The task of a created row stands in the table.
inserted-In :
    (now : Time) (a : InputRow) (created : List InputRow) (rows : List TaskRow)
    → In a created
    → (q : TaskRow) × In q (inserted_rows now created ++ rows) × IsQueuedFor now a q
unfolding inserted_rows
inserted-In now a [] rows m = elim m [ ]
inserted-In now a (r ∷ created) rows (inl e) = (
  queued_row now r.task_id none r.account_id r.target_profile 0,
  inl refl,
  subst (λ x. IsQueuedFor now x (queued_row now r.task_id none r.account_id r.target_profile 0)) e
      (record {
        same_id = refl;
        same_account = refl;
        same_target = refl;
        status = refl;
        attempt = refl;
        source = refl;
        claimer = refl;
        created = refl;
      }),
)
inserted-In now a (r ∷ created) rows (inr m) =
    let k = inserted-In now a created rows m in (k.0, inr k.1, k.2)

module _ (s : Store) (rows : List InputRow) where
  abbrev created : List InputRow
  created = insertable s (payload_unique rows)

  created-In :
      (a : InputRow)
      → In a created
      → In a (payload_unique rows)
        × (has_index a (missing_accounts s (payload_unique rows)) ≡ false)
        × (has_index a (active_duplicates s.rows (payload_unique rows)) ≡ false)
  created-In a m =
      let k = filter-In _ (payload_unique rows) a m in let f = both _ _ k.1 in (k.0, f.0, f.1)
    where
      both : (b c : Bool) → (not b && not c) ≡ true → (b ≡ false) × (c ≡ false)
      both b c h = ground arith

  unique-In : (a : InputRow) → In a (payload_unique rows) → In a rows × (is_first rows a ≡ true)
  unique-In a m = filter-In (is_first rows) rows a m

  created-account : (a : InputRow) → In a created → has_account s a ≡ true
  created-account a m = elim (Bool-cases (has_account s a)) [
    | inl there ↦ there
    | inr gone ↦
        let k = created-In a m in
        absurd (false≢true (sym k.1 ∙ missing-has_index s (payload_unique rows) a k.0 gone))
  ]

  created-active :
      (a : InputRow) (t : TaskRow) → In a created → In t s.rows → is_active_duplicate a t ≡ false
  created-active a t m n = elim (Bool-cases (is_active_duplicate a t)) [
    | inr free ↦ free
    | inl taken ↦
        let k = created-In a m in
        absurd
          (false≢true (sym k.2 ∙ active-has_index s.rows (payload_unique rows) a t k.0 n taken))
  ]

  not_created :
      (a : InputRow)
      → In a (payload_unique rows)
      → (has_index a (missing_accounts s (payload_unique rows))
          || has_index a (active_duplicates s.rows (payload_unique rows)))
        ≡ false
      → In a created
  not_created a m h = In-filter _ (payload_unique rows) a m (neither _ _ h)
    where
      neither : (b c : Bool) → (b || c) ≡ false → (not b && not c) ≡ true
      neither b c h = ground arith

  created_or_skipped :
      (a : InputRow) → In a rows → In a created ⊎ (is_reported a (skipped_rows_of s rows) ≡ true)
  created_or_skipped a m =
      let missing = has_index a (missing_accounts s (payload_unique rows)) in
      let active = has_index a (active_duplicates s.rows (payload_unique rows)) in
      let hit : (b c d : Bool) → (c ≡ true) ⊎ (d ≡ true) → (b || (c || d)) ≡ true =
        λ b c d h. ground arith in
      elim (Bool-cases (is_first rows a)) [
        | inr repeated ↦
            let own : has_index a (payload_duplicates rows) ≡ true =
              any_of-In _ (payload_duplicates rows) a
                (In-filter (λ r. not (is_first rows r)) rows a m (ap not repeated))
                (eq_index_refl a) in
            inr (reported_lem s rows a ∙ rw own refl)
        | inl first ↦ elim (Bool-cases missing) [
          | inl h ↦ inr (reported_lem s rows a ∙ hit _ _ _ (inl h))
          | inr there ↦ elim (Bool-cases active) [
            | inl h ↦ inr (reported_lem s rows a ∙ hit _ _ _ (inr h))
            | inr free ↦
                inl
                  (not_created a (In-filter (is_first rows) rows a m first) (rw (there, free) refl))
          ]
        ]
      ]

  reported-IsSkippable :
      (a : InputRow) → is_reported a (skipped_rows_of s rows) ≡ true → IsSkippable rows s a
  reported-IsSkippable a h =
      let dup = has_index a (payload_duplicates rows) in
      let missing = has_index a (missing_accounts s (payload_unique rows)) in
      let active = has_index a (active_duplicates s.rows (payload_unique rows)) in
      let any_of : (dup || (missing || active)) ≡ true = sym (reported_lem s rows a) ∙ h in
      elim (Bool-cases dup) [
        | inl d ↦ duplicate-IsSkippable s rows a d
        | inr other ↦ elim (Bool-cases missing) [
          | inl m ↦ missing-IsSkippable s rows a m
          | inr there ↦ active-IsSkippable s rows a (rw (other, there) at any_of)
        ]
      ]

  write_batch-Batches : (now : Time) → Batches now rows s (write_batch now rows s)
  unfolding write_batch
  write_batch-Batches now = elim (Bool-cases (has_blank created || collides created s.rows)) [
    | inl bad ↦ rw (bad, write_batch) refl
    | inr good ↦
        let free = (or_false (has_blank created) (collides created s.rows) good).1 in
        let d = collides-Distinct created s.rows free in
        rw (good, write_batch)
          (
            created,
            refl,
            refl,
            refl,
            d,
            (λ a m. collides-fresh created s.rows a free m),
            (λ a m. (
              (unique-In a (created-In a m).0).0,
              (has_account_iff s a).0 (created-account a m),
              inserted-In now a created s.rows m,
            )),
            (λ a b m n same.
                let x = unique-In a (created-In a m).0 in
                let y = unique-In b (created-In b n).0 in
                same_id_lem created a b d m n
                  (first_unique rows a b x.0 y.0 x.1 y.1 ((same_payload_iff a b).1 same))),
            (λ a t m n is.
                false≢true (sym (created-active a t m n) ∙ (is_active_duplicate_iff a t).1 is)),
            (λ a m. elim (created_or_skipped a m) [
              | inl k ↦ inl k
              | inr k ↦ inr (reported-In a (skipped_rows_of s rows) k)
            ]),
            (λ e m.
                skippable-IsSkipped rows s (row_of e)
                  (reported-IsSkippable (row_of e) (In-reported e (skipped_rows_of s rows) m))),
          )
  ]

-- What EnqueueValidatedBatch does with rows as the statement gets them, trimmed and with new ids.
-- On success the tasks that it creates stand before the old ones, with ids that no other task has,
-- and their number and that of the skipped rows are reported. Each is queued, created now and
-- unclaimed, for one of the rows, with an account of the table, and no queued or running task of
-- before has its account and target; no two of them have the same account and target. Every other
-- row is reported as skipped. An index is reported only if a row of that index comes later than
-- another with its account and target, has no account in the table, or has a queued or running
-- task. On an error nothing is written.
pub enqueue_batch-Batches :
    (fault : Option GoError) (now : Time) (fresh : ℕ → Uuid) (rows : List ValidatedRow) (s : Store)
    → Batches now (input_rows fresh 0 rows) s (enqueue_batch fault now fresh rows s)
unfolding enqueue_batch inserted_rows sort_skipped skipped_as input_rows
enqueue_batch-Batches fault now fresh [] s = (
  [],
  refl,
  refl,
  refl,
  tt,
  (λ a m. elim m [ ]),
  (λ a m. elim m [ ]),
  (λ a b m n same. elim m [ ]),
  (λ a t m n. elim m [ ]),
  (λ a m. elim m [ ]),
  λ e m. elim m [ ],
)
enqueue_batch-Batches fault now fresh (r ∷ rows) s = elim (Option-cases (check_rows (r ∷ rows))) [
  | inr (e, bad) ↦ rw (bad, enqueue_batch) refl
  | inl good ↦ elim (Option-cases fault) [
    | inr (e, down) ↦ rw (good, down, enqueue_batch) refl
    | inl up ↦
        rw (good, up, enqueue_batch) (write_batch-Batches s (input_rows fresh 0 (r ∷ rows)) now)
  ]
]
