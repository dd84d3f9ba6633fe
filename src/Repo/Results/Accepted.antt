-- ===== src/Repo/Results/Accepted.antt =====
-- Which results Upsert stores (result_postgres.go).
use follower_bmad.Base.{
  ℤ, pos, is_negative, zero, suc, is_not_positive, ◌≡◌, refl, inl, inr, ◌↔◌, ◌≤◌, ◌==◌, Bool, true,
  false, ◌&&◌, Option, none, some, arith, Bool-cases, any, ltb,
}
use follower_bmad.Text.{is_empty, is_blank}
use follower_bmad.Text.Trim.{empty-is_blank, sql_blank_lem}
use follower_bmad.Errors.Code.{ErrorCode, code_text, is_blank_code, is_blank_code_lem}
use follower_bmad.Errors.Result.{is_ok}
use follower_bmad.Domain.Ids.{Time, validate_target_profile}
use follower_bmad.Domain.Follow.{FollowResult, validate_result}
use follower_bmad.Repo.Tasks.{nullable_error_code, max_integer}
use follower_bmad.Repo.Tasks.Queue.{to_ℕ}
use follower_bmad.Repo.Results.{
  ResultRow, ResultStore, nullable_int64, find_result, excluded, positive_or_null,
  verified_vs_error, is_admissible, check_result, on_conflict, write_result, upsert_result,
}

-- A result that the table takes: its task is there and belongs to its account, its attempt is an
-- INTEGER, and a verified one has the error code "".
pub record IsStorable (r : FollowResult) (s : ResultStore) : Type 0 where
  pub referred : any (λ t. t.id == r.task_id && t.account_id == r.account_id) s.tasks ≡ true
  pub counted : to_ℕ r.attempt ≤ max_integer
  pub no_error : r.verified ≡ true → is_empty (code_text r.error_code) ≡ true

attempt_lem : (v : ℤ) → is_not_positive v ≡ false → ltb 0 (to_ℕ v) ≡ true
attempt_lem (pos zero) h = ground arith
attempt_lem (pos (suc n)) h = ground arith
attempt_lem (ℤ.negsuc n) h = ground arith

revision_lem : (v : ℤ) → is_negative v ≡ false → positive_or_null (nullable_int64 v) ≡ true
revision_lem (pos zero) h = refl
revision_lem (pos (suc n)) h = refl
revision_lem (ℤ.negsuc n) h = ground arith

error_lem :
    (verified : Bool) (c : ErrorCode)
    → (verified ≡ false → is_blank_code c ≡ false)
    → (verified_vs_error verified (nullable_error_code c) ≡ true)
      ↔ (verified ≡ true → is_empty (code_text c) ≡ true)
unfolding nullable_error_code
error_lem true c h = (λ e _. ground arith, λ e. ground (arith, e refl))
error_lem false c h = (λ e n. ground arith, λ e. coded_lem c (is_blank_code_lem c) (h refl))
  where
    coded_lem :
        (c : ErrorCode)
        → is_blank_code c ≡ is_blank (code_text c)
        → is_blank_code c ≡ false
        → verified_vs_error false (nullable_error_code c) ≡ true
    coded_lem c e h = ground (arith, sql_blank_lem (code_text c), empty-is_blank (code_text c))

-- A valid result passes every CHECK constraint unless it is verified with an error code.
checked_lem :
    (now : Time) (r : FollowResult)
    → validate_result r ≡ none
    → (check_result (excluded now r) ≡ true)
      ↔ (r.verified ≡ true → is_empty (code_text r.error_code) ≡ true)
unfolding check_result excluded validate_result validate_target_profile
checked_lem now r v =
    let a = attempt_lem r.attempt (ground arith) in
    let n = revision_lem r.session_revision (ground arith) in
    let t = sql_blank_lem r.target_profile (ground arith) in
    let k = sql_blank_lem r.screenshot_object_key (ground arith) in
    let e = error_lem r.verified r.error_code (λ u. ground arith) in
    (λ h. e.0 (ground arith), λ h. ground (arith, e.1 h))

admitted_lem :
    (new : ResultRow) (s : ResultStore) → is_ok (write_result new s).0 ≡ is_admissible s.tasks new
admitted_lem new s = elim (Bool-cases (is_admissible s.tasks new)) [
  | inl good ↦ rw good (ok_lem (find_result new.task_id new.attempt s.results))
  | inr bad ↦ rw bad refl
]
  where
    ok_lem : (o : Option ResultRow) → is_ok (on_conflict new s o).0 ≡ true
    ok_lem none = refl
    ok_lem (some old) = refl

-- Upsert of a valid result over a connection that works succeeds exactly if the table takes it:
-- its task belongs to its account, its attempt is in range, and its error code is "" where it is
-- verified.
pub upsert_result_iff :
    (now : Time) (r : FollowResult) (s : ResultStore)
    → validate_result r ≡ none
    → (is_ok (upsert_result none now r s).0 ≡ true) ↔ IsStorable r s
unfolding upsert_result excluded
upsert_result_iff now r s v =
    let c = checked_lem now r v in
    let w = admitted_lem (excluded now r) s in
    rw v (
      λ h. record {
        referred = ground (arith, w);
        counted = ground (arith, w);
        no_error = c.0 (ground (arith, w));
      },
      λ k. ground (arith, w, k.referred, k.counted, c.1 k.no_error),
    )
