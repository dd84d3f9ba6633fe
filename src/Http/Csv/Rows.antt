-- ===== src/Http/Csv/Rows.antt =====
-- The rows of an accepted CSV (admin_csv_validator.go).
use follower_bmad.Base.{
  ℕ, ◌+◌, suc, pos, ◌≡◌, refl, ap, sym, ◌∙◌, Bool, true, false, ◌&&◌, Option, none, some, List, [],
  ◌∷◌, length, map, all, arith, Bool-cases, inl, inr,
}
use follower_bmad.Text.{Text, trim_space}
use follower_bmad.Errors.Result.{Result, ok, err}
use follower_bmad.Domain.Ids.{Uuid}
use follower_bmad.Domain.TargetProfile.{IsProfile, normalize_target, normalize_target_iff}
use follower_bmad.Text.Trim.{trim_space_idem}
use follower_bmad.Repo.Tasks.Batch.{ValidatedRow}
use follower_bmad.Http.Csv.{
  Reading, a_record, unreadable, RowError, Checked, accepted, rejected, CheckedRow, valid_row,
  invalid_row, check_record, add_row, check_rows, counted, is_expected_header, validate_csv,
  with_account, with_target,
}

module _ (parse : Text → Option Uuid) where
  -- A record that can be queued as a row: two fields, an account and a profile's address.
  pub record IsRow (n : ℕ) (fields : List Text) (r : ValidatedRow) : Type 0 where
    pub account : Text
    pub target : Text
    pub two : fields ≡ account ∷ target ∷ []
    pub numbered : r.row ≡ pos n
    pub parsed : parse (trim_space account) ≡ some r.account_id
    pub trimmed : r.target_profile ≡ trim_space target
    pub address : IsProfile r.target_profile

  -- The records from row `n` on, the rows to queue and the errors to report, each in order.
  pub data Sorts : ℕ → List (List Text) → List ValidatedRow → List RowError → Type 0 where
    end : (n : ℕ) → Sorts n [] [] []
    keep :
        {n : ℕ} {fields : List Text} {rest : List (List Text)} {r : ValidatedRow}
        {rows : List ValidatedRow} {errors : List RowError}
        → IsRow n fields r
        → Sorts (suc n) rest rows errors
        → Sorts n (fields ∷ rest) (r ∷ rows) errors
    report :
        {n : ℕ} {fields : List Text} {rest : List (List Text)} {e : RowError}
        {rows : List ValidatedRow} {errors : List RowError}
        → ((r : ValidatedRow) → ¬ IsRow n fields r)
        → e.row ≡ n
        → Sorts (suc n) rest rows errors
        → Sorts n (fields ∷ rest) rows (e ∷ errors)

  abbrev Checks : ℕ → List Text → CheckedRow → Type 0
  Checks n fields (valid_row r) = IsRow n fields r
  Checks n fields (invalid_row e) = ((r : ValidatedRow) → ¬ IsRow n fields r) × (e.row ≡ n)

  -- The fields of a row are those of its record.
  same_fields :
      {n : ℕ} {account target : Text} {r : ValidatedRow} (g : IsRow n (account ∷ target ∷ []) r)
      → (g.account ≡ account) × (g.target ≡ target)
  same_fields g = let e = g.two in (cc e, cc e)

  target_lem :
      (n : ℕ) (account target : Text) (id : Uuid) (found : Result Text)
      → parse (trim_space account) ≡ some id
      → normalize_target (trim_space target) ≡ found
      → Checks n (account ∷ target ∷ []) (with_target n id found)
  target_lem n account target id (ok url) p t =
      let v = (normalize_target_iff _ url).0 t in
      record {
        account = account;
        target = target;
        two = refl;
        numbered = refl;
        parsed = p;
        trimmed = v.0 ∙ trim_space_idem target;
        address = v.1;
      }
  target_lem n account target id (err e) p t = (
    λ r g.
        let h =
          (normalize_target_iff (trim_space target) r.target_profile).1 (
            g.trimmed ∙ ap trim_space (same_fields g).1 ∙ sym (trim_space_idem target),
            g.address,
          ) in
        ground (arith, h, t),
    refl,
  )

  account_lem :
      (n : ℕ) (account target : Text) (o : Option Uuid)
      → parse (trim_space account) ≡ o
      → Checks n (account ∷ target ∷ []) (with_account n target o)
  account_lem n account target (some id) p =
      target_lem n account target id (normalize_target (trim_space target)) p refl
  account_lem n account target none p = (
    λ r g.
        let h = ap (λ a. parse (trim_space a)) (sym (same_fields g).0) ∙ g.parsed in
        ground (arith, h, p),
    refl,
  )

  check_record-Checks : (n : ℕ) (fields : List Text) → Checks n fields (check_record parse n fields)
  unfolding check_record
  check_record-Checks n [] = ((λ r g. let e = g.two in ground arith), refl)
  check_record-Checks n (a ∷ []) = ((λ r g. let e = g.two in ground arith), refl)
  check_record-Checks n (a ∷ t ∷ []) = account_lem n a t (parse (trim_space a)) refl
  check_record-Checks n (a ∷ t ∷ b ∷ rest) = ((λ r g. let e = g.two in ground arith), refl)

  abbrev is_record : Reading → Bool
  is_record (a_record fields) = true
  is_record (unreadable reason) = false

  -- What the loop makes of the readings from row `n` on.
  abbrev Loops : ℕ → List Reading → Checked → Type 0
  Loops n readings (accepted v) =
      (records : List (List Text)) × (readings ≡ map a_record records)
      × Sorts n records v.valid_rows v.invalid_rows
      × (v.rows_total ≡ length records)
      × (v.rows_total ≡ length v.valid_rows + length v.invalid_rows)
  Loops n readings (rejected e) = all is_record readings ≡ false

  add_lem :
      (n : ℕ) (fields : List Text) (rest : List Reading) (row : CheckedRow) (c : Checked)
      → Checks n fields row
      → Loops (suc n) rest c
      → Loops n (a_record fields ∷ rest) (add_row row c)
  add_lem n fields rest row (rejected e) r h = h
  add_lem n fields rest (valid_row r) (accepted v) g h =
      (fields ∷ h.0, ap (◌∷◌ (a_record fields)) h.1, keep g h.2, ap suc h.3, omega (arith, h.4))
  add_lem n fields rest (invalid_row e) (accepted v) g h = (
    fields ∷ h.0,
    ap (◌∷◌ (a_record fields)) h.1,
    report g.0 g.1 h.2,
    ap suc h.3,
    omega (arith, h.4),
  )

  check_rows-Loops :
      (n : ℕ) (readings : List Reading) → Loops n readings (check_rows parse n readings)
  unfolding check_rows
  check_rows-Loops n [] = ([], refl, end n, refl, omega arith)
  check_rows-Loops n (unreadable reason ∷ rest) = refl
  check_rows-Loops n (a_record fields ∷ rest) =
      add_lem n fields rest _ _ (check_record-Checks n fields) (check_rows-Loops (suc n) rest)

  -- A file that can be read to its end and starts with the header.
  abbrev pub is_readable : (Text → Text) → List Reading → Bool
  is_readable lower [] = false
  is_readable lower (unreadable reason ∷ rest) = false
  is_readable lower (a_record header ∷ rest) = is_expected_header lower header && all is_record rest

  -- An accepted file and the counts of its rows; a rejected file cannot be read.
  abbrev pub Validates : (Text → Text) → List Reading → Checked → Type 0
  Validates lower readings (accepted v) =
      (header : List Text) × (records : List (List Text)) × (readings
        ≡ a_record header ∷ map a_record records)
      × (is_expected_header lower header ≡ true)
      × Sorts 2 records v.valid_rows v.invalid_rows
      × (v.rows_total ≡ length records)
      × (v.rows_valid ≡ length v.valid_rows)
      × (v.rows_invalid ≡ length v.invalid_rows)
      × (v.rows_total ≡ v.rows_valid + v.rows_invalid)
  Validates lower readings (rejected e) = is_readable lower readings ≡ false

  counted_lem :
      (lower : Text → Text) (header : List Text) (rest : List Reading) (c : Checked)
      → is_expected_header lower header ≡ true
      → Loops 2 rest c
      → Validates lower (a_record header ∷ rest) (counted c)
  counted_lem lower header rest (rejected e) g h = rw g h
  counted_lem lower header rest (accepted v) g h =
      (header, h.0, ap (◌∷◌ (a_record header)) h.1, g, h.2, h.3, refl, refl, h.4)

  -- Validate rejects a CSV only if it cannot be read to its end or does not start with the header
  -- account_id,target_profile. Of a CSV that it accepts, every record from row 2 on is, in the
  -- order of the file and with its row number, either a valid row, namely an account that parses
  -- and the address of a profile, as trimmed, or an error where no such row is to be had; and the
  -- counts are those of the records, of the valid rows and of the errors, which add up.
  pub validate_csv-Validates :
      (lower : Text → Text) (readings : List Reading)
      → Validates lower readings (validate_csv lower parse readings)
  unfolding validate_csv
  validate_csv-Validates lower [] = refl
  validate_csv-Validates lower (unreadable reason ∷ rest) = refl
  validate_csv-Validates lower (a_record header ∷ rest) =
      elim (Bool-cases (is_expected_header lower header)) [
        | inl good ↦ rw good (counted_lem lower header rest _ good (check_rows-Loops 2 rest))
        | inr bad ↦ rw (bad, bad) refl
      ]
