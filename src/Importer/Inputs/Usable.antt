-- ===== src/Importer/Inputs/Usable.antt =====
-- The rows that a manifest gives.
use Prim.Native.String.{count}
use text.Mathlib.Text.{◌==◌ as str_eq}
use attendence_v.Prelude.{
  ℕ, ◌+◌, ◌≤◌, ◌≡◌, refl, String, false, not, ◌&&◌, Option, none, some, zero, suc, All-imp, List,
  [], ◌∷◌, map, All, arith, Bool-cases, inl, inr, if_both,
}
use attendence_v.Storage.{Platform}
use attendence_v.Audit.{has_text}
use attendence_v.Importer.Inputs.{
  ImportRow, ParseIssue, Attempt, done, failure, student_number_max_len, manifest_pose_max_len,
  Manifest, Parsed, usage_error, parsed, LineOutcome, blank, issue, bound, is_blank, has_duplicates,
  all_known, all_blank, check_student_number, normalize_student_number, check_manifest_pose,
  normalize_manifest_pose, column, get_text, bind_pose, bind_number, read_line, add_line,
  read_lines, parse_manifest,
}

pub record IsUsable (row : ImportRow) : Type 0 where
  pub number : str_eq row.student_number "" ≡ false
  pub number_length : count row.student_number ≤ student_number_max_len
  pub image : str_eq row.image_path "" ≡ false
  pub pose : str_eq row.pose_label "" ≡ false
  pub pose_length : count row.pose_label ≤ manifest_pose_max_len

-- The row numbers rise, from `n` on.
abbrev pub IsRising : ℕ → List ImportRow → Type 0
IsRising n [] = Unit
IsRising n (row ∷ rows) = (n ≤ row.row_index) × IsRising (row.row_index + 1) rows

-- The line at a position, counted from 0.
abbrev pub line_at :
    ℕ → List (List (Option String × Option String)) → Option (List (Option String × Option String))
line_at k [] = none
line_at zero (cells ∷ lines) = some cells
line_at (suc k) (cells ∷ lines) = line_at k lines

module _ (p : Platform) where
  -- The row has the number of a line of the manifest, whose first line has the number `n`, and the
  -- image that this line has.
  pub record IsOfLine (n : ℕ) (lines : List (List (Option String × Option String)))
      (row : ImportRow) : Type 0 where
    pub position : ℕ
    pub cells : List (Option String × Option String)
    pub found : line_at position lines ≡ some cells
    pub numbered : row.row_index ≡ position + n
    pub its_image : row.image_path ≡ get_text p "image_path" cells

  abbrev pub ParsedUsable : List (List (Option String × Option String)) → Parsed → Type 0
  ParsedUsable lines usage_error = Unit
  ParsedUsable lines (parsed rows issues) =
      All IsUsable rows × IsRising 2 rows × All (IsOfLine 2 lines) rows

  normalize_student_number_lem :
      (raw number : String)
      → normalize_student_number p raw ≡ done number
      → (str_eq number "" ≡ false) × (count number ≤ student_number_max_len)
  unfolding normalize_student_number check_student_number
  normalize_student_number_lem raw number h = ground arith

  normalize_manifest_pose_lem :
      (raw pose : String)
      → normalize_manifest_pose p raw ≡ done pose
      → (str_eq pose "" ≡ false) × (count pose ≤ manifest_pose_max_len)
  unfolding normalize_manifest_pose check_manifest_pose
  normalize_manifest_pose_lem raw pose h = ground arith

  -- A line that becomes a row becomes a usable one with the line's number.
  abbrev IsBoundAt : ℕ → String → LineOutcome → Type 0
  IsBoundAt n image blank = Unit
  IsBoundAt n image (issue i) = Unit
  IsBoundAt n image (bound row) = (row.row_index ≡ n) × IsUsable row × (row.image_path ≡ image)

  bind_pose-IsBoundAt :
      (n : ℕ) (number image raw : String) (pose : Attempt String)
      → str_eq number "" ≡ false
      → count number ≤ student_number_max_len
      → str_eq image "" ≡ false
      → ((label : String)
          → pose ≡ done label
          → (str_eq label "" ≡ false) × (count label ≤ manifest_pose_max_len))
      → IsBoundAt n image (bind_pose p n number image raw pose)
  unfolding bind_pose
  bind_pose-IsBoundAt n number image raw (failure detail) a b c h = tt
  bind_pose-IsBoundAt n number image raw (done label) a b c h = (
    refl,
    record {
      number = a;
      number_length = b;
      image = c;
      pose = (h label refl).0;
      pose_length = (h label refl).1;
    },
    refl,
  )

  bind_number-IsBoundAt :
      (n : ℕ) (student_raw image raw : String) (number : Attempt String)
      → ((ref : String)
          → number ≡ done ref
          → (str_eq ref "" ≡ false) × (count ref ≤ student_number_max_len))
      → IsBoundAt n image (bind_number p n student_raw image raw number)
  unfolding bind_number
  bind_number-IsBoundAt n student_raw image raw (failure detail) h = tt
  bind_number-IsBoundAt n student_raw image raw (done ref) h = elim (Bool-cases (str_eq image "")) [
    | inl empty ↦ rw empty tt
    | inr filled ↦ rw filled (
        bind_pose-IsBoundAt n ref image raw (normalize_manifest_pose p raw) (h ref refl).0
          (h ref refl).1 filled (normalize_manifest_pose_lem raw))
  ]

  read_line-IsBoundAt :
      (n : ℕ) (cells : List (Option String × Option String))
      → IsBoundAt n (get_text p "image_path" cells) (read_line p n cells)
  unfolding read_line
  read_line-IsBoundAt n cells =
      let student_raw = get_text p "student_number" cells in
      let image_raw = get_text p "image_path" cells in
      let pose_raw = get_text p "pose_label" cells in
      if_both (IsBoundAt n image_raw)
        (is_blank student_raw && is_blank image_raw && is_blank pose_raw) {x = blank} tt
        (bind_number-IsBoundAt n student_raw image_raw pose_raw
          (normalize_student_number p student_raw) (normalize_student_number_lem student_raw))

  IsRising-weaken : (m n : ℕ) (rows : List ImportRow) → m ≤ n → IsRising n rows → IsRising m rows
  IsRising-weaken m n [] h r = tt
  IsRising-weaken m n (row ∷ rows) h r = (omega (arith, r.0), r.1)

  IsOfLine-later :
      (n : ℕ) (cells : List (Option String × Option String))
      (lines : List (List (Option String × Option String))) (row : ImportRow)
      → IsOfLine (n + 1) lines row
      → IsOfLine n (cells ∷ lines) row
  IsOfLine-later n cells lines row h = record {
    position = suc h.position;
    cells = h.cells;
    found = h.found;
    numbered = omega (arith, h.numbered);
    its_image = h.its_image;
  }

  abbrev IsGood :
      ℕ → List (List (Option String × Option String)) → List ImportRow × List ParseIssue → Type 0
  IsGood n lines (rows, issues) = All IsUsable rows × IsRising n rows × All (IsOfLine n lines) rows

  add_line-IsGood :
      (n : ℕ) (cells : List (Option String × Option String))
      (lines : List (List (Option String × Option String))) (x : LineOutcome)
      (acc : List ImportRow × List ParseIssue)
      → IsBoundAt n (get_text p "image_path" cells) x
      → IsGood (n + 1) lines acc
      → IsGood n (cells ∷ lines) (add_line p x acc)
  unfolding add_line
  add_line-IsGood n cells lines blank (rows, issues) b (a, r, l) = (
    a,
    IsRising-weaken n (n + 1) rows (omega arith) r,
    All-imp _ _ rows (IsOfLine-later n cells lines) l,
  )
  add_line-IsGood n cells lines (issue i) (rows, issues) b (a, r, l) = (
    a,
    IsRising-weaken n (n + 1) rows (omega arith) r,
    All-imp _ _ rows (IsOfLine-later n cells lines) l,
  )
  add_line-IsGood n cells lines (bound row) (rows, issues) (e, u, image) (a, r, l) = (
    (u, a),
    (omega (arith, e), IsRising-weaken (row.row_index + 1) (n + 1) rows (omega (arith, e)) r),
    (
      record {
        position = 0;
        cells = cells;
        found = refl;
        numbered = omega (arith, e);
        its_image = image;
      },
      All-imp _ _ rows (IsOfLine-later n cells lines) l,
    ),
  )

  read_lines-IsGood :
      (n : ℕ) (lines : List (List (Option String × Option String)))
      → IsGood n lines (read_lines p n lines)
  unfolding read_lines
  read_lines-IsGood n [] = (tt, tt, tt)
  read_lines-IsGood n (cells ∷ lines) =
      add_line-IsGood n cells lines (read_line p n cells) (read_lines p (n + 1) lines)
        (read_line-IsBoundAt n cells) (read_lines-IsGood (n + 1) lines)

  -- Every row of a manifest has a student number and a pose label of 1 to 32 characters and an image
  -- path that is not empty. Its number is that of a line of the manifest with this image path, the
  -- first line after the header being number 2, and no two rows have the same number.
  pub parse_manifest-ParsedUsable :
      (detail : String) (m : Manifest) → ParsedUsable m.lines (parse_manifest p detail m)
  unfolding parse_manifest
  parse_manifest-ParsedUsable detail m =
      let good = read_lines-IsGood 2 m.lines in
      let fields = map (column p) m.fieldnames in
      if_both (ParsedUsable m.lines) (all_blank fields) {x = usage_error} tt (
        if_both (ParsedUsable m.lines)
          (not
            (all_known fields && has_text "student_number" fields && has_text "image_path" fields))
          {x = usage_error} tt (if_both (ParsedUsable m.lines) (has_duplicates fields) good good))
