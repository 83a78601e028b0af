-- ===== src/Importer/Inputs.antt =====
-- What the importer reads before it touches an image: the rows of a manifest, or the files of a
-- folder.
pub mod Usable
use Prim.Native.String.{count}
use text.Mathlib.Text.{◌==◌ as str_eq}
use attendence_v.Prelude.{
  ℕ, ◌+◌, String, Bool, true, false, ◌&&◌, ◌||◌, not, Option, none, some, List, [], ◌∷◌, ◌++◌, map,
  if◌then◌else◌, ltb, length,
}
use attendence_v.Storage.{Platform}
use attendence_v.Audit.{has_text}
use attendence_v.Templates.Gates.{text_or}

pub record ImportRow : Type 0 where
  pub row_index : ℕ
  pub student_number : String
  pub image_path : String
  pub pose_label : String

-- The row number of an issue is always given.
pub record ParseIssue : Type 0 where
  pub row_index : ℕ
  pub student_number : String
  pub image_path : String
  pub pose_label : String
  pub detail : String

-- A value, or an exception with its text.
pub data Attempt (A : Type 0) : Type 0 where
  done : A → Attempt A
  failure : String → Attempt A

abbrev pub student_number_max_len : ℕ
student_number_max_len = 32

abbrev pub manifest_pose_max_len : ℕ
manifest_pose_max_len = 32

-- A CSV file as `csv.DictReader` gives it: the header's names, and the cells of each line under
-- their keys, with no text where a value is missing or a list.
pub record Manifest : Type 0 where
  pub fieldnames : List (Option String)
  pub lines : List (List (Option String × Option String))

pub data Parsed : Type 0 where
  usage_error : Parsed
  parsed : List ImportRow → List ParseIssue → Parsed

-- What a line of the manifest is.
pub data LineOutcome : Type 0 where
  blank : LineOutcome
  issue : ParseIssue → LineOutcome
  bound : ImportRow → LineOutcome

-- A directory entry as pathlib shows it.
pub record Entry : Type 0 where
  pub name : String
  pub is_file : Bool
  pub suffix : String
  pub stem : String

pub record Unbindable : Type 0 where
  pub filename : String
  pub student_number : String
  pub detail : String

pub record Scanned : Type 0 where
  pub rows : List ImportRow
  pub unbindable : List Unbindable
  pub ignored_files : ℕ

abbrev pub known_columns : List String
known_columns = "student_number" ∷ "image_path" ∷ "pose_label" ∷ []

abbrev pub valid_image_extensions : List String
valid_image_extensions = ".jpg" ∷ ".jpeg" ∷ ".png" ∷ []

abbrev pub is_blank : String → Bool
is_blank s = str_eq s ""

-- `len(xs) != len(set(xs))`
unfoldable pub has_duplicates : List String → Bool
has_duplicates [] = false
has_duplicates (x ∷ xs) = has_text x xs || has_duplicates xs

-- `set(xs) <= known_columns`
unfoldable pub all_known : List String → Bool
all_known [] = true
all_known (x ∷ xs) = has_text x known_columns && all_known xs

unfoldable pub all_blank : List String → Bool
all_blank [] = true
all_blank (x ∷ xs) = is_blank x && all_blank xs

module _ (p : Platform) where
  unfoldable pub check_student_number : String → Attempt String
  check_student_number ref =
      if is_blank ref
      then failure "student_number must not be blank."
      else if ltb student_number_max_len (count ref)
      then failure "student_number must be at most 32 characters long."
      else done ref

  unfoldable pub normalize_student_number : String → Attempt String
  unfolding check_student_number
  normalize_student_number raw = check_student_number (p.strip raw)

  unfoldable pub check_manifest_pose : String → Attempt String
  check_manifest_pose pose =
      if is_blank pose
      then failure "pose_label must not be blank."
      else if ltb manifest_pose_max_len (count pose)
      then failure "pose_label must be at most 32 characters long."
      else done pose

  -- The importer's `normalize_pose_label`.
  unfoldable pub normalize_manifest_pose : String → Attempt String
  unfolding check_manifest_pose
  normalize_manifest_pose raw = check_manifest_pose (p.lower (p.strip (text_or "front" (some raw))))

  abbrev pub column : Option String → String
  column name = p.strip (text_or "" name)

  abbrev pub cell_text : Option String → String
  cell_text none = ""
  cell_text (some v) = p.strip v

  -- `values.get(name)`: of two cells under one key the later is kept.
  unfoldable pub last_value : String → List (Option String × Option String) → Option String
  last_value name [] = none
  last_value name ((key, v) ∷ cells) = elim (last_value name cells) [
    | some later ↦ some later
    | none ↦ if str_eq (column key) name then some (cell_text v) else none
  ]

  abbrev pub get_text : String → List (Option String × Option String) → String
  get_text name cells = text_or "" (last_value name cells)

  unfoldable pub bind_pose : ℕ → String → String → String → Attempt String → LineOutcome
  bind_pose lineno number image pose_raw (failure detail) = issue (record {
    row_index = lineno;
    student_number = number;
    image_path = image;
    pose_label = pose_raw;
    detail = detail;
  })
  bind_pose lineno number image pose_raw (done pose) = bound (record {
    row_index = lineno;
    student_number = number;
    image_path = image;
    pose_label = pose;
  })

  unfoldable pub bind_number : ℕ → String → String → String → Attempt String → LineOutcome
  unfolding bind_pose
  bind_number lineno student_raw image pose_raw (failure detail) = issue (record {
    row_index = lineno;
    student_number = student_raw;
    image_path = image;
    pose_label = pose_raw;
    detail = detail;
  })
  bind_number lineno student_raw image pose_raw (done number) =
      if is_blank image
      then issue (record {
        row_index = lineno;
        student_number = number;
        image_path = "";
        pose_label = pose_raw;
        detail = "image_path must not be blank.";
      })
      else bind_pose lineno number image pose_raw (normalize_manifest_pose pose_raw)

  -- The body of the loop over the lines.
  unfoldable pub read_line : ℕ → List (Option String × Option String) → LineOutcome
  unfolding bind_number
  read_line lineno cells =
      let student_raw = get_text "student_number" cells in
      let image_raw = get_text "image_path" cells in
      let pose_raw = get_text "pose_label" cells in
      if is_blank student_raw && is_blank image_raw && is_blank pose_raw
      then blank
      else bind_number lineno student_raw image_raw pose_raw (normalize_student_number student_raw)

  unfoldable pub add_line :
      LineOutcome → List ImportRow × List ParseIssue → List ImportRow × List ParseIssue
  add_line blank (rows, issues) = (rows, issues)
  add_line (issue i) (rows, issues) = (rows, i ∷ issues)
  add_line (bound row) (rows, issues) = (row ∷ rows, issues)

  unfoldable pub read_lines :
      ℕ → List (List (Option String × Option String)) → List ImportRow × List ParseIssue
  read_lines lineno [] = ([], [])
  read_lines lineno (cells ∷ lines) =
      add_line (read_line lineno cells) (read_lines (lineno + 1) lines)

  abbrev pub duplicate_issue : String → ParseIssue
  duplicate_issue detail = record {
    row_index = 1;
    student_number = "";
    image_path = "";
    pose_label = "";
    detail = detail;
  }

  -- `parse_manifest`; `detail` is the text on duplicate columns.
  unfoldable pub parse_manifest : String → Manifest → Parsed
  parse_manifest detail m =
      let fields = map column m.fieldnames in
      let (rows, issues) = read_lines 2 m.lines in
      if all_blank fields
      then usage_error
      else if not
          (all_known fields && has_text "student_number" fields && has_text "image_path" fields)
      then usage_error
      else if has_duplicates fields
      then parsed rows (duplicate_issue detail ∷ issues)
      else parsed rows issues

  -- `partition` is `stem.partition("__")` where "__" is in the stem.
  module _ (partition : String → Option (String × String)) where
    abbrev pub ref_and_pose : String → Option (String × String) → String × String
    ref_and_pose stem none = (stem, "front")
    ref_and_pose stem (some (ref_raw, pose_raw)) = (ref_raw, pose_raw)

    unfoldable pub bind_entry : Entry → String → Attempt String → Attempt String → Scanned → Scanned
    bind_entry entry ref_raw (done number) (done pose) acc = record acc {
      rows =
          acc.rows
          ++ record {
            row_index = length acc.rows + 1;
            student_number = number;
            image_path = entry.name;
            pose_label = pose;
          }
            ∷ [];
    }
    bind_entry entry ref_raw (failure detail) pose acc = record acc {
      unbindable =
          acc.unbindable
          ++ record { filename = entry.name; student_number = p.strip ref_raw; detail = detail }
            ∷ [];
    }
    bind_entry entry ref_raw (done number) (failure detail) acc = record acc {
      unbindable =
          acc.unbindable
          ++ record { filename = entry.name; student_number = p.strip ref_raw; detail = detail }
            ∷ [];
    }

    unfoldable pub scan_entry : Entry → Scanned → Scanned
    unfolding bind_entry
    scan_entry entry acc =
        let (ref_raw, pose_raw) = ref_and_pose entry.stem (partition entry.stem) in
        if not entry.is_file
        then acc
        else if not (has_text (p.lower entry.suffix) valid_image_extensions)
        then record acc { ignored_files = acc.ignored_files + 1 }
        else bind_entry entry ref_raw (normalize_student_number ref_raw)
            (normalize_manifest_pose pose_raw) acc

    unfoldable pub scan_entries : List Entry → Scanned → Scanned
    scan_entries [] acc = acc
    scan_entries (entry ∷ entries) acc = scan_entries entries (scan_entry entry acc)

    -- `scan_folder`, on the sorted entries.
    unfoldable pub scan_folder : List Entry → Scanned
    scan_folder entries =
        scan_entries entries (record { rows = []; unbindable = []; ignored_files = 0 })
