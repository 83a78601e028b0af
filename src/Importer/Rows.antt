-- ===== src/Importer/Rows.antt =====
-- The row loop of `_run_import_async`, from the identity of a row to its journal record.
pub mod Balance
pub mod Store
pub mod Resume
use Prim.Native.String.{◌++◌ as text_append}
use text.Mathlib.Text.{◌==◌ as str_eq}
use attendence_v.Prelude.{
  ℕ, suc, ◌+◌, String, Bool, true, false, ◌&&◌, not, Option, none, some, List, [], ◌∷◌, ◌++◌,
  if◌then◌else◌,
}
use attendence_v.Prelude.Double.{Double, ltb_double}
use attendence_v.Storage.{Db, Session, Platform, Error, Result, ok, raised}
use attendence_v.Storage.Models.{Student, StudentEmbedding}
use attendence_v.Templates.Gates.{
  Images, Extraction, template, no_face, unavailable, failed, is_too_small,
}
use attendence_v.Importer.Inputs.{ImportRow, Attempt, done, failure}
use attendence_v.Importer.Paths.{Files, read_image}
use attendence_v.Importer.Retry.{extract_with_retry}
use attendence_v.Importer.Upsert.{
  Upserted, skipped_active_exists, imported, rotated, upsert_template,
}

-- `REJECT_REASON_CODES`
pub data RejectReason : Type 0 where
  unreadable no_face_found low_quality unknown_ref inactive_student invalid_row : RejectReason

unfoldable pub same_reason : RejectReason → RejectReason → Bool
same_reason unreadable unreadable = true
same_reason no_face_found no_face_found = true
same_reason low_quality low_quality = true
same_reason unknown_ref unknown_ref = true
same_reason inactive_student inactive_student = true
same_reason invalid_row invalid_row = true
same_reason c c' = false

pub record Summary : Type 0 where
  pub total_rows : ℕ
  pub imported : ℕ
  pub rotated : ℕ
  pub would_import : ℕ
  pub skipped_resumed : ℕ
  pub skipped_active_exists : ℕ
  pub duplicate_image_warnings : ℕ
  pub db_errors : ℕ
  pub extraction_errors : ℕ
  pub ignored_files : ℕ
  pub rejected : RejectReason → ℕ

-- A line of reasons.csv.
pub record Reject : Type 0 where
  pub student_number : String
  pub image_path : String
  pub pose_label : String
  pub reason_code : RejectReason
  pub detail : String
  pub quality_score : Option Double

-- A line of the journal.
pub record JournalRecord : Type 0 where
  pub student_number : String
  pub image_sha256 : String
  pub pose_label : String
  pub embedding_row_id : ℕ

-- What a run has done so far: its counters, what it appended to reasons.csv and to the journal,
-- the first student of each image, and the committed rows.
pub record Run : Type 0 where
  pub summary : Summary
  pub rejects : List Reject
  pub journal : List JournalRecord
  pub seen_hashes : List (String × String)
  pub db : Db

-- The loop goes on, or ImportInfraError ends it.
pub data Step : Type 0 where
  next : Run → Step
  aborted : Run → Step

pub record Settings : Type 0 where
  pub dry_run : Bool
  pub overwrite : Bool
  pub template_version : ℕ
  pub run_id : String
  pub min_quality : Double
  pub photos_dir : String
  pub roster : List Student
  pub journaled : List (String × String)

-- What the importer runs on: the files, Pillow, SHA-256, the pipeline's extraction for a row and an
-- attempt, the generated identifiers, and the texts of a score and of an exception.
pub record Surroundings (Tensor : Type 0) : Type 0 where
  pub files : Files
  pub images : Images Tensor
  pub sha256 : List ℕ → String
  pub extract : ℕ → Tensor → ℕ → Extraction
  pub new_id : ℕ → ℕ
  pub four_decimals : Double → String
  pub undecodable : List ℕ → String
  pub is_integrity : Db → Bool

-- The session that `_upsert_template` opens.
abbrev pub session_on : Db → Session
session_on d = record { committed = d; working = d }

-- The next rows, unless the run has ended.
unfoldable pub continue : (Run → Step) → Step → Step
continue rest (next run) = rest run
continue rest (aborted run) = aborted run

unfoldable pub count_reason : RejectReason → (RejectReason → ℕ) → RejectReason → ℕ
count_reason c rejected c' = if same_reason c c' then suc (rejected c') else rejected c'

unfoldable pub count_row : Run → Run
count_row run = record run {
  summary = record run.summary { total_rows = run.summary.total_rows + 1 };
}

unfoldable pub reject : Reject → Run → Run
reject r run = record run {
  summary = record run.summary { rejected = count_reason r.reason_code run.summary.rejected };
  rejects = run.rejects ++ r ∷ [];
}

-- `roster.get(number)`: of two students with one number the later.
unfoldable pub roster_entry : String → List Student → Option Student
roster_entry number [] = none
roster_entry number (student ∷ students) = elim (roster_entry number students) [
  | some later ↦ some later
  | none ↦ if str_eq number student.student_number then some student else none
]

-- `(number, digest) in journaled`
unfoldable pub is_journaled : String → String → List (String × String) → Bool
is_journaled number digest [] = false
is_journaled number digest ((n, h) ∷ keys) =
    if str_eq number n && str_eq digest h then true else is_journaled number digest keys

unfoldable pub first_owner : String → List (String × String) → Option String
first_owner digest [] = none
first_owner digest ((h, number) ∷ seen) =
    if str_eq digest h then some number else first_owner digest seen

-- The warning and `setdefault`, for the owner that `seen_hashes` has.
unfoldable pub note_image : String → String → Option String → Run → Run
note_image digest number none run = record run {
  seen_hashes = run.seen_hashes ++ (digest, number) ∷ [];
}
note_image digest number (some owner) run = if str_eq owner number then run else record run {
  summary = record run.summary {
    duplicate_image_warnings = run.summary.duplicate_image_warnings + 1;
  };
}

module _ {Tensor : Type 0} (on : Surroundings Tensor) where
  unfoldable pub check_tensor : List ℕ → Option Tensor → Attempt Tensor
  check_tensor bytes none = failure (on.undecodable bytes)
  check_tensor bytes (some tensor) =
      if is_too_small (on.images.shape tensor)
      then failure "image dimensions are too small for enrollment."
      else done tensor

  unfoldable pub decode_image_bytes : List ℕ → Attempt Tensor
  unfolding check_tensor
  decode_image_bytes bytes = check_tensor bytes (on.images.open_rgb bytes)

  module _ (settings : Settings) (p : Platform) (row : ImportRow) where
    open settings use {
      dry_run, overwrite, template_version, run_id, min_quality, photos_dir, roster, journaled,
    }

    abbrev pub rejection : RejectReason → String → Option Double → Reject
    rejection code detail quality = record {
      student_number = row.student_number;
      image_path = row.image_path;
      pose_label = row.pose_label;
      reason_code = code;
      detail = detail;
      quality_score = quality;
    }

    abbrev pub imported_row : Student → List Double → Double → StudentEmbedding
    imported_row student embedding quality = record {
      id = on.new_id row.row_index;
      student_id = student.id;
      embedding = embedding;
      pose_label = row.pose_label;
      quality_score = quality;
      is_active = true;
      template_version = some template_version;
    }

    abbrev pub journal_record : String → ℕ → JournalRecord
    journal_record digest k = record {
      student_number = row.student_number;
      image_sha256 = digest;
      pose_label = row.pose_label;
      embedding_row_id = k;
    }

    -- An import that was committed is counted, and journaled.
    unfoldable pub record_import : String → ℕ → Run → Run
    record_import digest k run = record run {
      summary = record run.summary { imported = run.summary.imported + 1 };
      journal = run.journal ++ journal_record digest k ∷ [];
    }

    unfoldable pub after_upsert : String → Run → Result Upserted → Run
    after_upsert digest run (raised x) = record run {
      summary = record run.summary { db_errors = run.summary.db_errors + 1 };
    }
    after_upsert digest run (ok skipped_active_exists) = record run {
      summary = record run.summary {
        skipped_active_exists = run.summary.skipped_active_exists + 1;
      };
    }
    after_upsert digest run (ok (imported k)) = record_import digest k run
    after_upsert digest run (ok (rotated k)) =
        record_import digest k
          (record run { summary = record run.summary { rotated = run.summary.rotated + 1 } })

    -- What is committed stays, whether the upsert returned or raised.
    unfoldable pub store_import : String → StudentEmbedding → Run → Run
    store_import digest e run =
        let (r, s) = upsert_template p run_id overwrite e on.is_integrity (session_on run.db) in
        after_upsert digest (record run { db = s.committed }) r

    abbrev pub below_minimum : Double → String
    below_minimum quality = text_append "quality_score=" (
        text_append (on.four_decimals quality)
          (text_append " below ATTENDANCE_ENROLLMENT_MIN_QUALITY=" (on.four_decimals min_quality)))

    unfoldable pub gate_quality : String → Student → List Double → Double → Run → Run
    gate_quality digest student embedding quality run =
        if ltb_double quality min_quality
        then reject (rejection low_quality (below_minimum quality) (some quality)) run
        else if dry_run
        then record run {
          summary = record run.summary { would_import = run.summary.would_import + 1 };
        }
        else store_import digest (imported_row student embedding quality) run

    unfoldable pub use_extraction : String → Student → Run → Option Extraction → Step
    use_extraction digest student run none = aborted run
    use_extraction digest student run (some no_face) =
        next (reject (rejection no_face_found "detector found zero faces in the image" none) run)
    use_extraction digest student run (some (template embedding quality)) =
        next (gate_quality digest student embedding quality run)
    use_extraction digest student run (some other) = next (record run {
      summary = record run.summary { extraction_errors = run.summary.extraction_errors + 1 };
    })

    unfoldable pub use_tensor : String → Student → Run → Attempt Tensor → Step
    use_tensor digest student run (failure detail) =
        next (reject (rejection unreadable detail none) run)
    use_tensor digest student run (done tensor) =
        use_extraction digest student run (extract_with_retry (on.extract row.row_index tensor))

    unfoldable pub use_bytes : Student → Run → Attempt (List ℕ) → Step
    use_bytes student run (failure detail) = next (reject (rejection unreadable detail none) run)
    use_bytes student run (done bytes) =
        let digest = on.sha256 bytes in
        if is_journaled row.student_number digest journaled
        then next (record run {
          summary = record run.summary { skipped_resumed = run.summary.skipped_resumed + 1 };
        })
        else use_tensor digest student
            (note_image digest row.student_number (first_owner digest run.seen_hashes) run)
            (decode_image_bytes bytes)

    unfoldable pub identify : Run → Option Student → Step
    identify run none =
        next (reject (rejection unknown_ref "no student with this student_number" none) run)
    identify run (some student) =
        if not student.is_active
        then next (
            reject
              (rejection inactive_student "student exists but is deactivated (is_active=False)"
                none)
              run)
        else use_bytes student run (read_image on.files photos_dir row.image_path)

    -- The body of the loop.
    unfoldable pub import_row : Run → Step
    import_row run = identify (count_row run) (roster_entry row.student_number roster)

  module _ (settings : Settings) (p : Platform) where
    unfoldable pub import_rows : List ImportRow → Run → Step
    unfolding continue
    import_rows [] run = next run
    import_rows (row ∷ rows) run = continue (import_rows rows) (import_row settings p row run)
