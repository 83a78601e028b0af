-- ===== src/Importer/Tests.antt =====
-- One photo of student 5, imported and resumed.
use text.Mathlib.Text.{◌==◌ as str_eq}
use attendence_v.Prelude.{
  ℕ, ◌≡◌, ◌≢◌, refl, false, true, none, some, String, List, [], ◌∷◌, ◌++◌, if◌then◌else◌, ◌==◌,
}
use attendence_v.Prelude.Double.{half_double}
use attendence_v.Storage.{with_commit, flush, commit}
use attendence_v.Fixtures.{plain, class_db}
use attendence_v.Templates.Store.{actives}
use attendence_v.Templates.Gates.{Extraction, template, unavailable, is_too_small}
use attendence_v.Templates.Rotation.{Gallery, Represents}
use attendence_v.Importer.Inputs.{ImportRow, Manifest, done, parse_manifest}
use attendence_v.Importer.Inputs.Usable.{ParsedUsable, parse_manifest-ParsedUsable}
use attendence_v.Importer.Paths.{
  Files, read_image, read_resolved, resolve_image_path, check_within, is_within,
  read_image-contained,
}
use attendence_v.Importer.Retry.{
  extract_with_retry, attempt_from, after_attempt, extract_with_retry_lem,
}
use attendence_v.Importer.Upsert.{
  upsert_template, settle_import, skip_or_write, write_import, insert_import,
}
use attendence_v.Importer.Rows.{
  Run, next, JournalRecord, Settings, Surroundings, import_row, identify, use_bytes, use_tensor,
  use_extraction, gate_quality, store_import, after_upsert, record_import, note_image, first_owner,
  count_row, is_journaled, roster_entry, decode_image_bytes, check_tensor,
}
use attendence_v.Importer.Rows.Balance.{StepBalanced}
use attendence_v.Importer.Rows.Store.{StepReached}
use attendence_v.Importer.Rows.Resume.{journal_of, resumed, import_row_resumes}
use attendence_v.Importer.Program.{empty_run, import_inputs}
use attendence_v.Importer.Program.Whole.{import_inputs-StepBalanced, import_inputs-StepReached}

abbrev disk : Files
disk = record {
  is_absolute = λ s. false;
  resolve = λ s. if str_eq s "in" then "in" ∷ [] else "in" ∷ s ∷ [];
  joined = λ dir s. s;
  escapes = λ s. "path escapes photos directory";
  read_bytes = λ path. done (137 ∷ 80 ∷ []);
}

abbrev on : Surroundings (List ℕ)
on = record {
  files = disk;
  images = record { open_rgb = λ bytes. some bytes; shape = λ t. 8 ∷ 8 ∷ 3 ∷ [] };
  sha256 = λ bytes. "digest";
  extract = λ index t attempt. template (half_double ∷ []) half_double;
  new_id = λ index. 40;
  four_decimals = λ d. "0.5000";
  undecodable = λ bytes. "not a decodable image";
  is_integrity = λ d. true;
}

abbrev settings : Settings
settings = record {
  dry_run = false;
  overwrite = false;
  template_version = 1;
  run_id = "run";
  min_quality = half_double;
  photos_dir = "in";
  roster = class_db.students;
  journaled = [];
}

abbrev photo : ImportRow
photo = record { row_index = 2; student_number = "S5"; image_path = "a.jpg"; pose_label = "front" }

abbrev start : Run
start = empty_run 0 class_db

abbrev nobody : Gallery
nobody k pose = none

class-Represents : Represents class_db nobody
unfolding actives
class-Represents = record { at = λ k pose. refl }

abbrev journaled_photo : JournalRecord
journaled_photo = record {
  student_number = "S5";
  image_sha256 = "digest";
  pose_label = "front";
  embedding_row_id = 40;
}

abbrev rerun : Settings
rerun = record settings { journaled = ("S5", "digest") ∷ [] }

photo_is_journaled :
    journal_of (import_row on settings plain photo start) ≡ [] ++ journaled_photo ∷ []
unfolding import_row identify use_bytes use_tensor use_extraction gate_quality store_import
    after_upsert record_import note_image first_owner count_row is_journaled roster_entry
    decode_image_bytes check_tensor read_image read_resolved resolve_image_path check_within
    is_within extract_with_retry attempt_from after_attempt upsert_template settle_import
    skip_or_write write_import insert_import with_commit flush commit is_too_small empty_run actives
photo_is_journaled = refl

rerun_knows : is_journaled "S5" "digest" rerun.journaled ≡ true
unfolding is_journaled
rerun_knows = refl

import_row_resumes_example : import_row on rerun plain photo start ≡ next (resumed start)
unfolding empty_run
import_row_resumes_example =
    import_row_resumes on settings plain photo start start journaled_photo rerun photo_is_journaled
      refl refl rerun_knows

import_inputs-StepBalanced_example :
    StepBalanced 1 (import_inputs on plain settings (photo ∷ []) [] [] 0 class_db)
import_inputs-StepBalanced_example =
    import_inputs-StepBalanced on plain settings (photo ∷ []) [] [] 0 class_db

import_inputs-StepReached_example :
    StepReached settings class_db nobody
      (import_inputs on plain settings (photo ∷ []) [] [] 0 class_db)
import_inputs-StepReached_example =
    import_inputs-StepReached on plain settings (photo ∷ []) [] [] 0 class_db nobody
      class-Represents

photo_is_read : read_image disk "in" "a.jpg" ≡ done (137 ∷ 80 ∷ [])
unfolding read_image read_resolved resolve_image_path check_within is_within
photo_is_read = refl

read_image-contained_example :
    (rest : List String) × (disk.read_bytes (disk.resolve "in" ++ rest) ≡ done (137 ∷ 80 ∷ []))
read_image-contained_example = read_image-contained disk "in" "a.jpg" (137 ∷ 80 ∷ []) photo_is_read

-- The server answers at the second attempt.
abbrev second_time : ℕ → Extraction
second_time attempt = if attempt == 0 then unavailable else template [] half_double

extract_with_retry_example :
    (extract_with_retry second_time ≡ none
      → (second_time 0 ≡ unavailable)
        × (second_time 1 ≡ unavailable)
        × (second_time 2 ≡ unavailable))
    × (second_time 0 ≡ unavailable
        → second_time 1 ≡ unavailable
        → second_time 2 ≡ unavailable
        → extract_with_retry second_time ≡ none)
    × (second_time 0 ≢ unavailable → extract_with_retry second_time ≡ some (second_time 0))
    × (second_time 0 ≡ unavailable
        → second_time 1 ≢ unavailable
        → extract_with_retry second_time ≡ some (second_time 1))
    × (second_time 0 ≡ unavailable
        → second_time 1 ≡ unavailable
        → second_time 2 ≢ unavailable
        → extract_with_retry second_time ≡ some (second_time 2))
extract_with_retry_example = extract_with_retry_lem second_time

abbrev manifest : Manifest
manifest = record {
  fieldnames = some "student_number" ∷ some "image_path" ∷ [];
  lines = ((some "student_number", some "S5") ∷ (some "image_path", some "a.jpg") ∷ []) ∷ [];
}

parse_manifest-ParsedUsable_example :
    ParsedUsable plain manifest.lines (parse_manifest plain "duplicate" manifest)
parse_manifest-ParsedUsable_example = parse_manifest-ParsedUsable plain "duplicate" manifest
