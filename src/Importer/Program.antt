-- ===== src/Importer/Program.antt =====
-- `_run_import_async` as a whole, and the exit code of `main`.
pub mod Whole
use Prim.Native.String.{◌++◌ as text_append}
use attendence_v.Prelude.{
  ℕ, zero, suc, ◌+◌, String, Bool, true, false, not, ◌||◌, Option, none, some, List, [], ◌∷◌,
  if◌then◌else◌,
}
use attendence_v.Prelude.Double.{ℤ, pos, negsuc, Double}
use attendence_v.Storage.{Db, Platform}
use attendence_v.Storage.Models.{Student}
use attendence_v.Templates.Gates.{
  Python, Threshold, minimum, misconfigured, resolve_enrollment_min_quality,
}
use attendence_v.Importer.Inputs.{
  ImportRow, ParseIssue, Manifest, Parsed, usage_error, parsed, Entry, Unbindable, Scanned,
  parse_manifest, scan_folder,
}
use attendence_v.Importer.Paths.{is_within}
use attendence_v.Importer.Rows.{
  Summary, Reject, Run, Step, next, aborted, Settings, Surroundings, unknown_ref, invalid_row,
  count_row, reject, import_rows,
}

-- The arguments, the environment, and what the disk has at the paths: the manifest is no argument,
-- a path without a file, or a file.
pub record Args : Type 0 where
  pub photos_is_dir : Bool
  pub photos_dir : String
  pub out_dir : String
  pub entries : List Entry
  pub manifest : Option (Option Manifest)
  pub duplicate_detail : String
  pub dry_run : Bool
  pub overwrite : Bool
  pub template_version : ℤ
  pub min_quality_env : Option String
  pub has_database_url : Bool
  pub run_id : String
  pub journal_lines : List (Option (String × String))

pub data Inputs : Type 0 where
  usage : Inputs
  inputs : List ImportRow → List ParseIssue → List Unbindable → ℕ → Inputs

pub data Outcome : Type 0 where
  completed : Run → Outcome
  usage_failure : Outcome
  infra_failure : Run → Outcome

unfoldable pub empty_summary : ℕ → Summary
empty_summary ignored = record {
  total_rows = 0;
  imported = 0;
  rotated = 0;
  would_import = 0;
  skipped_resumed = 0;
  skipped_active_exists = 0;
  duplicate_image_warnings = 0;
  db_errors = 0;
  extraction_errors = 0;
  ignored_files = ignored;
  rejected = λ c. 0;
}

unfoldable pub empty_run : ℕ → Db → Run
empty_run ignored d = record {
  summary = empty_summary ignored;
  rejects = [];
  journal = [];
  seen_hashes = [];
  db = d;
}

abbrev pub issue_reject : ParseIssue → Reject
issue_reject i = record {
  student_number = i.student_number;
  image_path = i.image_path;
  pose_label = i.pose_label;
  reason_code = invalid_row;
  detail = i.detail;
  quality_score = none;
}

unfoldable pub reject_issues : List ParseIssue → Run → Run
reject_issues [] run = run
reject_issues (i ∷ issues) run = reject_issues issues (reject (issue_reject i) (count_row run))

abbrev pub unbindable_reject : Unbindable → Reject
unbindable_reject u = record {
  student_number = u.student_number;
  image_path = u.filename;
  pose_label = "";
  reason_code = unknown_ref;
  detail = text_append "filename does not match <student_number>[__<pose>].jpg: " u.detail;
  quality_score = none;
}

unfoldable pub reject_unbindable : List Unbindable → Run → Run
reject_unbindable [] run = run
reject_unbindable (u ∷ rest) run =
    reject_unbindable rest (reject (unbindable_reject u) (count_row run))

-- `load_journal`, on the lines as parsed: a corrupt one is skipped.
unfoldable pub load_journal : List (Option (String × String)) → List (String × String)
load_journal [] = []
load_journal (none ∷ lines) = load_journal lines
load_journal (some key ∷ lines) = key ∷ load_journal lines

-- The positive version, if it is one.
abbrev pub positive : ℤ → Option ℕ
positive (pos zero) = none
positive (pos (suc n)) = some (suc n)
positive (negsuc n) = none

unfoldable pub from_parsed : Parsed → Inputs
from_parsed usage_error = usage
from_parsed (parsed rows issues) = inputs rows issues [] 0

module _ {Tensor : Type 0} (on : Surroundings Tensor) (p : Platform) where
  -- The issues, the files that bind to nobody, and the rows.
  unfoldable pub import_inputs :
      Settings → List ImportRow → List ParseIssue → List Unbindable → ℕ → Db → Step
  import_inputs settings rows issues unbindable ignored d =
      import_rows on settings p rows
        (reject_unbindable unbindable (reject_issues issues (empty_run ignored d)))

  unfoldable pub outcome_of : Step → Outcome
  outcome_of (next run) = completed run
  outcome_of (aborted run) = infra_failure run

  module _ (python : Python) (partition : String → Option (String × String)) (args : Args) where
    unfoldable pub read_inputs : Option (Option Manifest) → Inputs
    read_inputs none =
        let scanned = scan_folder p partition args.entries in
        inputs scanned.rows [] scanned.unbindable scanned.ignored_files
    read_inputs (some none) = usage
    read_inputs (some (some m)) = from_parsed (parse_manifest p args.duplicate_detail m)

    unfoldable pub run_inputs : ℕ → Double → Inputs → Db → Outcome
    run_inputs version least usage d = usage_failure
    run_inputs version least (inputs rows issues unbindable ignored) d = outcome_of (
        import_inputs
          (record {
            dry_run = args.dry_run;
            overwrite = args.overwrite;
            template_version = version;
            run_id = args.run_id;
            min_quality = least;
            photos_dir = args.photos_dir;
            roster = d.students;
            journaled = load_journal args.journal_lines;
          })
          rows issues unbindable ignored d)

    unfoldable pub check_minimum_and_run : ℕ → Threshold → Db → Outcome
    check_minimum_and_run version misconfigured d = usage_failure
    check_minimum_and_run version (minimum least) d =
        if not args.has_database_url
        then usage_failure
        else run_inputs version least (read_inputs args.manifest) d

    unfoldable pub check_version_and_run : Option ℕ → Db → Outcome
    check_version_and_run none d = usage_failure
    check_version_and_run (some version) d =
        check_minimum_and_run version (resolve_enrollment_min_quality p python args.min_quality_env)
          d

    -- `_run_import_async`, over the committed rows.
    unfoldable pub run_import : Db → Outcome
    run_import d =
        if not args.photos_is_dir
          || is_within (on.files.resolve args.photos_dir) (on.files.resolve args.out_dir)
        then usage_failure
        else check_version_and_run (positive args.template_version) d

-- `main`
unfoldable pub exit_code : Outcome → ℕ
exit_code (completed run) = 0
exit_code usage_failure = 2
exit_code (infra_failure run) = 3
