-- ===== src/Importer/Rows/Resume.antt =====
-- A row that was journaled is skipped by every later run.
use text.Mathlib.Text.{◌==◌ as str_eq}
use attendence_v.Prelude.{
  ℕ, ◌+◌, ◌≡◌, ◌⊎◌, refl, sym, ap, subst, ◌∙◌, true, Option, none, some, List, [], ◌∷◌, ◌++◌,
  String, arith, length, length-append, Bool-cases, inl, inr, if_both,
}
use attendence_v.Prelude.Double.{Double, ltb_double}
use attendence_v.Storage.{Platform, Result, ok, raised}
use attendence_v.Storage.Models.{Student}
use attendence_v.Templates.Gates.{Extraction, template, no_face, unavailable, failed}
use attendence_v.Importer.Inputs.{ImportRow, Attempt, done, failure}
use attendence_v.Importer.Paths.{read_image}
use attendence_v.Importer.Upsert.{Upserted, skipped_active_exists, imported, rotated}
use attendence_v.Importer.Rows.{
  JournalRecord, Run, Step, next, aborted, Settings, Surroundings, count_row, reject, note_image,
  first_owner, record_import, after_upsert, store_import, journal_record, gate_quality,
  use_extraction, use_tensor, use_bytes, identify, import_row, is_journaled, decode_image_bytes,
  roster_entry,
}

abbrev pub journal_of : Step → List JournalRecord
journal_of (next run) = run.journal
journal_of (aborted run) = run.journal

-- A row that is only counted, as resumed.
abbrev pub resumed : Run → Run
resumed run = record run {
  summary = record run.summary {
    total_rows = run.summary.total_rows + 1;
    skipped_resumed = run.summary.skipped_resumed + 1;
  };
}

snoc_injective : {A : Type 0} (xs : List A) (x y : A) → xs ++ x ∷ [] ≡ xs ++ y ∷ [] → x ≡ y
snoc_injective [] x y h = ground arith
snoc_injective (z ∷ zs) x y h = snoc_injective zs x y (ground arith)

module _ {Tensor : Type 0} (on : Surroundings Tensor) (settings : Settings) (p : Platform)
    (row : ImportRow) where
  open settings use {roster, photos_dir, min_quality, dry_run}

  -- The journal of a step: as it was, or with one record of the row and the digest.
  abbrev Logs : String → List JournalRecord → List JournalRecord → Type 0
  Logs digest before after =
      (after ≡ before)
      ⊎ ((k : ℕ) × (after ≡ before ++ journal_record on settings p row digest k ∷ []))

  after_upsert-Logs :
      (digest : String) (run : Run) (r : Result Upserted)
      → Logs digest run.journal (after_upsert on settings p row digest run r).journal
  unfolding after_upsert record_import
  after_upsert-Logs digest run (raised x) = inl refl
  after_upsert-Logs digest run (ok skipped_active_exists) = inl refl
  after_upsert-Logs digest run (ok (imported k)) = inr (k, refl)
  after_upsert-Logs digest run (ok (rotated k)) = inr (k, refl)

  gate_quality-Logs :
      (digest : String) (student : Student) (embedding : List Double) (quality : Double) (run : Run)
      → Logs digest run.journal
          (gate_quality on settings p row digest student embedding quality run).journal
  unfolding gate_quality reject store_import
  gate_quality-Logs digest student embedding quality run =
      if_both (λ (run' : Run). Logs digest run.journal run'.journal)
        (ltb_double quality min_quality) (inl refl)
        (if_both (λ (run' : Run). Logs digest run.journal run'.journal) dry_run (inl refl)
          (after_upsert-Logs digest _ _))

  use_extraction-Logs :
      (digest : String) (student : Student) (run : Run) (x : Option Extraction)
      → Logs digest run.journal (journal_of (use_extraction on settings p row digest student run x))
  unfolding use_extraction reject
  use_extraction-Logs digest student run none = inl refl
  use_extraction-Logs digest student run (some (template embedding quality)) =
      gate_quality-Logs digest student embedding quality run
  use_extraction-Logs digest student run (some no_face) = inl refl
  use_extraction-Logs digest student run (some unavailable) = inl refl
  use_extraction-Logs digest student run (some failed) = inl refl

  note_image_journal :
      (digest number : String) (o : Option String) (run : Run)
      → (note_image digest number o run).journal ≡ run.journal
  unfolding note_image
  note_image_journal digest number none run = refl
  note_image_journal digest number (some owner) run =
      if_both (λ (run' : Run). run'.journal ≡ run.journal) (str_eq owner number) refl refl

  use_tensor-Logs :
      (digest : String) (student : Student) (run : Run) (image : Attempt Tensor)
      → Logs digest run.journal (journal_of (use_tensor on settings p row digest student run image))
  unfolding use_tensor reject
  use_tensor-Logs digest student run (failure detail) = inl refl
  use_tensor-Logs digest student run (done tensor) = use_extraction-Logs digest student run _

  -- The row is that of an active student, and its image has the record's digest.
  record IsSource (j : JournalRecord) : Type 0 where
    student : Student
    bytes : List ℕ
    found : roster_entry row.student_number roster ≡ some student
    active : student.is_active ≡ true
    read : read_image on.files photos_dir row.image_path ≡ done bytes
    number : j.student_number ≡ row.student_number
    digest : j.image_sha256 ≡ on.sha256 bytes

  -- A step that appends a record has seen its source.
  abbrev Sourced : List JournalRecord → List JournalRecord → Type 0
  Sourced before after = (j : JournalRecord) → after ≡ before ++ j ∷ [] → IsSource j

  unsourced : (before : List JournalRecord) → Sourced before before
  unsourced before j h =
      let lengths : length before ≡ length (before ++ j ∷ []) = ap length h in
      absurd (omega (arith, lengths, length-append before (j ∷ [])))

  module _ (student : Student) (found : roster_entry row.student_number roster ≡ some student)
      (active : student.is_active ≡ true) where
    Logs-Sourced :
        (bytes : List ℕ) (before after : List JournalRecord)
        → read_image on.files photos_dir row.image_path ≡ done bytes
        → Logs (on.sha256 bytes) before after
        → Sourced before after
    Logs-Sourced bytes before after e (inl same) j h = unsourced before j (sym same ∙ h)
    Logs-Sourced bytes before after e (inr (k, logged)) j h =
        let written = journal_record on settings p row (on.sha256 bytes) k in
        let same : written ≡ j = snoc_injective before written j (sym logged ∙ h) in
        record {
          student = student;
          bytes = bytes;
          found = found;
          active = active;
          read = e;
          number = sym (ap (λ (r : JournalRecord). r.student_number) same);
          digest = sym (ap (λ (r : JournalRecord). r.image_sha256) same);
        }

    use_bytes-Sourced :
        (run : Run) (bytes : Attempt (List ℕ))
        → read_image on.files photos_dir row.image_path ≡ bytes
        → Sourced run.journal (journal_of (use_bytes on settings p row student run bytes))
    unfolding use_bytes reject
    use_bytes-Sourced run (failure detail) e = unsourced run.journal
    use_bytes-Sourced run (done bytes) e =
        let digest = on.sha256 bytes in
        if_both (λ x. Sourced run.journal (journal_of x))
          (is_journaled row.student_number digest settings.journaled) (unsourced run.journal)
          (let noted =
              note_image digest row.student_number (first_owner digest run.seen_hashes) run in
            Logs-Sourced bytes run.journal _ e (
              subst
                (λ before. Logs digest before (
                  journal_of (
                    use_tensor on settings p row digest student noted
                      (decode_image_bytes on bytes))))
                (note_image_journal digest row.student_number (first_owner digest run.seen_hashes)
                  run)
                (use_tensor-Logs digest student noted (decode_image_bytes on bytes))))

  identify-Sourced :
      (run : Run) (o : Option Student)
      → roster_entry row.student_number roster ≡ o
      → Sourced run.journal (journal_of (identify on settings p row run o))
  unfolding identify reject
  identify-Sourced run none e = unsourced run.journal
  identify-Sourced run (some student) e = elim (Bool-cases student.is_active) [
    | inl active ↦ simp active (
        use_bytes-Sourced student e active run (read_image on.files photos_dir row.image_path) refl)
    | inr inactive ↦ simp inactive (unsourced run.journal)
  ]

  import_row-Sourced :
      (run : Run) → Sourced run.journal (journal_of (import_row on settings p row run))
  unfolding import_row count_row
  import_row-Sourced run =
      identify-Sourced (count_row run) (roster_entry row.student_number roster) refl

  -- A row that was imported, and so journaled, is only counted as resumed by any later run with the
  -- same roster and files whose journal has that record: nothing is extracted and no row changes,
  -- whatever the run has done by then and whatever its options are.
  pub import_row_resumes :
      (run later : Run) (j : JournalRecord) (settings' : Settings)
      → journal_of (import_row on settings p row run) ≡ run.journal ++ j ∷ []
      → settings'.roster ≡ settings.roster
      → settings'.photos_dir ≡ settings.photos_dir
      → is_journaled j.student_number j.image_sha256 settings'.journaled ≡ true
      → import_row on settings' p row later ≡ next (resumed later)
  unfolding import_row count_row identify use_bytes
  import_row_resumes run later j settings' logged same_roster same_dir known =
      let source : IsSource j = import_row-Sourced run j logged in
      let known' : is_journaled row.student_number (on.sha256 source.bytes) settings'.journaled
          ≡ true =
        ap (λ n. is_journaled n (on.sha256 source.bytes) settings'.journaled) (sym source.number)
        ∙ ap (λ h. is_journaled j.student_number h settings'.journaled) (sym source.digest)
        ∙ known in
      simp (same_roster, same_dir, source.found, source.active, source.read, known') refl
