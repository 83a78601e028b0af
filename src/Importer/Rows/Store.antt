-- ===== src/Importer/Rows/Store.antt =====
-- What a run does to the templates, and what its journal is worth.
use text.Mathlib.Text.{◌==◌ as str_eq}
use text.Mathlib.TextPositions.{eq_refl}
use text.Mathlib.TextEquality.{eq_iff}
use attendence_v.Prelude.{
  ℕ, ◌≡◌, refl, sym, ◌∙◌, subst, true, false, not, ◌&&◌, ◌||◌, none, some, Option, Bool, List, [],
  ◌∷◌, ◌++◌, String, arith, any, All, All-imp, All-append, ◌==◌, ==-refl, Bool-cases, if_both, inl,
  inr,
}
use attendence_v.Prelude.Double.{Double, ltb_double}
use attendence_v.Storage.{Db, Session, Platform, Result, ok, raised}
use attendence_v.Storage.Models.{Student, StudentEmbedding}
use attendence_v.Templates.Gates.{Extraction, template, no_face, unavailable, failed}
use attendence_v.Templates.Store.{actives, archive_rows, archive, insert_template}
use attendence_v.Templates.Rotation.{Gallery, put, listed, Represents, Represents-rotated}
use attendence_v.Importer.Inputs.{ImportRow, Attempt, done, failure}
use attendence_v.Importer.Upsert.{
  Upserted, skipped_active_exists, imported, rotated, rotation_reason,
}
use attendence_v.Importer.Upsert.Ends.{with_import, UpsertEnds, upsert_template-UpsertEnds}
use attendence_v.Importer.Rows.{
  JournalRecord, Run, Step, next, aborted, Settings, Surroundings, continue, count_row, reject,
  note_image, first_owner, record_import, after_upsert, session_on, store_import, imported_row,
  journal_record, gate_quality, use_extraction, use_tensor, use_bytes, identify, import_row,
  import_rows, is_journaled, decode_image_bytes,
}

-- Some row has the identifier and the pose of the journal record.
abbrev pub is_stored : List StudentEmbedding → JournalRecord → Bool
is_stored es j = any (λ e. (j.embedding_row_id == e.id) && str_eq j.pose_label e.pose_label) es

abbrev pub IsEvidence : List StudentEmbedding → JournalRecord → Type 0
IsEvidence es j = is_stored es j ≡ true

is_stored-archive_rows :
    (k : ℕ) (pose : String) (j : JournalRecord) (es : List StudentEmbedding)
    → is_stored (archive_rows k pose es) j ≡ is_stored es j
unfolding archive_rows
is_stored-archive_rows k pose j [] = refl
is_stored-archive_rows k pose j (e ∷ es) = ground (arith, is_stored-archive_rows k pose j es)

is_stored-append :
    (j : JournalRecord) (e : StudentEmbedding) (es : List StudentEmbedding)
    → is_stored (es ++ e ∷ []) j
      ≡ (is_stored es j || ((j.embedding_row_id == e.id) && str_eq j.pose_label e.pose_label))
is_stored-append j e [] = ground arith
is_stored-append j e (x ∷ es) = ground (arith, is_stored-append j e es)

is_stored-rotated :
    (k : ℕ) (pose : String) (j : JournalRecord) (e : StudentEmbedding) (es : List StudentEmbedding)
    → is_stored es j ≡ true
    → is_stored (archive_rows k pose es ++ e ∷ []) j ≡ true
is_stored-rotated k pose j e es h =
    ground
      (arith, h, is_stored-archive_rows k pose j es, is_stored-append j e (archive_rows k pose es))

is_stored-new :
    (j : JournalRecord) (e : StudentEmbedding) (es : List StudentEmbedding)
    → j.embedding_row_id ≡ e.id
    → j.pose_label ≡ e.pose_label
    → is_stored (es ++ e ∷ []) j ≡ true
is_stored-new j e es same_id same_pose =
    is_stored-append j e es
    ∙ rw (same_id, same_pose) (ground (arith, ==-refl e.id, eq_refl e.pose_label))

module _ (settings : Settings) (d : Db) (g : Gallery) where
  open settings use {dry_run, overwrite}

  -- Rows and a journal that a run over the templates `g` of the database `d` may have reached.
  pub record Reached (d' : Db) (journal : List JournalRecord) : Type 0 where
    pub gallery : Gallery
    pub represents : Represents d' gallery
    pub evidence : All (IsEvidence d'.student_embeddings) journal
    pub dry : dry_run ≡ true → (d' ≡ d) × (journal ≡ [])
    pub kept :
        overwrite ≡ false
        → (k : ℕ) (pose : String) (e : StudentEmbedding) → g k pose ≡ some e
        → gallery k pose ≡ some e

  abbrev pub StepReached : Step → Type 0
  StepReached (next run) = Reached run.db run.journal
  StepReached (aborted run) = Reached run.db run.journal

  listed-none : (o : Option StudentEmbedding) → listed o ≡ [] → o ≡ none
  listed-none none h = refl
  listed-none (some e) h = absurd (ground arith)

  -- An assignment where nothing stood keeps every entry.
  put_keeps :
      (k : ℕ) (pose : String) (e e' : StudentEmbedding) (h : Gallery) (k' : ℕ) (pose' : String)
      → h k pose ≡ none
      → h k' pose' ≡ some e'
      → put k pose e h k' pose' ≡ some e'
  put_keeps k pose e e' h k' pose' free there = elim (Bool-cases ((k' == k) && str_eq pose' pose)) [
    | inl same ↦
        let eq_pose : pose' ≡ pose = (eq_iff pose' pose).0 (ground arith) in
        let eq_k : k' ≡ k = ground arith in
        let there' : h k pose ≡ some e' = sym (λ i. h (eq_k i) (eq_pose i)) ∙ there in
        absurd (ground arith)
    | inr other ↦ rw other there
  ]

  module _ {Tensor : Type 0} (on : Surroundings Tensor) (p : Platform) where
    module _ (row : ImportRow) (digest : String) (wet : dry_run ≡ false) (run : Run)
        (e : StudentEmbedding) (own : e.pose_label ≡ row.pose_label)
        (active : e.is_active ≡ true) where
      import-Reached :
          Reached run.db run.journal
          → (overwrite ≡ false → actives e.student_id e.pose_label run.db.student_embeddings ≡ [])
          → Reached
              (with_import p settings.run_id overwrite e run.db)
              (run.journal ++ journal_record on settings p row digest e.id ∷ [])
      unfolding archive insert_template
      import-Reached r free = record {
        gallery = put e.student_id e.pose_label e r.gallery;
        represents = record {
          at =
              (Represents-rotated rotation_reason
                (actives e.student_id e.pose_label run.db.student_embeddings) e run.db r.gallery
                active r.represents).at;
        };
        evidence =
            All-append (IsEvidence _) run.journal
              (journal_record on settings p row digest e.id ∷ [])
              (All-imp (IsEvidence run.db.student_embeddings) (IsEvidence _) run.journal
                (λ j. is_stored-rotated e.student_id e.pose_label j e run.db.student_embeddings)
                r.evidence)
              (
                is_stored-new (journal_record on settings p row digest e.id) e
                    (archive_rows e.student_id e.pose_label run.db.student_embeddings) refl
                    (sym own),
                tt,
              );
        dry = λ dry. absurd (ground arith);
        kept = λ over k pose e' there.
            put_keeps e.student_id e.pose_label e e' r.gallery k pose
              (listed-none (r.gallery e.student_id e.pose_label)
                (sym (r.represents.at e.student_id e.pose_label) ∙ free over))
              (r.kept over k pose e' there);
      }

      after_upsert-Reached :
          (o : Result Upserted × Session)
          → Reached run.db run.journal
          → UpsertEnds p settings.run_id overwrite e run.db o
          → let run' =
              after_upsert on settings p row digest (record run { db = o.1.committed }) o.0 in
            Reached run'.db run'.journal
      unfolding after_upsert record_import
      after_upsert-Reached (ok skipped_active_exists, s) r h =
          subst (λ d'. Reached d' run.journal) (sym h) r
      after_upsert-Reached (ok (imported k), s) r h = rw (h.0, h.1) (import-Reached r (λ over. h.2))
      after_upsert-Reached (ok (rotated k), s) r h =
          rw (h.0, h.1) (import-Reached r (λ over. absurd (ground (arith, h.2))))
      after_upsert-Reached (raised x, s) r h = subst (λ d'. Reached d' run.journal) (sym h) r

      store_import-Reached :
          Reached run.db run.journal
          → let run' = store_import on settings p row digest e run in Reached run'.db run'.journal
      unfolding store_import
      store_import-Reached r = after_upsert-Reached _ r (
          upsert_template-UpsertEnds p settings.run_id overwrite e (session_on run.db) refl
            on.is_integrity)

    module _ (row : ImportRow) where
      gate_quality-Reached :
          (digest : String) (student : Student) (embedding : List Double) (quality : Double)
          (run : Run)
          → Reached run.db run.journal
          → let run' = gate_quality on settings p row digest student embedding quality run in
            Reached run'.db run'.journal
      unfolding gate_quality reject
      gate_quality-Reached digest student embedding quality run r =
          if_both (λ (run' : Run). Reached run'.db run'.journal)
            (ltb_double quality settings.min_quality) r
            (elim (Bool-cases dry_run) [
              | inl dry ↦ simp dry r
              | inr wet ↦ simp wet (
                  store_import-Reached row digest wet run
                    (imported_row on settings p row student embedding quality) refl refl r)
            ])

      use_extraction-StepReached :
          (digest : String) (student : Student) (run : Run) (x : Option Extraction)
          → Reached run.db run.journal
          → StepReached (use_extraction on settings p row digest student run x)
      unfolding use_extraction reject
      use_extraction-StepReached digest student run none r = r
      use_extraction-StepReached digest student run (some (template embedding quality)) r =
          gate_quality-Reached digest student embedding quality run r
      use_extraction-StepReached digest student run (some no_face) r = r
      use_extraction-StepReached digest student run (some unavailable) r = r
      use_extraction-StepReached digest student run (some failed) r = r

      use_tensor-StepReached :
          (digest : String) (student : Student) (run : Run) (image : Attempt Tensor)
          → Reached run.db run.journal
          → StepReached (use_tensor on settings p row digest student run image)
      unfolding use_tensor reject
      use_tensor-StepReached digest student run (failure detail) r = r
      use_tensor-StepReached digest student run (done tensor) r =
          use_extraction-StepReached digest student run _ r

      note_image-Reached :
          (digest : String) (o : Option String) (run : Run)
          → Reached run.db run.journal
          → let run' = note_image digest row.student_number o run in Reached run'.db run'.journal
      unfolding note_image
      note_image-Reached digest none run r = r
      note_image-Reached digest (some owner) run r =
          if_both (λ (run' : Run). Reached run'.db run'.journal) (str_eq owner row.student_number) r
            r

      use_bytes-StepReached :
          (student : Student) (run : Run) (bytes : Attempt (List ℕ))
          → Reached run.db run.journal
          → StepReached (use_bytes on settings p row student run bytes)
      unfolding use_bytes reject
      use_bytes-StepReached student run (failure detail) r = r
      use_bytes-StepReached student run (done bytes) r =
          let digest = on.sha256 bytes in
          if_both StepReached (is_journaled row.student_number digest settings.journaled) r (
            use_tensor-StepReached digest student _ (decode_image_bytes on bytes)
              (note_image-Reached digest (first_owner digest run.seen_hashes) run r))

      identify-StepReached :
          (run : Run) (o : Option Student)
          → Reached run.db run.journal
          → StepReached (identify on settings p row run o)
      unfolding identify reject
      identify-StepReached run none r = r
      identify-StepReached run (some student) r =
          if_both StepReached (not student.is_active) r (use_bytes-StepReached student run _ r)

      import_row-StepReached :
          (run : Run) → Reached run.db run.journal → StepReached (import_row on settings p row run)
      unfolding import_row count_row
      import_row-StepReached run r = identify-StepReached (count_row run) _ r

    continue-StepReached :
        (rest : Run → Step) (x : Step)
        → StepReached x
        → ((run : Run) → Reached run.db run.journal → StepReached (rest run))
        → StepReached (continue rest x)
    unfolding continue
    continue-StepReached rest (next run) r h = h run r
    continue-StepReached rest (aborted run) r h = r

    pub import_rows-StepReached :
        (rows : List ImportRow) (run : Run)
        → Reached run.db run.journal
        → StepReached (import_rows on settings p rows run)
    unfolding import_rows
    import_rows-StepReached [] run r = r
    import_rows-StepReached (row ∷ rows) run r =
        continue-StepReached (import_rows on settings p rows) (import_row on settings p row run)
          (import_row-StepReached row run r) (import_rows-StepReached rows)
