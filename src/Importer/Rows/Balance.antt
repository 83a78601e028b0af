-- ===== src/Importer/Rows/Balance.antt =====
-- The counters of a run add up.
use text.Mathlib.Text.{◌==◌ as str_eq}
use attendence_v.Prelude.{
  ℕ, ◌+◌, ◌≤◌, ◌≡◌, refl, subst, suc, none, some, Option, List, [], ◌∷◌, String, arith, length,
  length-append, Bool-cases, if_both, not, inl, inr,
}
use attendence_v.Prelude.Double.{Double, ltb_double}
use attendence_v.Storage.{Platform, Result, ok, raised}
use attendence_v.Storage.Models.{Student, StudentEmbedding}
use attendence_v.Templates.Gates.{Extraction, template, no_face, unavailable, failed}
use attendence_v.Importer.Inputs.{ImportRow, Attempt, done, failure}
use attendence_v.Importer.Upsert.{Upserted, skipped_active_exists, imported, rotated}
use attendence_v.Importer.Rows.{
  RejectReason, unreadable, no_face_found, low_quality, unknown_ref, inactive_student, invalid_row,
  Summary, Reject, Run, Step, next, aborted, Settings, Surroundings, count_reason, same_reason,
  count_row, reject, note_image, record_import, after_upsert, store_import, gate_quality,
  use_extraction, use_tensor, use_bytes, identify, import_row, import_rows, continue, is_journaled,
  decode_image_bytes, roster_entry, journal_record,
}

abbrev pub rejected_total : (RejectReason → ℕ) → ℕ
rejected_total rejected =
    rejected unreadable
    + rejected no_face_found
    + rejected low_quality
    + rejected unknown_ref
    + rejected inactive_student
    + rejected invalid_row

-- The rows that `coverage_line` counts as failed.
unfoldable pub failed_rows : Summary → ℕ
failed_rows m = rejected_total m.rejected + m.db_errors + m.extraction_errors

-- Of `t` rows all but `n` have exactly one outcome.
pub record Balanced (t n : ℕ) (run : Run) : Type 0 where
  pub total : run.summary.total_rows ≡ t
  pub rows :
      t
      ≡ run.summary.imported
        + run.summary.would_import
        + run.summary.skipped_resumed
        + run.summary.skipped_active_exists
        + failed_rows run.summary
        + n
  pub rejects : length run.rejects ≡ rejected_total run.summary.rejected
  pub journal : length run.journal ≡ run.summary.imported
  pub rotated : run.summary.rotated ≤ run.summary.imported

count_reason_lem :
    (c : RejectReason) (rejected : RejectReason → ℕ)
    → rejected_total (count_reason c rejected) ≡ rejected_total rejected + 1
unfolding count_reason same_reason
count_reason_lem unreadable rejected = omega arith
count_reason_lem no_face_found rejected = omega arith
count_reason_lem low_quality rejected = omega arith
count_reason_lem unknown_ref rejected = omega arith
count_reason_lem inactive_student rejected = omega arith
count_reason_lem invalid_row rejected = omega arith

pub reject-Balanced :
    (t n : ℕ) (r : Reject) (run : Run) → Balanced t (n + 1) run → Balanced t n (reject r run)
unfolding reject failed_rows
reject-Balanced t n r run b = record {
  total = b.total;
  rows = ground (arith, count_reason_lem r.reason_code run.summary.rejected, b.rows);
  rejects = ground (
    arith,
    count_reason_lem r.reason_code run.summary.rejected,
    b.rejects,
    length-append run.rejects (r ∷ []),
  );
  journal = b.journal;
  rotated = b.rotated;
}

note_image-Balanced :
    (digest number : String) (o : Option String) (t n : ℕ) (run : Run)
    → Balanced t n run
    → Balanced t n (note_image digest number o run)
unfolding note_image failed_rows
note_image-Balanced digest number none t n run b = record {
  total = b.total;
  rows = b.rows;
  rejects = b.rejects;
  journal = b.journal;
  rotated = b.rotated;
}
note_image-Balanced digest number (some owner) t n run b = elim (Bool-cases (str_eq owner number)) [
  | inl same ↦ rw same b
  | inr other ↦ rw other (record {
    total = b.total;
    rows = b.rows;
    rejects = b.rejects;
    journal = b.journal;
    rotated = b.rotated;
  })
]

-- Once the loop has gone on every row has its outcome; where it is aborted one row has none.
abbrev pub StepBalanced : ℕ → Step → Type 0
StepBalanced t (next run) = Balanced t 0 run
StepBalanced t (aborted run) = Balanced run.summary.total_rows 1 run

module _ {Tensor : Type 0} (on : Surroundings Tensor) (settings : Settings) (p : Platform) where
  open settings use {journaled, roster, min_quality, dry_run}

  module _ (row : ImportRow) (t : ℕ) where
    after_upsert-Balanced :
        (digest : String) (run : Run) (r : Result Upserted)
        → Balanced t 1 run
        → Balanced t 0 (after_upsert on settings p row digest run r)
    unfolding after_upsert record_import failed_rows
    after_upsert-Balanced digest run (raised x) b = record {
      total = b.total;
      rows = omega (arith, b.rows);
      rejects = b.rejects;
      journal = b.journal;
      rotated = b.rotated;
    }
    after_upsert-Balanced digest run (ok skipped_active_exists) b = record {
      total = b.total;
      rows = omega (arith, b.rows);
      rejects = b.rejects;
      journal = b.journal;
      rotated = b.rotated;
    }
    after_upsert-Balanced digest run (ok (imported k)) b = record {
      total = b.total;
      rows = omega (arith, b.rows);
      rejects = b.rejects;
      journal = omega (
        arith,
        length-append run.journal (journal_record on settings p row digest k ∷ []),
        b.journal,
      );
      rotated = omega (arith, b.rotated);
    }
    after_upsert-Balanced digest run (ok (rotated k)) b = record {
      total = b.total;
      rows = omega (arith, b.rows);
      rejects = b.rejects;
      journal = omega (
        arith,
        length-append run.journal (journal_record on settings p row digest k ∷ []),
        b.journal,
      );
      rotated = omega (arith, b.rotated);
    }

    store_import-Balanced :
        (digest : String) (e : StudentEmbedding) (run : Run)
        → Balanced t 1 run
        → Balanced t 0 (store_import on settings p row digest e run)
    unfolding store_import
    store_import-Balanced digest e run b = after_upsert-Balanced digest _ _ (record {
      total = b.total;
      rows = b.rows;
      rejects = b.rejects;
      journal = b.journal;
      rotated = b.rotated;
    })

    gate_quality-Balanced :
        (digest : String) (student : Student) (embedding : List Double) (quality : Double)
        (run : Run)
        → Balanced t 1 run
        → Balanced t 0 (gate_quality on settings p row digest student embedding quality run)
    unfolding gate_quality failed_rows
    gate_quality-Balanced digest student embedding quality run b =
        if_both (Balanced t 0) (ltb_double quality min_quality) (reject-Balanced t 0 _ run b) (
          if_both (Balanced t 0) dry_run
            (record {
              total = b.total;
              rows = omega (arith, b.rows);
              rejects = b.rejects;
              journal = b.journal;
              rotated = b.rotated;
            })
            (store_import-Balanced digest _ run b))

    use_extraction-StepBalanced :
        (digest : String) (student : Student) (run : Run) (x : Option Extraction)
        → Balanced t 1 run
        → StepBalanced t (use_extraction on settings p row digest student run x)
    unfolding use_extraction failed_rows
    use_extraction-StepBalanced digest student run none b = record {
      total = refl;
      rows = omega (arith, b.total, b.rows);
      rejects = b.rejects;
      journal = b.journal;
      rotated = b.rotated;
    }
    use_extraction-StepBalanced digest student run (some (template embedding quality)) b =
        gate_quality-Balanced digest student embedding quality run b
    use_extraction-StepBalanced digest student run (some no_face) b = reject-Balanced t 0 _ run b
    use_extraction-StepBalanced digest student run (some unavailable) b = record {
      total = b.total;
      rows = omega (arith, b.rows);
      rejects = b.rejects;
      journal = b.journal;
      rotated = b.rotated;
    }
    use_extraction-StepBalanced digest student run (some failed) b = record {
      total = b.total;
      rows = omega (arith, b.rows);
      rejects = b.rejects;
      journal = b.journal;
      rotated = b.rotated;
    }

    use_tensor-StepBalanced :
        (digest : String) (student : Student) (run : Run) (image : Attempt Tensor)
        → Balanced t 1 run
        → StepBalanced t (use_tensor on settings p row digest student run image)
    unfolding use_tensor
    use_tensor-StepBalanced digest student run (failure detail) b = reject-Balanced t 0 _ run b
    use_tensor-StepBalanced digest student run (done tensor) b =
        use_extraction-StepBalanced digest student run _ b

    use_bytes-StepBalanced :
        (student : Student) (run : Run) (bytes : Attempt (List ℕ))
        → Balanced t 1 run
        → StepBalanced t (use_bytes on settings p row student run bytes)
    unfolding use_bytes failed_rows
    use_bytes-StepBalanced student run (failure detail) b = reject-Balanced t 0 _ run b
    use_bytes-StepBalanced student run (done bytes) b =
        let digest = on.sha256 bytes in
        if_both (StepBalanced t) (is_journaled row.student_number digest journaled)
          (record {
            total = b.total;
            rows = omega (arith, b.rows);
            rejects = b.rejects;
            journal = b.journal;
            rotated = b.rotated;
          })
          (use_tensor-StepBalanced digest student _ (decode_image_bytes on bytes)
            (note_image-Balanced digest row.student_number _ t 1 run b))

    identify-StepBalanced :
        (run : Run) (o : Option Student)
        → Balanced t 1 run
        → StepBalanced t (identify on settings p row run o)
    unfolding identify
    identify-StepBalanced run none b = reject-Balanced t 0 _ run b
    identify-StepBalanced run (some student) b =
        if_both (StepBalanced t) (not student.is_active) (reject-Balanced t 0 _ run b)
          (use_bytes-StepBalanced student run _ b)

  import_row-StepBalanced :
      (row : ImportRow) (t : ℕ) (run : Run)
      → Balanced t 0 run
      → StepBalanced (t + 1) (import_row on settings p row run)
  unfolding import_row count_row failed_rows
  import_row-StepBalanced row t run b =
      identify-StepBalanced row (t + 1) (count_row run) (roster_entry row.student_number roster)
        (record {
          total = omega (arith, b.total);
          rows = omega (arith, b.rows);
          rejects = b.rejects;
          journal = b.journal;
          rotated = b.rotated;
        })

  continue-StepBalanced :
      (t : ℕ) (rest : Run → Step) (x : Step) (u : ℕ)
      → StepBalanced t x
      → ((run : Run) → Balanced t 0 run → StepBalanced u (rest run))
      → StepBalanced u (continue rest x)
  unfolding continue
  continue-StepBalanced t rest (next run) u b h = h run b
  continue-StepBalanced t rest (aborted run) u b h = b

  -- Every row of a finished loop is counted under exactly one outcome; the lines of reasons.csv are
  -- the rejected rows, and the journal records the imported ones.
  pub import_rows-StepBalanced :
      (rows : List ImportRow) (t : ℕ) (run : Run)
      → Balanced t 0 run
      → StepBalanced (t + length rows) (import_rows on settings p rows run)
  unfolding import_rows
  import_rows-StepBalanced [] t run b = record {
    total = omega (arith, b.total);
    rows = omega (arith, b.rows);
    rejects = b.rejects;
    journal = b.journal;
    rotated = b.rotated;
  }
  import_rows-StepBalanced (row ∷ rows) t run b =
      continue-StepBalanced (t + 1) (import_rows on settings p rows)
        (import_row on settings p row run) (t + suc (length rows))
        (import_row-StepBalanced row t run b)
        (λ run' b'.
          subst (λ u. StepBalanced u (import_rows on settings p rows run')) (omega arith)
            (import_rows-StepBalanced rows (t + 1) run' b'))
