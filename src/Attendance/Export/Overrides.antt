-- ===== src/Attendance/Export/Overrides.antt =====
-- What an override looks like in the export of its day, and after the next evaluation.
use Prim.Native.String.{◌++◌ as text_append}
use text.Mathlib.TextLemmas.{append_assoc}
use attendence_v.Prelude.{
  ℕ, ◌≡◌, sym, ap, ◌∙◌, String, true, Option, none, some, List, is_some, leb, if◌then◌else◌,
}
use attendence_v.Prelude.Text.{after_prefix, after_prefix-append}
use attendence_v.Storage.{Db, Session, Platform, ok}
use attendence_v.Storage.Models.{ClassSessionRecord, AttendanceStatus, present, absent}
use attendence_v.Attendance.Records.{find_record, IsKeyed}
use attendence_v.Attendance.Override.{OverrideRequest, today, status_value, apply_manual_override}
use attendence_v.Attendance.Override.Laws.{corrected, override_records}
use attendence_v.Attendance.Evaluation.{EvaluationRequest, evaluate_class_attendance}
use attendence_v.Attendance.Evaluation.Laws.{seen}
use attendence_v.Attendance.Interplay.{evaluation_drops_override}
use attendence_v.Attendance.Export.{
  ExportRequest, Formats, Identity, AttendanceExportRow, override_notes_prefix, override_text,
  status_text, notes_of, reason_text, export_row,
}

-- `strip` takes the blank of the notes off again.
abbrev pub StripsBlank : Platform → Type 0
StripsBlank p = (s : String) → p.strip (text_append " " (p.strip s)) ≡ p.strip s

-- The notes of an override are read back.
override_text-notes :
    (reason : String)
    → override_text (some (text_append "manual_override: " reason)) ≡ some (text_append " " reason)
unfolding override_text
override_text-notes reason =
    ap (after_prefix override_notes_prefix) (append_assoc "manual_override:" " " reason)
    ∙ after_prefix-append "manual_override:" (text_append " " reason)

module _ (x : ExportRequest) (p : Platform) (formats : Formats) where
  -- How a row shows an override with a status.
  pub record ShowsOverride (row : AttendanceExportRow) (status reason : String) : Type 0 where
    pub shown_status : row.status ≡ status
    pub applied : row.override_applied ≡ true
    pub shown_reason : row.override_reason ≡ reason

  row-ShowsOverride :
      (d : Db) (who : Identity) (r : ClassSessionRecord) (status : AttendanceStatus)
      (reason : String) (k c day : ℕ)
      → StripsBlank p
      → who.id ≡ k
      → x.course_id ≡ c
      → x.session_date ≡ day
      → find_record k c day d.class_session_records ≡ some r
      → r.status ≡ status
      → r.notes ≡ some (text_append "manual_override: " (p.strip reason))
      → ShowsOverride (export_row x p formats d who) (status_value status) (p.strip reason)
  unfolding export_row
  row-ShowsOverride d who r status reason k c day law same_k same_c same_day found verdict notes =
      let own : find_record who.id x.course_id x.session_date d.class_session_records ≡ some r =
        (λ i. find_record (same_k i) (same_c i) (same_day i) d.class_session_records) ∙ found in
      let key : override_text (
            notes_of x p formats
              (find_record who.id x.course_id x.session_date d.class_session_records))
          ≡ some (text_append " " (p.strip reason)) =
        ap (λ o. override_text (notes_of x p formats o)) own
        ∙ ap override_text notes
        ∙ override_text-notes (p.strip reason) in
      record {
        shown_status = ap (status_text x p formats) own ∙ ap status_value verdict;
        applied = ap is_some key;
        shown_reason = ap (reason_text x p formats) key ∙ law reason;
      }

  module _ (o : OverrideRequest) (same_course : x.course_id ≡ o.course_id)
      (same_day : x.session_date ≡ today o p) where
    corrected_fields :
        (r : ClassSessionRecord) (old : Option ClassSessionRecord)
        → r ≡ corrected o p old
        → (r.status ≡ o.status)
          × (r.notes ≡ some (text_append "manual_override: " (p.strip o.reason)))
    corrected_fields r none shape = (
      ap (λ (z : ClassSessionRecord). z.status) shape,
      ap (λ (z : ClassSessionRecord). z.notes) shape,
    )
    corrected_fields r (some old) shape = (
      ap (λ (z : ClassSessionRecord). z.status) shape,
      ap (λ (z : ClassSessionRecord). z.notes) shape,
    )

    -- After an override that returned, the export of that course and day shows the student with the
    -- new status, as overridden, and with the reason as it was given, its blanks stripped.
    pub override_exported :
        (s : Session) {r : ClassSessionRecord} {previous : Option AttendanceStatus} (who : Identity)
        → StripsBlank p
        → s.committed ≡ s.working
        → IsKeyed s.working.class_session_records
        → (apply_manual_override o p s).0 ≡ ok (r, previous)
        → who.id ≡ o.student_id
        → ShowsOverride
            (export_row x p formats (apply_manual_override o p s).1.committed who)
            (status_value o.status)
            (p.strip o.reason)
    override_exported s {r} {previous} who law fresh keyed e same_student =
        let (_, _, _, found, shape, _, _) = override_records o p s fresh keyed e in
        let (status, notes) =
          corrected_fields r
            (find_record o.student_id o.course_id (today o p) s.working.class_session_records)
            shape in
        row-ShowsOverride (apply_manual_override o p s).1.committed who r o.status o.reason
          o.student_id o.course_id (today o p) law same_student same_course same_day found status
          notes

    -- After the next evaluation of the day the export still shows the student as overridden, with
    -- the reason of the override, but with the status that the sightings give.
    pub dropped_override_exported :
        (q : EvaluationRequest) (s : Session) {r : ClassSessionRecord}
        {previous : Option AttendanceStatus} {updated : List ClassSessionRecord} (who : Identity)
        → StripsBlank p
        → q.course_id ≡ o.course_id
        → q.date ≡ today o p
        → s.committed ≡ s.working
        → IsKeyed s.working.class_session_records
        → (apply_manual_override o p s).0 ≡ ok (r, previous)
        → let t = (apply_manual_override o p s).1 in
          (evaluate_class_attendance q p t).0 ≡ ok updated
          → who.id ≡ o.student_id
          → ShowsOverride
              (export_row x p formats (evaluate_class_attendance q p t).1.committed who)
              (status_value (
                if leb q.required_sightings_threshold (seen q t.working o.student_id)
                then present
                else absent))
              (p.strip o.reason)
    dropped_override_exported q s {r} {previous} {updated} who law q_course q_day fresh keyed e f
          same_student =
        let t = (apply_manual_override o p s).1 in
        let (_, _, _, _, shape, _, _) = override_records o p s fresh keyed e in
        let (_, notes) =
          corrected_fields r
            (find_record o.student_id o.course_id (today o p) s.working.class_session_records)
            shape in
        let (after, found, verdict, kept) =
          evaluation_drops_override o q p s q_course q_day fresh keyed e f in
        row-ShowsOverride (evaluate_class_attendance q p t).1.committed who after _ o.reason
          o.student_id q.course_id q.date law same_student (same_course ∙ sym q_course)
          (same_day ∙ sym q_day) found verdict (kept ∙ notes)
