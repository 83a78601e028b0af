-- ===== src/Attendance/Interplay.antt =====
-- An override followed by the evaluation of the same day.
use attendence_v.Prelude.{
  ℕ, ◌≡◌, refl, ◌∙◌, ap, true, Option, List, subst, some, arith, leb, if◌then◌else◌,
}
use attendence_v.Storage.{Session, Platform, ok}
use attendence_v.Storage.Models.{
  ClassSessionRecord, AttendanceStatus, present, absent, late, excused,
}
use attendence_v.Attendance.Records.{find_record, IsKeyed}
use attendence_v.Attendance.Override.{OverrideRequest, is_overridable, today, apply_manual_override}
use attendence_v.Attendance.Override.Laws.{corrected, override-Settled, override_records}
use attendence_v.Attendance.Evaluation.{EvaluationRequest, evaluate_class_attendance}
use attendence_v.Attendance.Evaluation.Laws.{seen, expected, judged}
use attendence_v.Attendance.Evaluation.Storage.{evaluate_records}

judged_overridable :
    (status : AttendanceStatus) (n threshold : ℕ)
    → is_overridable status ≡ true
    → judged (some status) n threshold ≡ (if leb threshold n then present else absent)
unfolding is_overridable
judged_overridable present n threshold h = ground arith
judged_overridable absent n threshold h = ground arith
judged_overridable late n threshold h = cc
judged_overridable excused n threshold h = cc

module _ (o : OverrideRequest) (q : EvaluationRequest) (p : Platform) where
  closed_after :
      (s : Session) (a : ClassSessionRecord × Option AttendanceStatus)
      → s.committed ≡ s.working
      → (apply_manual_override o p s).0 ≡ ok a
      → (apply_manual_override o p s).1.committed ≡ (apply_manual_override o p s).1.working
  closed_after s a fresh e = ground (arith, override-Settled o p s fresh)

  overridable_status :
      (r : ClassSessionRecord) (old : Option ClassSessionRecord)
      → r ≡ corrected o p old
      → is_overridable o.status ≡ true
      → is_overridable r.status ≡ true
  overridable_status r old shape h = ground arith

  -- If an override and then the evaluation of that course and day return, the student's record
  -- has the verdict of the sightings alone, whatever the override said, and still carries the
  -- notes of the override.
  pub evaluation_drops_override :
      (s : Session) {r : ClassSessionRecord} {previous : Option AttendanceStatus}
      {updated : List ClassSessionRecord}
      → q.course_id ≡ o.course_id
      → q.date ≡ today o p
      → s.committed ≡ s.working
      → IsKeyed s.working.class_session_records
      → (apply_manual_override o p s).0 ≡ ok (r, previous)
      → let t = (apply_manual_override o p s).1 in
        (evaluate_class_attendance q p t).0 ≡ ok updated
        → (after : ClassSessionRecord) × (find_record o.student_id q.course_id q.date
              (evaluate_class_attendance q p t).1.committed.class_session_records
            ≡ some after)
          × (after.status ≡ (
              if leb q.required_sightings_threshold (seen q t.working o.student_id)
              then present
              else absent))
          × (after.notes ≡ r.notes)
  evaluation_drops_override s {r} {previous} {updated} same_course same_day fresh keyed e f =
      let t = (apply_manual_override o p s).1 in
      let (overridable, _, _, found, shape, _, keyed') = override_records o p s fresh keyed e in
      let closed = closed_after s (r, previous) fresh e in
      let records =
        evaluate_records q p t closed (subst (λ d. IsKeyed d.class_session_records) closed keyed')
          f in
      let before : find_record o.student_id q.course_id q.date t.working.class_session_records
          ≡ some r =
        rw (same_course, same_day, ← closed) found in
      (
        record r {
          status =
              judged (some r.status) (seen q t.working o.student_id) q.required_sightings_threshold;
          sighting_count = seen q t.working o.student_id;
          required_sightings_threshold = q.required_sightings_threshold;
          evaluated_at = q.evaluated_at;
        },
        records.0 o.student_id
            ∙ ap (expected q o.student_id (seen q t.working o.student_id)) before,
        judged_overridable r.status _ _ (
            overridable_status r
              (find_record o.student_id o.course_id (today o p) s.working.class_session_records)
              shape overridable),
        refl,
      )
