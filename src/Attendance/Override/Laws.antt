-- ===== src/Attendance/Override/Laws.antt =====
-- An override never lands without its evidence, and what becomes of it in the next evaluation.
use Prim.Native.String.{◌++◌ as text_append}
use text.Mathlib.Text.{◌==◌ as str_eq}
use attendence_v.Prelude.{
  ℕ, ◌≡◌, refl, sym, ap, ◌∙◌, true, false, ◌&&◌, Option, none, some, arith, ◌==◌,
}
use attendence_v.Storage.{Db, Session, Platform, ok, execute, flush}
use attendence_v.Storage.Atomic.{Quiet, quiet_rules}
use attendence_v.Storage.Models.{ClassSessionRecord, AttendanceStatus}
use attendence_v.Audit.{add_governance, log_row, emit}
use attendence_v.Audit.Policy.{Quiet-emit}
use attendence_v.Crud.Blocks.{Settled, transaction-Settled, transaction-value}
use attendence_v.Attendance.Guards.{require_course, require_student}
use attendence_v.Attendance.Guards.Active.{
  IsActiveCourse, IsActiveStudent, require_course_lem, require_student_lem,
}
use attendence_v.Attendance.Records.{has_key, find_record, IsKeyed, merged}
use attendence_v.Attendance.Records.Upsert.{KeepsKey, find_record-upsert, upsert-IsKeyed}
use attendence_v.Attendance.Override.{
  OverrideRequest, is_overridable, set_override, override_row, today, previous_status,
  previous_record, overridden_record, store_override, override_event, write_override,
  apply_manual_override,
}

set_override-KeepsKey : KeepsKey set_override
set_override-KeepsKey old new = (refl, refl, refl)

module _ (q : OverrideRequest) (p : Platform) where
  open q use {course_id, student_id, status, reason, clock}

  -- The database after an override: the one record, and its row of evidence.
  abbrev pub overridden : Db → Db
  overridden d =
      add_governance
        (log_row p (override_event q p (overridden_record q p d) (previous_status q p d)))
        (store_override q p d)

  Quiet-write_override : Quiet (write_override q p)
  unfolding write_override
  Quiet-write_override = search (quiet_rules, Quiet-emit)

  write_override-working :
      (s : Session) (a : ClassSessionRecord × Option AttendanceStatus)
      → (write_override q p s).0 ≡ ok a
      → (write_override q p s).1.working ≡ overridden s.working
  unfolding write_override execute emit flush
  write_override-working s a h = ground arith

  -- On a session with no open change an override raises and changes nothing, or it commits today's
  -- record together with the ledger row that names that record, the old and the new status.
  pub override-Settled :
      (s : Session)
      → s.committed ≡ s.working
      → Settled s (λ _. overridden s.working) (apply_manual_override q p s)
  unfolding apply_manual_override require_course require_student
  override-Settled s fresh = ground (
    arith,
    transaction-Settled p (write_override q p) s (λ _. overridden s.working) Quiet-write_override
        (write_override-working s),
  )

  write_override-value :
      (s : Session) (r : ClassSessionRecord) (previous : Option AttendanceStatus)
      → (write_override q p s).0 ≡ ok (r, previous)
      → (r ≡ overridden_record q p s.working) × (previous ≡ previous_status q p s.working)
  unfolding write_override execute emit flush
  write_override-value s r previous h = ground arith

  override-value :
      (s : Session) (r : ClassSessionRecord) (previous : Option AttendanceStatus)
      → (apply_manual_override q p s).0 ≡ ok (r, previous)
      → (is_overridable status ≡ true)
        × (str_eq (p.strip reason) "" ≡ false)
        × (r ≡ overridden_record q p s.working)
        × (previous ≡ previous_status q p s.working)
        × IsActiveCourse course_id s.working
        × IsActiveStudent student_id s.working
  unfolding apply_manual_override
  override-value s r previous h = ground (
    arith,
    require_course_lem course_id s,
    require_student_lem student_id s,
    transaction-value p (write_override q p) s (r, previous),
    write_override-value s r previous,
  )

  after-override :
      (s : Session) (a : ClassSessionRecord × Option AttendanceStatus)
      → s.committed ≡ s.working
      → (apply_manual_override q p s).0 ≡ ok a
      → (apply_manual_override q p s).1.committed ≡ overridden s.working
  after-override s a fresh e = ground (arith, override-Settled s fresh)

  has_key_self : has_key student_id course_id (today q p) (override_row q p) ≡ true
  unfolding has_key
  has_key_self = ground arith

  -- The record of today after the override, from the one before it.
  abbrev pub corrected : Option ClassSessionRecord → ClassSessionRecord
  corrected none = override_row q p
  corrected (some old) = record old {
    status = status;
    notes = some (text_append "manual_override: " (p.strip reason));
    evaluated_at = clock;
  }

  corrected_lem :
      (o : Option ClassSessionRecord) → merged set_override (override_row q p) o ≡ corrected o
  corrected_lem none = refl
  corrected_lem (some old) = refl

  -- An override that returned was for present or absent, with a reason that is not blank, and of a
  -- course and a student that exist and are active. Today's record of the student has the new
  -- status and keeps the counts of the record before it; no other record has changed, and the
  -- unique key still holds.
  pub override_records :
      (s : Session) {r : ClassSessionRecord} {previous : Option AttendanceStatus}
      → s.committed ≡ s.working
      → IsKeyed s.working.class_session_records
      → (apply_manual_override q p s).0 ≡ ok (r, previous)
      → let before = s.working.class_session_records in
        let after = (apply_manual_override q p s).1.committed.class_session_records in
        (is_overridable status ≡ true)
        × (str_eq (p.strip reason) "" ≡ false)
        × (IsActiveCourse course_id s.working × IsActiveStudent student_id s.working)
        × (find_record student_id course_id (today q p) after ≡ some r)
        × (r ≡ corrected (find_record student_id course_id (today q p) before))
        × ((k c d : ℕ)
            → (k == student_id && c == course_id && d == today q p) ≡ false
            → find_record k c d after ≡ find_record k c d before)
        × IsKeyed after
  unfolding has_key
  override_records s {r} {previous} fresh keyed e =
      let old = s.working.class_session_records in
      let facts = override-value s r previous e in
      let upserted = find_record-upsert set_override set_override-KeepsKey in
      rw (after-override s (r, previous) fresh e) (
        (
          facts.0,
          facts.1,
          (facts.4, facts.5),
          upserted student_id course_id (today q p) (override_row q p) old
              ∙ rw has_key_self (ap some (sym facts.2)),
          facts.2 ∙ corrected_lem (previous_record q p s.working),
          λ k c d other. upserted k c d (override_row q p) old ∙ rw other,
          upsert-IsKeyed set_override set_override-KeepsKey (override_row q p) old keyed,
        ))
