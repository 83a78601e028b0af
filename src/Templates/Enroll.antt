-- ===== src/Templates/Enroll.antt =====
-- `enroll_student_template`: the gates in their order, and the rotation in one transaction.
pub mod Refines
pub mod Admits
use Prim.Native.String.{◌++◌ as text_append}
use attendence_v.Prelude.{
  ℕ, String, Bool, true, false, ◌&&◌, not, Option, none, some, List, [], ◌∷◌, if◌then◌else◌, length,
}
use attendence_v.Prelude.Double.{Double, ltb_double}
use attendence_v.Storage.{
  Db, Session, Platform, Error, Result, ok, raised, http, database, Exec, pure, raise, ◌>>=◌, ◌>>◌,
  query, raise_if, add, flush, rollback, with_commit,
}
use attendence_v.Storage.Models.{
  Student, StudentEmbedding, Consent, granted, Json, string, double, number,
}
use attendence_v.Audit.{AuditEvent, emit, template_enroll}
use attendence_v.Attendance.Guards.{find_student}
use attendence_v.Templates.Store.{actives, archive, insert_template, created_log, add_template_log}
use attendence_v.Templates.Gates.{
  Images, Python, Upload, Extraction, template, no_face, unavailable, failed, Threshold, minimum,
  misconfigured, normalize_pose_label, decode_enrollment_image, resolve_enrollment_min_quality,
}

-- The request, the settings that it reads, and the identifier of an inserted template.
pub record EnrollRequest : Type 0 where
  pub student_id : ℕ
  pub actor : ℕ
  pub image_file : Upload
  pub pose_label : Option String
  pub enforce_biometric_consent : Bool
  pub min_quality_env : Option String
  pub new_id : ℕ

-- `enroll_student_template` runs on the pipeline's extraction, and on the text of a score with
-- four decimals. `is_integrity` says whether what the database refuses of these rows is a
-- violated constraint.
pub record Enrolling (Tensor : Type 0) : Type 0 where
  pub images : Images Tensor
  pub extract : Tensor → Extraction
  pub python : Python
  pub four_decimals : Double → String
  pub is_integrity : Db → Bool

-- `biometric_consent_status == "granted"`
unfoldable pub is_granted : Consent → Bool
is_granted granted = true
is_granted consent = false

abbrev pub archived_reason : List (String × Json)
archived_reason = ("reason", string "pose_reenrollment") ∷ []

abbrev pub created_source : List (String × Json)
created_source = ("source", string "students_enroll_api_v1") ∷ []

module _ (q : EnrollRequest) (p : Platform) where
  open q use {student_id, actor, image_file, enforce_biometric_consent, min_quality_env, new_id}

  abbrev pub enrolled_row : String → List Double → Double → StudentEmbedding
  enrolled_row pose embedding quality = record {
    id = new_id;
    student_id = student_id;
    embedding = embedding;
    pose_label = pose;
    quality_score = quality;
    is_active = true;
    template_version = none;
  }

  abbrev pub enroll_event : StudentEmbedding → ℕ → AuditEvent
  enroll_event e replaced = record {
    action = template_enroll;
    entity_type = "student_embedding";
    entity_id = some e.id;
    class_session_record_id = none;
    actor_user_id = some actor;
    reason = none;
    change_summary =
        ("pose_label", string e.pose_label)
        ∷ ("quality_score", double e.quality_score)
        ∷ ("replaced_count", number replaced)
        ∷ [];
    request_id = none;
    ip_address = none;
  }

  -- The block up to its commit.
  unfoldable pub write_template : StudentEmbedding → Exec StudentEmbedding
  write_template e = do
    found ← query (λ d. actives student_id e.pose_label d.student_embeddings)
    add (archive student_id e.pose_label archived_reason found)
    add (insert_template e)
    flush p
    add (add_template_log (created_log e created_source))
    emit p (enroll_event e (length found))
    pure e

  module _ {Tensor : Type 0} (on : Enrolling Tensor) where
    unfoldable pub write_error : Error → Db → Error
    write_error database d =
        if on.is_integrity d
        then http 409 "Enrollment write conflicted with an existing record."
        else database
    write_error x d = x

    -- The handlers of the block: both roll back.
    unfoldable pub settle_enrollment :
        Result StudentEmbedding × Session → Result StudentEmbedding × Session
    settle_enrollment (ok e, s) = (ok e, s)
    settle_enrollment (raised x, s) = (raised (write_error x s.working), rollback s)

    unfoldable pub store_template : StudentEmbedding → Exec StudentEmbedding
    store_template e s = settle_enrollment (with_commit p (write_template e) s)

    unfoldable pub too_low : Double → Double → String
    too_low quality least = text_append "Image quality too low for enrollment (quality=" (
        text_append (on.four_decimals quality) (
          text_append ", minimum="
            (text_append (on.four_decimals least) "). Please retake the image and retry.")))

    unfoldable pub check_quality : Threshold → StudentEmbedding → Exec StudentEmbedding
    check_quality misconfigured e = raise (
        http 500
          "Enrollment quality gate is misconfigured (ATTENDANCE_ENROLLMENT_MIN_QUALITY error). Please contact the administrator.")
    check_quality (minimum least) e = do
      raise_if (ltb_double e.quality_score least) (http 422 (too_low e.quality_score least))
      store_template e

    unfoldable pub check_extraction : String → Extraction → Exec StudentEmbedding
    check_extraction pose (template embedding quality) =
        check_quality (resolve_enrollment_min_quality p on.python min_quality_env)
          (enrolled_row pose embedding quality)
    check_extraction pose unavailable =
        raise (http 503 "Embedding extraction service is unavailable. Please retry shortly.")
    check_extraction pose other = raise (http 500 "Failed to process enrollment image.")

    unfoldable pub extract_template : String → Result Tensor → Exec StudentEmbedding
    extract_template pose (ok tensor) = check_extraction pose (on.extract tensor)
    extract_template pose (raised x) = raise x

    unfoldable pub enroll_pose : Result String → Exec StudentEmbedding
    enroll_pose (ok pose) = extract_template pose (decode_enrollment_image on.images image_file)
    enroll_pose (raised x) = raise x

    unfoldable pub enroll_existing : Option Student → Exec StudentEmbedding
    enroll_existing none = raise (http 404 "Student not found.")
    enroll_existing (some student) = do
      raise_if (not student.is_active) (http 409 "Cannot enroll templates for an inactive student.")
      raise_if (enforce_biometric_consent && not (is_granted student.consent_status)) (
          http 403
            "Biometric consent is not granted for this student. Record consent via POST /api/v1/students/{id}/consent before enrolling face templates.")
      enroll_pose (normalize_pose_label p q.pose_label)

    unfoldable pub enroll_student_template : Exec StudentEmbedding
    enroll_student_template = do
      student ← query (λ d. find_student student_id d.students)
      enroll_existing student
