-- ===== src/Templates/Enroll/Admits.antt =====
-- Which uploads become templates.
use Prim.Native.String.{count}
use text.Mathlib.Text.{◌==◌ as str_eq}
use attendence_v.Prelude.{
  subst, sym, Option-cases, List, ◌≡◌, ◌≤◌, refl, String, true, false, not, ◌&&◌, some, arith,
  Bool-cases, inl, inr,
}
use attendence_v.Prelude.Double.{Double, ltb_double}
use attendence_v.Audit.{emit}
use attendence_v.Storage.{
  with_commit, flush, commit, Db, Session, Platform, Error, Result, ok, raised,
}
use attendence_v.Storage.Models.{
  Student, StudentEmbedding, Consent, pending, granted, denied, withdrawn,
}
use attendence_v.Attendance.Guards.{find_student}
use attendence_v.Templates.Gates.{
  text_or, Extraction, template, no_face, unavailable, failed, Threshold, minimum, misconfigured,
  pose_label_max_len, check_pose_label, normalize_pose_label, decode_enrollment_image,
  resolve_enrollment_min_quality,
}
use attendence_v.Templates.Enroll.{
  EnrollRequest, Enrolling, is_granted, enrolled_row, store_template, settle_enrollment,
  write_template, check_quality, check_extraction, extract_template, enroll_pose, enroll_existing,
  enroll_student_template,
}

check_pose_label_lem :
    (p : Platform) (raw pose : String)
    → check_pose_label p raw ≡ ok pose
    → (str_eq pose "" ≡ false) × (count pose ≤ pose_label_max_len)
unfolding check_pose_label
check_pose_label_lem p raw pose h = ground arith

is_granted_sound : (c : Consent) → is_granted c ≡ true → c ≡ granted
unfolding is_granted
is_granted_sound granted h = refl
is_granted_sound pending h = ground arith
is_granted_sound denied h = ground arith
is_granted_sound withdrawn h = ground arith

module _ {Tensor : Type 0} (q : EnrollRequest) (p : Platform) (on : Enrolling Tensor) where
  open q use {student_id, image_file, enforce_biometric_consent, min_quality_env}

  -- Every gate that stands before the template `e`.
  pub record Admitted (d : Db) (e : StudentEmbedding) : Type 0 where
    pub student : Student
    pub tensor : Tensor
    pub least : Double
    pub found : find_student student_id d.students ≡ some student
    pub active : student.is_active ≡ true
    pub consent : enforce_biometric_consent ≡ true → student.consent_status ≡ granted
    pub pose : normalize_pose_label p q.pose_label ≡ ok e.pose_label
    pub decoded : decode_enrollment_image on.images image_file ≡ ok tensor
    pub extracted : on.extract tensor ≡ template e.embedding e.quality_score
    pub threshold : resolve_enrollment_min_quality p on.python min_quality_env ≡ minimum least
    pub enough : ltb_double e.quality_score least ≡ false
    pub row : e ≡ enrolled_row q p e.pose_label e.embedding e.quality_score

  -- A gate refuses and nothing happens, or the write of an admitted template decides.
  pub data Route (s : Session) : Result StudentEmbedding × Session → Type 0 where
    refused : (x : Error) → Route s (raised x, s)
    stored : (e : StudentEmbedding) → Admitted s.working e → Route s (store_template q p on e s)

  module _ (s : Session) (student : Student) where
    -- What holds once the gates on the student have been passed.
    record Passed : Type 0 where
      found : find_student student_id s.working.students ≡ some student
      active : student.is_active ≡ true
      consent : enforce_biometric_consent ≡ true → student.consent_status ≡ granted

    module _ (passed : Passed) (pose : String)
        (normal : normalize_pose_label p q.pose_label ≡ ok pose) where
      module _ (tensor : Tensor)
          (decoded : decode_enrollment_image on.images image_file ≡ ok tensor) where
        check_quality-Route :
            (embedding : List Double) (quality : Double) (t : Threshold)
            → on.extract tensor ≡ template embedding quality
            → resolve_enrollment_min_quality p on.python min_quality_env ≡ t
            → Route s (check_quality q p on t (enrolled_row q p pose embedding quality) s)
        unfolding check_quality
        check_quality-Route embedding quality misconfigured extracted e = Route.refused _
        check_quality-Route embedding quality (minimum least) extracted e =
            elim (Bool-cases (ltb_double quality least)) [
              | inl low ↦ rw low (Route.refused _)
              | inr enough ↦ rw enough (
                  Route.stored _ (record {
                    student = student;
                    tensor = tensor;
                    least = least;
                    found = passed.found;
                    active = passed.active;
                    consent = passed.consent;
                    pose = normal;
                    decoded = decoded;
                    extracted = extracted;
                    threshold = e;
                    enough = enough;
                    row = refl;
                  }))
            ]

        check_extraction-Route :
            (x : Extraction) → on.extract tensor ≡ x → Route s (check_extraction q p on pose x s)
        unfolding check_extraction
        check_extraction-Route (template embedding quality) e =
            check_quality-Route embedding quality _ e refl
        check_extraction-Route no_face e = Route.refused _
        check_extraction-Route unavailable e = Route.refused _
        check_extraction-Route failed e = Route.refused _

      extract_template-Route :
          (r : Result Tensor)
          → decode_enrollment_image on.images image_file ≡ r
          → Route s (extract_template q p on pose r s)
      unfolding extract_template
      extract_template-Route (ok tensor) e = check_extraction-Route tensor e _ refl
      extract_template-Route (raised x) e = Route.refused x

    enroll_pose-Route :
        Passed
        → (r : Result String) → normalize_pose_label p q.pose_label ≡ r
        → Route s (enroll_pose q p on r s)
    unfolding enroll_pose
    enroll_pose-Route passed (ok pose) e = extract_template-Route passed pose e _ refl
    enroll_pose-Route passed (raised x) e = Route.refused x

    enroll_existing-Route :
        find_student student_id s.working.students ≡ some student
        → Route s (enroll_existing q p on (some student) s)
    unfolding enroll_existing
    enroll_existing-Route found = elim (Bool-cases student.is_active) [
      | inr inactive ↦ rw inactive (Route.refused _)
      | inl active ↦
          elim (Bool-cases (enforce_biometric_consent && not (is_granted student.consent_status))) [
            | inl unconsented ↦ rw (active, unconsented) (Route.refused _)
            | inr consented ↦
                rw (active, consented)
                  (enroll_pose-Route
                    (record {
                      found = found;
                      active = active;
                      consent = λ enforced. is_granted_sound student.consent_status (ground arith);
                    })
                    _ refl)
          ]
    ]

  pub enroll_student_template-Route : (s : Session) → Route s (enroll_student_template q p on s)
  unfolding enroll_student_template enroll_existing
  enroll_student_template-Route s =
      elim (Option-cases (find_student student_id s.working.students)) [
        | inl missing ↦ rw missing (Route.refused _)
        | inr (student, found) ↦ rw found (enroll_existing-Route s student found)
      ]

  store_template-value :
      (e a : StudentEmbedding) (s : Session) → (store_template q p on e s).0 ≡ ok a → a ≡ e
  unfolding store_template settle_enrollment with_commit write_template emit flush commit
  store_template-value e a s h = ground arith

  Route-Admitted :
      (s : Session) (e : StudentEmbedding) (o : Result StudentEmbedding × Session)
      → Route s o
      → o.0 ≡ ok e
      → Admitted s.working e
  Route-Admitted s e _ (refused x) h = absurd (ground arith)
  Route-Admitted s e _ (stored a admitted) h =
      subst (Admitted s.working) (sym (store_template-value a e s h)) admitted

  -- A template comes out of the route only for an active student, with consent where it is
  -- enforced, under a normalized pose label of 1 to 32 characters, from an image that was decoded,
  -- with the extracted vector and quality, and with a quality not below the configured minimum.
  pub enroll_student_template-Admitted :
      (s : Session) (e : StudentEmbedding)
      → (enroll_student_template q p on s).0 ≡ ok e
      → Admitted s.working e
        × (str_eq e.pose_label "" ≡ false)
        × (count e.pose_label ≤ pose_label_max_len)
  unfolding normalize_pose_label
  enroll_student_template-Admitted s e h =
      let admitted = Route-Admitted s e _ (enroll_student_template-Route s) h in
      let (filled, short) =
        check_pose_label_lem p (p.lower (p.strip (text_or "front" q.pose_label))) e.pose_label
          admitted.pose in
      (admitted, filled, short)
