-- ===== src/Templates/Tests.antt =====
-- The first template of student 5.
use Prim.Native.String.{count}
use text.Mathlib.Text.{◌==◌ as str_eq}
use attendence_v.Prelude.{ℕ, ◌≡◌, ◌≤◌, refl, false, true, none, some, List, [], ◌∷◌}
use attendence_v.Prelude.Double.{half_double}
use attendence_v.Storage.{Session, flush, commit, with_commit, ok}
use attendence_v.Storage.Models.{StudentEmbedding}
use attendence_v.Audit.{emit}
use attendence_v.Fixtures.{plain, class_db, opened}
use attendence_v.Templates.Store.{actives}
use attendence_v.Templates.Rotation.{Gallery, Represents}
use attendence_v.Templates.Gates.{
  template, pose_label_max_len, normalize_pose_label, check_pose_label, decode_enrollment_image,
  check_decoded, is_other_type, is_too_small, resolve_enrollment_min_quality,
}
use attendence_v.Templates.Enroll.{
  EnrollRequest, Enrolling, enroll_student_template, enroll_existing, enroll_pose, is_granted,
  enrolled_row, extract_template, check_extraction, check_quality, store_template,
  settle_enrollment, write_template,
}
use attendence_v.Templates.Enroll.Admits.{Admitted, enroll_student_template-Admitted}
use attendence_v.Templates.Enroll.Refines.{EnrollEnds, enroll_student_template_lem}

-- An image is its bytes.
abbrev on : Enrolling (List ℕ)
on = record {
  images = record { open_rgb = λ bytes. some bytes; shape = λ t. 8 ∷ 8 ∷ 3 ∷ [] };
  extract = λ t. template (half_double ∷ []) half_double;
  python = record { parse_float = λ s. none };
  four_decimals = λ d. "0.5000";
  is_integrity = λ d. true;
}

abbrev upload : EnrollRequest
upload = record {
  student_id = 5;
  actor = 1;
  image_file = record { content_type = some "image/png"; bytes = 137 ∷ 80 ∷ [] };
  pose_label = some "left";
  enforce_biometric_consent = true;
  min_quality_env = none;
  new_id = 40;
}

abbrev class : Session
class = opened class_db

abbrev nobody : Gallery
nobody k pose = none

class-Represents : Represents class_db nobody
unfolding actives
class-Represents = record { at = λ k pose. refl }

abbrev new_template : StudentEmbedding
new_template = enrolled_row upload plain "left" (half_double ∷ []) half_double

enroll_returns : (enroll_student_template upload plain on class).0 ≡ ok new_template
unfolding enroll_student_template enroll_existing enroll_pose is_granted normalize_pose_label
    check_pose_label decode_enrollment_image check_decoded is_other_type is_too_small
    extract_template check_extraction check_quality resolve_enrollment_min_quality store_template
    settle_enrollment with_commit write_template emit flush commit
enroll_returns = refl

enroll_student_template_example :
    EnrollEnds upload plain class nobody (enroll_student_template upload plain on class)
enroll_student_template_example =
    enroll_student_template_lem upload plain on class nobody refl class-Represents

enroll_student_template-Admitted_example :
    Admitted upload plain on class_db new_template
    × (str_eq "left" "" ≡ false)
    × (count "left" ≤ pose_label_max_len)
enroll_student_template-Admitted_example =
    enroll_student_template-Admitted upload plain on class new_template enroll_returns
