-- ===== src/Templates/Gates.antt =====
-- What an upload passes before anything is written: the pose label, the image and its quality.
use Prim.Native.String.{count}
use text.Mathlib.Text.{◌==◌ as str_eq, starts_with}
use attendence_v.Prelude.{
  ℕ, String, Bool, true, false, ◌&&◌, ◌||◌, not, Option, none, some, List, [], ◌∷◌, if◌then◌else◌,
  ltb,
}
use attendence_v.Prelude.Double.{Double, zero_double, one_double, half_double, leb_double}
use attendence_v.Storage.{Platform, Result, ok, raised, http}

-- Pillow and NumPy: the bytes of an image as an RGB tensor, if Pillow can decode them, and the
-- shape of a tensor.
pub record Images (Tensor : Type 0) : Type 0 where
  pub open_rgb : List ℕ → Option Tensor
  pub shape : Tensor → List ℕ

-- What `extract_enrollment_embedding` ends in: a template with its quality, no detected face, an
-- inference server that failed, or another exception.
pub data Extraction : Type 0 where
  template : List Double → Double → Extraction
  no_face unavailable failed : Extraction

-- `float` of a text.
pub record Python : Type 0 where
  pub parse_float : String → Option Double

pub data Threshold : Type 0 where
  minimum : Double → Threshold
  misconfigured : Threshold

-- `x or default` on a text that may be missing.
abbrev pub text_or : String → Option String → String
text_or default none = default
text_or default (some s) = if str_eq s "" then default else s

abbrev pub pose_label_max_len : ℕ
pose_label_max_len = 32

module _ (p : Platform) where
  unfoldable pub check_pose_label : String → Result String
  check_pose_label pose =
      if str_eq pose ""
      then raised (http 422 "pose_label must not be blank.")
      else if ltb pose_label_max_len (count pose)
      then raised (http 422 "pose_label must be at most 32 characters long.")
      else ok pose

  -- `_normalize_pose_label`
  unfoldable pub normalize_pose_label : Option String → Result String
  unfolding check_pose_label
  normalize_pose_label raw = check_pose_label (p.lower (p.strip (text_or "front" raw)))

  module _ (python : Python) where
    unfoldable pub check_minimum : Option Double → Threshold
    check_minimum none = misconfigured
    check_minimum (some d) =
        if leb_double zero_double d && leb_double d one_double then minimum d else misconfigured

    -- `_resolve_enrollment_min_quality`, on the value of the environment variable; `misconfigured`
    -- is its RuntimeError.
    unfoldable pub resolve_enrollment_min_quality : Option String → Threshold
    unfolding check_minimum
    resolve_enrollment_min_quality none = minimum half_double
    resolve_enrollment_min_quality (some raw) =
        if str_eq (p.strip raw) ""
        then minimum half_double
        else check_minimum (python.parse_float (p.strip raw))

-- `tensor.ndim != 3 or tensor.shape[0] < 8 or tensor.shape[1] < 8`
unfoldable pub is_too_small : List ℕ → Bool
is_too_small (height ∷ width ∷ channels ∷ []) = ltb height 8 || ltb width 8
is_too_small shape = true

abbrev pub is_empty : List ℕ → Bool
is_empty [] = true
is_empty (b ∷ bytes) = false

pub record Upload : Type 0 where
  pub content_type : Option String
  pub bytes : List ℕ

-- `content_type and not content_type.startswith("image/")`
unfoldable pub is_other_type : Option String → Bool
is_other_type none = false
is_other_type (some content_type) =
    not (str_eq content_type "") && not (starts_with content_type "image/")

module _ {Tensor : Type 0} (images : Images Tensor) where
  unfoldable pub check_decoded : Option Tensor → Result Tensor
  check_decoded none = raised (http 400 "Uploaded file is not a valid decodable image.")
  check_decoded (some tensor) =
      if is_too_small (images.shape tensor)
      then raised (http 400 "Image dimensions are too small for enrollment.")
      else ok tensor

  -- `_decode_enrollment_image`
  unfoldable pub decode_enrollment_image : Upload → Result Tensor
  unfolding check_decoded
  decode_enrollment_image upload =
      if is_other_type upload.content_type
      then raised (http 400 "Uploaded file must be an image.")
      else if is_empty upload.bytes
      then raised (http 400 "Uploaded image file is empty.")
      else check_decoded (images.open_rgb upload.bytes)
