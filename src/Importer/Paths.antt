-- ===== src/Importer/Paths.antt =====
-- `resolve_image_path`: an image lies under the photos directory, or it is refused.
use attendence_v.Prelude.{
  ℕ, ◌≡◌, refl, ap, sym, ◌∙◌, Bool-cases, inl, inr, String, Bool, true, false, ◌&&◌, List, [], ◌∷◌,
  ◌++◌, if◌then◌else◌, arith,
}
use text.Mathlib.Text.{◌==◌ as str_eq}
use text.Mathlib.TextEquality.{eq_iff}
use attendence_v.Importer.Inputs.{Attempt, done, failure}

-- Paths on disk: `resolve` follows links and removes "..", and gives the names from the root.
pub record Files : Type 0 where
  pub is_absolute : String → Bool
  pub resolve : String → List String
  pub joined : String → String → String
  pub escapes : String → String
  pub read_bytes : List String → Attempt (List ℕ)

-- `a == b or a in b.parents`
unfoldable pub is_within : List String → List String → Bool
is_within [] names = true
is_within (x ∷ root) [] = false
is_within (x ∷ root) (y ∷ names) = str_eq x y && is_within root names

module _ (files : Files) (photos_dir : String) where
  unfoldable pub check_within : String → List String → Attempt (List String)
  check_within image_path resolved =
      if is_within (files.resolve photos_dir) resolved
      then done resolved
      else failure (files.escapes image_path)

  -- An absolute path resolves by itself, another one from the photos directory.
  unfoldable pub resolve_image_path : String → Attempt (List String)
  unfolding check_within
  resolve_image_path image_path =
      if files.is_absolute image_path
      then check_within image_path (files.resolve image_path)
      else check_within image_path (files.resolve (files.joined photos_dir image_path))

  is_within-append :
      (root names : List String)
      → is_within root names ≡ true
      → (rest : List String) × (names ≡ root ++ rest)
  unfolding is_within
  is_within-append [] names h = (names, refl)
  is_within-append (x ∷ root) [] h = absurd (ground arith)
  is_within-append (x ∷ root) (y ∷ names) h =
      let (rest, e) = is_within-append root names (ground arith) in
      let same : x ≡ y = (eq_iff x y).0 (ground arith) in (rest, cc)

  unfoldable pub read_resolved : Attempt (List String) → Attempt (List ℕ)
  read_resolved (done path) = files.read_bytes path
  read_resolved (failure detail) = failure detail

  -- The bytes of a row's image, or the text of the exception.
  unfoldable pub read_image : String → Attempt (List ℕ)
  read_image image_path = read_resolved (resolve_image_path image_path)

  check_within-contained :
      (image_path : String) (resolved path : List String)
      → check_within image_path resolved ≡ done path
      → (rest : List String) × (path ≡ files.resolve photos_dir ++ rest)
  unfolding check_within
  check_within-contained image_path resolved path h =
      let same : resolved ≡ path = ground arith in
      let (rest, e) = is_within-append (files.resolve photos_dir) resolved (ground arith) in
      (rest, sym same ∙ e)

  resolve_image_path-contained :
      (image_path : String) (path : List String)
      → resolve_image_path image_path ≡ done path
      → (rest : List String) × (path ≡ files.resolve photos_dir ++ rest)
  unfolding resolve_image_path
  resolve_image_path-contained image_path path h =
      elim (Bool-cases (files.is_absolute image_path)) [
        | inl absolute ↦
            check_within-contained image_path (files.resolve image_path) path (ground arith)
        | inr relative ↦
            check_within-contained image_path (files.resolve (files.joined photos_dir image_path))
              path (ground arith)
      ]

  read_resolved-contained :
      (bytes : List ℕ) (r : Attempt (List String))
      → ((path : List String)
          → r ≡ done path
          → (rest : List String) × (path ≡ files.resolve photos_dir ++ rest))
      → read_resolved r ≡ done bytes
      → (rest : List String) × (files.read_bytes (files.resolve photos_dir ++ rest) ≡ done bytes)
  unfolding read_resolved
  read_resolved-contained bytes (done path) within h =
      let (rest, e) = within path refl in (rest, ap files.read_bytes (sym e) ∙ h)
  read_resolved-contained bytes (failure detail) within h = absurd (ground arith)

  -- Bytes are only read from a file under the photos directory, whatever the path of the row
  -- says: absolute, with "..", or through a link.
  pub read_image-contained :
      (image_path : String) (bytes : List ℕ)
      → read_image image_path ≡ done bytes
      → (rest : List String) × (files.read_bytes (files.resolve photos_dir ++ rest) ≡ done bytes)
  unfolding read_image
  read_image-contained image_path bytes h =
      read_resolved-contained bytes (resolve_image_path image_path)
        (resolve_image_path-contained image_path) h
