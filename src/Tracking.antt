-- ===== src/Tracking.antt =====
-- Track identities within a batch of frames: backend/app/services/pipeline/tracking.py.
pub mod Unique
pub mod Batch
mod Tests
use attendence_v.Prelude.{
  ℕ, zero, suc, ◌+◌, Bool, true, false, not, ◌&&◌, String, Option, none, some, List, [], ◌∷◌, ◌++◌,
  if◌then◌else◌, ◌==◌, filter,
}
use attendence_v.Prelude.Double.{Double, ltb_double, leb_double, pos_inf, ℤ, pos, negsuc}

-- A bounding box is x, y, width and height.
pub record Detection : Type 0 where
  pub frame_index : ℕ
  pub frame_id : String
  pub bbox : Double × Double × Double × Double
  pub score : Double
  pub class_id : ℕ

pub record TrackedDetection : Type 0 where
  pub detection : Detection
  pub track_id : ℤ

-- What the tracker takes of Python: float addition and halving, `math.dist`, and the order in
-- which a set of numbers is walked.
pub record Python : Type 0 where
  pub plus : Double → Double → Double
  pub halve : Double → Double
  pub dist : Double × Double → Double × Double → Double
  pub set_order : List ℕ → List ℕ

-- `_SENTINEL_TRACK_ID_START - offset`
unfoldable pub sentinel : ℕ → ℤ
sentinel offset = negsuc offset

unfoldable pub single_frame : ℕ → List Detection → List TrackedDetection
single_frame offset [] = []
single_frame offset (d ∷ ds) =
    record { detection = d; track_id = sentinel offset } ∷ single_frame (offset + 1) ds

-- `sorted(…, key=score, reverse=True)`, which keeps the order of equal scores.
unfoldable pub insert_by_score : Detection → List Detection → List Detection
insert_by_score d [] = d ∷ []
insert_by_score d (e ∷ es) =
    let rest = insert_by_score d es in if ltb_double d.score e.score then e ∷ rest else d ∷ e ∷ es

unfoldable pub sort_by_score : List Detection → List Detection
sort_by_score [] = []
sort_by_score (d ∷ ds) = insert_by_score d (sort_by_score ds)

-- An entry of `previous_tracks`, in the order in which it was added.
pub record Track : Type 0 where
  pub id : ℕ
  pub centroid : Double × Double

unfoldable pub centroid_of : ℕ → List Track → Option (Double × Double)
centroid_of k [] = none
centroid_of k (track ∷ tracks) = if k == track.id then some track.centroid else centroid_of k tracks

unfoldable pub ids : List Track → List ℕ
ids [] = []
ids (track ∷ tracks) = track.id ∷ ids tracks

unfoldable pub remove : ℕ → List ℕ → List ℕ
remove k ks = filter (λ j. not (j == k)) ks

module _ (python : Python) (max_link_distance : Double) where
  unfoldable pub bbox_centroid : Double × Double × Double × Double → Double × Double
  bbox_centroid (x, y, w, h) = (python.plus x (python.halve w), python.plus y (python.halve h))

  -- `selected_track` and `best_distance` after one candidate.
  unfoldable pub consider :
      Double × Double → ℕ → Option (Double × Double) → Option ℕ → Double → Option ℕ × Double
  consider centroid k none selected best = (selected, best)
  consider centroid k (some other) selected best =
      let distance = python.dist centroid other in
      if leb_double distance max_link_distance && ltb_double distance best
      then (some k, distance)
      else (selected, best)

  -- The loop over the candidates, from what is selected so far.
  unfoldable pub nearest : Double × Double → List Track → List ℕ → Option ℕ → Double → Option ℕ
  nearest centroid previous [] selected best = selected
  nearest centroid previous (k ∷ ks) selected best =
      let (selected', best') = consider centroid k (centroid_of k previous) selected best in
      nearest centroid previous ks selected' best'

  -- The identity of a detection, with the available tracks and the next identity after it.
  unfoldable pub choose : Option ℕ → List ℕ → ℕ → ℕ × List ℕ × ℕ
  choose none available next = (next, available, next + 1)
  choose (some k) available next = (k, remove k available, next)

  -- The detections of one frame in order of their scores: the tracked detections, the tracks of
  -- this frame, and the next identity.
  unfoldable pub track_frame :
      List Track → List Detection → List ℕ → ℕ → List TrackedDetection × List Track × ℕ
  track_frame previous [] available next = ([], [], next)
  track_frame previous (d ∷ ds) available next =
      let centroid = bbox_centroid d.bbox in
      let (k, available', next') =
        choose (nearest centroid previous (python.set_order available) none pos_inf) available
          next in
      let (tracked, current, last) = track_frame previous ds available' next' in
      (
        record { detection = d; track_id = pos k } ∷ tracked,
        record { id = k; centroid = centroid } ∷ current,
        last,
      )

  unfoldable pub track_frames : List (List Detection) → List Track → ℕ → List TrackedDetection
  track_frames [] previous next = []
  track_frames (frame ∷ frames) previous next =
      let (tracked, current, next') =
        track_frame previous (sort_by_score frame) (ids previous) next in
      tracked ++ track_frames frames current next'

  unfoldable pub track_detections : List (List Detection) → List TrackedDetection
  track_detections [] = []
  track_detections (frame ∷ []) = single_frame 0 frame
  track_detections (frame ∷ other ∷ frames) = track_frames (frame ∷ other ∷ frames) [] 1
