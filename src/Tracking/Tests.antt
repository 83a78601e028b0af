-- ===== src/Tracking/Tests.antt =====
-- Runs of the tracker, and the theorem at a batch of two frames.
use attendence_v.Prelude.{◌≡◌, refl, true, List, [], ◌∷◌, All}
use attendence_v.Prelude.Double.{Double, half_double, one_double, zero_double, negsuc, pos}
use attendence_v.Tracking.{
  Detection, Python, track_detections, track_frames, track_frame, sort_by_score, insert_by_score,
  bbox_centroid, nearest, consider, centroid_of, choose, remove, ids,
}
use attendence_v.Tracking.Unique.{distinct}
use attendence_v.Tracking.Batch.{track_ids, joined, batch_ids, track_detections_lem}

-- Float operations that keep their first argument, and a set walked in the order of its list.
abbrev python : Python
python = record { plus = λ x y. x; halve = λ x. x; dist = λ a b. zero_double; set_order = λ ks. ks }

abbrev face : Double → Detection
face score = record {
  frame_index = 0;
  frame_id = "f";
  bbox = (zero_double, zero_double, one_double, one_double);
  score = score;
  class_id = 0;
}

abbrev crowd : List Detection
crowd = face half_double ∷ face one_double ∷ []

-- One face is linked to the frame before, the second is new.
links :
    track_ids (track_detections python one_double ((face one_double ∷ []) ∷ crowd ∷ []))
    ≡ pos 1 ∷ pos 1 ∷ pos 2 ∷ []
unfolding track_detections track_frames track_frame sort_by_score insert_by_score bbox_centroid
    nearest consider centroid_of choose remove ids
links = refl

track_detections_example :
    (track_ids (track_detections python one_double (crowd ∷ [])) ≡ negsuc 0 ∷ negsuc 1 ∷ [])
    × (track_ids (track_detections python one_double (crowd ∷ crowd ∷ []))
        ≡ joined (batch_ids python one_double (crowd ∷ crowd ∷ []) [] 1))
    × All (λ ks. distinct ks ≡ true) (batch_ids python one_double (crowd ∷ crowd ∷ []) [] 1)
track_detections_example = track_detections_lem python one_double (λ k ks. refl) crowd crowd []
