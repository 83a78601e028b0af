-- ===== src/Tracking/Batch.antt =====
-- The identities of a whole batch.
use attendence_v.Prelude.{
  ℕ, ◌+◌, ◌≤◌, ◌<◌, ◌≡◌, inl, inr, refl, ◌∙◌, true, none, List, [], ◌∷◌, ◌++◌, contains, arith,
  Option-cases, All,
}
use attendence_v.Prelude.Double.{Double, ℤ, pos, negsuc, pos_inf}
use attendence_v.Tracking.{
  Detection, TrackedDetection, Track, Python, sentinel, single_frame, ids, remove, nearest, choose,
  track_frame, track_frames, bbox_centroid, track_detections, sort_by_score,
}
use attendence_v.Tracking.Unique.{distinct, frame_ids_lem, selected_lem, contains-remove}

abbrev pub track_ids : List TrackedDetection → List ℤ
track_ids [] = []
track_ids (t ∷ ts) = t.track_id ∷ track_ids ts

-- −1, −2, … for a list, from an offset.
abbrev pub countdown : ℕ → List Detection → List ℤ
countdown offset [] = []
countdown offset (d ∷ ds) = negsuc offset ∷ countdown (offset + 1) ds

track_ids-single_frame :
    (offset : ℕ) (ds : List Detection) → track_ids (single_frame offset ds) ≡ countdown offset ds
unfolding single_frame sentinel
track_ids-single_frame offset [] = refl
track_ids-single_frame offset (d ∷ ds) = rw (track_ids-single_frame (offset + 1) ds) refl

track_ids-append :
    (ts us : List TrackedDetection) → track_ids (ts ++ us) ≡ track_ids ts ++ track_ids us
track_ids-append [] us = refl
track_ids-append (t ∷ ts) us = rw (track_ids-append ts us) refl

abbrev pub positive : List ℕ → List ℤ
positive [] = []
positive (k ∷ ks) = pos k ∷ positive ks

-- The identities of the frames, one after the other.
abbrev pub joined : List (List ℕ) → List ℤ
joined [] = []
joined (ks ∷ kss) = positive ks ++ joined kss

module _ (python : Python) (max_link_distance : Double) where
  abbrev pub frame : List Track → List Detection → ℕ → List TrackedDetection × List Track × ℕ
  frame previous ds next =
      track_frame python max_link_distance previous (sort_by_score ds) (ids previous) next

  -- The identities that each frame assigns.
  abbrev pub batch_ids : List (List Detection) → List Track → ℕ → List (List ℕ)
  batch_ids [] previous next = []
  batch_ids (ds ∷ frames) previous next =
      ids (frame previous ds next).1
      ∷ batch_ids frames (frame previous ds next).1 (frame previous ds next).2

  track_ids-track_frame :
      (previous : List Track) (ds : List Detection) (available : List ℕ) (next : ℕ)
      → track_ids (track_frame python max_link_distance previous ds available next).0
        ≡ positive (ids (track_frame python max_link_distance previous ds available next).1)
  unfolding track_frame ids
  track_ids-track_frame previous [] available next = refl
  track_ids-track_frame previous (d ∷ ds) available next =
      let c = bbox_centroid python max_link_distance d.bbox in
      let chosen =
        choose python max_link_distance
          (nearest python max_link_distance c previous (python.set_order available) none pos_inf)
          available next in
      rw (track_ids-track_frame previous ds chosen.1 chosen.2) refl

  track_ids-track_frames :
      (frames : List (List Detection)) (previous : List Track) (next : ℕ)
      → track_ids (track_frames python max_link_distance frames previous next)
        ≡ joined (batch_ids frames previous next)
  unfolding track_frames
  track_ids-track_frames [] previous next = refl
  track_ids-track_frames (ds ∷ frames) previous next =
      let f = frame previous ds next in
      track_ids-append f.0 (track_frames python max_link_distance frames f.1 f.2)
      ∙ rw
          (
            track_ids-track_frame previous (sort_by_score ds) (ids previous) next,
            track_ids-track_frames frames f.1 f.2,
          )
          refl

  module _ (walked : (k : ℕ) (ks : List ℕ) → contains k (python.set_order ks) ≡ contains k ks) where
    -- The tracks of a frame stay below the next new identity.
    track_frame_below :
        (previous : List Track) (ds : List Detection) (available : List ℕ) (next : ℕ)
        → ((k : ℕ) → contains k available ≡ true → k < next)
        → let f = track_frame python max_link_distance previous ds available next in
          (next ≤ f.2) × ((k : ℕ) → contains k (ids f.1) ≡ true → k < f.2)
    unfolding track_frame ids choose
    track_frame_below previous [] available next below = (omega arith, λ k h. ground arith)
    track_frame_below previous (d ∷ ds) available next below =
        let c = bbox_centroid python max_link_distance d.bbox in
        elim (Option-cases
          (nearest python max_link_distance c previous (python.set_order available) none pos_inf)) [
            | inl e ↦
                (let rest =
                    track_frame_below previous ds available (next + 1)
                      (λ k h. omega (arith, below k h)) in
                  (ground (arith, e, rest.0), λ k h. ground (arith, e, h, rest.0, rest.1 k)))
            | inr (j, e) ↦
                (let rest =
                    track_frame_below previous ds (remove j available) next
                      (λ k h. below k (ground (arith, h, contains-remove k j available))) in
                  let small =
                    below j
                      (selected_lem python max_link_distance walked c previous available j e) in
                  (ground (arith, e, rest.0), λ k h. ground (arith, e, h, small, rest.0, rest.1 k)))
          ]

    batch_ids-distinct :
        (frames : List (List Detection)) (previous : List Track) (next : ℕ)
        → ((k : ℕ) → contains k (ids previous) ≡ true → k < next)
        → All (λ ks. distinct ks ≡ true) (batch_ids frames previous next)
    batch_ids-distinct [] previous next below = tt
    batch_ids-distinct (ds ∷ frames) previous next below = (
      frame_ids_lem python max_link_distance walked previous (sort_by_score ds) (ids previous) next
          below,
      batch_ids-distinct frames (frame previous ds next).1 (frame previous ds next).2
          (track_frame_below previous (sort_by_score ds) (ids previous) next below).1,
    )

    -- The detections of a single frame get the identities −1, −2, … in their order. In a batch of
    -- several frames the identities are those of the frames one after the other, never negative,
    -- and no two detections of one frame share one, in whatever order Python walks a set.
    pub track_detections_lem :
        (first second : List Detection) (frames : List (List Detection))
        → let batch = first ∷ second ∷ frames in
          (track_ids (track_detections python max_link_distance (first ∷ [])) ≡ countdown 0 first)
          × (track_ids (track_detections python max_link_distance batch)
              ≡ joined (batch_ids batch [] 1))
          × All (λ ks. distinct ks ≡ true) (batch_ids batch [] 1)
    unfolding track_detections ids
    track_detections_lem first second frames = (
      track_ids-single_frame 0 first,
      track_ids-track_frames (first ∷ second ∷ frames) [] 1,
      batch_ids-distinct (first ∷ second ∷ frames) [] 1 (λ k h. ground arith),
    )
