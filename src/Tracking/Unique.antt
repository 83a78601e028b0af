-- ===== src/Tracking/Unique.antt =====
-- Identities within a frame are distinct.
use attendence_v.Prelude.{
  ℕ, ◌+◌, ◌≤◌, ◌<◌, ◌≡◌, ◌⊎◌, inl, inr, refl, Bool, true, not, ◌&&◌, Option, none, some, List, [],
  ◌∷◌, contains, ◌==◌, arith, Option-cases,
}
use attendence_v.Prelude.Double.{Double, pos_inf}
use attendence_v.Tracking.{
  Detection, Track, Python, centroid_of, ids, remove, consider, nearest, choose, track_frame,
  bbox_centroid,
}

pub contains-remove :
    (v w : ℕ) (ws : List ℕ) → contains v (remove w ws) ≡ (contains v ws && not (v == w))
unfolding remove
contains-remove v w [] = refl
contains-remove v w (u ∷ ws) = ground (arith, contains-remove v w ws)

-- No two elements are the same.
abbrev pub distinct : List ℕ → Bool
distinct [] = true
distinct (k ∷ ks) = not (contains k ks) && distinct ks

module _ (python : Python) (max_link_distance : Double) where
  consider_lem :
      (c : Double × Double) (k : ℕ) (o : Option (Double × Double)) (selected : Option ℕ)
      (best : Double)
      → ((consider python max_link_distance c k o selected best).0 ≡ selected)
        ⊎ ((consider python max_link_distance c k o selected best).0 ≡ some k)
  unfolding consider
  consider_lem c k none selected best = inl refl
  consider_lem c k (some other) selected best = ground arith

  -- What is selected was so at the start or is one of the candidates that were walked.
  nearest_lem :
      (c : Double × Double) (previous : List Track) (ks : List ℕ) (selected : Option ℕ)
      (best : Double) (k : ℕ)
      → nearest python max_link_distance c previous ks selected best ≡ some k
      → (contains k ks ≡ true) ⊎ (selected ≡ some k)
  unfolding nearest
  nearest_lem c previous [] selected best k h = inr h
  nearest_lem c previous (j ∷ ks) selected best k h =
      let next = consider python max_link_distance c j (centroid_of j previous) selected best in
      ground (
        arith,
        consider_lem c j (centroid_of j previous) selected best,
        nearest_lem c previous ks next.0 next.1 k h,
      )

  abbrev pub frame_ids : List Track → List Detection → List ℕ → ℕ → List ℕ
  frame_ids previous ds available next =
      ids (track_frame python max_link_distance previous ds available next).1

  module _ (walked : (k : ℕ) (ks : List ℕ) → contains k (python.set_order ks) ≡ contains k ks) where
    pub selected_lem :
        (c : Double × Double) (previous : List Track) (available : List ℕ) (k : ℕ)
        → nearest python max_link_distance c previous (python.set_order available) none pos_inf
          ≡ some k
        → contains k available ≡ true
    selected_lem c previous available k h = ground (
      arith,
      nearest_lem c previous (python.set_order available) none pos_inf k h,
      walked k available,
    )

    -- Every identity of a frame is available before it or a new one.
    frame_ids_from :
        (previous : List Track) (ds : List Detection) (available : List ℕ) (next k : ℕ)
        → contains k (frame_ids previous ds available next) ≡ true
        → (contains k available ≡ true) ⊎ (next ≤ k)
    unfolding track_frame ids choose
    frame_ids_from previous [] available next k h = ground arith
    frame_ids_from previous (d ∷ ds) available next k h =
        let c = bbox_centroid python max_link_distance d.bbox in
        elim (Option-cases
          (nearest python max_link_distance c previous (python.set_order available) none pos_inf)) [
            | inl e ↦ ground (arith, e, frame_ids_from previous ds available (next + 1) k)
            | inr (j, e) ↦ ground (
              arith,
              e,
              selected_lem c previous available j e,
              contains-remove k j available,
              frame_ids_from previous ds (remove j available) next k,
            )
          ]

    -- The identities of one frame are distinct, if those of the frame before are below the next
    -- new one: whatever order the set is walked in, no two detections of a frame share one.
    pub frame_ids_lem :
        (previous : List Track) (ds : List Detection) (available : List ℕ) (next : ℕ)
        → ((k : ℕ) → contains k available ≡ true → k < next)
        → distinct (frame_ids previous ds available next) ≡ true
    unfolding track_frame ids choose
    frame_ids_lem previous [] available next below = refl
    frame_ids_lem previous (d ∷ ds) available next below =
        let c = bbox_centroid python max_link_distance d.bbox in
        elim (Option-cases
          (nearest python max_link_distance c previous (python.set_order available) none pos_inf)) [
            | inl e ↦ ground (
              arith,
              e,
              below next,
              frame_ids_from previous ds available (next + 1) next,
              frame_ids_lem previous ds available (next + 1) (λ k h. omega (arith, below k h)),
            )
            | inr (j, e) ↦ ground (
              arith,
              e,
              below j,
              selected_lem c previous available j e,
              contains-remove j j available,
              frame_ids_from previous ds (remove j available) next j,
              frame_ids_lem previous ds (remove j available) next
                  (λ k h. below k (ground (arith, h, contains-remove k j available))),
            )
          ]
