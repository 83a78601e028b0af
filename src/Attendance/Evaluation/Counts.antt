-- ===== src/Attendance/Evaluation/Counts.antt =====
-- The dicts that the evaluation reads, against direct descriptions of what they hold.
use attendence_v.Prelude.{
  ℕ, ◌+◌, ◌≡◌, refl, Bool, false, ◌&&◌, ◌||◌, Option, none, some, List, [], ◌∷◌, arith, ◌==◌,
  if◌then◌else◌, lookup, insert, keys, filter, length, contains, IsDistinct, All, All-imp, if_both,
  Bool-cases, inl, inr, ltb, ◌<◌, not, lookup-insert, is_some,
}
use attendence_v.Storage.Models.{Sighting, ClassSessionRecord, AttendanceStatus}
use attendence_v.Attendance.Records.{has_key, find_record, IsKeyed}
use attendence_v.Attendance.Evaluation.{
  sighting_counts, existing_statuses, insert_sorted, sorted_ids, count_of, bump,
}

-- How many sightings are of the student.
abbrev pub is_of : ℕ → Sighting → Bool
is_of k sighting = elim sighting.student_id [ none ↦ false | some j ↦ k == j ]

count_of-bump :
    (k : ℕ) (o : Option ℕ) (counts : List (ℕ × ℕ))
    → count_of k (bump o counts)
      ≡ count_of k counts + (elim o [ none ↦ 0 | some j ↦ if k == j then 1 else 0 ])
count_of-bump k none counts = omega arith
count_of-bump k (some j) counts = ground (arith, lookup-insert k j (count_of j counts + 1) counts)

pub count_of-sighting_counts :
    (k : ℕ) (sightings : List Sighting)
    → count_of k (sighting_counts sightings) ≡ length (filter (is_of k) sightings)
unfolding sighting_counts
count_of-sighting_counts k [] = refl
count_of-sighting_counts k (x ∷ xs) =
    ground (arith, count_of-bump k x.student_id (sighting_counts xs), count_of-sighting_counts k xs)

pub contains-insert_sorted :
    (k j : ℕ) (js : List ℕ) → contains k (insert_sorted j js) ≡ ((k == j) || contains k js)
unfolding insert_sorted
contains-insert_sorted k j [] = refl
contains-insert_sorted k j (i ∷ is) = ground (arith, contains-insert_sorted k j is)

pub contains-sorted_ids : (k : ℕ) (ks : List ℕ) → contains k (sorted_ids ks) ≡ contains k ks
unfolding sorted_ids
contains-sorted_ids k [] = refl
contains-sorted_ids k (j ∷ js) =
    ground (arith, contains-insert_sorted k j (sorted_ids js), contains-sorted_ids k js)

-- Rising numbers, which are distinct.
abbrev IsAscending : List ℕ → Type 0
IsAscending [] = Unit
IsAscending (k ∷ ks) = All (λ m. k < m) ks × IsAscending ks

above_is_absent : (k : ℕ) (ks : List ℕ) → All (λ m. k < m) ks → contains k ks ≡ false
above_is_absent k [] h = refl
above_is_absent k (j ∷ js) h = ground (arith, h.0, above_is_absent k js h.1)

IsAscending-IsDistinct : (ks : List ℕ) → IsAscending ks → IsDistinct ks
IsAscending-IsDistinct [] h = tt
IsAscending-IsDistinct (k ∷ ks) h = (above_is_absent k ks h.0, IsAscending-IsDistinct ks h.1)

All-insert_sorted :
    (P : ℕ → Type 0) (k : ℕ) (ks : List ℕ) → P k → All P ks → All P (insert_sorted k ks)
unfolding insert_sorted
All-insert_sorted P k [] h hs = (h, tt)
All-insert_sorted P k (j ∷ js) h hs =
    if_both (All P) (k == j) hs
      (if_both (All P) (ltb k j) (h, hs) (hs.0, All-insert_sorted P k js h hs.1))

insert_sorted-IsAscending :
    (k : ℕ) (ks : List ℕ) → IsAscending ks → IsAscending (insert_sorted k ks)
unfolding insert_sorted
insert_sorted-IsAscending k [] h = (tt, tt)
insert_sorted-IsAscending k (j ∷ js) h = elim (Bool-cases (k == j)) [
  | inl same ↦ rw same h
  | inr other ↦ (elim (Bool-cases (ltb k j)) [
    | inl before ↦
        rw (other, before)
          (let below : k < j = ground (arith, before) in
            ((below, All-imp _ _ js (λ m (above : j < m). omega (arith, below, above)) h.0), h))
    | inr after ↦
        rw (other, after)
          (
            All-insert_sorted _ k js (ground (arith, other, after)) h.0,
            insert_sorted-IsAscending k js h.1,
          )
  ])
]

sorted_ids-IsAscending : (ks : List ℕ) → IsAscending (sorted_ids ks)
unfolding sorted_ids
sorted_ids-IsAscending [] = tt
sorted_ids-IsAscending (k ∷ ks) =
    insert_sorted-IsAscending k (sorted_ids ks) (sorted_ids-IsAscending ks)

pub sorted_ids-IsDistinct : (ks : List ℕ) → IsDistinct (sorted_ids ks)
sorted_ids-IsDistinct ks = IsAscending-IsDistinct (sorted_ids ks) (sorted_ids-IsAscending ks)

pub contains-keys {ℓ} :
    {V : Type ℓ} (k : ℕ) (d : List (ℕ × V)) → contains k (keys d) ≡ is_some (lookup k d)
contains-keys k [] = refl
contains-keys k ((j, v) ∷ d) = ground (arith, contains-keys k d)

-- The dict of the statuses holds, for each student, the status of the record under the key.
pub statuses_lem :
    (k c d : ℕ) (acc : List (ℕ × AttendanceStatus)) (rs : List ClassSessionRecord)
    → IsKeyed rs
    → lookup k (existing_statuses acc (filter (λ r. r.course_id == c && r.session_date == d) rs))
      ≡ (elim (find_record k c d rs) [ none ↦ lookup k acc | some r ↦ some r.status ])
unfolding existing_statuses find_record has_key
statuses_lem k c d acc [] h = refl
statuses_lem k c d acc (r ∷ rs) h = ground (
  arith,
  lookup-insert k r.student_id r.status acc,
  statuses_lem k c d acc rs h.1,
  statuses_lem k c d (insert r.student_id r.status acc) rs h.1,
)

seen_bump :
    (k : ℕ) (o : Option ℕ) (counts : List (ℕ × ℕ))
    → is_some (lookup k (bump o counts))
      ≡ ((elim o [ none ↦ false | some j ↦ k == j ]) || is_some (lookup k counts))
seen_bump k none counts = refl
seen_bump k (some j) counts = ground (arith, lookup-insert k j (count_of j counts + 1) counts)

pub seen_lem :
    (k : ℕ) (sightings : List Sighting)
    → is_some (lookup k (sighting_counts sightings))
      ≡ not (length (filter (is_of k) sightings) == 0)
unfolding sighting_counts
seen_lem k [] = refl
seen_lem k (x ∷ xs) = ground (arith, seen_bump k x.student_id (sighting_counts xs), seen_lem k xs)
