-- ===== src/Attendance/Export/Listed.antt =====
-- Which identities the sort of the export lists, and in what order.
use attendence_v.Prelude.{
  ℕ, ◌≡◌, refl, sym, ap, ◌∙◌, subst, Bool, true, false, ◌||◌, Option, none, some, List, [], ◌∷◌,
  map, IsDistinct, contains, All, is_some, arith, ◌==◌, ltb, if◌then◌else◌, Option-cases, inl, inr,
  if_both, leb, Bool-cases,
}
use Prim.Native.Nat.{Ordering}
use Prim.Native.String.{compare}
use attendence_v.Prelude.Text.{compare-flip}
use attendence_v.Storage.{Db}
use attendence_v.Storage.Models.{Student, User}
use attendence_v.Auth.Replies.{find_user}
use attendence_v.Attendance.Guards.{find_student}
use attendence_v.Attendance.Export.{
  Identity, link_identity, identity_of, insert_identity, sorted_identities,
}

abbrev ids_of : List Identity → List ℕ
ids_of xs = map (λ (x : Identity). x.id) xs

-- The order of the key `(student_number, str(sid))`.
abbrev pub in_order : Identity → Identity → Bool
in_order x y = elim (compare x.student_number y.student_number) [
  | Ordering.lt ↦ true
  | Ordering.eq ↦ leb x.id y.id
  | Ordering.gt ↦ false
]

-- The first element, if there is one, does not come before `x`.
abbrev pub Leads : Identity → List Identity → Type 0
Leads x [] = Unit
Leads x (y ∷ ys) = in_order x y ≡ true

abbrev pub IsSorted : List Identity → Type 0
IsSorted [] = Unit
IsSorted (x ∷ xs) = Leads x xs × IsSorted xs

-- The identities of the students that are `wanted`, each once, in order.
pub record Listed (d : Db) (wanted : ℕ → Bool) (xs : List Identity) : Type 0 where
  pub genuine : All (λ x. identity_of d x.id ≡ some x) xs
  pub complete : (k : ℕ) → contains k (map (λ (x : Identity). x.id) xs) ≡ wanted k
  pub once : IsDistinct (map (λ (x : Identity). x.id) xs)
  pub sorted : IsSorted xs

module _ (x : Identity) where
  contains-insert_identity :
      (k : ℕ) (xs : List Identity)
      → contains k (ids_of (insert_identity x xs)) ≡ ((k == x.id) || contains k (ids_of xs))
  unfolding insert_identity
  contains-insert_identity k [] = refl
  contains-insert_identity k (y ∷ ys) = ground (arith, contains-insert_identity k ys)

  All-insert_identity {κ} :
      (P : Identity → Type κ) (xs : List Identity) → P x → All P xs → All P (insert_identity x xs)
  unfolding insert_identity
  All-insert_identity P [] h hs = (h, tt)
  All-insert_identity P (y ∷ ys) h hs =
      elim (compare x.student_number y.student_number)
        as (λ o. All P (elim o [
          | Ordering.lt ↦ x ∷ y ∷ ys
          | Ordering.gt ↦ y ∷ insert_identity x ys
          | Ordering.eq ↦ if ltb y.id x.id then y ∷ insert_identity x ys else x ∷ y ∷ ys
        ])) [
          | Ordering.lt ↦ (h, hs)
          | Ordering.gt ↦ (hs.0, All-insert_identity P ys h hs.1)
          | Ordering.eq ↦
              if_both (All P) (ltb y.id x.id) (hs.0, All-insert_identity P ys h hs.1) (h, hs)
        ]

in_order_total : (x y : Identity) → in_order x y ≡ false → in_order y x ≡ true
in_order_total x y h = ground (arith, compare-flip x.student_number y.student_number)

insert_identity_lem :
    (x y : Identity) (ys : List Identity)
    → insert_identity x (y ∷ ys) ≡ (if in_order x y then x ∷ y ∷ ys else y ∷ insert_identity x ys)
unfolding insert_identity
insert_identity_lem x y ys = ground arith

Leads-insert_identity :
    (z x : Identity) (xs : List Identity)
    → in_order z x ≡ true
    → Leads z xs
    → Leads z (insert_identity x xs)
unfolding insert_identity
Leads-insert_identity z x [] h hs = h
Leads-insert_identity z x (y ∷ ys) h hs =
    subst (Leads z) (sym (insert_identity_lem x y ys)) (if_both (Leads z) (in_order x y) h hs)

insert_identity-IsDistinct :
    (x : Identity) (xs : List Identity)
    → contains x.id (ids_of xs) ≡ false
    → IsDistinct (ids_of xs)
    → IsDistinct (ids_of (insert_identity x xs))
unfolding insert_identity
insert_identity-IsDistinct x [] fresh h = (refl, tt)
insert_identity-IsDistinct x (y ∷ ys) fresh h =
    let rest : contains x.id (ids_of ys) ≡ false = ground (arith, fresh) in
    subst (λ zs. IsDistinct (ids_of zs)) (sym (insert_identity_lem x y ys))
      (if_both (λ zs. IsDistinct (ids_of zs)) (in_order x y) (fresh, h)
        (
          contains-insert_identity x y.id ys ∙ ground (arith, fresh, h.0),
          insert_identity-IsDistinct x ys rest h.1,
        ))

insert_identity-IsSorted :
    (x : Identity) (xs : List Identity) → IsSorted xs → IsSorted (insert_identity x xs)
unfolding insert_identity
insert_identity-IsSorted x [] h = (tt, tt)
insert_identity-IsSorted x (y ∷ ys) h =
    subst IsSorted (sym (insert_identity_lem x y ys)) (elim (Bool-cases (in_order x y)) [
      | inl before ↦ rw before (before, h)
      | inr after ↦ rw after (
        Leads-insert_identity y x ys (in_order_total x y after) h.0,
        insert_identity-IsSorted x ys h.1,
      )
    ])

find_student-id :
    (k : ℕ) (students : List Student) {student : Student}
    → find_student k students ≡ some student
    → student.id ≡ k
find_student-id k [] h = ground arith
find_student-id k (r ∷ rs) {student} h = ground (arith, find_student-id k rs {student = student})

link_identity-id :
    (student : Student) (o : Option User) {x : Identity}
    → link_identity student o ≡ some x
    → student.id ≡ x.id
unfolding link_identity
link_identity-id student none h = ground arith
link_identity-id student (some user) h = ground arith

identity_of-id : (d : Db) (k : ℕ) {x : Identity} → identity_of d k ≡ some x → x.id ≡ k
unfolding identity_of
identity_of-id d k {x} h = elim (Option-cases (find_student k d.students)) [
  | inl missing ↦ ground (arith, missing, h)
  | inr (student, found) ↦
      sym (
        link_identity-id student (find_user student.user_id d.users) {x = x}
          (rw (identity_of, found) at h))
      ∙ find_student-id k d.students found
]

Listed-insert :
    (d : Db) (k : ℕ) (ks : List ℕ) (x : Identity) (xs : List Identity)
    → identity_of d k ≡ some x
    → contains k ks ≡ false
    → Listed d (λ j. contains j ks) xs
    → Listed d (λ j. contains j (k ∷ ks)) (insert_identity x xs)
Listed-insert d k ks x xs found fresh listed =
    let same : x.id ≡ k = identity_of-id d k found in
    record {
      genuine =
          All-insert_identity x _ xs (subst (λ j. identity_of d j ≡ some x) (sym same) found)
            listed.genuine;
      complete = λ j. contains-insert_identity x j xs ∙ (λ i. (j == same i) || listed.complete j i);
      once =
          insert_identity-IsDistinct x xs
            (ap (λ j. contains j (ids_of xs)) same ∙ listed.complete k ∙ fresh) listed.once;
      sorted = insert_identity-IsSorted x xs listed.sorted;
    }

first : (k : ℕ) (ks : List ℕ) → contains k (k ∷ ks) ≡ true
first k ks = ground arith

later : (k j : ℕ) (ks : List ℕ) → contains j ks ≡ true → contains j (k ∷ ks) ≡ true
later k j ks h = ground (arith, h)

-- If every number has an identity, the sort lists them.
pub sorted_identities_lem :
    (d : Db) (ids : List ℕ)
    → IsDistinct ids
    → ((k : ℕ) → contains k ids ≡ true → is_some (identity_of d k) ≡ true)
    → (xs : List Identity) × (sorted_identities d ids ≡ some xs) × Listed d (λ j. contains j ids) xs
unfolding sorted_identities
sorted_identities_lem d [] once h =
    ([], refl, record { genuine = tt; complete = λ k. refl; once = tt; sorted = tt })
sorted_identities_lem d (k ∷ ks) once h =
    let (xs, e, rest) = sorted_identities_lem d ks once.1 (λ j in_ks. h j (later k j ks in_ks)) in
    elim (Option-cases (identity_of d k)) [
      | inl missing ↦ ground (arith, missing, h k (first k ks))
      | inr (x, found) ↦
          (insert_identity x xs, rw (e, found) refl, Listed-insert d k ks x xs found once.0 rest)
    ]
