-- ===== src/Access/Scope.antt =====
-- The scope of a course, which fails closed.
use text.Mathlib.Text.{◌==◌ as str_eq}
use text.Mathlib.TextEquality.{eq_iff}
use attendence_v.Prelude.{ℕ, ◌≡◌, refl, ◌⊎◌, inl, inr, true, List, [], ◌∷◌, arith, Bool-cases}
use attendence_v.Storage.{Db, Session, Result, ok, raised, http}
use attendence_v.Storage.Models.{
  User, UserRole, CourseInstructor, admin, instructor, auditor, operator,
}
use attendence_v.Access.{linked, is_owner_link, same_role, ensure_course_scoped_principal}

-- A row that makes the user an owner of the course.
pub record IsOwner (user_id course_id : ℕ) (row : CourseInstructor) : Type 0 where
  pub same_user : row.user_id ≡ user_id
  pub same_course : row.course_id ≡ course_id
  pub owner : row.role_in_course ≡ "owner"

abbrev pub Owns : ℕ → ℕ → List CourseInstructor → Type 0
Owns user_id course_id [] = ⊥
Owns user_id course_id (row ∷ rows) = IsOwner user_id course_id row ⊎ Owns user_id course_id rows

is_owner_link-IsOwner :
    (user_id course_id : ℕ) (row : CourseInstructor)
    → is_owner_link user_id course_id row ≡ true
    → IsOwner user_id course_id row
unfolding is_owner_link
is_owner_link-IsOwner user_id course_id row h =
    let same : str_eq row.role_in_course "owner" ≡ true = ground arith in
    record {
      same_user = ground arith;
      same_course = ground arith;
      owner = (eq_iff row.role_in_course "owner").0 same;
    }

IsOwner-is_owner_link :
    (user_id course_id : ℕ) (row : CourseInstructor)
    → IsOwner user_id course_id row
    → is_owner_link user_id course_id row ≡ true
unfolding is_owner_link
IsOwner-is_owner_link user_id course_id row h =
    let same : str_eq row.role_in_course "owner" ≡ true =
      (eq_iff row.role_in_course "owner").1 h.owner in
    ground (arith, same, h.same_user, h.same_course)

linked-Owns :
    (user_id course_id : ℕ) (rows : List CourseInstructor)
    → linked user_id course_id rows ≡ true
    → Owns user_id course_id rows
unfolding linked
linked-Owns user_id course_id [] h = ground arith
linked-Owns user_id course_id (row ∷ rows) h =
    elim (Bool-cases (is_owner_link user_id course_id row)) [
      | inl own ↦ inl (is_owner_link-IsOwner user_id course_id row own)
      | inr other ↦ inr (linked-Owns user_id course_id rows (ground (arith, h, other)))
    ]

Owns-linked :
    (user_id course_id : ℕ) (rows : List CourseInstructor)
    → Owns user_id course_id rows
    → linked user_id course_id rows ≡ true
unfolding linked
Owns-linked user_id course_id [] x = elim x [ ]
Owns-linked user_id course_id (row ∷ rows) (inl own) =
    rw (IsOwner-is_owner_link user_id course_id row own) refl
Owns-linked user_id course_id (row ∷ rows) (inr later) =
    ground (arith, Owns-linked user_id course_id rows later)

-- Who gets through to a course: an administrator, and an instructor with an owner's row of it.
abbrev pub MayManage : User → ℕ → Db → Type 0
MayManage user course_id d =
    (user.role ≡ admin) ⊎ ((user.role ≡ instructor) × Owns user.id course_id d.course_instructors)

-- The two ways in which the check ends.
abbrev pub Decided : Type 0 → User → Session → Result User × Session → Type 0
Decided May user s (ok u, s') = May × (u ≡ user) × (s' ≡ s)
Decided May user s (raised e, s') = (May → ⊥) × (e ≡ http 404 "Course does not exist.") × (s' ≡ s)

module _ (user : User) (course_id : ℕ) (s : Session) where
  ensure_course_scoped_principal-Decided :
      (role : UserRole)
      → user.role ≡ role
      → Decided
          (MayManage user course_id s.working)
          user
          s
          (ensure_course_scoped_principal true user course_id s)
  unfolding ensure_course_scoped_principal same_role
  ensure_course_scoped_principal-Decided admin e = rw e ((inl refl, refl, refl))
  ensure_course_scoped_principal-Decided instructor e =
      elim (Bool-cases (linked user.id course_id s.working.course_instructors)) [
        | inl own ↦
            rw (e, own)
              (
                inr (refl, linked-Owns user.id course_id s.working.course_instructors own),
                refl,
                refl,
              )
        | inr other ↦
            rw (e, other)
              (
                λ (may : (instructor ≡ admin)
                      ⊎ ((instructor ≡ instructor)
                          × Owns user.id course_id s.working.course_instructors)).
                    elim may [
                      | inl h ↦ ground arith
                      | inr h ↦ ground (
                        arith,
                        other,
                        Owns-linked user.id course_id s.working.course_instructors h.1,
                      )
                    ],
                refl,
                refl,
              )
      ]
  ensure_course_scoped_principal-Decided auditor e =
      rw e ((λ may. elim may [ inl h ↦ ground arith | inr h ↦ ground arith ], refl, refl))
  ensure_course_scoped_principal-Decided operator e =
      rw e ((λ may. elim may [ inl h ↦ ground arith | inr h ↦ ground arith ], refl, refl))

-- With the scope on, a user gets through exactly if the role is administrator, or it is instructor
-- and there is a row of this user and this course with the role "owner". Everyone else gets the
-- same 404. Which courses exist plays no part, and nothing is written.
pub ensure_course_scoped_principal_lem :
    (user : User) (course_id : ℕ) (s : Session)
    → Decided
        (MayManage user course_id s.working)
        user
        s
        (ensure_course_scoped_principal true user course_id s)
ensure_course_scoped_principal_lem user course_id s =
    ensure_course_scoped_principal-Decided user course_id s user.role refl
