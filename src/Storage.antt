-- ===== src/Storage.antt =====
-- The request-scoped `AsyncSession` that every service of backend/app/services receives: the
-- rows that are committed, and the rows as the open transaction sees them. What PostgreSQL
-- answers to a flush or a commit is a parameter, as are the clock and Python's text functions.
pub mod Models
pub mod Atomic
use attendence_v.Prelude.{ℕ, String, Bool, Option, none, some, List, [], ◌∷◌, ◌++◌, if◌then◌else◌}
use Models.{
  User, Student, Course, Room, CourseInstructor, Sighting, ClassSessionRecord, StudentEmbedding,
  TemplateAuditLog, GovernanceLog,
}

pub record Db : Type 0 where
  pub users : List User
  pub students : List Student
  pub courses : List Course
  pub rooms : List Room
  pub course_instructors : List CourseInstructor
  pub sightings : List Sighting
  pub class_session_records : List ClassSessionRecord
  pub student_embeddings : List StudentEmbedding
  pub template_audit_logs : List TemplateAuditLog
  pub governance_logs : List GovernanceLog

pub record Session : Type 0 where
  pub committed : Db
  pub working : Db

-- What the code runs on and does not implement. `accepts` says whether the database takes the
-- rows at a flush or a statement (constraints, storage), `commits` whether a commit goes through.
pub record Platform : Type 0 where
  pub accepts : Db → Bool
  pub commits : Db → Bool
  pub now : ℕ
  pub lower : String → String
  pub strip : String → String
  pub iso_date : ℕ → String
  pub uuid_text : ℕ → String

-- The exceptions of the services and routes, with their texts.
pub data Error : Type 0 where
  database key_error missing_greenlet : Error
  value_error : String → Error
  not_found : String → Error
  validation : String → Error
  student_link : String → Error
  http : ℕ → String → Error

pub data Result {ℓ} (A : Type ℓ) : Type ℓ where
  ok : A → Result A
  raised : Error → Result A

abbrev pub Exec : Type 0 → Type 0
Exec A = Session → Result A × Session

abbrev pub pure : {A : Type 0} → A → Exec A
pure a s = (ok a, s)

abbrev pub raise : {A : Type 0} → Error → Exec A
raise x s = (raised x, s)

-- What follows a call: an exception skips it.
abbrev pub resume : {A B : Type 0} → (A → Exec B) → Result A × Session → Result B × Session
resume f (ok a, s) = f a s
resume f (raised x, s) = (raised x, s)

infixl 5 ◌>>=◌ ◌>>◌
abbrev pub ◌>>=◌ : {A B : Type 0} → Exec A → (A → Exec B) → Exec B
◌>>=◌ m f s = resume f (m s)

abbrev pub ◌>>◌ : {A B : Type 0} → Exec A → Exec B → Exec B
m >> k = m >>= λ _. k

-- A query: it reads what the open transaction sees.
abbrev pub query : {A : Type 0} → (Db → A) → Exec A
query f s = (ok (f s.working), s)

-- `if test: raise x`
abbrev pub raise_if : Bool → Error → Exec (Unit {0})
raise_if b x s = (if b then raised x else ok tt, s)

-- `session.add(row)`: pending until the next flush.
abbrev pub add : (Db → Db) → Exec (Unit {0})
add f s = (ok tt, record s { working = f s.working })

module _ (p : Platform) where
  -- `await session.flush()`
  unfoldable pub flush : Exec (Unit {0})
  flush s = if p.accepts s.working then (ok tt, s) else (raised database, s)

  -- An INSERT, UPDATE or DELETE with the rows that it leaves.
  unfoldable pub execute : (Db → Db) → Exec (Unit {0})
  execute f s =
      if p.accepts (f s.working)
      then (ok tt, record s { working = f s.working })
      else (raised database, s)

  -- `await session.commit()`
  unfoldable pub commit : Exec (Unit {0})
  commit s =
      if p.commits s.working
      then (ok tt, record s { committed = s.working })
      else (raised database, s)

-- A body that ends in `await session.commit()` and returns.
unfoldable pub with_commit : {A : Type 0} → Platform → Exec A → Exec A
with_commit p body = do a ← body; commit p; pure a

-- `await session.rollback()`
abbrev pub rollback : Session → Session
rollback s = record s { working = s.committed }
