-- ===== src/Attendance/Records.antt =====
-- The table class_session_records: its unique key, and the statements
-- INSERT … ON CONFLICT (student_id, course_id, session_date) DO UPDATE of the service.
pub mod Upsert
use attendence_v.Prelude.{
  ℕ, Bool, true, false, ◌&&◌, ◌≡◌, Option, none, some, List, [], ◌∷◌, ◌==◌, if◌then◌else◌,
}
use attendence_v.Storage.Models.{ClassSessionRecord}

-- The conflict target of both statements.
unfoldable pub has_key : ℕ → ℕ → ℕ → ClassSessionRecord → Bool
has_key student course date r =
    student == r.student_id && course == r.course_id && date == r.session_date

unfoldable pub find_record : ℕ → ℕ → ℕ → List ClassSessionRecord → Option ClassSessionRecord
find_record student course date [] = none
find_record student course date (r ∷ rs) =
    if has_key student course date r then some r else find_record student course date rs

-- `UniqueConstraint("student_id", "course_id", "session_date")`
abbrev pub IsKeyed : List ClassSessionRecord → Type 0
IsKeyed [] = Unit
IsKeyed (r ∷ rs) = (find_record r.student_id r.course_id r.session_date rs ≡ none) × IsKeyed rs

-- The `set_` clause: from the row in place and the excluded row, the updated row.
abbrev pub Update : Type 0
Update = ClassSessionRecord → ClassSessionRecord → ClassSessionRecord

-- The row that the statement leaves for its key.
abbrev pub merged : Update → ClassSessionRecord → Option ClassSessionRecord → ClassSessionRecord
merged set_ new none = new
merged set_ new (some old) = set_ old new

unfoldable pub upsert :
    Update → ClassSessionRecord → List ClassSessionRecord → List ClassSessionRecord
upsert set_ new [] = new ∷ []
upsert set_ new (r ∷ rs) =
    let rest = upsert set_ new rs in
    if has_key new.student_id new.course_id new.session_date r then set_ r new ∷ rs else r ∷ rest

-- One statement with many VALUES.
unfoldable pub upsert_all :
    Update → List ClassSessionRecord → List ClassSessionRecord → List ClassSessionRecord
upsert_all set_ [] records = records
upsert_all set_ (new ∷ news) records = upsert_all set_ news (upsert set_ new records)
