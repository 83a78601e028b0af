-- ===== src/Attendance/Records/Upsert.antt =====
-- What an upsert leaves: the merged row under its key, every other key as it was.
use attendence_v.Prelude.{ℕ, false, ◌≡◌, refl, ◌∙◌, All, some, List, [], ◌∷◌, arith, if◌then◌else◌}
use attendence_v.Storage.Models.{ClassSessionRecord}
use attendence_v.Attendance.Records.{
  has_key, find_record, IsKeyed, Update, merged, upsert, upsert_all,
}

-- The `set_` clause writes no column of the key.
abbrev pub KeepsKey : Update → Type 0
KeepsKey set_ =
    (old new : ClassSessionRecord)
    → ((set_ old new).student_id ≡ old.student_id)
      × ((set_ old new).course_id ≡ old.course_id)
      × ((set_ old new).session_date ≡ old.session_date)

module _ (set_ : Update) (keeps : KeepsKey set_) where
  pub find_record-upsert :
      (s c d : ℕ) (new : ClassSessionRecord) (rs : List ClassSessionRecord)
      → find_record s c d (upsert set_ new rs) ≡ (
          if has_key s c d new
          then some (merged set_ new (find_record s c d rs))
          else find_record s c d rs)
  unfolding find_record upsert has_key
  find_record-upsert s c d new [] = ground arith
  find_record-upsert s c d new (r ∷ rs) =
      ground (arith, find_record-upsert s c d new rs, keeps r new)

  pub upsert-IsKeyed :
      (new : ClassSessionRecord) (rs : List ClassSessionRecord)
      → IsKeyed rs
      → IsKeyed (upsert set_ new rs)
  unfolding upsert find_record has_key
  upsert-IsKeyed new [] h = (refl, tt)
  upsert-IsKeyed new (r ∷ rs) h = ground (
    arith,
    keeps r new,
    upsert-IsKeyed new rs h.1,
    find_record-upsert r.student_id r.course_id r.session_date new rs,
  )

  pub upsert_all-IsKeyed :
      (news rs : List ClassSessionRecord) → IsKeyed rs → IsKeyed (upsert_all set_ news rs)
  unfolding upsert_all
  upsert_all-IsKeyed [] rs h = h
  upsert_all-IsKeyed (new ∷ news) rs h =
      upsert_all-IsKeyed news (upsert set_ new rs) (upsert-IsKeyed new rs h)

  -- No row of the statement has the key: the record under it stays.
  abbrev pub Misses : ℕ → ℕ → ℕ → List ClassSessionRecord → Type 0
  Misses s c d = All (λ new. has_key s c d new ≡ false)

  pub find_record-upsert_all_miss :
      (s c d : ℕ) (news rs : List ClassSessionRecord)
      → Misses s c d news
      → find_record s c d (upsert_all set_ news rs) ≡ find_record s c d rs
  unfolding upsert_all
  find_record-upsert_all_miss s c d [] rs h = refl
  find_record-upsert_all_miss s c d (new ∷ news) rs h =
      find_record-upsert_all_miss s c d news (upsert set_ new rs) h.1
      ∙ find_record-upsert s c d new rs
      ∙ rw h.0
