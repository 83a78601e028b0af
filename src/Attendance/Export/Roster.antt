-- ===== src/Attendance/Export/Roster.antt =====
-- Which rows the export of a day has, and that the ledger does not hold them back.
use attendence_v.Prelude.{
  ℕ, ◌≡◌, ap, ◌∙◌, true, false, some, List, [], ◌∷◌, map, length, contains, contains-append, any,
  ◌||◌, ◌++◌, ◌==◌, Bool, IsDistinct, sym, refl, is_some, arith,
}
use attendence_v.Attendance.Export.Listed.{Listed, sorted_identities_lem}
use attendence_v.Storage.{Db, Session, Platform, Result, ok, raised, pure, resume, commit}
use attendence_v.Storage.Models.{Course, GovernanceLog, ClassSessionRecord, Sighting}
use attendence_v.Attendance.Evaluation.Counts.{is_of, contains-sorted_ids, sorted_ids-IsDistinct}
use attendence_v.Audit.{emit, emit_with_policy, settle}
use attendence_v.Crud.{transaction, close, conclude}
use attendence_v.Attendance.Guards.{find_course, require_course}
use attendence_v.Attendance.Export.{
  ExportRequest, Formats, Identity, AttendanceExportRow, identity_of, sorted_identities, rows_of,
  day_records, day_sightings, seen_ids, roster_ids, export_row, export_event, deliver, export_ids,
  export_daily_roster,
}

module _ (q : ExportRequest) (p : Platform) (formats : Formats) where
  -- An advisory emission of any outcome, committed, lets the rows through.
  resume-close :
      (rows : List AttendanceExportRow) (o : Result GovernanceLog × Session)
      → ((d : Db) → p.commits d ≡ true)
      → (resume (λ _. pure rows) (close p (settle p false o))).0 ≡ ok rows
  unfolding close conclude settle commit
  resume-close rows (ok row, s) commits = ground (arith, commits s.working)
  resume-close rows (raised x, s) commits = ground (arith, commits s.committed)

  deliver_returns :
      (rows : List AttendanceExportRow) (s : Session)
      → ((d : Db) → p.commits d ≡ true)
      → (deliver q p formats (some rows) s).0 ≡ ok rows
  unfolding deliver transaction emit_with_policy
  deliver_returns rows s = resume-close rows (emit p (export_event q p formats (length rows)) s)

  export_ids_returns :
      (ids : List ℕ) (s : Session) (xs : List Identity)
      → ((d : Db) → p.commits d ≡ true)
      → sorted_identities s.working ids ≡ some xs
      → (export_ids q p formats ids s).0 ≡ ok (map (export_row q p formats s.working) xs)
  unfolding export_ids sorted_identities
  export_ids_returns [] s xs commits e = ground arith
  export_ids_returns (k ∷ ks) s xs commits e =
      ap (λ o. (deliver q p formats (rows_of q p formats s.working o) s).0) e
      ∙ deliver_returns (map (export_row q p formats s.working) xs) s commits

  -- The day has a record or a sighting of the student.
  abbrev pub is_on_roster : Db → ℕ → Bool
  is_on_roster d k =
      any (λ r. k == r.student_id) (day_records q p formats d)
      || any (is_of k) (day_sightings q p formats d)

  contains-map :
      (k : ℕ) (rs : List ClassSessionRecord)
      → contains k (map (λ r. r.student_id) rs) ≡ any (λ r. k == r.student_id) rs
  contains-map k [] = refl
  contains-map k (r ∷ rs) = ap (λ b. (k == r.student_id) || b) (contains-map k rs)

  contains-seen_ids : (k : ℕ) (xs : List Sighting) → contains k (seen_ids xs) ≡ any (is_of k) xs
  contains-seen_ids k [] = refl
  contains-seen_ids k (x ∷ xs) = ground (arith, contains-seen_ids k xs)

  contains-roster_ids : (d : Db) (k : ℕ) → contains k (roster_ids q p formats d) ≡ is_on_roster d k
  unfolding roster_ids
  contains-roster_ids d k =
      let recorded = map (λ (r : ClassSessionRecord). r.student_id) (day_records q p formats d) in
      let seen = seen_ids (day_sightings q p formats d) in
      contains-sorted_ids k (recorded ++ seen) ∙ contains-append k recorded seen ∙ (λ i.
        contains-map k (day_records q p formats d) i
        || contains-seen_ids k (day_sightings q p formats d) i)

  roster_ids-IsDistinct : (d : Db) → IsDistinct (roster_ids q p formats d)
  unfolding roster_ids
  roster_ids-IsDistinct d = sorted_ids-IsDistinct _

  -- Let the course be active, every student with a record or a sighting of the day be in the tables,
  -- and commits go through. Then the export returns, whether or not the ledger takes its event, and
  -- its rows are those of the identities of exactly these students, no student twice, in the order
  -- of the student numbers.
  pub export_daily_roster_lem :
      (s : Session) {course : Course}
      → ((d : Db) → p.commits d ≡ true)
      → find_course q.course_id s.working.courses ≡ some course
      → course.is_active ≡ true
      → ((k : ℕ) → is_on_roster s.working k ≡ true → is_some (identity_of s.working k) ≡ true)
      → (xs : List Identity) × ((export_daily_roster q p formats s).0
          ≡ ok (map (export_row q p formats s.working) xs))
        × Listed s.working (is_on_roster s.working) xs
  unfolding export_daily_roster require_course
  export_daily_roster_lem s {course} commits found active known =
      let ids = roster_ids q p formats s.working in
      let member = contains-roster_ids s.working in
      let (xs, e, listed) =
        sorted_identities_lem s.working ids (roster_ids-IsDistinct s.working)
          (λ k h. known k (sym (member k) ∙ h)) in
      (
        xs,
        ground (arith, export_ids_returns ids s xs commits e),
        record {
          genuine = listed.genuine;
          complete = λ k. listed.complete k ∙ member k;
          once = listed.once;
          sorted = listed.sorted;
        },
      )
