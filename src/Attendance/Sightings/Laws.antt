-- ===== src/Attendance/Sightings/Laws.antt =====
-- A logged sighting satisfies the CHECKs of its table, and a failed publish does not undo it.
use text.Mathlib.Text.{◌==◌ as str_eq}
use attendence_v.Prelude.{
  sym, ap, ◌∙◌, [], ◌∷◌, ◌++◌, ℕ, ◌≡◌, refl, Bool, true, false, not, ◌&&◌, Option, none, some,
  arith,
}
use attendence_v.Prelude.Double.{Double, leb_double, zero_double, one_double}
use attendence_v.Storage.{Session, Platform, Result, ok, execute}
use attendence_v.Storage.Atomic.{Quiet}
use attendence_v.Storage.Models.{Sighting}
use attendence_v.Crud.Blocks.{Settled, transaction-Settled, transaction-value}
use attendence_v.Attendance.Guards.Active.{
  IsActiveIfKnown, IsActiveCourse, IsActiveRoom, Guards, require_student_lem, require_course_lem,
  require_room_lem,
}
use attendence_v.Attendance.Sightings.{
  SightingRequest, is_out_of_range, require_known, sighting_row, store_sighting, write_sighting,
  insert_sighting, log_sighting,
}

-- The CHECK `sightings_confidence_range`.
abbrev pub IsInRange : Option Double → Type 0
IsInRange none = Unit
IsInRange (some c) = (leb_double zero_double c ≡ true) × (leb_double c one_double ≡ true)

and_of_not : (a b : Bool) → not (a && b) ≡ false → (a ≡ true) × (b ≡ true)
and_of_not a b h = ground arith

require_known_lem :
    (k : Option ℕ) (s : Session) → Guards (IsActiveIfKnown k s.working) s (require_known k s)
unfolding require_known
require_known_lem none s = (refl, tt)
require_known_lem (some k) s = require_student_lem k s

module _ (q : SightingRequest) (p : Platform) where
  open q use {student_id, camera_id, course_id, confidence_score, room_id}

  -- What holds after a sighting was logged in `s`.
  abbrev pub IsLogged : Session → Sighting → Type 0
  IsLogged s created =
      (created ≡ sighting_row q p)
      × IsActiveIfKnown student_id s.working
      × IsActiveCourse course_id s.working
      × IsActiveRoom room_id s.working

  write_sighting-working :
      (s : Session)
      → ((write_sighting q p s).1.committed ≡ s.committed)
        × ((a : Sighting)
            → (write_sighting q p s).0 ≡ ok a
            → ((write_sighting q p s).1.working ≡ store_sighting q p s.working) × IsLogged s a)
  unfolding write_sighting execute
  write_sighting-working s = (
    ground (
      arith,
      require_known_lem student_id s,
      require_course_lem course_id s,
      require_room_lem room_id s,
    ),
    λ a h. ground (
      arith,
      require_known_lem student_id s,
      require_course_lem course_id s,
      require_room_lem room_id s,
    ),
  )

  Quiet-write_sighting : Quiet (write_sighting q p)
  Quiet-write_sighting = record { at = λ s. (write_sighting-working s).0 }

  -- Whatever `publish` does, on a session with no open change `log_sighting` raises and changes
  -- nothing, or it commits the one sighting.
  log_sighting-Settled :
      (publish : Sighting → Result (Unit {0})) (s : Session)
      → s.committed ≡ s.working
      → Settled s (λ _. store_sighting q p s.working) (log_sighting q p publish s)
  unfolding log_sighting insert_sighting
  log_sighting-Settled publish s fresh = ground (
    arith,
    transaction-Settled p (write_sighting q p) s (λ _. store_sighting q p s.working)
        Quiet-write_sighting (λ a h. ((write_sighting-working s).1 a h).0),
  )

  insert_sighting-value :
      (publish : Sighting → Result (Unit {0})) (s : Session) (created : Sighting)
      → (log_sighting q p publish s).0 ≡ ok created
      → (str_eq (p.strip camera_id) "" ≡ false)
        × (is_out_of_range confidence_score ≡ false)
        × ((write_sighting q p s).0 ≡ ok created)
  unfolding log_sighting insert_sighting
  insert_sighting-value publish s created h =
      ground (arith, transaction-value p (write_sighting q p) s created)

  is_out_of_range-IsInRange : (c : Option Double) → is_out_of_range c ≡ false → IsInRange c
  unfolding is_out_of_range
  is_out_of_range-IsInRange none h = tt
  is_out_of_range-IsInRange (some c) h =
      and_of_not (leb_double zero_double c) (leb_double c one_double) h

  -- On a session with no open change, a logged sighting is the row of the request, and what is
  -- committed is the old rows with it at the end of the table. Its camera is not blank, its
  -- confidence is between 0 and 1 where it has one, and its course, and its student and room where
  -- it names them, are there and active.
  pub log_sighting_row :
      (publish : Sighting → Result (Unit {0})) (s : Session) {created : Sighting}
      → s.committed ≡ s.working
      → (log_sighting q p publish s).0 ≡ ok created
      → ((log_sighting q p publish s).1.committed
          ≡ record s.working { sightings = s.working.sightings ++ created ∷ [] })
        × (str_eq (p.strip camera_id) "" ≡ false)
        × IsInRange confidence_score
        × IsLogged s created
  log_sighting_row publish s {created} fresh h =
      let (named, in_range, value) = insert_sighting-value publish s created h in
      let logged = ((write_sighting-working s).1 created value).1 in
      (
        ground (arith, log_sighting-Settled publish s fresh)
            ∙ ap (λ x. record s.working { sightings = s.working.sightings ++ x ∷ [] })
                (sym logged.0),
        named,
        is_out_of_range-IsInRange confidence_score in_range,
        logged,
      )
