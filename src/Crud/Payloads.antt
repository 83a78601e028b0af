-- ===== src/Crud/Payloads.antt =====
-- What the student and the user service share: the values of a payload, the events that they queue,
-- and what their routes make of an exception.
use Prim.Native.Nat.{Ordering}
use Prim.Native.String.{compare}
use attendence_v.Prelude.{ℕ, String, Option, none, some, List, [], ◌∷◌, map}
use attendence_v.Storage.{Session, Error, Result, ok, raised, Exec}
use attendence_v.Storage.Models.{Json}
use attendence_v.Audit.{AuditEvent, GovernanceAction}
use attendence_v.Crud.{Table, Written, row, deleted}

-- `sorted` on texts.
unfoldable pub insert_text : String → List String → List String
insert_text s [] = s ∷ []
insert_text s (t ∷ ts) =
    let rest = insert_text s ts in elim (compare s t) [ Ordering.gt ↦ t ∷ rest | _ ↦ s ∷ t ∷ ts ]

unfoldable pub sorted_texts : List String → List String
sorted_texts [] = []
sorted_texts (s ∷ ss) = insert_text s (sorted_texts ss)

-- The fields that a payload sets, with what each does to the row.
abbrev pub Values : Type 0 → Type 0
Values R = List (String × (R → R))

abbrev pub names : {R : Type 0} → Values R → List String
names = map (λ entry. entry.0)

abbrev pub setters : {R : Type 0} → Values R → List (R → R)
setters = map (λ entry. entry.1)

-- The identifier of what a statement returned.
abbrev pub written_id : {R : Type 0} → Table R → Written R → ℕ
written_id t (row r) = t.id r
written_id t (deleted k) = k

abbrev pub service_event :
    GovernanceAction → String → ℕ → Option ℕ → List (String × Json) → AuditEvent
service_event action entity_type k actor summary = record {
  action = action;
  entity_type = entity_type;
  entity_id = some k;
  class_session_record_id = none;
  actor_user_id = actor;
  reason = none;
  change_summary = summary;
  request_id = none;
  ip_address = none;
}

-- What a route makes of the exception of a service; `violated` says whether what the database
-- refused is a violated constraint.
unfoldable pub handled : {A : Type 0} → (Error → Error) → Result A × Session → Result A × Session
handled f (ok a, s) = (ok a, s)
handled f (raised x, s) = (raised (f x), s)

unfoldable pub handle : {A : Type 0} → (Error → Error) → Exec A → Exec A
unfolding handled
handle f call s = handled f (call s)
