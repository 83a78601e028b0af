-- ===== src/Audit/Privacy.antt =====
-- What the ledger never holds: secrets in a summary, an address outside consent and auth events.
use text.Mathlib.Text.{◌==◌ as str_eq}
use text.Mathlib.TextEquality.{eq_iff}
use attendence_v.Prelude.{
  String, ◌≡◌, refl, Bool, true, false, not, some, List, [], ◌∷◌, All, filter, if◌then◌else◌, ◌∙◌,
  any, ◌≢◌, arith, Bool-cases, inl, inr,
}
use attendence_v.Storage.{Platform}
use attendence_v.Storage.Models.{Json}
use attendence_v.Audit.{
  AuditEvent, has_text, forbidden_summary_keys, is_forbidden, sanitize_change_summary, ip_allowed,
  stored_ip, log_row,
}

module _ (p : Platform) where
  abbrev pub IsPermitted : String × Json → Type 0
  IsPermitted (key, _) = All (λ name. p.lower key ≢ name) forbidden_summary_keys

  has_text-All :
      (s : String) (names : List String) → has_text s names ≡ false → All (λ name. s ≢ name) names
  unfolding has_text
  has_text-All s [] h = tt
  has_text-All s (name ∷ names) h =
      (λ e. ground (arith, (eq_iff s name).1 e, h), has_text-All s names (ground (arith, h)))

  is_forbidden-IsPermitted :
      (entry : String × Json) → is_forbidden p entry.0 ≡ false → IsPermitted entry
  unfolding is_forbidden
  is_forbidden-IsPermitted (key, v) h = has_text-All (p.lower key) forbidden_summary_keys h

  sanitize-All :
      (summary : List (String × Json)) → All IsPermitted (sanitize_change_summary p summary)
  unfolding sanitize_change_summary
  sanitize-All [] = tt
  sanitize-All ((key, v) ∷ summary) = elim (Bool-cases (is_forbidden p key)) [
    | inl bad ↦ rw bad (sanitize-All summary)
    | inr good ↦ rw good (is_forbidden-IsPermitted (key, v) good, sanitize-All summary)
  ]

  -- An entry stays unless its key, in lower case, is one of the forbidden names.
  abbrev pub keeps : String × Json → Bool
  keeps (key, _) = not (any (λ name. str_eq (p.lower key) name) forbidden_summary_keys)

  if_not :
      (b : Bool) (xs ys : List (String × Json))
      → (if b then xs else ys) ≡ (if not b then ys else xs)
  if_not true xs ys = refl
  if_not false xs ys = refl

  sanitize-filter :
      (summary : List (String × Json)) → sanitize_change_summary p summary ≡ filter keeps summary
  unfolding sanitize_change_summary is_forbidden has_text
  sanitize-filter [] = refl
  sanitize-filter ((key, v) ∷ summary) =
      (λ i.
        if is_forbidden p key
        then sanitize-filter summary i
        else (key, v) ∷ sanitize-filter summary i)
      ∙ if_not (is_forbidden p key) (filter keeps summary) ((key, v) ∷ filter keeps summary)

  -- Of every event the stored summary is the event's without the entries whose key, in lower case,
  -- is one of the forbidden names: the rest stays in order, and the lower-case form of every stored
  -- key is different from each of these names.
  pub log_row_is_private :
      (event : AuditEvent)
      → ((log_row p event).change_summary ≡ filter keeps event.change_summary)
        × All IsPermitted (log_row p event).change_summary
  unfolding log_row
  log_row_is_private event =
      (sanitize-filter event.change_summary, sanitize-All event.change_summary)

  -- The stored row has a network address exactly when the event's action is one of the six
  -- consent and auth actions and a non-empty address was given, and then it has that address.
  log_row_ip :
      (event : AuditEvent) (ip : String)
      → ((log_row p event).ip_address ≡ some ip
          → (ip_allowed event.action ≡ true)
            × (event.ip_address ≡ some ip)
            × (str_eq ip "" ≡ false))
        × (ip_allowed event.action ≡ true
            → event.ip_address ≡ some ip
            → str_eq ip "" ≡ false
            → (log_row p event).ip_address ≡ some ip)
  unfolding log_row stored_ip
  log_row_ip event ip = (ground arith, ground arith)
