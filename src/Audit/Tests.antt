-- ===== src/Audit/Tests.antt =====
-- Runs of the ledger, and its theorems at one event.
use attendence_v.Prelude.{◌≡◌, refl, true, false, none, some, [], ◌∷◌, filter, All}
use attendence_v.Fixtures.{plain, broken, class_db, opened}
use attendence_v.Storage.{ok, raised, database}
use attendence_v.Storage.Models.{string}
use attendence_v.Audit.{
  AuditEvent, login_succeeded, user_create, value, has_text, implemented_actions,
  governance_action_domain, is_forbidden, sanitize_change_summary, log_row, emit_with_policy,
}
use attendence_v.Audit.Privacy.{keeps, IsPermitted, log_row_is_private}
use attendence_v.Audit.Vocabulary.{vocabulary_domain}
use attendence_v.Audit.Policy.{with_row, emit_with_policy_lem}

-- A login whose caller has put a token into the summary.
abbrev login : AuditEvent
login = record {
  action = login_succeeded;
  entity_type = "auth_session";
  entity_id = some 1;
  class_session_record_id = none;
  actor_user_id = some 1;
  reason = none;
  change_summary = ("method", string "password") ∷ ("token", string "abc") ∷ [];
  request_id = none;
  ip_address = some "10.0.0.1";
}

token_is_dropped : (log_row plain login).change_summary ≡ ("method", string "password") ∷ []
unfolding log_row sanitize_change_summary is_forbidden has_text
token_is_dropped = refl

log_row_is_private_example :
    ((log_row plain login).change_summary ≡ filter (keeps plain) login.change_summary)
    × All (IsPermitted plain) (log_row plain login).change_summary
log_row_is_private_example = log_row_is_private plain login

vocabulary_domain_example :
    (has_text (value user_create) implemented_actions ≡ true)
    × (has_text (value user_create) governance_action_domain ≡ true)
vocabulary_domain_example = vocabulary_domain user_create

emit_with_policy_example :
    let (r, s') = emit_with_policy broken false login (opened class_db) in
    (s'.committed ≡ class_db)
    × (false ≡ true
        → (r ≡ ok (some (log_row broken login)))
          × (s'.working ≡ with_row broken login (opened class_db)))
    × (false ≡ false → false ≡ true → r ≡ raised database)
    × (false ≡ false → false ≡ false → (r ≡ ok none) × (s'.working ≡ class_db))
emit_with_policy_example = emit_with_policy_lem broken false login (opened class_db)
