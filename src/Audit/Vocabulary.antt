-- ===== src/Audit/Vocabulary.antt =====
-- The action names against the implemented set and the CHECK of the ORM model.
use attendence_v.Prelude.{◌≡◌, refl, Bool, true, false, not}
use attendence_v.Audit.{
  GovernanceAction, user_create, export_roster, value, has_text, implemented_actions,
  governance_action_domain,
}

abbrev is_export : GovernanceAction → Bool
is_export export_roster = true
is_export action = false

-- Every action is implemented, and the CHECK of the ORM model admits every action but EXPORT.
pub vocabulary_domain :
    (action : GovernanceAction)
    → (has_text (value action) implemented_actions ≡ true)
      × (has_text (value action) governance_action_domain ≡ not (is_export action))
unfolding value has_text
vocabulary_domain user_create = (refl, refl)
vocabulary_domain action = (refl, refl)
