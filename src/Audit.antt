-- ===== src/Audit.antt =====
-- backend/app/services/audit_service.py: the governance ledger's vocabulary, the rows that an
-- event becomes, and the two ways to emit one.
pub mod Privacy
pub mod Vocabulary
pub mod Policy
mod Tests
use text.Mathlib.Text.{◌==◌ as str_eq}
use attendence_v.Prelude.{
  ℕ, String, Bool, true, false, ◌&&◌, not, Option, none, some, List, [], ◌∷◌, ◌++◌, any,
  if◌then◌else◌,
}
use attendence_v.Storage.{
  Db, Session, Platform, Result, ok, raised, Exec, pure, ◌>>=◌, ◌>>◌, add, flush, rollback,
}
use attendence_v.Storage.Models.{GovernanceLog, Json}

pub data GovernanceAction : Type 0 where
  user_create user_update user_delete : GovernanceAction
  student_create student_update student_delete : GovernanceAction
  template_enroll attendance_evaluate refresh_reused : GovernanceAction
  login_succeeded logout inference_enqueued task_read recognition_run : GovernanceAction
  governance_purge consent_grant consent_withdraw consent_denied : GovernanceAction
  override_apply embed_hard_delete export_roster : GovernanceAction

-- `action.value`
unfoldable pub value : GovernanceAction → String
value user_create = "USER_CREATE"
value user_update = "USER_UPDATE"
value user_delete = "USER_DELETE"
value student_create = "STUDENT_CREATE"
value student_update = "STUDENT_UPDATE"
value student_delete = "STUDENT_DELETE"
value template_enroll = "TEMPLATE_ENROLL"
value attendance_evaluate = "ATTENDANCE_EVALUATE"
value refresh_reused = "REFRESH_REUSED"
value login_succeeded = "LOGIN_SUCCEEDED"
value logout = "LOGOUT"
value inference_enqueued = "INFERENCE_ENQUEUED"
value task_read = "TASK_READ"
value recognition_run = "RECOGNITION_RUN"
value governance_purge = "GOVERNANCE_PURGE"
value consent_grant = "CONSENT_GRANT"
value consent_withdraw = "CONSENT_WITHDRAW"
value consent_denied = "CONSENT_DENIED"
value override_apply = "OVERRIDE_APPLY"
value embed_hard_delete = "EMBED_HARD_DELETE"
value export_roster = "EXPORT"

-- `s in names`, for the frozensets of texts.
unfoldable pub has_text : String → List String → Bool
has_text s = any (str_eq s)

abbrev pub implemented_actions : List String
implemented_actions =
    "USER_CREATE" ∷ "USER_UPDATE" ∷ "USER_DELETE" ∷ "STUDENT_CREATE" ∷ "STUDENT_UPDATE"
    ∷ "STUDENT_DELETE" ∷ "TEMPLATE_ENROLL" ∷ "ATTENDANCE_EVALUATE" ∷ "REFRESH_REUSED"
    ∷ "LOGIN_SUCCEEDED" ∷ "LOGOUT" ∷ "INFERENCE_ENQUEUED" ∷ "TASK_READ" ∷ "RECOGNITION_RUN"
    ∷ "GOVERNANCE_PURGE" ∷ "CONSENT_GRANT" ∷ "CONSENT_WITHDRAW" ∷ "CONSENT_DENIED"
    ∷ "OVERRIDE_APPLY" ∷ "EMBED_HARD_DELETE" ∷ "EXPORT" ∷ []

-- The CHECK `governance_action_domain` of domain/models/governance.py.
abbrev pub governance_action_domain : List String
governance_action_domain =
    "USER_CREATE" ∷ "USER_UPDATE" ∷ "USER_DELETE" ∷ "STUDENT_CREATE" ∷ "STUDENT_UPDATE"
    ∷ "STUDENT_DELETE" ∷ "TEMPLATE_ENROLL" ∷ "ATTENDANCE_EVALUATE" ∷ "REFRESH_REUSED"
    ∷ "LOGIN_SUCCEEDED" ∷ "LOGOUT" ∷ "INFERENCE_ENQUEUED" ∷ "TASK_READ" ∷ "RECOGNITION_RUN"
    ∷ "GOVERNANCE_PURGE" ∷ "CONSENT_GRANT" ∷ "CONSENT_WITHDRAW" ∷ "CONSENT_DENIED"
    ∷ "OVERRIDE_APPLY" ∷ "EMBED_HARD_DELETE" ∷ []

-- `action in IP_ALLOWED_ACTIONS`
unfoldable pub ip_allowed : GovernanceAction → Bool
ip_allowed login_succeeded = true
ip_allowed logout = true
ip_allowed refresh_reused = true
ip_allowed consent_grant = true
ip_allowed consent_withdraw = true
ip_allowed consent_denied = true
ip_allowed action = false

abbrev pub forbidden_summary_keys : List String
forbidden_summary_keys =
    "embedding" ∷ "embeddings" ∷ "embedding_vector" ∷ "embedding_reference" ∷ "matched_embedding_id"
    ∷ "identity" ∷ "password" ∷ "password_hash" ∷ "token" ∷ "access_token" ∷ "refresh_token"
    ∷ "secret" ∷ "api_key" ∷ "authorization" ∷ "cookie" ∷ "ip_address" ∷ []

pub record AuditEvent : Type 0 where
  pub action : GovernanceAction
  pub entity_type : String
  pub entity_id : Option ℕ
  pub class_session_record_id : Option ℕ
  pub actor_user_id : Option ℕ
  pub reason : Option String
  pub change_summary : List (String × Json)
  pub request_id : Option ℕ
  pub ip_address : Option String

abbrev pub add_governance : GovernanceLog → Db → Db
add_governance row d = record d { governance_logs = d.governance_logs ++ row ∷ [] }

module _ (p : Platform) where
  -- `str(key).lower() in _FORBIDDEN_SUMMARY_KEYS`
  unfoldable pub is_forbidden : String → Bool
  is_forbidden key = has_text (p.lower key) forbidden_summary_keys

  unfoldable pub sanitize_change_summary : List (String × Json) → List (String × Json)
  sanitize_change_summary [] = []
  sanitize_change_summary ((key, v) ∷ summary) =
      let rest = sanitize_change_summary summary in
      if is_forbidden key then rest else (key, v) ∷ rest

  -- `event.ip_address if event.action in IP_ALLOWED_ACTIONS and event.ip_address else None`
  unfoldable pub stored_ip : GovernanceAction → Option String → Option String
  stored_ip action none = none
  stored_ip action (some ip) = if ip_allowed action && not (str_eq ip "") then some ip else none

  unfoldable pub log_row : AuditEvent → GovernanceLog
  log_row event = record {
    actor_user_id = event.actor_user_id;
    class_session_record_id = event.class_session_record_id;
    action = value event.action;
    entity_type = event.entity_type;
    entity_id = event.entity_id;
    reason = event.reason;
    change_summary = sanitize_change_summary event.change_summary;
    request_id = event.request_id;
    ip_address = stored_ip event.action event.ip_address;
    created_at = p.now;
  }

  -- `AuditService.emit`: the row joins the caller's transaction.
  unfoldable pub emit : AuditEvent → Exec GovernanceLog
  emit event = do add (add_governance (log_row event)); flush p; pure (log_row event)

  -- The handler of the module-level `emit`: `strict` raises again, else the session rolls back.
  unfoldable pub settle :
      Bool → Result GovernanceLog × Session → Result (Option GovernanceLog) × Session
  settle strict (ok row, s) = (ok (some row), s)
  settle true (raised x, s) = (raised x, s)
  settle false (raised x, s) = (ok none, rollback s)

  -- The module-level `emit(session, event, strict=…)`.
  unfoldable pub emit_with_policy : Bool → AuditEvent → Exec (Option GovernanceLog)
  unfolding emit settle
  emit_with_policy strict event s = settle strict (emit event s)
