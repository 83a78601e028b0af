-- ===== src/Users.antt =====
-- backend/app/services/user_service.py, and the routes of backend/app/api/v1/users.py that write.
pub mod Writes
use text.Mathlib.Text.{◌==◌ as str_eq}
use attendence_v.Prelude.{
  ℕ, String, Bool, true, false, not, Option, none, some, List, [], ◌∷◌, ◌++◌, map, filter, any,
  if◌then◌else◌, ◌==◌,
}
use attendence_v.Storage.{
  Db, Session, Platform, Error, Result, ok, raised, database, http, Exec, pure, raise, ◌>>=◌, query,
  raise_if,
}
use attendence_v.Storage.Models.{
  User, UserRole, admin, instructor, auditor, operator, Json, string, strings,
}
use attendence_v.Audit.{AuditEvent, user_create, user_update, user_delete, has_text}
use attendence_v.Crud.{
  Table, Service, Written, factory, on_session, queue_audit_event, create, update, delete,
}
use attendence_v.Crud.Payloads.{
  Values, names, setters, sorted_texts, written_id, service_event, handle,
}
use attendence_v.Auth.Replies.{find_user}

abbrev pub users_table : Table User
users_table = record {
  rows = λ d. d.users;
  replace = λ users d. record d { users = users };
  id = λ user. user.id;
}

-- `role.value`
unfoldable pub role_value : UserRole → String
role_value admin = "admin"
role_value instructor = "instructor"
role_value auditor = "auditor"
role_value operator = "operator"

-- The payload, with the identifier that the database generates.
pub record UserCreate : Type 0 where
  pub new_id : ℕ
  pub email : String
  pub full_name : String
  pub password : String
  pub role : UserRole
  pub is_active : Bool

-- `sorted(set(values) - {"password"})`, with "password_changed" for a password.
unfoldable pub fields_changed : List String → List String
fields_changed fields =
    let others = sorted_texts (filter (λ field. not (str_eq field "password")) fields) in
    if has_text "password" fields then others ++ "password_changed" ∷ [] else others

module _ (p : Platform) (actor : Option ℕ) where
  module _ (hash_password : String → String) where
    abbrev pub user_row : UserCreate → User
    user_row payload = record {
      id = payload.new_id;
      email = p.lower payload.email;
      full_name = payload.full_name;
      password_hash = hash_password payload.password;
      role = payload.role;
      is_active = payload.is_active;
      last_login_at = none;
    }

    abbrev pub user_create_event : UserCreate → Written User → AuditEvent
    user_create_event payload created =
        service_event user_create "user" (written_id users_table created) actor
          (("target_role", string (role_value payload.role)) ∷ [])

    unfoldable pub create_user : UserCreate → Exec User
    create_user payload = on_session (λ v.
        create p users_table (user_row payload)
          (queue_audit_event (factory (user_create_event payload)) v))

  abbrev pub user_update_event : ℕ → List String → Written User → AuditEvent
  user_update_event k fields _ =
      service_event user_update "user" k actor
        (("fields_changed", strings (fields_changed fields)) ∷ [])

  unfoldable pub update_user : ℕ → Values User → Exec (Option User)
  update_user k values = on_session (λ v.
      update p users_table k (setters values)
        (queue_audit_event (factory (user_update_event k (names values))) v))

  -- `domain_of` is `rsplit("@", 1)[-1]`.
  module _ (domain_of : String → String) where
    abbrev pub user_delete_event : User → Written User → AuditEvent
    user_delete_event user _ = service_event user_delete "user" user.id actor (
        ("target_role", string (role_value user.role))
        ∷ ("target_email_domain", string (domain_of user.email))
        ∷ [])

    unfoldable pub delete_found_user : ℕ → Option User → Exec Bool
    delete_found_user k none = pure false
    delete_found_user k (some user) =
        on_session
          (λ v. delete p users_table k (queue_audit_event (factory (user_delete_event user)) v))

    unfoldable pub delete_user : ℕ → Exec Bool
    delete_user k = do user ← query (λ d. find_user k d.users); delete_found_user k user

    -- An IntegrityError of a deletion is not handled.
    unfoldable pub delete_user_route : ℕ → Exec (Unit {0})
    delete_user_route k = do
      was_deleted ← delete_user k
      raise_if (not was_deleted) (http 404 "User not found.")

  module _ (violated : Bool) where
    unfoldable pub user_conflict : String → Error → Error
    user_conflict detail database = if violated then http 409 detail else database
    user_conflict detail x = x

    unfoldable pub create_user_route : (String → String) → UserCreate → Exec User
    create_user_route hash_password payload =
        handle (user_conflict "A user with the provided email already exists.")
          (create_user hash_password payload)

    unfoldable pub user_or_not_found : Option User → Exec User
    user_or_not_found none = raise (http 404 "User not found.")
    user_or_not_found (some user) = pure user

    unfoldable pub update_user_route : ℕ → Values User → Exec User
    update_user_route k values = do
      updated ←
          handle (user_conflict "The requested user update conflicts with an existing record.")
            (update_user k values)
      user_or_not_found updated
