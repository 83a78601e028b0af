-- ===== src/Users/Writes.antt =====
-- A write to a user's account and its evidence.
use attendence_v.Prelude.{ℕ, ◌≡◌, refl, ◌∙◌, Bool, String, Option, none, some, List, [], ◌∷◌, arith}
use attendence_v.Storage.{Db, Session, Platform, Result, ok, raised, http, resume}
use attendence_v.Storage.Models.{User}
use attendence_v.Audit.{add_governance, log_row}
use attendence_v.Crud.{row, deleted, patched, patch_table, remove_rows, insert_table, find}
use attendence_v.Crud.Requests.{
  Replies, handled-Replies, delete_reply-Replies, create_request-Replies, update_request-Replies,
  delete_request-Replies,
}
use attendence_v.Crud.Payloads.{Values, names, setters, handle}
use attendence_v.Auth.Replies.{find_user}
use attendence_v.Users.{
  users_table, UserCreate, user_row, user_create_event, create_user, user_update_event, update_user,
  user_delete_event, delete_found_user, delete_user, delete_user_route, create_user_route,
  user_or_not_found, update_user_route,
}

module _ (p : Platform) (actor : Option ℕ) (violated : Bool) where
  -- A creation commits the user, with the e-mail in lower case and the hash of the password,
  -- together with a ledger row that has the role only, or changes nothing.
  create_user_route-Replies :
      (hash_password : String → String) (payload : UserCreate) (s : Session)
      → let user = user_row p actor hash_password payload in
        Replies s user
          (add_governance
            (log_row p (user_create_event p actor hash_password payload (row user)))
            (insert_table p users_table user s.working))
          (create_user_route p actor violated hash_password payload s)
  unfolding create_user_route handle create_user
  create_user_route-Replies hash_password payload s = handled-Replies _ s _ _ _ (
      create_request-Replies p users_table (user_create_event p actor hash_password payload) s
        (user_row p actor hash_password payload))

  find-users_table : (k : ℕ) (users : List User) → find p users_table k users ≡ find_user k users
  find-users_table k [] = refl
  find-users_table k (user ∷ users) = ground (arith, find-users_table k users)

  user_or_not_found-Replies :
      (s : Session) (a : User) (done : Db) (o : Result (Option User) × Session)
      → Replies s (some a) done o
      → Replies s a done (resume (user_or_not_found p actor violated) o)
  unfolding user_or_not_found
  user_or_not_found-Replies s a done (ok none, s') h = absurd (ground (arith, h.0))
  user_or_not_found-Replies s a done (ok (some b), s') h = (ground (arith, h.0), h.1, h.2)
  user_or_not_found-Replies s a done (raised x, s') h = h

  -- A patch of a user that is there commits the patched row together with the ledger row that names
  -- the fields, or changes nothing.
  update_user_route-Replies :
      (k : ℕ) (field : String) (g : User → User) (values : Values User) (user : User) (s : Session)
      → find_user k s.working.users ≡ some user
      → let changes = (field, g) ∷ values in
        let new = patched p users_table (setters changes) user in
        Replies s new
          (add_governance
            (log_row p (user_update_event p actor k (names changes) (row new)))
            (patch_table p users_table k (setters changes) s.working))
          (update_user_route p actor violated k changes s)
  unfolding update_user_route handle update_user
  update_user_route-Replies k field g values user s found = user_or_not_found-Replies s _ _ _ (
      handled-Replies _ s _ _ _ (
        update_request-Replies p users_table
          (user_update_event p actor k (names ((field, g) ∷ values))) s k g (setters values) user
          (find-users_table k s.working.users ∙ found)))

  -- A deletion of a user that is there commits the deletion together with a ledger row that has the
  -- role and the domain of the e-mail, or changes nothing; without the user it is answered 404.
  delete_user_route-Replies :
      (domain_of : String → String) (k : ℕ) (s : Session)
      → ((user : User)
          → find_user k s.working.users ≡ some user
          → Replies s tt
              (add_governance
                (log_row p (user_delete_event p actor domain_of user (deleted k)))
                (remove_rows p users_table k s.working))
              (delete_user_route p actor domain_of k s))
        × (find_user k s.working.users ≡ none
            → delete_user_route p actor domain_of k s ≡ (raised (http 404 "User not found."), s))
  unfolding delete_user_route delete_user delete_found_user
  delete_user_route-Replies domain_of k s = (
    λ user found. rw found (
        delete_reply-Replies "User not found." s _ _ (
          delete_request-Replies p users_table (user_delete_event p actor domain_of user) s k user
            (find-users_table k s.working.users ∙ found))),
    λ missing. rw missing refl,
  )
