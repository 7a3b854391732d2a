-- ===== src/Admin/Users.antt =====
-- The users: app/services/fleet_admin_service.py, app/api/v1/admin/users.py.
pub mod Outcomes
use fleet_tracking_backend.Prelude.{
  ℕ, String, Option, none, some, List, [], ◌∷◌, ◌++◌, Bool, true, false, leb, if◌then◌else◌,
  ◌==str◌, is_some, put_row, delete_row,
}
use fleet_tracking_backend.Errors.{
  Result, ok, err, ◌>>=◌, ◌>>◌, raise, raise_if, AppError, Part, lit, num, str,
}
use fleet_tracking_backend.Store.{Database, User, Assigned, user_key}
use fleet_tracking_backend.Store.Session.{Session, scalar, get, commit}
use fleet_tracking_backend.Auth.Passwords.{Hasher, hash_password}
use fleet_tracking_backend.Admin.{
  Field, unset, null, value, conflict, not_found, not_null, unless_null,
}

pub record UserCreate : Type 0 where
  pub email : String
  pub password : String
  pub is_admin : Bool

pub record UserUpdate : Type 0 where
  pub email : Field String
  pub password : Field String
  pub is_admin : Field Bool

unfoldable pub email_taken : String → AppError
unfolding conflict
email_taken email = conflict (lit "Email already registered: " ∷ str email ∷ []) "email_taken"

unfoldable pub has_email : String → User → Bool
has_email email u = u.email ==str email

or_missing : ℕ → Option User → Result User
or_missing id none = raise (not_found "User " (num id) "user_not_found")
or_missing id (some user) = ok user

-- A new account has no assignment.
unfoldable pub new_user : Hasher → ℕ → UserCreate → Assigned → User
new_user h salt body a = record {
  id = a.id;
  email = body.email;
  hashed_password = hash_password h salt body.password;
  is_admin = body.is_admin;
  route_id = none;
  vehicle_id = none;
  created_at = a.now;
}

-- The new hash where a password was given.
unfoldable pub rehashed : Hasher → ℕ → Field String → String → String
rehashed h salt unset old = old
rehashed h salt null old = old
rehashed h salt (value password) old = hash_password h salt password

module _ (s : Session) where
  unfoldable pub list_users : Database → List User
  list_users d = s.order_by (λ a b. leb a.id b.id) (s.select (λ u. true) d.users)

  unfoldable pub get_user : Database → ℕ → Result User
  unfolding or_missing
  get_user d id = or_missing id (get s user_key id d.users)

  -- The attribute `email` after `update_user` has looked at the body; None where null was given.
  readdressed : Database → User → Field String → Result (Option String)
  readdressed d user unset = ok (some user.email)
  readdressed d user null = ok none
  readdressed d user (value email) = if email ==str user.email then ok (some user.email) else do
    raise_if (is_some (scalar s (has_email email) d.users)) (email_taken email)
    ok (some email)

  unfoldable pub delete_user : Database → User → Result Database
  delete_user d user = commit s (record d { users = delete_row user_key user.id d.users })

  -- DELETE /admin/users/{user_id}
  unfoldable pub remove_user : Database → ℕ → Result Database
  unfolding delete_user
  remove_user d id = do user ← get_user d id; delete_user d user

  module _ (h : Hasher) (salt : ℕ) where
    unfoldable pub create_user : Database → Assigned → UserCreate → Result (User × Database)
    create_user d a body = do
      raise_if (is_some (scalar s (has_email body.email) d.users)) (email_taken body.email)
      let user = new_user h salt body a
      d' ← commit s (record d { users = d.users ++ user ∷ [] })
      ok (user, d')

    unfoldable pub update_user : Database → User → UserUpdate → Result (User × Database)
    unfolding readdressed rehashed
    update_user d user body = do
      email ← readdressed d user body.email
      let hashed = rehashed h salt body.password user.hashed_password
      let admin = unless_null body.is_admin user.is_admin
      email ← not_null email
      let user' = record user { email = email; hashed_password = hashed; is_admin = admin }
      d' ← commit s (record d { users = put_row user_key user' d.users })
      ok (user', d')

    -- PATCH /admin/users/{user_id}
    unfoldable pub patch_user : Database → ℕ → UserUpdate → Result (User × Database)
    patch_user d id body = do user ← get_user d id; update_user d user body
