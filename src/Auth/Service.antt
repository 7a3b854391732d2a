-- ===== src/Auth/Service.antt =====
-- app/services/auth_service.py, app/core/deps.py and the endpoints of app/api/v1/auth.py.
pub mod Login
pub mod Gate
use fleet_tracking_backend.Prelude.{
  ℕ, ◌*◌, String, Bool, true, false, not, ◌||◌, Option, none, some, List, [], ◌∷◌, if◌then◌else◌,
  ◌==str◌,
}
use fleet_tracking_backend.Prelude.Int.{ℤ, pos, negsuc}
use fleet_tracking_backend.Errors.{
  AppError, Part, lit, forbidden_error, Result, ok, err, ◌>>=◌, ◌>>◌, raise, raise_if,
}
use fleet_tracking_backend.Store.{Database, User, user_key}
use fleet_tracking_backend.Store.Session.{Session, scalar_one_or_none, get}
use fleet_tracking_backend.Mqtt.Topic.{Text}
use fleet_tracking_backend.Auth.Passwords.{Hasher, verify_password}
use fleet_tracking_backend.Auth.Tokens.{
  Jwt, TokenSettings, TokenType, access, refresh, credentials, create_access_token,
  create_refresh_token, decode_token,
}

pub record TokenPair : Type 0 where
  pub access_token : Text
  pub refresh_token : Text
  pub token_type : String
  pub expires_in : ℕ

unfoldable pub forbidden : AppError
forbidden = record {
  class = forbidden_error;
  message = lit "Admin privileges required" ∷ [];
  override = none;
}

abbrev pub bad_login : AppError
bad_login = credentials (lit "Incorrect email or password" ∷ [])

abbrev pub no_longer_exists : AppError
no_longer_exists = credentials (lit "User no longer exists" ∷ [])

-- The account of a login, if the password is the right one.
unfoldable pub with_password : Hasher → String → Option User → Result User
with_password h password none = raise bad_login
with_password h password (some user) =
    if not (verify_password h password user.hashed_password) then raise bad_login else ok user

or_gone : Option User → Result User
or_gone none = raise no_longer_exists
or_gone (some user) = ok user

unfoldable pub require_admin : User → Result User
require_admin user = if not user.is_admin then raise forbidden else ok user

module _ (s : Session) where
  -- `await db.get(User, user_id)`; no row has a negative number.
  unfoldable pub user_of : Database → ℤ → Option User
  user_of d (pos id) = get s user_key id d.users
  user_of d (negsuc n) = none

  module _ (h : Hasher) where
    unfoldable pub authenticate_user : Database → String → String → Result User
    unfolding with_password
    authenticate_user d email password = do
      user ← scalar_one_or_none s (λ u. u.email ==str email) d.users
      with_password h password user

  module _ (j : Jwt) (settings : TokenSettings) where
    unfoldable pub issue_token_pair : ℕ → User → TokenPair
    issue_token_pair now user = record {
      access_token = create_access_token j settings user.id now;
      refresh_token = create_refresh_token j settings user.id now;
      token_type = "bearer";
      expires_in = settings.access_token_expire_minutes * 60;
    }

    unfoldable pub refresh_token_pair : Database → ℕ → Text → Result TokenPair
    unfolding or_gone issue_token_pair
    refresh_token_pair d now token = do
      id ← decode_token j settings now token refresh
      user ← or_gone (user_of d id)
      ok (issue_token_pair now user)

    -- The bearer token of a request, where it has one.
    unfoldable pub get_current_user : Database → ℕ → Option Text → Result User
    unfolding or_gone
    get_current_user d now none = raise (credentials (lit "Not authenticated" ∷ []))
    get_current_user d now (some token) = do
      id ← decode_token j settings now token access
      or_gone (user_of d id)

    -- The gate of the routers under /admin.
    unfoldable pub current_admin : Database → ℕ → Option Text → Result User
    current_admin d now token = do user ← get_current_user d now token; require_admin user

    -- POST /auth/login
    unfoldable pub login : Hasher → Database → ℕ → String → String → Result TokenPair
    unfolding issue_token_pair
    login h d now email password = do
      user ← authenticate_user h d email password
      ok (issue_token_pair now user)
