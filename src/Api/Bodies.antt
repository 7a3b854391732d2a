-- ===== src/Api/Bodies.antt =====
-- The constraints that app/schemas declare of the bodies and the query parameters. A text is measured
-- in characters.
use Prim.Native.Char.{code}
use Prim.Native.String.{count}
use fleet_tracking_backend.Prelude.{
  ℕ, String, Bool, true, ◌&&◌, ◌||◌, ◌==◌, leb, length, Option, none, some, List, if◌then◌else◌,
}
use fleet_tracking_backend.Store.{Waypoint}
use fleet_tracking_backend.Mqtt.Topic.{Text}
use fleet_tracking_backend.Admin.{Field, unset, null, value}
use fleet_tracking_backend.Admin.Routes.{RouteCreate, RouteUpdate}
use fleet_tracking_backend.Admin.Vehicles.{VehicleCreate, VehicleUpdate}
use fleet_tracking_backend.Admin.Users.{UserCreate, UserUpdate}
use fleet_tracking_backend.Tracking.Me.{HistoryParams}
use fleet_tracking_backend.Api.Responses.{EmailCheck, in_range, all_of, option_map}

pub record LoginRequest : Type 0 where
  pub email : String
  pub password : String

pub record RefreshRequest : Type 0 where
  pub refresh_token : Text

-- `Field(min_length=low, max_length=high)`, `Field(ge=low, le=high)`
unfoldable pub between : ℕ → ℕ → ℕ → Bool
between low high n = leb low n && leb n high

unfoldable pub name_ok : String → Bool
unfolding between
name_ok name = between 1 255 (count name)

unfoldable pub password_ok : String → Bool
unfolding between
password_ok password = between 8 128 (count password)

unfoldable pub waypoints_ok : List Waypoint → Bool
unfolding between in_range all_of
waypoints_ok ws = between 2 500 (length ws) && all_of in_range ws

-- A character of `[A-Za-z0-9-]`.
unfoldable pub code_char : ℕ → Bool
unfolding between
code_char c = between b'A' b'Z' c || (between b'a' b'z' c || (between b'0' b'9' c || c == b'-'))

unfoldable pub code_chars : String → Bool
unfolding code_char
code_chars String.[] = true
code_chars (String.◌∷◌ c s) = code_char (code c) && code_chars s

-- `CODE_PATTERN` and the lengths; the `+` of the pattern is the lower one.
unfoldable pub code_ok : String → Bool
unfolding between code_chars
code_ok text = between 1 50 (count text) && code_chars text

-- A constraint on a field that may be left out or null.
unfoldable pub field_ok : {A : Type 0} → (A → Bool) → Field A → Bool
field_ok test unset = true
field_ok test null = true
field_ok test (value a) = test a

unfoldable pub route_create_ok : RouteCreate → Bool
unfolding name_ok waypoints_ok
route_create_ok body = name_ok body.name && waypoints_ok body.waypoints

unfoldable pub route_update_ok : RouteUpdate → Bool
unfolding name_ok waypoints_ok field_ok
route_update_ok body = field_ok name_ok body.name && field_ok waypoints_ok body.waypoints

unfoldable pub vehicle_create_ok : VehicleCreate → Bool
unfolding name_ok code_ok
vehicle_create_ok body = code_ok body.code && name_ok body.name

unfoldable pub vehicle_update_ok : VehicleUpdate → Bool
unfolding name_ok code_ok field_ok
vehicle_update_ok body = field_ok code_ok body.code && field_ok name_ok body.name

unfoldable pub history_params_ok : HistoryParams → Bool
unfolding between
history_params_ok params = between 1 1000 params.limit

unfoldable pub accept : {A : Type 0} → (A → Bool) → A → Option A
accept test a = if test a then some a else none

unfoldable pub refresh_request : RefreshRequest → Option RefreshRequest
unfolding accept
refresh_request body = accept (λ b. leb 10 (length b.refresh_token)) body

module _ (email : EmailCheck) where
  -- The body with the address in its normal form.
  unfoldable pub login_request : LoginRequest → Option LoginRequest
  unfolding password_ok option_map
  login_request body =
      if password_ok body.password
      then option_map (λ text. record body { email = text }) (email.normalize body.email)
      else none

  unfoldable pub user_create : UserCreate → Option UserCreate
  unfolding password_ok option_map
  user_create body =
      if password_ok body.password
      then option_map (λ text. record body { email = text }) (email.normalize body.email)
      else none

  unfoldable pub email_field : Field String → Option (Field String)
  unfolding option_map
  email_field unset = some unset
  email_field null = some null
  email_field (value text) = option_map value (email.normalize text)

  unfoldable pub user_update : UserUpdate → Option UserUpdate
  unfolding password_ok field_ok email_field option_map
  user_update body =
      if field_ok password_ok body.password
      then option_map (λ field. record body { email = field }) (email_field body.email)
      else none
