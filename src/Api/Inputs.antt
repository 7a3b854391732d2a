-- ===== src/Api/Inputs.antt =====
-- Requests as the endpoints see them, after routing and decoding, and their validation.
use fleet_tracking_backend.Prelude.{ℕ, String, Option, none, some}
use fleet_tracking_backend.Store.{Assigned}
use fleet_tracking_backend.Mqtt.Topic.{Text}
use fleet_tracking_backend.Admin.Routes.{RouteCreate, RouteUpdate}
use fleet_tracking_backend.Admin.Vehicles.{VehicleCreate, VehicleUpdate}
use fleet_tracking_backend.Admin.Users.{UserCreate, UserUpdate}
use fleet_tracking_backend.Admin.Assignment.{AssignmentUpdate, pair_is_complete}
use fleet_tracking_backend.Tracking.Me.{HistoryParams}
use fleet_tracking_backend.Api.Responses.{EmailCheck, option_map}
use fleet_tracking_backend.Api.Bodies.{
  LoginRequest, RefreshRequest, accept, route_create_ok, route_update_ok, vehicle_create_ok,
  vehicle_update_ok, user_create, user_update, history_params_ok,
}

-- What is left of an input after decoding: a body that is no JSON is refused before everything else;
-- a value of another type, or a missing one, where the constraints are checked.
pub data Input (A : Type 0) : Type 0 where
  not_json ill_typed : Input A
  typed : A → Input A

-- The endpoints under /admin, with the number in the path and the body.
pub data Operation : Type 0 where
  post_route : RouteCreate → Operation
  list_all_routes : Operation
  read_route : ℕ → Operation
  change_route : ℕ → RouteUpdate → Operation
  drop_route : ℕ → Operation
  post_vehicle : VehicleCreate → Operation
  list_all_vehicles : Operation
  read_vehicle : ℕ → Operation
  change_vehicle : ℕ → VehicleUpdate → Operation
  drop_vehicle : ℕ → Operation
  post_user : UserCreate → Operation
  list_all_users : Operation
  read_user : ℕ → Operation
  change_user : ℕ → UserUpdate → Operation
  drop_user : ℕ → Operation
  put_assignment : ℕ → AssignmentUpdate → Operation

-- The endpoints under /me.
pub data View : Type 0 where
  my_profile my_assignment my_route my_vehicle_current : View
  my_vehicle_history : HistoryParams → View

pub data Request : Type 0 where
  -- the framework's own answer, with its status and text: an unknown path, a wrong method
  unmatched : ℕ → String → Request
  health : Request
  post_login : Input LoginRequest → Request
  post_refresh : Input RefreshRequest → Request
  me : Input View → Request
  admin : Input Operation → Request

-- A request with its bearer token, the time, and what the server draws for it.
pub record Call : Type 0 where
  pub request : Request
  pub token : Option Text
  pub now : ℕ
  pub assigned : Assigned
  pub salt : ℕ

-- The body under the constraints of its schema; none stands for the RequestValidationError.
unfoldable pub validate : EmailCheck → Operation → Option Operation
unfolding accept option_map
validate email (post_route body) = option_map post_route (accept route_create_ok body)
validate email (change_route id body) = option_map (change_route id) (accept route_update_ok body)
validate email (post_vehicle body) = option_map post_vehicle (accept vehicle_create_ok body)
validate email (change_vehicle id body) =
    option_map (change_vehicle id) (accept vehicle_update_ok body)
validate email (post_user body) = option_map post_user (user_create email body)
validate email (change_user id body) = option_map (change_user id) (user_update email body)
validate email (put_assignment id body) =
    option_map (put_assignment id) (accept pair_is_complete body)
validate email list_all_routes = some list_all_routes
validate email (read_route id) = some (read_route id)
validate email (drop_route id) = some (drop_route id)
validate email list_all_vehicles = some list_all_vehicles
validate email (read_vehicle id) = some (read_vehicle id)
validate email (drop_vehicle id) = some (drop_vehicle id)
validate email list_all_users = some list_all_users
validate email (read_user id) = some (read_user id)
validate email (drop_user id) = some (drop_user id)

unfoldable pub validate_view : View → Option View
unfolding accept option_map
validate_view (my_vehicle_history params) =
    option_map my_vehicle_history (accept history_params_ok params)
validate_view my_profile = some my_profile
validate_view my_assignment = some my_assignment
validate_view my_route = some my_route
validate_view my_vehicle_current = some my_vehicle_current

-- What the constraints leave of an input.
unfoldable pub checked_input : {A : Type 0} → (A → Option A) → Input A → Option A
checked_input check not_json = none
checked_input check ill_typed = none
checked_input check (typed a) = check a
