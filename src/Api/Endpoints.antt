-- ===== src/Api/Endpoints.antt =====
-- The endpoints of app/api/router.py, app/api/v1/auth.py, app/api/v1/me.py and app/api/v1/admin as one
-- function from a request and the database to the response and the database. Routing, the decoding of
-- JSON and the conversions of pydantic are the framework's: a request is seen after them.
pub mod Served
pub mod Accepted
pub mod Requests
pub mod Refusals
pub mod Envelope
use fleet_tracking_backend.Prelude.{
  ℕ, Bool, ◌≡◌, String, Option, none, some, List, [], ◌∷◌, if◌then◌else◌,
}
use fleet_tracking_backend.Errors.{Result, ok, err, ◌>>=◌}
use fleet_tracking_backend.Store.{Database, User, Assigned}
use fleet_tracking_backend.Store.Session.{Session}
use fleet_tracking_backend.Mqtt.Topic.{Text}
use fleet_tracking_backend.Auth.Passwords.{Hasher}
use fleet_tracking_backend.Auth.Tokens.{Jwt, TokenSettings}
use fleet_tracking_backend.Auth.Service.{login, refresh_token_pair, get_current_user, current_admin}
use fleet_tracking_backend.Admin.Routes.{
  RouteCreate, RouteUpdate, create_route, list_routes, get_route, patch_route, remove_route,
}
use fleet_tracking_backend.Admin.Vehicles.{
  VehicleCreate, VehicleUpdate, create_vehicle, list_vehicles_with_location, get_vehicle,
  patch_vehicle, remove_vehicle,
}
use fleet_tracking_backend.Admin.Users.{
  UserCreate, UserUpdate, create_user, list_users, get_user, patch_user, remove_user,
}
use fleet_tracking_backend.Admin.Assignment.{AssignmentUpdate, pair_is_complete, set_assignment}
use fleet_tracking_backend.Tracking.Me.{
  HistoryParams, get_assignment, get_route_polyline, get_current_location, get_history,
}
use fleet_tracking_backend.Api.Responses.{
  EmailCheck, ErrorDetail, Answer, nothing, tokens_answer, user_answer, users_answer, route_answer,
  routes_answer, vehicle_answer, fleet_answer, assignment_answer, polyline_answer, live_answer,
  history_answer, Response, Content, health_content, unhandled, failure_response, validation_error,
  http_error, render, option_map,
}
use fleet_tracking_backend.Api.Inputs.{
  Call, Input, Operation, Request, View, admin, change_route, change_user, change_vehicle,
  checked_input, drop_route, drop_user, drop_vehicle, health, ill_typed, list_all_routes,
  list_all_users, list_all_vehicles, me, my_assignment, my_profile, my_route, my_vehicle_current,
  my_vehicle_history, not_json, post_login, post_refresh, post_route, post_user, post_vehicle,
  put_assignment, read_route, read_user, read_vehicle, typed, unmatched, validate, validate_view,
}
use fleet_tracking_backend.Api.Bodies.{
  LoginRequest, RefreshRequest, accept, route_create_ok, route_update_ok, vehicle_create_ok,
  vehicle_update_ok, user_create, user_update, history_params_ok, login_request, refresh_request,
}

-- The status that the endpoint declares.
unfoldable pub success_status : Operation → ℕ
success_status (post_route body) = 201
success_status (post_vehicle body) = 201
success_status (post_user body) = 201
success_status (drop_route id) = 204
success_status (drop_vehicle id) = 204
success_status (drop_user id) = 204
success_status list_all_routes = 200
success_status (read_route id) = 200
success_status (change_route id body) = 200
success_status list_all_vehicles = 200
success_status (read_vehicle id) = 200
success_status (change_vehicle id body) = 200
success_status list_all_users = 200
success_status (read_user id) = 200
success_status (change_user id body) = 200
success_status (put_assignment id body) = 200

-- An answer that does not fit its response model is an unforeseen exception.
unfoldable pub rendered : ℕ → Option Content → Response
rendered status none = unhandled
rendered status (some body) = record { status = status; content = body }

-- A service leaves nothing behind where it fails.
unfoldable pub finish : EmailCheck → ℕ → Database → Result (Answer × Database) → Response × Database
unfolding rendered
finish email status d (err e) = (failure_response e, d)
finish email status d (ok answer) = (rendered status (render email answer.0), answer.1)

-- A read, which returns no database.
unfoldable pub reading :
    {A : Type 0} → (A → Answer) → Database → Result A → Result (Answer × Database)
reading wrap d result = do a ← result; ok (wrap a, d)

-- A change, which returns the row and the database.
unfoldable pub changing :
    {A : Type 0} → (A → Answer) → Result (A × Database) → Result (Answer × Database)
changing wrap result = do (a, d') ← result; ok (wrap a, d')

-- A deletion, which returns the database.
unfoldable pub deleting : Result Database → Result (Answer × Database)
deleting result = do d' ← result; ok (nothing, d')

module _ (s : Session) (h : Hasher) where
  -- The functions of the routers under /admin.
  unfoldable pub serve : Database → Call → Operation → Result (Answer × Database)
  unfolding reading changing deleting
  serve d c (post_route body) = changing route_answer (create_route s d c.assigned body)
  serve d c list_all_routes = ok (routes_answer (list_routes s d), d)
  serve d c (read_route id) = reading route_answer d (get_route s d id)
  serve d c (change_route id body) = changing route_answer (patch_route s d id body)
  serve d c (drop_route id) = deleting (remove_route s d id)
  serve d c (post_vehicle body) = changing vehicle_answer (create_vehicle s d c.assigned body)
  serve d c list_all_vehicles = ok (fleet_answer (list_vehicles_with_location s d c.now), d)
  serve d c (read_vehicle id) = reading vehicle_answer d (get_vehicle s d id)
  serve d c (change_vehicle id body) = changing vehicle_answer (patch_vehicle s d id body)
  serve d c (drop_vehicle id) = deleting (remove_vehicle s d id)
  serve d c (post_user body) = changing user_answer (create_user s h c.salt d c.assigned body)
  serve d c list_all_users = ok (users_answer (list_users s d), d)
  serve d c (read_user id) = reading user_answer d (get_user s d id)
  serve d c (change_user id body) = changing user_answer (patch_user s h c.salt d id body)
  serve d c (drop_user id) = deleting (remove_user s d id)
  serve d c (put_assignment id body) = changing user_answer (set_assignment s d id body)

  -- The functions of app/api/v1/me.py.
  unfoldable pub view : Database → ℕ → User → View → Result (Answer × Database)
  unfolding reading
  view d now user my_profile = ok (user_answer user, d)
  view d now user my_assignment = reading assignment_answer d (get_assignment s d user)
  view d now user my_route = reading polyline_answer d (get_route_polyline s d user)
  view d now user my_vehicle_current = reading live_answer d (get_current_location s d now user)
  view d now user (my_vehicle_history params) =
      reading history_answer d (get_history s d now user params)

  module _ (j : Jwt) (settings : TokenSettings) (email : EmailCheck)
      (errors : Request → List ErrorDetail) where
    -- The dependencies of an endpoint come before its own parameters.
    unfoldable pub gated_admin :
        Database → Call → Result User → Option Operation → Response × Database
    unfolding finish serve
    gated_admin d c (err e) op = (failure_response e, d)
    gated_admin d c (ok user) none = (validation_error (errors c.request), d)
    gated_admin d c (ok user) (some op) = finish email (success_status op) d (serve d c op)

    unfoldable pub gated_view : Database → Call → Result User → Option View → Response × Database
    unfolding finish view
    gated_view d c (err e) v = (failure_response e, d)
    gated_view d c (ok user) none = (validation_error (errors c.request), d)
    gated_view d c (ok user) (some v) = finish email 200 d (view d c.now user v)

    unfoldable pub login_response : Database → Call → Option LoginRequest → Response × Database
    unfolding finish reading
    login_response d c none = (validation_error (errors c.request), d)
    login_response d c (some body) =
        finish email 200 d
          (reading tokens_answer d (login s j settings h d c.now body.email body.password))

    unfoldable pub refresh_response : Database → Call → Option RefreshRequest → Response × Database
    unfolding finish reading
    refresh_response d c none = (validation_error (errors c.request), d)
    refresh_response d c (some body) =
        finish email 200 d
          (reading tokens_answer d (refresh_token_pair s j settings d c.now body.refresh_token))

    respond_to : Database → Call → Request → Response × Database
    unfolding gated_admin gated_view login_response refresh_response checked_input validate_view
        login_request refresh_request validate
    respond_to d c (unmatched status detail) = (http_error status detail, d)
    respond_to d c health = (record { status = 200; content = health_content "ok" }, d)
    respond_to d c (post_login body) = login_response d c (checked_input (login_request email) body)
    respond_to d c (post_refresh body) = refresh_response d c (checked_input refresh_request body)
    respond_to d c (me not_json) = (validation_error (errors c.request), d)
    respond_to d c (me ill_typed) =
        gated_view d c (get_current_user s j settings d c.now c.token) none
    respond_to d c (me (typed v)) =
        gated_view d c (get_current_user s j settings d c.now c.token) (validate_view v)
    respond_to d c (admin not_json) = (validation_error (errors c.request), d)
    respond_to d c (admin ill_typed) =
        gated_admin d c (current_admin s j settings d c.now c.token) none
    respond_to d c (admin (typed op)) =
        gated_admin d c (current_admin s j settings d c.now c.token) (validate email op)

    unfoldable pub respond : Database → Call → Response × Database
    unfolding respond_to
    respond d c = respond_to d c c.request
