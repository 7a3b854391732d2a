-- ===== src/Api/Responses.antt =====
-- What the API answers: the JSON forms of app/schemas, the error envelope and the exception handlers
-- of app/core/exceptions.py, and the validation of an answer against its response model.
use fleet_tracking_backend.Prelude.{
  ℕ, ◌≡◌, String, Bool, true, ◌&&◌, Option, none, some, List, [], ◌∷◌, ◌++◌, map, drop, ◌==◌,
  if◌then◌else◌,
}
use fleet_tracking_backend.Prelude.Int.{pos, negsuc, leb_ℤ}
use fleet_tracking_backend.Errors.{
  Message, lit, str, AppError, Failure, app, integrity_error, overflow_error, unexpected,
  status_code, code,
}
use fleet_tracking_backend.Store.{Waypoint, BusRoute, Vehicle, User}
use fleet_tracking_backend.Mqtt.Topic.{Text}
use fleet_tracking_backend.Mqtt.Payload.{max_lat, max_lng}
use fleet_tracking_backend.Auth.Service.{TokenPair}
use fleet_tracking_backend.Admin.Vehicles.{AdminVehicleOut}
use fleet_tracking_backend.Tracking.Status.{VehicleLiveOut}
use fleet_tracking_backend.Tracking.Me.{AssignmentOut, RoutePolylineOut, HistoryOut}

-- `EmailStr` of pydantic: the normal form of an address, or none for a text that is not one. A normal
-- form is accepted as it is.
pub record EmailCheck : Type 0 where
  pub normalize : String → Option String
  pub normalize_again :
      (text normal : String) → normalize text ≡ some normal → normalize normal ≡ some normal

pub record RouteOut : Type 0 where
  pub id : ℕ
  pub name : String
  pub waypoints : List Waypoint
  pub created_at : ℕ

pub record VehicleOut : Type 0 where
  pub id : ℕ
  pub code : String
  pub name : String
  pub is_active : Bool
  pub created_at : ℕ

pub record UserOut : Type 0 where
  pub id : ℕ
  pub email : String
  pub is_admin : Bool
  pub route_id : Option ℕ
  pub vehicle_id : Option ℕ
  pub created_at : ℕ

-- One entry of `exc.errors()`: where the input is refused, as texts, and why.
pub record ErrorDetail : Type 0 where
  pub loc : List Text
  pub msg : String

pub record FieldError : Type 0 where
  pub field : Text
  pub message : String

-- What an endpoint returns, with the rows as they are.
pub data Answer : Type 0 where
  nothing : Answer
  tokens_answer : TokenPair → Answer
  user_answer : User → Answer
  users_answer : List User → Answer
  route_answer : BusRoute → Answer
  routes_answer : List BusRoute → Answer
  vehicle_answer : Vehicle → Answer
  fleet_answer : List AdminVehicleOut → Answer
  assignment_answer : AssignmentOut → Answer
  polyline_answer : RoutePolylineOut → Answer
  live_answer : VehicleLiveOut → Answer
  history_answer : HistoryOut → Answer

-- The body of a response.
pub data Content : Type 0 where
  no_content : Content
  -- {"error": {"code": …, "message": …}}
  error_content : String → Message → Content
  -- the same with "details"
  invalid_content : String → Message → List FieldError → Content
  health_content : String → Content
  tokens_content : TokenPair → Content
  user_content : UserOut → Content
  users_content : List UserOut → Content
  route_content : RouteOut → Content
  routes_content : List RouteOut → Content
  vehicle_content : VehicleOut → Content
  fleet_content : List AdminVehicleOut → Content
  assignment_content : AssignmentOut → Content
  polyline_content : RoutePolylineOut → Content
  live_content : VehicleLiveOut → Content
  history_content : HistoryOut → Content

pub record Response : Type 0 where
  pub status : ℕ
  pub content : Content

-- `AppError.to_response`
unfoldable pub to_response : AppError → Response
to_response e = record { status = status_code e.class; content = error_content (code e) e.message }

-- `_unhandled_error_handler`
unfoldable pub unhandled : Response
unhandled = record {
  status = 500;
  content = error_content "internal_error" (lit "Unexpected server error" ∷ []);
}

-- Which handler an exception of a service ends in.
unfoldable pub failure_response : Failure → Response
failure_response (app e) = to_response e
failure_response integrity_error = unhandled
failure_response overflow_error = unhandled
failure_response unexpected = unhandled

-- `".".join(parts)`
unfoldable pub join_dots : List Text → Text
join_dots [] = []
join_dots (t ∷ []) = t
join_dots (t ∷ u ∷ ts) = t ++ (b'.' ∷ join_dots (u ∷ ts))

unfoldable pub field_error : ErrorDetail → FieldError
unfolding join_dots
field_error e = record { field = join_dots (drop 1 e.loc); message = e.msg }

-- `_validation_error_handler`
unfoldable pub validation_error : List ErrorDetail → Response
unfolding field_error
validation_error errors = record {
  status = 422;
  content =
      invalid_content "validation_error" (lit "Request validation failed" ∷ [])
        (map field_error errors);
}

-- `code_map.get(exc.status_code, "http_error")`
unfoldable pub http_code : ℕ → String
http_code status =
    if status == 404
    then "not_found"
    else (if status == 405 then "method_not_allowed" else "http_error")

-- `_http_error_handler`
unfoldable pub http_error : ℕ → String → Response
unfolding http_code
http_error status detail = record {
  status = status;
  content = error_content (http_code status) (str detail ∷ []);
}

-- The ranges of `Waypoint`.
unfoldable pub in_range : Waypoint → Bool
in_range w =
    (leb_ℤ (negsuc 89_999_999) w.lat && leb_ℤ w.lat (pos max_lat))
    && (leb_ℤ (negsuc 179_999_999) w.lng && leb_ℤ w.lng (pos max_lng))

unfoldable pub all_of : {A : Type 0} → (A → Bool) → List A → Bool
all_of p [] = true
all_of p (x ∷ xs) = p x && all_of p xs

unfoldable pub both_some : {A : Type 0} → Option A → Option (List A) → Option (List A)
both_some none os = none
both_some (some a) none = none
both_some (some a) (some rest) = some (a ∷ rest)

-- The list of what every entry becomes, where every entry becomes something.
unfoldable pub each : {A B : Type 0} → (A → Option B) → List A → Option (List B)
unfolding both_some
each f [] = some []
each f (x ∷ xs) = both_some (f x) (each f xs)

unfoldable pub option_map : {A B : Type 0} → (A → B) → Option A → Option B
option_map f none = none
option_map f (some a) = some (f a)

unfoldable pub route_out : BusRoute → Option RouteOut
unfolding in_range all_of
route_out r =
    if all_of in_range r.waypoints
    then some
        (record { id = r.id; name = r.name; waypoints = r.waypoints; created_at = r.created_at })
    else none

unfoldable pub vehicle_out : Vehicle → VehicleOut
vehicle_out v = record {
  id = v.id;
  code = v.code;
  name = v.name;
  is_active = v.is_active;
  created_at = v.created_at;
}

module _ (email : EmailCheck) where
  user_with : User → String → UserOut
  user_with u text = record {
    id = u.id;
    email = text;
    is_admin = u.is_admin;
    route_id = u.route_id;
    vehicle_id = u.vehicle_id;
    created_at = u.created_at;
  }

  unfoldable pub user_out : User → Option UserOut
  unfolding user_with
  user_out u = option_map (user_with u) (email.normalize u.email)

  -- The answer validated against the `response_model` of its endpoint; none stands for the
  -- ResponseValidationError.
  unfoldable pub render : Answer → Option Content
  unfolding user_out route_out vehicle_out all_of in_range option_map each
  render nothing = some no_content
  render (tokens_answer t) = some (tokens_content t)
  render (user_answer u) = option_map user_content (user_out u)
  render (users_answer us) = option_map users_content (each user_out us)
  render (route_answer r) = option_map route_content (route_out r)
  render (routes_answer rs) = option_map routes_content (each route_out rs)
  render (vehicle_answer v) = some (vehicle_content (vehicle_out v))
  render (fleet_answer vs) = some (fleet_content vs)
  render (assignment_answer a) = some (assignment_content a)
  render (polyline_answer p) =
      if all_of in_range p.waypoints then some (polyline_content p) else none
  render (live_answer l) = some (live_content l)
  render (history_answer h) = some (history_content h)
