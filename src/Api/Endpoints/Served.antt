-- ===== src/Api/Endpoints/Served.antt =====
-- How each operation of the administration ends on a valid database of shaped rows.
pub mod Routes
pub mod Vehicles
pub mod Users
use fleet_tracking_backend.Prelude.{
  ℕ, ◌≡◌, ◌≢◌, refl, ◌⊎◌, inl, inr, Bool, true, All, some, is_some,
}
use fleet_tracking_backend.Errors.{
  Result, ok, err, Failure, app, integrity_error, overflow_error, unexpected,
}
use fleet_tracking_backend.Store.{Database, Assigned}
use fleet_tracking_backend.Store.Session.{Session}
use fleet_tracking_backend.Auth.Passwords.{Hasher}
use fleet_tracking_backend.Mqtt.Topic.{Text}
use fleet_tracking_backend.Mqtt.Payload.{Decoder}
use fleet_tracking_backend.Admin.{Field, null}
use fleet_tracking_backend.Admin.Routes.{RouteUpdate}
use fleet_tracking_backend.Admin.Vehicles.{VehicleUpdate}
use fleet_tracking_backend.Admin.Users.{UserUpdate}
use fleet_tracking_backend.Invariant.{IsValid}
use fleet_tracking_backend.Serving.{Step}
use fleet_tracking_backend.Api.Responses.{EmailCheck, Answer, render}
use fleet_tracking_backend.Api.Shape.{IsShaped}
use fleet_tracking_backend.Api.Inputs.{
  Input, not_json, ill_typed, typed, Request, unmatched, health, post_login, post_refresh, me,
  admin, Operation, post_route, list_all_routes, read_route, change_route, drop_route, post_vehicle,
  list_all_vehicles, read_vehicle, change_vehicle, drop_vehicle, post_user, list_all_users,
  read_user, change_user, drop_user, put_assignment,
}

-- The number for a new row is not in use in its table.
abbrev pub IsFresh : Database → Assigned → Operation → Type 0
IsFresh d a (post_route body) = All (λ x. x.id ≢ a.id) d.routes
IsFresh d a (post_vehicle body) = All (λ x. x.id ≢ a.id) d.vehicles
IsFresh d a (post_user body) = All (λ x. x.id ≢ a.id) d.users
IsFresh d a list_all_routes = Unit
IsFresh d a (read_route id) = Unit
IsFresh d a (change_route id body) = Unit
IsFresh d a (drop_route id) = Unit
IsFresh d a list_all_vehicles = Unit
IsFresh d a (read_vehicle id) = Unit
IsFresh d a (change_vehicle id body) = Unit
IsFresh d a (drop_vehicle id) = Unit
IsFresh d a list_all_users = Unit
IsFresh d a (read_user id) = Unit
IsFresh d a (change_user id body) = Unit
IsFresh d a (drop_user id) = Unit
IsFresh d a (put_assignment id body) = Unit

-- The same of an input and of a request, which may have no operation.
abbrev pub IsFreshInput : Database → Assigned → Input Operation → Type 0
IsFreshInput d a not_json = Unit
IsFreshInput d a ill_typed = Unit
IsFreshInput d a (typed op) = IsFresh d a op

abbrev pub IsFreshRequest : Database → Assigned → Request → Type 0
IsFreshRequest d a (admin input) = IsFreshInput d a input
IsFreshRequest d a (unmatched status detail) = Unit
IsFreshRequest d a health = Unit
IsFreshRequest d a (post_login body) = Unit
IsFreshRequest d a (post_refresh body) = Unit
IsFreshRequest d a (me body) = Unit

-- A PATCH gives null for an attribute whose column is NOT NULL.
abbrev pub GivesNull : Operation → Type 0
GivesNull (change_route id body) = body.name ≡ null
GivesNull (change_vehicle id body) =
    (body.code ≡ null) ⊎ (body.name ≡ null) ⊎ (body.is_active ≡ null)
GivesNull (change_user id body) = body.email ≡ null
GivesNull (post_route body) = ⊥
GivesNull list_all_routes = ⊥
GivesNull (read_route id) = ⊥
GivesNull (drop_route id) = ⊥
GivesNull (post_vehicle body) = ⊥
GivesNull list_all_vehicles = ⊥
GivesNull (read_vehicle id) = ⊥
GivesNull (drop_vehicle id) = ⊥
GivesNull (post_user body) = ⊥
GivesNull list_all_users = ⊥
GivesNull (read_user id) = ⊥
GivesNull (drop_user id) = ⊥
GivesNull (put_assignment id body) = ⊥

module _ (s : Session) (h : Hasher) (c : Decoder) (prefix : Text) (email : EmailCheck) where
  -- A result that serving may have: a deliberate error; an IntegrityError only for a null; or an answer
  -- that fits its response model, with the old database or one that a step leads to.
  abbrev pub IsServed : Database → Type 0 → Result (Answer × Database) → Type 0
  IsServed d null_given (err (app e)) = Unit
  IsServed d null_given (err integrity_error) = null_given
  IsServed d null_given (err overflow_error) = ⊥
  IsServed d null_given (err unexpected) = ⊥
  IsServed d null_given (ok answer) =
      IsValid answer.1
      × IsShaped email answer.1
      × (is_some (render email answer.0) ≡ true)
      × ((answer.1 ≡ d) ⊎ Step s h c prefix d answer.1)
