-- ===== src/Serving.antt =====
-- What the database goes through while the application serves one request or message after the
-- other: the steps are the state-changing endpoints of app/api/v1/admin and the subscriber of
-- app/mqtt/client.py. A request that ends in an error commits nothing, so it is no step.
pub mod Reachable
use fleet_tracking_backend.Prelude.{ℕ, ◌≡◌, ◌≢◌, true, [], All}
use fleet_tracking_backend.Errors.{ok}
use fleet_tracking_backend.Store.{BusRoute, Vehicle, User, Database, Assigned}
use fleet_tracking_backend.Store.Session.{Session}
use fleet_tracking_backend.Auth.Passwords.{Hasher}
use fleet_tracking_backend.Admin.Routes.{
  RouteCreate, RouteUpdate, create_route, patch_route, remove_route,
}
use fleet_tracking_backend.Admin.Vehicles.{
  VehicleCreate, VehicleUpdate, create_vehicle, patch_vehicle, remove_vehicle,
}
use fleet_tracking_backend.Admin.Users.{
  UserCreate, UserUpdate, create_user, patch_user, remove_user,
}
use fleet_tracking_backend.Admin.Assignment.{AssignmentUpdate, pair_is_complete, set_assignment}
use fleet_tracking_backend.Mqtt.Topic.{Text}
use fleet_tracking_backend.Mqtt.Payload.{Decoder}
use fleet_tracking_backend.Mqtt.Client.{Delivery, process_message}

-- After the migration, before the first row.
abbrev pub empty_database : Database
empty_database = record { routes = []; vehicles = []; users = []; points = []; locations = [] }

-- One request or message; the number of a new row is one that its table does not have.
pub data Step (s : Session) (h : Hasher) (c : Decoder) (prefix : Text) (d : Database)
    : Database → Type 0 where
  route_created :
      (a : Assigned) (body : RouteCreate) {r : BusRoute} {d' : Database}
      → All (λ x. x.id ≢ a.id) d.routes
      → create_route s d a body ≡ ok (r, d')
      → Step s h c prefix d d'
  route_patched :
      (id : ℕ) (body : RouteUpdate) {r : BusRoute} {d' : Database}
      → patch_route s d id body ≡ ok (r, d')
      → Step s h c prefix d d'
  route_removed : (id : ℕ) {d' : Database} → remove_route s d id ≡ ok d' → Step s h c prefix d d'
  vehicle_created :
      (a : Assigned) (body : VehicleCreate) {r : Vehicle} {d' : Database}
      → All (λ x. x.id ≢ a.id) d.vehicles
      → create_vehicle s d a body ≡ ok (r, d')
      → Step s h c prefix d d'
  vehicle_patched :
      (id : ℕ) (body : VehicleUpdate) {r : Vehicle} {d' : Database}
      → patch_vehicle s d id body ≡ ok (r, d')
      → Step s h c prefix d d'
  vehicle_removed :
      (id : ℕ) {d' : Database} → remove_vehicle s d id ≡ ok d' → Step s h c prefix d d'
  user_created :
      (salt : ℕ) (a : Assigned) (body : UserCreate) {u : User} {d' : Database}
      → All (λ x. x.id ≢ a.id) d.users
      → create_user s h salt d a body ≡ ok (u, d')
      → Step s h c prefix d d'
  user_patched :
      (salt id : ℕ) (body : UserUpdate) {u : User} {d' : Database}
      → patch_user s h salt d id body ≡ ok (u, d')
      → Step s h c prefix d d'
  user_removed : (id : ℕ) {d' : Database} → remove_user s d id ≡ ok d' → Step s h c prefix d d'
  assignment_set :
      (id : ℕ) (body : AssignmentUpdate) {u : User} {d' : Database}
      → pair_is_complete body ≡ true
      → set_assignment s d id body ≡ ok (u, d')
      → Step s h c prefix d d'
  message_processed :
      (x : Delivery) {d' : Database}
      → All (λ p. p.id ≢ x.assigned.id) d.points
      → process_message s c prefix d x ≡ ok d'
      → Step s h c prefix d d'

-- The databases that steps lead to from the empty one.
pub data Reach (s : Session) (h : Hasher) (c : Decoder) (prefix : Text) : Database → Type 0 where
  start : Reach s h c prefix empty_database
  later : {d d' : Database} → Reach s h c prefix d → Step s h c prefix d d' → Reach s h c prefix d'
