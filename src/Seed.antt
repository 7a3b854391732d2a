-- ===== src/Seed.antt =====
-- app/seed.py: the missing demo rows. The demo lists are arguments, of which Data is the one in use; a
-- row that is created takes its number from the argument beside its entry.
pub mod Data
pub mod Again
pub mod Shares
use fleet_tracking_backend.Prelude.{
  ℕ, ◌+◌, String, Bool, true, false, Option, none, some, List, [], ◌∷◌, ◌++◌, ◌==str◌, head?,
  filter, if◌then◌else◌,
}
use fleet_tracking_backend.Errors.{Result, ok, err, ◌>>=◌, unexpected}
use fleet_tracking_backend.Store.{Database, Waypoint, BusRoute, Vehicle, User, Assigned}
use fleet_tracking_backend.Store.Session.{Session, scalar, commit}
use fleet_tracking_backend.Auth.Passwords.{Hasher, hash_password}
use fleet_tracking_backend.Admin.Routes.{has_name}
use fleet_tracking_backend.Admin.Vehicles.{has_code}
use fleet_tracking_backend.Admin.Users.{has_email}
use fleet_tracking_backend.Serving.{empty_database}

pub record DemoRoute : Type 0 where
  pub name : String
  pub waypoints : List Waypoint
  pub assigned : Assigned

pub record DemoVehicle : Type 0 where
  pub code : String
  pub name : String
  pub assigned : Assigned

pub record DemoAssignment : Type 0 where
  pub email : String
  pub route_name : String
  pub vehicle_code : String
  pub assigned : Assigned

-- `DEMO_ROUTES`, `DEMO_VEHICLES`, `ADMIN_EMAIL`, `DEMO_ASSIGNMENTS` and the hashed password.
pub record Demo : Type 0 where
  pub routes : List DemoRoute
  pub vehicles : List DemoVehicle
  pub admin_email : String
  pub admin_assigned : Assigned
  pub users : List DemoAssignment
  pub password : String

-- The counts of created rows.
pub record Created : Type 0 where
  pub routes : ℕ
  pub vehicles : ℕ
  pub users : ℕ

-- `routes[name]` and `vehicles[code]`: a missing key is a KeyError.
key_of : {A : Type 0} → Option A → Result A
key_of none = err unexpected
key_of (some a) = ok a

unfoldable pub demo_route : DemoRoute → BusRoute
demo_route spec = record {
  id = spec.assigned.id;
  name = spec.name;
  waypoints = spec.waypoints;
  created_at = spec.assigned.now;
}

-- A vehicle is active by default.
unfoldable pub demo_vehicle : DemoVehicle → Vehicle
demo_vehicle spec = record {
  id = spec.assigned.id;
  code = spec.code;
  name = spec.name;
  is_active = true;
  created_at = spec.assigned.now;
}

unfoldable pub demo_user :
    Hasher → ℕ → String → String → Bool → Option ℕ → Option ℕ → Assigned → User
demo_user h salt password email is_admin route_id vehicle_id a = record {
  id = a.id;
  email = email;
  hashed_password = hash_password h salt password;
  is_admin = is_admin;
  route_id = route_id;
  vehicle_id = vehicle_id;
  created_at = a.now;
}

module _ (s : Session) where
  -- `db.add(route)`, `await db.flush()`: the constraints are checked at once.
  add_route : Database → DemoRoute → Option BusRoute → Result (BusRoute × ℕ × Database)
  add_route d spec (some route) = ok (route, 0, d)
  add_route d spec none = do
    d' ← commit s (record d { routes = d.routes ++ demo_route spec ∷ [] })
    ok (demo_route spec, 1, d')

  unfoldable pub seed_routes : Database → List DemoRoute → Result (List BusRoute × ℕ × Database)
  unfolding add_route
  seed_routes d [] = ok ([], 0, d)
  seed_routes d (spec ∷ specs) = do
    (route, n, d) ← add_route d spec (scalar s (has_name spec.name) d.routes)
    (routes, m, d) ← seed_routes d specs
    ok (route ∷ routes, n + m, d)

  add_vehicle : Database → DemoVehicle → Option Vehicle → Result (Vehicle × ℕ × Database)
  add_vehicle d spec (some vehicle) = ok (vehicle, 0, d)
  add_vehicle d spec none = do
    d' ← commit s (record d { vehicles = d.vehicles ++ demo_vehicle spec ∷ [] })
    ok (demo_vehicle spec, 1, d')

  unfoldable pub seed_vehicles : Database → List DemoVehicle → Result (List Vehicle × ℕ × Database)
  unfolding add_vehicle
  seed_vehicles d [] = ok ([], 0, d)
  seed_vehicles d (spec ∷ specs) = do
    (vehicle, n, d) ← add_vehicle d spec (scalar s (has_code spec.code) d.vehicles)
    (vehicles, m, d) ← seed_vehicles d specs
    ok (vehicle ∷ vehicles, n + m, d)

  module _ (h : Hasher) (salt : ℕ) (password : String) where
    -- A user that is added stays pending until the next query or the commit.
    add_user : Database → User → Database
    add_user d user = record d { users = d.users ++ user ∷ [] }

    unfoldable pub seed_admin : Database → String → Assigned → Option User → ℕ × Database
    unfolding add_user
    seed_admin d email a (some user) = (0, d)
    seed_admin d email a none = (1, add_user d (demo_user h salt password email true none none a))

    seed_user :
        Database
        → List BusRoute
        → List Vehicle
        → DemoAssignment
        → Option User
        → Result (ℕ × Database)
    unfolding add_user key_of
    seed_user d routes vehicles spec (some user) = ok (0, d)
    seed_user d routes vehicles spec none = do
      route ← key_of (head? (filter (has_name spec.route_name) routes))
      vehicle ← key_of (head? (filter (has_code spec.vehicle_code) vehicles))
      let user =
          demo_user h salt password spec.email false (some route.id) (some vehicle.id) spec.assigned
      ok (1, add_user d user)

    unfoldable pub seed_users :
        Database → List BusRoute → List Vehicle → List DemoAssignment → Result (ℕ × Database)
    unfolding seed_user
    seed_users d routes vehicles [] = ok (0, d)
    seed_users d routes vehicles (spec ∷ specs) = do
      (n, d) ← seed_user d routes vehicles spec (scalar s (has_email spec.email) d.users)
      (m, d) ← seed_users d routes vehicles specs
      ok (n + m, d)

  module _ (h : Hasher) (salt : ℕ) (demo : Demo) where
    -- All that follows the optional wipe.
    unfoldable pub seed_missing : Database → Result (Created × Database)
    seed_missing d = do
      (routes, n, d) ← seed_routes d demo.routes
      (vehicles, m, d) ← seed_vehicles d demo.vehicles
      let (k, d) =
          seed_admin h salt demo.password d demo.admin_email demo.admin_assigned
            (scalar s (has_email demo.admin_email) d.users)
      (l, d) ← seed_users h salt demo.password d routes vehicles demo.users
      d ← commit s d
      ok (record { routes = n; vehicles = m; users = k + l }, d)

    -- The wipe is committed on its own before: an error that comes after it leaves the tables empty.
    unfoldable pub seed : Bool → Database → Result (Created × Database)
    seed fresh d = seed_missing (if fresh then empty_database else d)
