-- ===== src/Examples/Serving.antt =====
-- A run of the application from the empty database: two routes, two vehicles, two drivers, their
-- assignments, and a fix.
use fleet_tracking_backend.Prelude.{
  All, ◌==str◌, eq_iff, ℕ, suc, ◌≡◌, ◌≢◌, refl, false, true, none, some, [], ◌∷◌, arith, inl, inr,
  Option, String,
}
use fleet_tracking_backend.Errors.{Result, ok, err}
use fleet_tracking_backend.Store.{BusRoute, Vehicle, User, Database, Assigned}
use fleet_tracking_backend.Store.Session.{scalar, get, commit}
use fleet_tracking_backend.Invariant.{IsValid}
use fleet_tracking_backend.Admin.Routes.{has_name, new_route, create_route, get_route}
use fleet_tracking_backend.Admin.Vehicles.{has_code, new_vehicle, create_vehicle, get_vehicle}
use fleet_tracking_backend.Admin.Users.{has_email, new_user, create_user, get_user}
use fleet_tracking_backend.Auth.Passwords.{hash_password}
use fleet_tracking_backend.Admin.Assignment.{
  pair_is_complete, other_on_route, other_in_vehicle, free_of, check_pair, assigned, commit_user,
  set_assignment,
}
use fleet_tracking_backend.Admin.Assignment.Race.{pair}
use fleet_tracking_backend.Mqtt.Topic.{Text}
use fleet_tracking_backend.Tracking.Me.{get_current_location, live, live_for, found_vehicle}
use fleet_tracking_backend.Serving.{
  empty_database, Reach, start, later, route_created, vehicle_created, user_created, assignment_set,
}
use fleet_tracking_backend.Serving.Reachable.{Reach-IsValid, Reach-isolated}
use fleet_tracking_backend.Seed.Shares.{SharesVehicle, seed_takes_vehicle}
use fleet_tracking_backend.Seed.{
  DemoAssignment, Demo, Created, seed, seed_missing, seed_routes, seed_vehicles, seed_admin,
  seed_users, demo_route, demo_vehicle, demo_user,
}
use fleet_tracking_backend.Seed.Data.{demo_data}
use fleet_tracking_backend.Seed.Again.{IsSeeded, seed_again}
use fleet_tracking_backend.Examples.Constraints.{schema_b}
use fleet_tracking_backend.Examples.Reference.{reference}
use fleet_tracking_backend.Examples.Parts.{plain, one_fix}
use fleet_tracking_backend.Examples.Fleet.{terminus, airport}

abbrev prefix : Text
prefix = b'f' ∷ []

abbrev at : ℕ → Assigned
at id = record { id = id; now = 100 }

abbrev route : ℕ → String → BusRoute
route id name = record {
  id = id;
  name = name;
  waypoints = terminus ∷ airport ∷ [];
  created_at = 100;
}

abbrev vehicle : ℕ → String → Vehicle
vehicle id code = record { id = id; code = code; name = code; is_active = true; created_at = 100 }

abbrev driver : ℕ → String → Option ℕ → User
driver id email held = record {
  id = id;
  email = email;
  hashed_password = "password";
  is_admin = false;
  route_id = held;
  vehicle_id = held;
  created_at = 100;
}

abbrev with_route : Database
with_route = record empty_database { routes = route 1 "City" ∷ [] }

abbrev with_routes : Database
with_routes = record empty_database { routes = route 1 "City" ∷ route 2 "Marina" ∷ [] }

abbrev with_vehicle : Database
with_vehicle = record with_routes { vehicles = vehicle 1 "BUS-1" ∷ [] }

abbrev with_vehicles : Database
with_vehicles = record with_routes { vehicles = vehicle 1 "BUS-1" ∷ vehicle 2 "BUS-2" ∷ [] }

abbrev with_user : Database
with_user = record with_vehicles { users = driver 1 "a@fleet.com" none ∷ [] }

abbrev with_users : Database
with_users = record with_vehicles {
  users = driver 1 "a@fleet.com" none ∷ driver 2 "b@fleet.com" none ∷ [];
}

abbrev half_assigned : Database
half_assigned = record with_vehicles {
  users = driver 1 "a@fleet.com" (some 1) ∷ driver 2 "b@fleet.com" none ∷ [];
}

abbrev all_assigned : Database
all_assigned = record with_vehicles {
  users = driver 1 "a@fleet.com" (some 1) ∷ driver 2 "b@fleet.com" (some 2) ∷ [];
}

routes_reached : Reach reference plain one_fix prefix with_routes
unfolding create_route commit scalar schema_b has_name new_route
routes_reached =
    later
      (later start (
        route_created (at 1) (record { name = "City"; waypoints = terminus ∷ airport ∷ [] }) tt
          refl))
      (route_created (at 2) (record { name = "Marina"; waypoints = terminus ∷ airport ∷ [] })
        (omega arith, tt) refl)

vehicles_reached : Reach reference plain one_fix prefix with_vehicles
unfolding create_vehicle commit scalar schema_b has_code new_vehicle
vehicles_reached =
    later
      (later routes_reached (
        vehicle_created (at 1) (record { code = "BUS-1"; name = "BUS-1"; is_active = true }) tt
          refl))
      (vehicle_created (at 2) (record { code = "BUS-2"; name = "BUS-2"; is_active = true })
        (omega arith, tt) refl)

users_reached : Reach reference plain one_fix prefix with_users
unfolding create_user commit scalar schema_b has_email new_user hash_password
users_reached =
    later
      (later vehicles_reached (
        user_created 0 (at 1)
          (record { email = "a@fleet.com"; password = "password"; is_admin = false }) tt refl))
      (user_created 0 (at 2)
        (record { email = "b@fleet.com"; password = "password"; is_admin = false })
        (omega arith, tt) refl)

all_assigned_reached : Reach reference plain one_fix prefix all_assigned
unfolding set_assignment assigned check_pair commit_user commit scalar get get_user get_route
    get_vehicle schema_b pair_is_complete other_on_route other_in_vehicle free_of
all_assigned_reached =
    later (later users_reached (assignment_set 1 (pair 1 1) refl refl))
      (assignment_set 2 (pair 2 2) refl refl)

Reach-IsValid_example : IsValid all_assigned
Reach-IsValid_example = Reach-IsValid reference plain one_fix prefix all_assigned_reached

seen_by_first :
    get_current_location reference all_assigned 200 (driver 1 "a@fleet.com" (some 1))
    ≡ ok (live 200 (vehicle 1 "BUS-1") none)
unfolding get_current_location live_for found_vehicle get scalar
seen_by_first = refl

seen_by_second :
    get_current_location reference all_assigned 200 (driver 2 "b@fleet.com" (some 2))
    ≡ ok (live 200 (vehicle 2 "BUS-2") none)
unfolding get_current_location live_for found_vehicle get scalar
seen_by_second = refl

Reach-isolated_example :
    (live 200 (vehicle 1 "BUS-1") none).vehicle_id ≢ (live 200 (vehicle 2 "BUS-2") none).vehicle_id
Reach-isolated_example =
    Reach-isolated reference plain one_fix prefix 200 (driver 1 "a@fleet.com" (some 1))
      (driver 2 "b@fleet.com" (some 2)) (live 200 (vehicle 1 "BUS-1") none)
      (live 200 (vehicle 2 "BUS-2") none) all_assigned_reached (inl refl) (inr (inl refl))
      (omega arith) seen_by_first seen_by_second

abbrev demo : Demo
demo = record {
  routes = record { name = "City"; waypoints = []; assigned = at 8 } ∷ [];
  vehicles = record { code = "BUS-2"; name = "Second"; assigned = at 8 } ∷ [];
  admin_email = "a@fleet.com";
  admin_assigned = at 8;
  users =
      record { email = "b@fleet.com"; route_name = "City"; vehicle_code = "BUS-2"; assigned = at 9 }
      ∷ [];
  password = "password123";
}

all_assigned-IsSeeded : IsSeeded demo all_assigned
all_assigned-IsSeeded = (
  ((route 1 "City", inl refl, refl), tt),
  ((vehicle 2 "BUS-2", inr (inl refl), refl), tt),
  (driver 1 "a@fleet.com" (some 1), inl refl, refl),
  ((driver 2 "b@fleet.com" (some 2), inr (inl refl), refl), tt),
)

seed_again_example :
    seed reference plain 0 demo false all_assigned
    ≡ ok (record { routes = 0; vehicles = 0; users = 0 }, all_assigned)
seed_again_example =
    seed_again reference plain 0 demo all_assigned
      (Reach-IsValid reference plain one_fix prefix all_assigned_reached) all_assigned-IsSeeded

abbrev entry : DemoAssignment
entry = record {
  email = "c@fleet.com";
  route_name = "City";
  vehicle_code = "BUS-1";
  assigned = at 9;
}

other_emails : All (λ y. y.email ≢ entry.email) all_assigned.users
other_emails = (apart "a@fleet.com" refl, (apart "b@fleet.com" refl, tt))
  where
    apart : (email : String) → (email ==str "c@fleet.com") ≡ false → email ≢ "c@fleet.com"
    apart email e q = ground (arith, eq_iff email "c@fleet.com")

seed_takes_vehicle_example :
    SharesVehicle reference plain 0 "password123" all_assigned
      (Reach-IsValid reference plain one_fix prefix all_assigned_reached)
      all_assigned.routes
      all_assigned.vehicles
      entry
      (route 1 "City")
      (vehicle 1 "BUS-1")
      (driver 1 "a@fleet.com" (some 1))
unfolding has_name has_code
seed_takes_vehicle_example =
    seed_takes_vehicle reference plain 0 "password123" all_assigned
      (Reach-IsValid reference plain one_fix prefix all_assigned_reached) all_assigned.routes
      all_assigned.vehicles entry (route 1 "City") (vehicle 1 "BUS-1")
      (driver 1 "a@fleet.com" (some 1)) refl refl (inl refl) (inl refl)
      (omega arith, (omega arith, tt)) other_emails (inl refl) refl

-- The counts of a seed, or none where it fails.
counts : Result (Created × Database) → Option Created
counts (ok (created, d)) = some created
counts (err e) = none

-- The demo data fills an empty database.
seeded_counts :
    counts (seed reference plain 0 (demo_data (λ k. at (suc k)) "password123") false empty_database)
    ≡ some (record { routes = 4; vehicles = 4; users = 5 })
unfolding counts seed seed_missing seed_routes seed_vehicles seed_admin seed_users has_name has_code
    has_email scalar commit schema_b demo_route demo_vehicle demo_user
seeded_counts = refl
