-- ===== src/Examples/Fleet.antt =====
-- A small fleet: two routes, three vehicles, an administrator, a driver with an assignment and a
-- driver without, and two fixes.
use fleet_tracking_backend.Prelude.{refl, true, false, none, some, [], ◌∷◌, arith, inl}
use fleet_tracking_backend.Prelude.Int.{pos}
use fleet_tracking_backend.Store.{
  Waypoint, BusRoute, Vehicle, User, GpsPoint, VehicleCurrentLocation, Database,
}
use fleet_tracking_backend.Invariant.{IsValid}
use fleet_tracking_backend.Examples.Constraints.{schema_b, Schema-Decides}

abbrev pub terminus : Waypoint
terminus = record { lat = pos 13_082_700; lng = pos 80_270_700 }

abbrev pub airport : Waypoint
airport = record { lat = pos 12_994_100; lng = pos 80_170_900 }

abbrev pub city_route : BusRoute
city_route = record { id = 1; name = "City"; waypoints = terminus ∷ airport ∷ []; created_at = 10 }

abbrev pub marina_route : BusRoute
marina_route = record {
  id = 2;
  name = "Marina";
  waypoints = airport ∷ terminus ∷ [];
  created_at = 11;
}

abbrev pub express : Vehicle
express = record { id = 1; code = "BUS-1"; name = "Express"; is_active = true; created_at = 12 }

abbrev pub flier : Vehicle
flier = record { id = 2; code = "BUS-2"; name = "Flier"; is_active = true; created_at = 13 }

abbrev pub spare : Vehicle
spare = record { id = 3; code = "BUS-3"; name = "Spare"; is_active = false; created_at = 14 }

abbrev pub admin : User
admin = record {
  id = 1;
  email = "admin@fleet.com";
  hashed_password = "h1";
  is_admin = true;
  route_id = none;
  vehicle_id = none;
  created_at = 15;
}

abbrev pub ravi : User
ravi = record {
  id = 2;
  email = "ravi@fleet.com";
  hashed_password = "h2";
  is_admin = false;
  route_id = some 1;
  vehicle_id = some 1;
  created_at = 16;
}

abbrev pub priya : User
priya = record {
  id = 3;
  email = "priya@fleet.com";
  hashed_password = "h3";
  is_admin = false;
  route_id = none;
  vehicle_id = none;
  created_at = 17;
}

abbrev pub early_fix : GpsPoint
early_fix = record {
  id = 1;
  vehicle_id = 1;
  lat = pos 13_082_700;
  lng = pos 80_270_700;
  speed = 4250;
  recorded_at = 1_000_000_000;
  created_at = 1_000_000_100;
}

abbrev pub late_fix : GpsPoint
late_fix = record {
  id = 2;
  vehicle_id = 1;
  lat = pos 13_041_700;
  lng = pos 80_234_500;
  speed = 0;
  recorded_at = 1_010_000_000;
  created_at = 1_010_000_100;
}

abbrev pub last_seen : VehicleCurrentLocation
last_seen = record {
  vehicle_id = 1;
  lat = pos 13_041_700;
  lng = pos 80_234_500;
  speed = 0;
  recorded_at = 1_010_000_000;
  updated_at = 1_010_000_100;
}

abbrev pub fleet : Database
fleet = record {
  routes = city_route ∷ marina_route ∷ [];
  vehicles = express ∷ flier ∷ spare ∷ [];
  users = admin ∷ ravi ∷ priya ∷ [];
  points = late_fix ∷ early_fix ∷ [];
  locations = last_seen ∷ [];
}

pub fleet-IsValid : IsValid fleet
unfolding schema_b
fleet-IsValid = record {
  schema = (Schema-Decides fleet).0 refl;
  assigned = record {
    paired = (refl, (refl, (refl, tt)));
    routes_apart = ((refl, (refl, tt)), ((refl, tt), (tt, tt)));
    vehicles_apart = ((refl, (refl, tt)), ((refl, tt), (tt, tt)));
  };
  tracked = record {
    recorded = (inl (refl, refl, refl, refl, refl), tt);
    newest = (((λ _. omega arith), ((λ _. omega arith), tt)), tt);
    located = (inl refl, (inl refl, tt));
  };
}

-- Priya with the second route and the second vehicle.
abbrev pub assigned_priya : User
assigned_priya = record {
  id = 3;
  email = "priya@fleet.com";
  hashed_password = "h3";
  is_admin = false;
  route_id = some 2;
  vehicle_id = some 2;
  created_at = 17;
}

-- The fleet with two assigned drivers.
abbrev pub busy_fleet : Database
busy_fleet = record {
  routes = city_route ∷ marina_route ∷ [];
  vehicles = express ∷ flier ∷ spare ∷ [];
  users = admin ∷ ravi ∷ assigned_priya ∷ [];
  points = late_fix ∷ early_fix ∷ [];
  locations = last_seen ∷ [];
}

pub busy_fleet-IsValid : IsValid busy_fleet
unfolding schema_b
busy_fleet-IsValid = record {
  schema = (Schema-Decides busy_fleet).0 refl;
  assigned = record {
    paired = (refl, (refl, (refl, tt)));
    routes_apart = ((refl, (refl, tt)), ((refl, tt), (tt, tt)));
    vehicles_apart = ((refl, (refl, tt)), ((refl, tt), (tt, tt)));
  };
  tracked = record {
    recorded = (inl (refl, refl, refl, refl, refl), tt);
    newest = (((λ _. omega arith), ((λ _. omega arith), tt)), tt);
    located = (inl refl, (inl refl, tt));
  };
}
