-- ===== src/Seed/Data.antt =====
-- The demo data of app/seed.py, and what it seeds.
use fleet_tracking_backend.Prelude.{ℕ, String, List, [], ◌∷◌}
use fleet_tracking_backend.Prelude.Int.{pos}
use fleet_tracking_backend.Store.{Assigned}
use fleet_tracking_backend.Seed.{DemoRoute, DemoVehicle, DemoAssignment, Demo}

abbrev admin_email : String
admin_email = "admin@fleet.com"

-- Each entry with the number and the time that its row draws.
abbrev demo_routes : (ℕ → Assigned) → List DemoRoute
demo_routes drawn =
    record {
      name = "City Center to Airport";
      waypoints =
          record { lat = pos 13_082_700; lng = pos 80_270_700 }
          ∷ record { lat = pos 13_041_700; lng = pos 80_234_500 }
          ∷ record { lat = pos 12_994_100; lng = pos 80_170_900 }
          ∷ [];
      assigned = drawn 0;
    }
    ∷ record {
      name = "OMR Tech Corridor";
      waypoints =
          record { lat = pos 13_009_300; lng = pos 80_248_100 }
          ∷ record { lat = pos 12_960_000; lng = pos 80_240_000 }
          ∷ record { lat = pos 12_901_000; lng = pos 80_227_900 }
          ∷ [];
      assigned = drawn 1;
    }
    ∷ record {
      name = "Marina to Central";
      waypoints =
          record { lat = pos 13_055_200; lng = pos 80_282_400 }
          ∷ record { lat = pos 13_066_500; lng = pos 80_268_500 }
          ∷ record { lat = pos 13_082_700; lng = pos 80_270_700 }
          ∷ [];
      assigned = drawn 2;
    }
    ∷ record {
      name = "T. Nagar to Guindy";
      waypoints =
          record { lat = pos 13_041_800; lng = pos 80_234_100 }
          ∷ record { lat = pos 13_025_400; lng = pos 80_227_400 }
          ∷ record { lat = pos 13_010_400; lng = pos 80_220_600 }
          ∷ [];
      assigned = drawn 3;
    }
    ∷ []

abbrev demo_vehicles : (ℕ → Assigned) → List DemoVehicle
demo_vehicles drawn =
    record { code = "BUS-001"; name = "Chennai Express"; assigned = drawn 0 }
    ∷ record { code = "BUS-002"; name = "OMR Flier"; assigned = drawn 1 }
    ∷ record { code = "BUS-003"; name = "Marina Cruiser"; assigned = drawn 2 }
    ∷ record { code = "BUS-004"; name = "Guindy Shuttle"; assigned = drawn 3 }
    ∷ []

abbrev demo_assignments : (ℕ → Assigned) → List DemoAssignment
demo_assignments drawn =
    record {
      email = "ravi@fleet.com";
      route_name = "City Center to Airport";
      vehicle_code = "BUS-001";
      assigned = drawn 1;
    }
    ∷ record {
      email = "priya@fleet.com";
      route_name = "OMR Tech Corridor";
      vehicle_code = "BUS-002";
      assigned = drawn 2;
    }
    ∷ record {
      email = "arun@fleet.com";
      route_name = "Marina to Central";
      vehicle_code = "BUS-003";
      assigned = drawn 3;
    }
    ∷ record {
      email = "divya@fleet.com";
      route_name = "T. Nagar to Guindy";
      vehicle_code = "BUS-004";
      assigned = drawn 4;
    }
    ∷ []

-- All of it, with the hashed password of the settings.
abbrev pub demo_data : (ℕ → Assigned) → String → Demo
demo_data drawn password = record {
  routes = demo_routes drawn;
  vehicles = demo_vehicles drawn;
  admin_email = admin_email;
  admin_assigned = drawn 0;
  users = demo_assignments drawn;
  password = password;
}
