-- ===== src/Examples/Simulation.antt =====
-- The theorems about the simulator and the database URL, applied to the fleet.
use fleet_tracking_backend.Prelude.{
  ℕ, ◌*◌, ◌≤◌, ◌≡◌, refl, true, false, List, [], ◌∷◌, arith, All, Pairwise, Member, is_some,
}
use fleet_tracking_backend.Prelude.Int.{negsuc}
use fleet_tracking_backend.Errors.{ok}
use fleet_tracking_backend.Store.{Waypoint, User}
use fleet_tracking_backend.Mqtt.Topic.{digit_count, decimal}
use fleet_tracking_backend.Mqtt.Payload.{GpsMessage}
use fleet_tracking_backend.Config.{codes, normalize_database_url}
use fleet_tracking_backend.Config.Schemes.{Settles, normalize-Settles}
use fleet_tracking_backend.Api.Bodies.{name_ok, waypoints_ok}
use fleet_tracking_backend.Simulator.Walk.{BusWalker, forward, advance, position, cumulative_of}
use fleet_tracking_backend.Simulator.Walk.Path.{
  IsWalker, path_length, Near, Stands, advance-position,
}
use fleet_tracking_backend.Simulator.Runner.{
  Draw, Start, Bus, load_assignments, run_simulator, Assignment,
}
use fleet_tracking_backend.Simulator.Runner.Loaded.{Describes, OtherVehicle, load_assignments_exact}
use fleet_tracking_backend.Simulator.Runner.Published.{IsReadBack, run_simulator-IsReadBack}
use fleet_tracking_backend.Examples.Reference.{reference}
use fleet_tracking_backend.Examples.Fleet.{busy_fleet, busy_fleet-IsValid, terminus, airport}
use fleet_tracking_backend.Examples.Numbers.{towards_zero, numbers, number_codec}
use fleet_tracking_backend.Examples.Live.{fleet_prefix}

-- Any two waypoints are 14 km apart, in 3600ths of a millimetre.
abbrev far_apart : Waypoint → Waypoint → ℕ
far_apart a b = 50_400_000_000

abbrev express_walker : BusWalker
express_walker = record {
  waypoints = terminus ∷ airport ∷ [];
  distance = 1_000_000;
  direction = forward;
  cumulative = 0 ∷ 50_400_000_000 ∷ [];
}

express-IsWalker : IsWalker far_apart express_walker
unfolding cumulative_of
express-IsWalker = record { two = omega arith; summed = refl }

advance-position_example :
    let w' = advance express_walker 30_000_000 2 in
    IsWalker far_apart w'
    × (w'.waypoints ≡ express_walker.waypoints)
    × (w'.distance ≤ path_length far_apart express_walker.waypoints)
    × (express_walker.distance ≤ path_length far_apart express_walker.waypoints
        → Near far_apart express_walker.distance w'.distance (30_000_000 * 2))
    × Stands far_apart express_walker.waypoints w'.distance (position w')
advance-position_example = advance-position far_apart express_walker 30_000_000 2 express-IsWalker

load_assignments_exact_example :
    All
      (λ a. (u : User) × Member u busy_fleet.users × Describes busy_fleet u a)
      (load_assignments reference busy_fleet)
    × ((u : User)
        → Member u busy_fleet.users
        → is_some u.vehicle_id ≡ true
        → (a : Assignment) × Member a (load_assignments reference busy_fleet)
          × Describes busy_fleet u a)
    × Pairwise (OtherVehicle reference busy_fleet) (load_assignments reference busy_fleet)
load_assignments_exact_example = load_assignments_exact reference busy_fleet busy_fleet-IsValid

normalize-Settles_example :
    Settles
      (codes "postgres://u:p@db/fleet")
      (normalize_database_url (codes "postgres://u:p@db/fleet"))
normalize-Settles_example = normalize-Settles (codes "postgres://u:p@db/fleet")

abbrev cruise : Start
cruise = record { distance = 1_000_000; base = 30_000_000 }

abbrev jolt : Draw
jolt = record { halts = false; jitter = negsuc 999_999 }

run_simulator-IsReadBack_example :
    (buses : List Bus) × (fixes : List GpsMessage) × (run_simulator reference far_apart towards_zero
        2 busy_fleet
        (λ id. cruise)
        ((1_000_000, λ id. jolt) ∷ (3_000_000, λ id. jolt) ∷ [])
      ≡ ok (buses, fixes))
    × All
        (IsReadBack far_apart towards_zero 2 reference busy_fleet numbers number_codec fleet_prefix)
        fixes
unfolding name_ok waypoints_ok digit_count decimal
run_simulator-IsReadBack_example =
    run_simulator-IsReadBack far_apart towards_zero 2 reference busy_fleet numbers number_codec
      fleet_prefix (λ id. cruise) ((1_000_000, λ id. jolt) ∷ (3_000_000, λ id. jolt) ∷ [])
      ((refl, refl), ((refl, refl), tt))
      ((omega arith, omega arith), ((omega arith, omega arith), ((omega arith, omega arith), tt)))
      (omega arith, (omega arith, (omega arith, (omega arith, (omega arith, tt)))))
      (λ id. omega arith) ((λ id. omega arith), ((λ id. omega arith), tt))
