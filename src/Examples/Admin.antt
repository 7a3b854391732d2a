-- ===== src/Examples/Admin.antt =====
-- The theorems about the administration, applied to the fleet.
use fleet_tracking_backend.Prelude.{refl, true, false, [], ◌∷◌, arith, inl, inr}
use fleet_tracking_backend.Store.{Assigned}
use fleet_tracking_backend.Admin.{unset, null, value}
use fleet_tracking_backend.Admin.Routes.{RouteCreate, RouteUpdate}
use fleet_tracking_backend.Admin.Routes.Outcomes as Routes
use fleet_tracking_backend.Admin.Vehicles.{VehicleCreate, VehicleUpdate}
use fleet_tracking_backend.Admin.Vehicles.Outcomes as Vehicles
use fleet_tracking_backend.Admin.Users.{UserCreate, UserUpdate}
use fleet_tracking_backend.Admin.Users.Outcomes as Users
use fleet_tracking_backend.Admin.Assignment.{pair_is_complete}
use fleet_tracking_backend.Admin.Assignment.Outcomes as Assignment
use fleet_tracking_backend.Admin.Assignment.Race.{RaceEnds, race_shares_vehicle, pair}
use fleet_tracking_backend.Examples.Reference.{reference}
use fleet_tracking_backend.Examples.Parts.{plain}
use fleet_tracking_backend.Examples.Fleet.{fleet, fleet-IsValid, terminus, airport, admin, priya}

abbrev fourth : Assigned
fourth = record { id = 4; now = 2_000_000_000 }

abbrev twice_named : RouteCreate
twice_named = record { name = "Marina"; waypoints = terminus ∷ airport ∷ [] }

create_route_outcome_example : Routes.CreateEnds reference fleet fleet-IsValid fourth twice_named
create_route_outcome_example =
    Routes.create_route_outcome reference fleet fleet-IsValid fourth twice_named
      (omega arith, (omega arith, tt))

abbrev rename : RouteUpdate
rename = record { name = value "Coast"; waypoints = unset }

patch_route_outcome_example : Routes.PatchEnds reference fleet fleet-IsValid 2 rename
patch_route_outcome_example = Routes.patch_route_outcome reference fleet fleet-IsValid 2 rename

remove_route_outcome_example : Routes.RemoveEnds reference fleet fleet-IsValid 1
remove_route_outcome_example = Routes.remove_route_outcome reference fleet fleet-IsValid 1

abbrev fresh_code : VehicleCreate
fresh_code = record { code = "BUS-4"; name = "Cruiser"; is_active = true }

create_vehicle_outcome_example : Vehicles.CreateEnds reference fleet fleet-IsValid fourth fresh_code
create_vehicle_outcome_example =
    Vehicles.create_vehicle_outcome reference fleet fleet-IsValid fourth fresh_code
      (omega arith, (omega arith, (omega arith, tt)))

abbrev unnamed : VehicleUpdate
unnamed = record { code = unset; name = null; is_active = unset }

patch_vehicle_outcome_example : Vehicles.PatchEnds reference fleet fleet-IsValid 3 unnamed
patch_vehicle_outcome_example =
    Vehicles.patch_vehicle_outcome reference fleet fleet-IsValid 3 unnamed

remove_vehicle_outcome_example : Vehicles.RemoveEnds reference fleet fleet-IsValid 3
remove_vehicle_outcome_example = Vehicles.remove_vehicle_outcome reference fleet fleet-IsValid 3

abbrev new_driver : UserCreate
new_driver = record { email = "arun@fleet.com"; password = "password123"; is_admin = false }

create_user_outcome_example :
    Users.CreateEnds reference fleet fleet-IsValid plain 0 fourth new_driver
create_user_outcome_example =
    Users.create_user_outcome reference fleet fleet-IsValid plain 0 fourth new_driver
      (omega arith, (omega arith, (omega arith, tt)))

abbrev promote : UserUpdate
promote = record { email = unset; password = null; is_admin = value true }

patch_user_outcome_example : Users.PatchEnds reference fleet fleet-IsValid plain 0 2 promote
patch_user_outcome_example =
    Users.patch_user_outcome reference fleet fleet-IsValid plain 0 2 promote

remove_user_outcome_example : Users.RemoveEnds reference fleet fleet-IsValid 2
remove_user_outcome_example = Users.remove_user_outcome reference fleet fleet-IsValid 2

set_assignment_outcome_example :
    Assignment.AssignmentEnds reference fleet fleet-IsValid 3 (pair 2 2)
unfolding pair_is_complete
set_assignment_outcome_example =
    Assignment.set_assignment_outcome reference fleet fleet-IsValid 3 (pair 2 2) refl

race_shares_vehicle_example :
    RaceEnds reference fleet fleet-IsValid 2 2
      (inr (inl refl))
      (inr (inl refl))
      (refl, (refl, (refl, tt)))
      (refl, (refl, (refl, tt)))
      admin
      priya
race_shares_vehicle_example =
    race_shares_vehicle reference fleet fleet-IsValid 2 2 (inr (inl refl)) (inr (inl refl))
      (refl, (refl, (refl, tt))) (refl, (refl, (refl, tt))) admin priya (inl refl)
      (inr (inr (inl refl))) (omega arith)
