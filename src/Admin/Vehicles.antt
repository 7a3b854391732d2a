-- ===== src/Admin/Vehicles.antt =====
-- The vehicles: app/services/fleet_admin_service.py, app/api/v1/admin/vehicles.py.
pub mod Outcomes
use fleet_tracking_backend.Prelude.{
  ℕ, String, Option, none, some, List, [], ◌∷◌, ◌++◌, map, Bool, true, false, not, ◌||◌, ◌==◌, leb,
  if◌then◌else◌, ◌==str◌, is_some, holds, put_row, delete_row,
}
use fleet_tracking_backend.Errors.{
  Result, ok, err, ◌>>=◌, ◌>>◌, raise, raise_if, AppError, Part, lit, num, repr,
}
use fleet_tracking_backend.Store.{
  Database, Vehicle, User, GpsPoint, VehicleCurrentLocation, Assigned, vehicle_key, location_key,
}
use fleet_tracking_backend.Store.Session.{Session, scalar, get, count, commit}
use fleet_tracking_backend.Tracking.Status.{VehicleLiveOut, derive_status, utc}
use fleet_tracking_backend.Admin.{Field, unset, null, value, conflict, not_found, not_null, if_set}

pub record VehicleCreate : Type 0 where
  pub code : String
  pub name : String
  pub is_active : Bool

pub record VehicleUpdate : Type 0 where
  pub code : Field String
  pub name : Field String
  pub is_active : Field Bool

-- A vehicle with its live location, for the fleet view.
pub record AdminVehicleOut : Type 0 where
  pub id : ℕ
  pub code : String
  pub name : String
  pub is_active : Bool
  pub created_at : ℕ
  pub current_location : Option VehicleLiveOut

unfoldable pub code_taken : String → AppError
unfolding conflict
code_taken code =
    conflict (lit "Vehicle code already exists: " ∷ repr code ∷ []) "vehicle_code_taken"

unfoldable pub new_vehicle : VehicleCreate → Assigned → Vehicle
new_vehicle body a = record {
  id = a.id;
  code = body.code;
  name = body.name;
  is_active = body.is_active;
  created_at = a.now;
}

unfoldable pub has_code : String → Vehicle → Bool
has_code code v = v.code ==str code

unfoldable pub in_vehicle : ℕ → User → Bool
in_vehicle id u = holds u.vehicle_id id

unfoldable pub of_vehicle : ℕ → GpsPoint → Bool
of_vehicle id p = p.vehicle_id == id

or_missing : ℕ → Option Vehicle → Result Vehicle
or_missing id none = raise (not_found "Vehicle " (num id) "vehicle_not_found")
or_missing id (some vehicle) = ok vehicle

-- The live part of the fleet view's row.
live_out : Vehicle → ℕ → Option VehicleCurrentLocation → Option VehicleLiveOut
live_out v now none = none
live_out v now (some loc) = some (record {
  vehicle_id = v.id;
  vehicle_code = v.code;
  lat = some loc.lat;
  lng = some loc.lng;
  speed = some loc.speed;
  recorded_at = some loc.recorded_at;
  status = derive_status (some (utc loc.recorded_at)) (some loc.speed) now;
})

module _ (s : Session) where
  unfoldable pub create_vehicle : Database → Assigned → VehicleCreate → Result (Vehicle × Database)
  create_vehicle d a body = do
    raise_if (is_some (scalar s (has_code body.code) d.vehicles)) (code_taken body.code)
    let vehicle = new_vehicle body a
    d' ← commit s (record d { vehicles = d.vehicles ++ vehicle ∷ [] })
    ok (vehicle, d')

  unfoldable pub list_vehicles : Database → List Vehicle
  list_vehicles d = s.order_by (λ a b. leb a.id b.id) (s.select (λ v. true) d.vehicles)

  -- `_admin_vehicle_out`; the joined row of the vehicle is its current location.
  unfoldable pub admin_vehicle_out : Database → ℕ → Vehicle → AdminVehicleOut
  unfolding live_out
  admin_vehicle_out d now v = record {
    id = v.id;
    code = v.code;
    name = v.name;
    is_active = v.is_active;
    created_at = v.created_at;
    current_location = live_out v now (get s location_key v.id d.locations);
  }

  unfoldable pub list_vehicles_with_location : Database → ℕ → List AdminVehicleOut
  unfolding list_vehicles
  list_vehicles_with_location d now = map (admin_vehicle_out d now) (list_vehicles d)

  unfoldable pub get_vehicle : Database → ℕ → Result Vehicle
  unfolding or_missing
  get_vehicle d id = or_missing id (get s vehicle_key id d.vehicles)

  -- The attribute `code` after `update_vehicle` has looked at the body; None where null was given.
  recoded : Database → Vehicle → Field String → Result (Option String)
  recoded d vehicle unset = ok (some vehicle.code)
  recoded d vehicle null = ok none
  recoded d vehicle (value code) = if code ==str vehicle.code then ok (some vehicle.code) else do
    raise_if (is_some (scalar s (has_code code) d.vehicles)) (code_taken code)
    ok (some code)

  unfoldable pub update_vehicle : Database → Vehicle → VehicleUpdate → Result (Vehicle × Database)
  unfolding recoded
  update_vehicle d vehicle body = do
    code ← recoded d vehicle body.code
    let name = if_set body.name vehicle.name
    let active = if_set body.is_active vehicle.is_active
    code ← not_null code
    name ← not_null name
    active ← not_null active
    let vehicle' = record vehicle { code = code; name = name; is_active = active }
    d' ← commit s (record d { vehicles = put_row vehicle_key vehicle' d.vehicles })
    ok (vehicle', d')

  unfoldable pub delete_vehicle : Database → Vehicle → Result Database
  delete_vehicle d vehicle = do
    let assigned = count s (in_vehicle vehicle.id) d.users
    raise_if (not (assigned == 0)) (
        conflict
          (lit "Vehicle is assigned to " ∷ num assigned ∷ lit " user(s) and cannot be deleted" ∷ [])
          "vehicle_in_use")
    let has_history = count s (of_vehicle vehicle.id) d.points
    let has_current = get s location_key vehicle.id d.locations
    raise_if (not (has_history == 0) || is_some has_current)
        (conflict (lit "Vehicle has GPS tracking data and cannot be deleted" ∷ []) "vehicle_in_use")
    commit s (record d { vehicles = delete_row vehicle_key vehicle.id d.vehicles })

  -- PATCH /admin/vehicles/{vehicle_id}
  unfoldable pub patch_vehicle : Database → ℕ → VehicleUpdate → Result (Vehicle × Database)
  patch_vehicle d id body = do vehicle ← get_vehicle d id; update_vehicle d vehicle body

  -- DELETE /admin/vehicles/{vehicle_id}
  unfoldable pub remove_vehicle : Database → ℕ → Result Database
  remove_vehicle d id = do vehicle ← get_vehicle d id; delete_vehicle d vehicle
