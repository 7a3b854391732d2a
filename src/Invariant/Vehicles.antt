-- ===== src/Invariant/Vehicles.antt =====
-- The invariant under each change of the table vehicles.
use fleet_tracking_backend.Prelude.{
  ℕ, ◌≡◌, ◌≢◌, sym, false, Option, some, [], ◌∷◌, ◌++◌, All, All-map, put_row, delete_row, holds,
  Pairwise-append_one, Pairwise-put_row, Pairwise-filter, not, ◌==◌,
}
use fleet_tracking_backend.Store.{
  Database, Vehicle, User, GpsPoint, VehicleCurrentLocation, vehicle_key,
}
use fleet_tracking_backend.Store.Schema.{CodeDiffers}
use fleet_tracking_backend.Store.References.{
  AllRefer-append_one, AllRefer-put_row, AllRefer-delete_row,
}
use fleet_tracking_backend.Invariant.{IsValid}

abbrev IdDiffers : Vehicle → Vehicle → Type 0
IdDiffers x y = x.id ≢ y.id

abbrev its_vehicle : User → Option ℕ
its_vehicle u = u.vehicle_id

-- A column that is never NULL, as one that may be.
abbrev of_point : GpsPoint → Option ℕ
of_point p = some p.vehicle_id

abbrev of_location : VehicleCurrentLocation → Option ℕ
of_location l = some l.vehicle_id

module _ (d : Database) (v : IsValid d) where
  open d use {vehicles, users, points, locations}

  pub IsValid-add_vehicle :
      (r : Vehicle)
      → All (λ x. x.id ≢ r.id) vehicles
      → All (λ x. x.code ≢ r.code) vehicles
      → IsValid (record d { vehicles = vehicles ++ r ∷ [] })
  IsValid-add_vehicle r new_id new_code = record {
    schema = record {
      vehicles_ok = record {
        primary = Pairwise-append_one IdDiffers vehicles r v.schema.vehicles_ok.primary new_id;
        uq_code = Pairwise-append_one CodeDiffers vehicles r v.schema.vehicles_ok.uq_code new_code;
      };
      users_vehicle =
          AllRefer-append_one vehicle_key its_vehicle users vehicles r v.schema.users_vehicle;
      points_vehicle =
          AllRefer-append_one vehicle_key of_point points vehicles r v.schema.points_vehicle;
      locations_vehicle =
          AllRefer-append_one vehicle_key of_location locations vehicles r
            v.schema.locations_vehicle;
      routes_ok = v.schema.routes_ok;
      users_ok = v.schema.users_ok;
      users_route = v.schema.users_route;
      points_primary = v.schema.points_primary;
      locations_primary = v.schema.locations_primary;
    };
    assigned = v.assigned;
    tracked = v.tracked;
  }

  pub IsValid-put_vehicle :
      (r : Vehicle)
      → All (λ x. x.id ≢ r.id → x.code ≢ r.code) vehicles
      → IsValid (record d { vehicles = put_row vehicle_key r vehicles })
  IsValid-put_vehicle r new_code = record {
    schema = record {
      vehicles_ok = record {
        primary =
            Pairwise-put_row vehicle_key IdDiffers (λ x y ne e. ne (sym e)) r vehicles
              v.schema.vehicles_ok.primary v.schema.vehicles_ok.primary
              (All-map (λ x. x.id ≢ r.id → x.code ≢ r.code) (λ x. x.id ≢ r.id → x.id ≢ r.id)
                vehicles (λ x h ne. ne) new_code);
        uq_code =
            Pairwise-put_row vehicle_key CodeDiffers (λ x y ne e. ne (sym e)) r vehicles
              v.schema.vehicles_ok.primary v.schema.vehicles_ok.uq_code new_code;
      };
      users_vehicle =
          AllRefer-put_row vehicle_key its_vehicle users vehicles r v.schema.users_vehicle;
      points_vehicle =
          AllRefer-put_row vehicle_key of_point points vehicles r v.schema.points_vehicle;
      locations_vehicle =
          AllRefer-put_row vehicle_key of_location locations vehicles r v.schema.locations_vehicle;
      routes_ok = v.schema.routes_ok;
      users_ok = v.schema.users_ok;
      users_route = v.schema.users_route;
      points_primary = v.schema.points_primary;
      locations_primary = v.schema.locations_primary;
    };
    assigned = v.assigned;
    tracked = v.tracked;
  }

  pub IsValid-delete_vehicle :
      (k : ℕ)
      → All (λ u. holds u.vehicle_id k ≡ false) users
      → All (λ p. (p.vehicle_id == k) ≡ false) points
      → All (λ l. (l.vehicle_id == k) ≡ false) locations
      → IsValid (record d { vehicles = delete_row vehicle_key k vehicles })
  IsValid-delete_vehicle k free no_points no_locations = record {
    schema = record {
      vehicles_ok = record {
        primary =
            Pairwise-filter IdDiffers (λ x. not (x.id == k)) vehicles v.schema.vehicles_ok.primary;
        uq_code =
            Pairwise-filter CodeDiffers (λ x. not (x.id == k)) vehicles
              v.schema.vehicles_ok.uq_code;
      };
      users_vehicle =
          AllRefer-delete_row vehicle_key its_vehicle users vehicles k free v.schema.users_vehicle;
      points_vehicle =
          AllRefer-delete_row vehicle_key of_point points vehicles k no_points
            v.schema.points_vehicle;
      locations_vehicle =
          AllRefer-delete_row vehicle_key of_location locations vehicles k no_locations
            v.schema.locations_vehicle;
      routes_ok = v.schema.routes_ok;
      users_ok = v.schema.users_ok;
      users_route = v.schema.users_route;
      points_primary = v.schema.points_primary;
      locations_primary = v.schema.locations_primary;
    };
    assigned = v.assigned;
    tracked = v.tracked;
  }
