-- ===== src/Invariant/Routes.antt =====
-- The invariant under each change of the table bus_routes.
use fleet_tracking_backend.Prelude.{
  ℕ, ◌≡◌, ◌≢◌, sym, false, Option, [], ◌∷◌, ◌++◌, All, All-map, put_row, delete_row, holds,
  Pairwise-append_one, Pairwise-put_row, Pairwise-filter, not, ◌==◌,
}
use fleet_tracking_backend.Store.{Database, BusRoute, User, route_key}
use fleet_tracking_backend.Store.Schema.{NameDiffers}
use fleet_tracking_backend.Store.References.{
  AllRefer-append_one, AllRefer-put_row, AllRefer-delete_row,
}
use fleet_tracking_backend.Invariant.{IsValid}

abbrev IdDiffers : BusRoute → BusRoute → Type 0
IdDiffers x y = x.id ≢ y.id

abbrev its_route : User → Option ℕ
its_route u = u.route_id

module _ (d : Database) (v : IsValid d) where
  open d use {routes, users}

  pub IsValid-add_route :
      (r : BusRoute)
      → All (λ x. x.id ≢ r.id) routes
      → All (λ x. x.name ≢ r.name) routes
      → IsValid (record d { routes = routes ++ r ∷ [] })
  IsValid-add_route r new_id new_name = record {
    schema = record {
      routes_ok = record {
        primary = Pairwise-append_one IdDiffers routes r v.schema.routes_ok.primary new_id;
        uq_name = Pairwise-append_one NameDiffers routes r v.schema.routes_ok.uq_name new_name;
      };
      users_route = AllRefer-append_one route_key its_route users routes r v.schema.users_route;
      vehicles_ok = v.schema.vehicles_ok;
      users_ok = v.schema.users_ok;
      users_vehicle = v.schema.users_vehicle;
      points_primary = v.schema.points_primary;
      points_vehicle = v.schema.points_vehicle;
      locations_primary = v.schema.locations_primary;
      locations_vehicle = v.schema.locations_vehicle;
    };
    assigned = v.assigned;
    tracked = v.tracked;
  }

  pub IsValid-put_route :
      (r : BusRoute)
      → All (λ x. x.id ≢ r.id → x.name ≢ r.name) routes
      → IsValid (record d { routes = put_row route_key r routes })
  IsValid-put_route r new_name = record {
    schema = record {
      routes_ok = record {
        primary =
            Pairwise-put_row route_key IdDiffers (λ x y ne e. ne (sym e)) r routes
              v.schema.routes_ok.primary v.schema.routes_ok.primary
              (All-map (λ x. x.id ≢ r.id → x.name ≢ r.name) (λ x. x.id ≢ r.id → x.id ≢ r.id) routes
                (λ x h ne. ne) new_name);
        uq_name =
            Pairwise-put_row route_key NameDiffers (λ x y ne e. ne (sym e)) r routes
              v.schema.routes_ok.primary v.schema.routes_ok.uq_name new_name;
      };
      users_route = AllRefer-put_row route_key its_route users routes r v.schema.users_route;
      vehicles_ok = v.schema.vehicles_ok;
      users_ok = v.schema.users_ok;
      users_vehicle = v.schema.users_vehicle;
      points_primary = v.schema.points_primary;
      points_vehicle = v.schema.points_vehicle;
      locations_primary = v.schema.locations_primary;
      locations_vehicle = v.schema.locations_vehicle;
    };
    assigned = v.assigned;
    tracked = v.tracked;
  }

  pub IsValid-delete_route :
      (k : ℕ)
      → All (λ u. holds u.route_id k ≡ false) users
      → IsValid (record d { routes = delete_row route_key k routes })
  IsValid-delete_route k free = record {
    schema = record {
      routes_ok = record {
        primary =
            Pairwise-filter IdDiffers (λ x. not (x.id == k)) routes v.schema.routes_ok.primary;
        uq_name =
            Pairwise-filter NameDiffers (λ x. not (x.id == k)) routes v.schema.routes_ok.uq_name;
      };
      users_route =
          AllRefer-delete_row route_key its_route users routes k free v.schema.users_route;
      vehicles_ok = v.schema.vehicles_ok;
      users_ok = v.schema.users_ok;
      users_vehicle = v.schema.users_vehicle;
      points_primary = v.schema.points_primary;
      points_vehicle = v.schema.points_vehicle;
      locations_primary = v.schema.locations_primary;
      locations_vehicle = v.schema.locations_vehicle;
    };
    assigned = v.assigned;
    tracked = v.tracked;
  }
