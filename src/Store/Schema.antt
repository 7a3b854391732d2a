-- ===== src/Store/Schema.antt =====
-- The constraints that the models and the migration declare: primary keys, unique columns and
-- foreign keys.
use fleet_tracking_backend.Prelude.{ℕ, ◌≢◌, Option, none, some, List, All, Pairwise, Unique, HasKey}
use fleet_tracking_backend.Store.{
  BusRoute, Vehicle, User, Database, route_key, vehicle_key, user_key, point_key, location_key,
}

-- Unique columns.
abbrev pub NameDiffers : BusRoute → BusRoute → Type 0
NameDiffers x y = x.name ≢ y.name

abbrev pub CodeDiffers : Vehicle → Vehicle → Type 0
CodeDiffers x y = x.code ≢ y.code

abbrev pub EmailDiffers : User → User → Type 0
EmailDiffers x y = x.email ≢ y.email

-- A nullable foreign key refers to a row, or is NULL.
abbrev pub Refers : {A : Type 0} → (A → ℕ) → Option ℕ → List A → Type 0
Refers key none rows = Unit
Refers key (some k) rows = HasKey key k rows

-- bus_routes
pub record RoutesOk (rows : List BusRoute) : Type 0 where
  pub primary : Unique route_key rows
  pub uq_name : Pairwise NameDiffers rows

-- vehicles
pub record VehiclesOk (rows : List Vehicle) : Type 0 where
  pub primary : Unique vehicle_key rows
  pub uq_code : Pairwise CodeDiffers rows

-- users
pub record UsersOk (rows : List User) : Type 0 where
  pub primary : Unique user_key rows
  pub uq_email : Pairwise EmailDiffers rows

pub record Schema (d : Database) : Type 0 where
  pub routes_ok : RoutesOk d.routes
  pub vehicles_ok : VehiclesOk d.vehicles
  pub users_ok : UsersOk d.users
  pub users_route : All (λ u. Refers route_key u.route_id d.routes) d.users
  pub users_vehicle : All (λ u. Refers vehicle_key u.vehicle_id d.vehicles) d.users
  pub points_primary : Unique point_key d.points
  pub points_vehicle : All (λ p. HasKey vehicle_key p.vehicle_id d.vehicles) d.points
  pub locations_primary : Unique location_key d.locations
  pub locations_vehicle : All (λ l. HasKey vehicle_key l.vehicle_id d.vehicles) d.locations
