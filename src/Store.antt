-- ===== src/Store.antt =====
-- app/models/*.py: the five tables as lists of rows, and the database as the five tables.
-- A latitude or longitude is counted in millionths of a degree, the scale of its column
-- Numeric(9, 6); a stored speed in hundredths of a km/h, the scale of Numeric(6, 2); an instant in
-- microseconds, the resolution of a timestamp. A text column holds a text and no NULL.
pub mod Schema
pub mod References
pub mod Session
pub mod Query
pub mod Lookup
use fleet_tracking_backend.Prelude.{ℕ, String, Bool, Option, List}
use fleet_tracking_backend.Prelude.Int.{ℤ}

pub record Waypoint : Type 0 where
  pub lat : ℤ
  pub lng : ℤ

pub record BusRoute : Type 0 where
  pub id : ℕ
  pub name : String
  pub waypoints : List Waypoint
  pub created_at : ℕ

pub record Vehicle : Type 0 where
  pub id : ℕ
  pub code : String
  pub name : String
  pub is_active : Bool
  pub created_at : ℕ

pub record User : Type 0 where
  pub id : ℕ
  pub email : String
  pub hashed_password : String
  pub is_admin : Bool
  pub route_id : Option ℕ
  pub vehicle_id : Option ℕ
  pub created_at : ℕ

pub record GpsPoint : Type 0 where
  pub id : ℕ
  pub vehicle_id : ℕ
  pub lat : ℤ
  pub lng : ℤ
  pub speed : ℕ
  pub recorded_at : ℕ
  pub created_at : ℕ

pub record VehicleCurrentLocation : Type 0 where
  pub vehicle_id : ℕ
  pub lat : ℤ
  pub lng : ℤ
  pub speed : ℕ
  pub recorded_at : ℕ
  pub updated_at : ℕ

pub record Database : Type 0 where
  pub routes : List BusRoute
  pub vehicles : List Vehicle
  pub users : List User
  pub points : List GpsPoint
  pub locations : List VehicleCurrentLocation

-- The primary keys.
abbrev pub route_key : BusRoute → ℕ
route_key r = r.id

abbrev pub vehicle_key : Vehicle → ℕ
vehicle_key v = v.id

abbrev pub user_key : User → ℕ
user_key u = u.id

abbrev pub point_key : GpsPoint → ℕ
point_key p = p.id

abbrev pub location_key : VehicleCurrentLocation → ℕ
location_key l = l.vehicle_id

-- What the server fills into a new row: the next number of the sequence, and `now()`.
pub record Assigned : Type 0 where
  pub id : ℕ
  pub now : ℕ
