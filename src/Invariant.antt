-- ===== src/Invariant.antt =====
-- What holds of the database between requests: the declared constraints, the 1:1:1 assignment of
-- DESIGN_DECISIONS.md, and that the current location of a vehicle is its latest fix.
pub mod Routes
pub mod Vehicles
pub mod Users
pub mod Tracking
pub mod Commits
use fleet_tracking_backend.Prelude.{
  ℕ, ◌≤◌, ◌≡◌, ◌⊎◌, Bool, true, false, Option, none, some, List, [], ◌∷◌, All, Pairwise, HasKey,
  holds, is_some,
}
use fleet_tracking_backend.Store.{User, GpsPoint, VehicleCurrentLocation, Database, location_key}
use fleet_tracking_backend.Store.Schema.{Schema}

-- Two nullable columns hold one number.
abbrev pub shares : Option ℕ → Option ℕ → Bool
shares none b = false
shares (some k) b = holds b k

-- No route, and no vehicle, is assigned to both.
abbrev pub RouteApart : User → User → Type 0
RouteApart u v = shares u.route_id v.route_id ≡ false

abbrev pub VehicleApart : User → User → Type 0
VehicleApart u v = shares u.vehicle_id v.vehicle_id ≡ false

-- Both set, or both null.
abbrev pub IsPaired : User → Type 0
IsPaired u = is_some u.route_id ≡ is_some u.vehicle_id

-- The location is that of a fix of the history.
abbrev pub IsRecorded : VehicleCurrentLocation → List GpsPoint → Type 0
IsRecorded l [] = ⊥
IsRecorded l (p ∷ ps) =
    ((p.vehicle_id ≡ l.vehicle_id)
      × (p.lat ≡ l.lat)
      × (p.lng ≡ l.lng)
      × (p.speed ≡ l.speed)
      × (p.recorded_at ≡ l.recorded_at))
    ⊎ IsRecorded l ps

-- No fix of its vehicle is later.
abbrev pub IsNewest : VehicleCurrentLocation → List GpsPoint → Type 0
IsNewest l ps = All (λ p. p.vehicle_id ≡ l.vehicle_id → p.recorded_at ≤ l.recorded_at) ps

pub record IsAssigned (users : List User) : Type 0 where
  pub paired : All IsPaired users
  pub routes_apart : Pairwise RouteApart users
  pub vehicles_apart : Pairwise VehicleApart users

pub record IsTracked (points : List GpsPoint) (locations : List VehicleCurrentLocation)
    : Type 0 where
  pub recorded : All (λ l. IsRecorded l points) locations
  pub newest : All (λ l. IsNewest l points) locations
  pub located : All (λ p. HasKey location_key p.vehicle_id locations) points

pub record IsValid (d : Database) : Type 0 where
  pub schema : Schema d
  pub assigned : IsAssigned d.users
  pub tracked : IsTracked d.points d.locations
