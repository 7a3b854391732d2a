-- ===== src/Tracking/Me.antt =====
-- The reads of app/services/tracking_service.py, which app/api/v1/me.py answers with: each one takes
-- the vehicle and the route from the caller's own row.
pub mod Isolation
pub mod Assigned
pub mod Window
pub mod History
use fleet_tracking_backend.Prelude.{
  ℕ, ◌+◌, ◌-◌, String, Bool, true, false, not, ◌&&◌, ◌||◌, Option, none, some, List, [], ◌∷◌, map,
  take, drop, ltb, leb, ◌==◌, if◌then◌else◌, is_some,
}
use fleet_tracking_backend.Prelude.Int.{ℤ}
use fleet_tracking_backend.Errors.{
  AppError, Part, lit, no_assignment_error, Result, ok, err, ◌>>=◌, ◌>>◌, raise, raise_if,
  overflow_error,
}
use fleet_tracking_backend.Store.{
  Database, BusRoute, Vehicle, User, GpsPoint, VehicleCurrentLocation, Waypoint, route_key,
  vehicle_key, location_key,
}
use fleet_tracking_backend.Store.Session.{Session, get, count}
use fleet_tracking_backend.Tracking.Status.{
  Datetime, aware, naive, utc, as_utc, derive_status, VehicleLiveOut,
}

pub record RouteSummary : Type 0 where
  pub id : ℕ
  pub name : String

pub record VehicleSummary : Type 0 where
  pub id : ℕ
  pub code : String
  pub name : String

pub record AssignmentOut : Type 0 where
  pub route : Option RouteSummary
  pub vehicle : Option VehicleSummary

pub record RoutePolylineOut : Type 0 where
  pub id : ℕ
  pub name : String
  pub waypoints : List Waypoint

pub record HistoryPointOut : Type 0 where
  pub lat : ℤ
  pub lng : ℤ
  pub speed : ℕ
  pub recorded_at : ℕ

pub record HistoryOut : Type 0 where
  pub vehicle_id : ℕ
  pub count : ℕ
  pub points : List HistoryPointOut

pub record HistoryParams : Type 0 where
  pub date_from : Option Datetime
  pub date_to : Option Datetime
  pub limit : ℕ
  pub offset : ℕ

-- `DEFAULT_HISTORY_WINDOW`, in microseconds.
abbrev pub default_history_window : ℕ
default_history_window = 86_400_000_000

unfoldable pub no_assignment : String → AppError
no_assignment message = record {
  class = no_assignment_error;
  message = lit message ∷ [];
  override = none;
}

abbrev pub no_route : AppError
no_route = no_assignment "No route assigned yet - contact your fleet administrator"

abbrev pub no_vehicle : AppError
no_vehicle = no_assignment "No vehicle assigned yet - contact your fleet administrator"

unfoldable pub require_assignment : User → Result (Unit {0})
require_assignment user =
    raise_if (not (is_some user.route_id) && not (is_some user.vehicle_id))
      (no_assignment "No route/vehicle assigned yet - contact your fleet administrator")

unfoldable pub summary_of_route : BusRoute → RouteSummary
summary_of_route r = record { id = r.id; name = r.name }

unfoldable pub summary_of_vehicle : Vehicle → VehicleSummary
summary_of_vehicle v = record { id = v.id; code = v.code; name = v.name }

unfoldable pub polyline_of : BusRoute → RoutePolylineOut
polyline_of r = record { id = r.id; name = r.name; waypoints = r.waypoints }

unfoldable pub point_out : GpsPoint → HistoryPointOut
point_out p = record { lat = p.lat; lng = p.lng; speed = p.speed; recorded_at = p.recorded_at }

map_option : {A B : Type 0} → (A → B) → Option A → Option B
map_option f none = none
map_option f (some a) = some (f a)

-- The conditions of the history query.
unfoldable pub in_window : ℕ → ℕ → ℕ → GpsPoint → Bool
in_window vehicle from to p =
    p.vehicle_id == vehicle && (leb from p.recorded_at && leb p.recorded_at to)

-- ORDER BY recorded_at ASC, id ASC
unfoldable pub oldest_first : GpsPoint → GpsPoint → Bool
oldest_first p q =
    ltb p.recorded_at q.recorded_at || (p.recorded_at == q.recorded_at && leb p.id q.id)

-- `date_to - DEFAULT_HISTORY_WINDOW`, counted on the local clock, is no datetime where it would lie
-- before the first one; nor has it an instant that the query could be given where that lies before.
window_start : Datetime → Result Datetime
window_start (aware instant clock) =
    if ltb clock default_history_window || ltb instant default_history_window
    then err overflow_error
    else ok (aware (instant - default_history_window) (clock - default_history_window))
window_start (naive t) =
    if ltb t default_history_window
    then err overflow_error
    else ok (naive (t - default_history_window))

end_of : ℕ → Option Datetime → Datetime
end_of now none = utc now
end_of now (some t) = t

start_of : Datetime → Option Datetime → Result Datetime
unfolding window_start
start_of to none = window_start to
start_of to (some t) = ok t

-- The window that a request asks for, as instants.
unfoldable pub window : ℕ → HistoryParams → Result (ℕ × ℕ)
unfolding end_of start_of
window now params = do
  let to = end_of now params.date_to
  from ← start_of to params.date_from
  ok (as_utc from, as_utc to)

found_route : Option BusRoute → Result RoutePolylineOut
found_route none = raise (no_assignment "Assigned route no longer exists")
found_route (some r) = ok (polyline_of r)

-- The live row; nulls where no fix has been received.
unfoldable pub live : ℕ → Vehicle → Option VehicleCurrentLocation → VehicleLiveOut
live now v none = record {
  vehicle_id = v.id;
  vehicle_code = v.code;
  lat = none;
  lng = none;
  speed = none;
  recorded_at = none;
  status = derive_status none none now;
}
live now v (some l) = record {
  vehicle_id = v.id;
  vehicle_code = v.code;
  lat = some l.lat;
  lng = some l.lng;
  speed = some l.speed;
  recorded_at = some l.recorded_at;
  status = derive_status (some (utc l.recorded_at)) (some l.speed) now;
}

module _ (s : Session) where
  -- `await db.get(Row, key) if key else None`: no row is read for a NULL or a 0.
  related : {Row : Type 0} → (Row → ℕ) → Option ℕ → List Row → Option Row
  related key none rows = none
  related key (some k) rows = if k == 0 then none else get s key k rows

  unfoldable pub get_assignment : Database → User → Result AssignmentOut
  unfolding require_assignment related map_option
  get_assignment d user = do
    require_assignment user
    ok (record {
      route = map_option summary_of_route (related route_key user.route_id d.routes);
      vehicle = map_option summary_of_vehicle (related vehicle_key user.vehicle_id d.vehicles);
    })

  polyline_for : Database → Option ℕ → Result RoutePolylineOut
  unfolding found_route
  polyline_for d none = raise no_route
  polyline_for d (some id) = found_route (get s route_key id d.routes)

  unfoldable pub get_route_polyline : Database → User → Result RoutePolylineOut
  unfolding polyline_for
  get_route_polyline d user = polyline_for d user.route_id

  unfoldable pub found_vehicle : Database → ℕ → ℕ → Option Vehicle → Result VehicleLiveOut
  unfolding live
  found_vehicle d now id none = raise (no_assignment "Assigned vehicle no longer exists")
  found_vehicle d now id (some v) = ok (live now v (get s location_key id d.locations))

  unfoldable pub live_for : Database → ℕ → Option ℕ → Result VehicleLiveOut
  unfolding found_vehicle
  live_for d now none = raise no_vehicle
  live_for d now (some id) = found_vehicle d now id (get s vehicle_key id d.vehicles)

  unfoldable pub get_current_location : Database → ℕ → User → Result VehicleLiveOut
  unfolding live_for
  get_current_location d now user = live_for d now user.vehicle_id

  -- The rows of one page of the history.
  unfoldable pub page : Database → ℕ → ℕ × ℕ → ℕ → ℕ → List GpsPoint
  page d vehicle (from, to) limit offset =
      take limit
        (drop offset (s.order_by oldest_first (s.select (in_window vehicle from to) d.points)))

  history_for : Database → ℕ → HistoryParams → Option ℕ → Result HistoryOut
  unfolding page
  history_for d now params none = raise no_vehicle
  history_for d now params (some vehicle) = do
    (from, to) ← window now params
    ok (record {
      vehicle_id = vehicle;
      count = count s (in_window vehicle from to) d.points;
      points = map point_out (page d vehicle (from, to) params.limit params.offset);
    })

  unfoldable pub get_history : Database → ℕ → User → HistoryParams → Result HistoryOut
  unfolding history_for
  get_history d now user params = history_for d now params user.vehicle_id
