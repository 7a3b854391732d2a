-- ===== src/Mqtt/Handler.antt =====
-- app/mqtt/handler.py: a valid fix goes to the history and, if it is the latest one, to the current
-- location.
pub mod Outcomes
pub mod Latest
use fleet_tracking_backend.Prelude.{
  ℕ, Bool, true, false, Option, none, some, List, [], ◌∷◌, ◌++◌, ltb, leb, ◌==◌, ◌&&◌, ◌||◌,
  if◌then◌else◌, put_row, head?,
}
use fleet_tracking_backend.Errors.{Result, ok, err, ◌>>=◌}
use fleet_tracking_backend.Store.{
  Database, Vehicle, GpsPoint, VehicleCurrentLocation, Assigned, vehicle_key, location_key,
}
use fleet_tracking_backend.Store.Session.{Session, get, commit}
use fleet_tracking_backend.Tracking.Status.{as_utc}
use fleet_tracking_backend.Mqtt.Payload.{GpsMessage}

-- The table of current locations after the fix; `current` is the vehicle's row so far.
unfoldable pub moved :
    List VehicleCurrentLocation
    → Option VehicleCurrentLocation
    → VehicleCurrentLocation
    → List VehicleCurrentLocation
moved locations none l = locations ++ l ∷ []
moved locations (some current) l =
    if ltb current.recorded_at l.recorded_at then put_row location_key l locations else locations

-- ORDER BY recorded_at DESC, id DESC
unfoldable pub newest_first : GpsPoint → GpsPoint → Bool
newest_first p q =
    ltb q.recorded_at p.recorded_at || (q.recorded_at == p.recorded_at && leb q.id p.id)

module _ (s : Session) where
  unfoldable pub new_point : GpsMessage → Assigned → GpsPoint
  new_point m a = record {
    id = a.id;
    vehicle_id = m.vehicle_id;
    lat = m.lat;
    lng = m.lng;
    speed = s.to_hundredths m.speed;
    recorded_at = as_utc m.timestamp;
    created_at = a.now;
  }

  unfoldable pub new_location : GpsMessage → Assigned → VehicleCurrentLocation
  new_location m a = record {
    vehicle_id = m.vehicle_id;
    lat = m.lat;
    lng = m.lng;
    speed = s.to_hundredths m.speed;
    recorded_at = as_utc m.timestamp;
    updated_at = a.now;
  }

  store_fix : Database → Assigned → GpsMessage → Result (Bool × Database)
  unfolding new_point new_location moved
  store_fix d a m = do
    let current = get s location_key m.vehicle_id d.locations
    d' ← commit s (record d {
      points = d.points ++ new_point m a ∷ [];
      locations = moved d.locations current (new_location m a);
    })
    ok (true, d')

  for_vehicle : Database → Assigned → GpsMessage → Option Vehicle → Result (Bool × Database)
  unfolding store_fix
  for_vehicle d a m none = ok (false, d)
  for_vehicle d a m (some vehicle) = if vehicle.is_active then store_fix d a m else ok (false, d)

  -- True when the fix is stored, false when it is discarded.
  unfoldable pub handle_gps_message : Database → Assigned → GpsMessage → Result (Bool × Database)
  unfolding for_vehicle
  handle_gps_message d a m = for_vehicle d a m (get s vehicle_key m.vehicle_id d.vehicles)

  unfoldable pub latest_fix : Database → ℕ → Option GpsPoint
  unfolding newest_first
  latest_fix d id = head? (s.order_by newest_first (s.select (λ p. p.vehicle_id == id) d.points))
