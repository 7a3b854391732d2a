-- ===== src/Simulator/Runner.antt =====
-- simulator/runner.py: the assignments that a run starts from, and the fixes that its ticks publish.
-- What `random` draws is an argument. Speeds are counted in millionths of a km/h, coordinates in
-- millionths of a degree; a stop of the loop is the end of the list of ticks.
pub mod Fixes
pub mod Loaded
pub mod Ticks
pub mod Published
use fleet_tracking_backend.Prelude.{
  ℕ, suc, ◌+◌, ◌-◌, ◌*◌, ◌≤◌, ◌<◌, Bool, true, false, ◌&&◌, Option, none, some, List, [], ◌∷◌, ◌++◌,
  concat_map, is_some, leb, if◌then◌else◌,
}
use fleet_tracking_backend.Prelude.Int.{ℤ, pos, negsuc, pos_part, neg_part, ◌≤ℤ◌}
use fleet_tracking_backend.Errors.{Result, ok, err, unexpected, ◌>>=◌}
use fleet_tracking_backend.Store.{
  Database, Waypoint, BusRoute, Vehicle, User, route_key, vehicle_key,
}
use fleet_tracking_backend.Store.Session.{Session, get}
use fleet_tracking_backend.Tracking.Status.{utc}
use fleet_tracking_backend.Mqtt.Payload.{GpsMessage, max_speed}
use fleet_tracking_backend.Api.Responses.{in_range}
use fleet_tracking_backend.Simulator.Walk.{
  BusWalker, Position, at_waypoint, between, advance, position, new_walker,
}

-- A row of the join, without the user's number, which keeps the rows of DISTINCT apart.
pub record Assignment : Type 0 where
  pub vehicle_id : ℕ
  pub waypoints : List Waypoint

-- The rows that the inner joins make of one user.
unfoldable pub joined : Option Vehicle → Option BusRoute → List Assignment
joined (some v) (some r) = record { vehicle_id = v.id; waypoints = r.waypoints } ∷ []
joined (some v) none = []
joined none r = []

unfoldable pub is_assigned : User → Bool
is_assigned u = is_some u.route_id && is_some u.vehicle_id

module _ (s : Session) (d : Database) where
  -- The row that a foreign key names.
  unfoldable pub vehicle_row : Option ℕ → Option Vehicle
  vehicle_row none = none
  vehicle_row (some id) = get s vehicle_key id d.vehicles

  unfoldable pub route_row : Option ℕ → Option BusRoute
  route_row none = none
  route_row (some id) = get s route_key id d.routes

  unfoldable pub join_user : User → List Assignment
  unfolding joined vehicle_row route_row
  join_user u = joined (vehicle_row u.vehicle_id) (route_row u.route_id)

  -- `_load_assignments`
  unfoldable pub load_assignments : List Assignment
  unfolding is_assigned join_user
  load_assignments = concat_map join_user (s.select is_assigned d.users)

-- `round`, of a ratio of a difference to a positive number, to a whole millionth; and of a speed to a
-- tenth of a km/h. Rounding does not cross a number that needs none.
pub record Rounding : Type 0 where
  pub ratio : ℕ → ℕ → ℕ → ℤ
  pub ratio_low :
      (up down whole : ℕ) (low : ℤ)
      → 0 < whole
      → pos_part low * whole + down ≤ up + neg_part low * whole
      → low ≤ℤ ratio up down whole
  pub ratio_high :
      (up down whole : ℕ) (high : ℤ)
      → 0 < whole
      → up + neg_part high * whole ≤ pos_part high * whole + down
      → ratio up down whole ≤ℤ high
  pub tenth : ℕ → ℕ
  pub tenth_high : (x n : ℕ) → x ≤ n * 100_000 → tenth x ≤ n * 100_000

-- What one tick draws for one bus: whether it waits at a stop, and the jitter of its speed.
pub record Draw : Type 0 where
  pub halts : Bool
  pub jitter : ℤ

-- `max(0.0, base + jitter)`
jittered : ℕ → ℤ → ℕ
jittered base (pos n) = base + n
jittered base (negsuc n) = base - suc n

-- `_next_speed`
unfoldable pub next_speed : ℕ → Draw → ℕ
unfolding jittered
next_speed base draw = if draw.halts then 0 else jittered base draw.jitter

-- A walker with the number of its vehicle and its cruising speed.
pub record Bus : Type 0 where
  pub walker : BusWalker
  pub vehicle_id : ℕ
  pub base : ℕ

-- What a start draws for one vehicle: where its bus begins, and its cruising speed.
pub record Start : Type 0 where
  pub distance : ℕ
  pub base : ℕ

module _ (haversine : Waypoint → Waypoint → ℕ) where
  unfoldable pub start_bus : Start → Assignment → Result Bus
  start_bus start a = do
    walker ← new_walker haversine a.waypoints start.distance
    ok (record { walker = walker; vehicle_id = a.vehicle_id; base = start.base })

  -- The walkers and the cruising speeds, by the number of the vehicle.
  unfoldable pub start_buses : (ℕ → Start) → List Assignment → Result (List Bus)
  unfolding start_bus
  start_buses starts [] = ok []
  start_buses starts (a ∷ rest) = do
    bus ← start_bus (starts a.vehicle_id) a
    buses ← start_buses starts rest
    ok (bus ∷ buses)

-- `GPSMessage(**fix)`: the constraints on a fix whose time stamp has a time zone.
unfoldable pub contract_ok : GpsMessage → Bool
contract_ok fix =
    leb 1 fix.vehicle_id
    && (in_range (record { lat = fix.lat; lng = fix.lng }) && leb fix.speed max_speed)

-- The fix, unless the contract check raises a ValidationError.
unfoldable pub checked_fix : Bus → GpsMessage → Result (Bus × GpsMessage)
unfolding contract_ok
checked_fix bus fix = if contract_ok fix then ok (bus, fix) else err unexpected

module _ (rounding : Rounding) where
  -- `a + (b - a) * part / whole`, rounded; a weighted mean of the two.
  unfoldable pub mean : ℤ → ℤ → ℕ → ℕ → ℤ
  mean a b part whole =
      rounding.ratio (pos_part a * (whole - part) + pos_part b * part)
        (neg_part a * (whole - part) + neg_part b * part) whole

  -- The rounded latitude and longitude; a waypoint is given in whole millionths.
  unfoldable pub coordinates : Position → Waypoint
  unfolding mean
  coordinates (at_waypoint a) = a
  coordinates (between a b part whole) =
      if leb whole 0
      then a
      else record { lat = mean a.lat b.lat part whole; lng = mean a.lng b.lng part whole }

  fix_at : Bus → ℕ → ℕ → Waypoint → GpsMessage
  fix_at bus speed now point = record {
    vehicle_id = bus.vehicle_id;
    lat = point.lat;
    lng = point.lng;
    speed = rounding.tenth speed;
    timestamp = utc now;
  }

  located_fix : Bus → ℕ → ℕ → Option Position → Result (Bus × GpsMessage)
  unfolding coordinates fix_at checked_fix
  located_fix bus speed now none = err unexpected
  located_fix bus speed now (some point) =
      checked_fix bus (fix_at bus speed now (coordinates point))

  -- One bus in one tick: the bus after it, and the fix.
  unfoldable pub drive : ℕ → ℕ → Bus → Draw → Result (Bus × GpsMessage)
  unfolding next_speed located_fix
  drive interval now bus draw =
      let speed = next_speed bus.base draw in
      let moved = record bus { walker = advance bus.walker speed interval } in
      located_fix moved speed now (position moved.walker)

  unfoldable pub tick : ℕ → ℕ → (ℕ → Draw) → List Bus → Result (List Bus × List GpsMessage)
  unfolding drive
  tick interval now draws [] = ok ([], [])
  tick interval now draws (bus ∷ buses) = do
    (bus, fix) ← drive interval now bus (draws bus.vehicle_id)
    (buses, fixes) ← tick interval now draws buses
    ok (bus ∷ buses, fix ∷ fixes)

  -- The inner loop: what each tick reads from the clock and draws for each vehicle is given.
  unfoldable pub run_ticks :
      ℕ → List (ℕ × (ℕ → Draw)) → List Bus → Result (List Bus × List GpsMessage)
  unfolding tick
  run_ticks interval [] buses = ok (buses, [])
  run_ticks interval ((now, draws) ∷ ticks) buses = do
    (buses, fixes) ← tick interval now draws buses
    (buses, more) ← run_ticks interval ticks buses
    ok (buses, fixes ++ more)

-- `run_simulator`, up to the end of its ticks: with no assignment nothing is published.
unfoldable pub run_simulator :
    Session
    → (Waypoint → Waypoint → ℕ)
    → Rounding
    → ℕ
    → Database
    → (ℕ → Start)
    → List (ℕ × (ℕ → Draw))
    → Result (List Bus × List GpsMessage)
unfolding load_assignments start_buses run_ticks
run_simulator s haversine rounding interval d starts ticks = do
  buses ← start_buses haversine starts (load_assignments s d)
  run_ticks rounding interval ticks buses
