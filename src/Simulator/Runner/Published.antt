-- ===== src/Simulator/Runner/Published.antt =====
-- A run of the simulator from the database to what the subscriber makes of it.
use fleet_tracking_backend.Prelude.{
  ℕ, ◌≤◌, ◌<◌, ◌≡◌, refl, sym, subst, true, false, some, List, [], ◌∷◌, arith, All, All-map,
  All-Member, Member, ltb, leb→le, ◌≢◌, length,
}
use fleet_tracking_backend.Prelude.Int.{pos}
use fleet_tracking_backend.Errors.{ok}
use fleet_tracking_backend.Store.{Database, Waypoint, Vehicle, User}
use fleet_tracking_backend.Store.Session.{Session}
use fleet_tracking_backend.Mqtt.Topic.{
  Text, slash, parse_topic, topic_of, digit_count, decimal, max_digits,
}
use fleet_tracking_backend.Mqtt.Topic.RoundTrip.{parse_topic-topic_of}
use fleet_tracking_backend.Mqtt.Payload.{GpsMessage, Decoder, loaded, parse_payload}
use fleet_tracking_backend.Mqtt.Payload.Bounds.{parse_payload_accepts}
use fleet_tracking_backend.Api.Bodies.{waypoints_ok, between}
use fleet_tracking_backend.Api.Shape.{IsShapedRoute, all_in_range, and_true}
use fleet_tracking_backend.Simulator.Walk.{BusWalker, forward, new_walker, cumulative_of}
use fleet_tracking_backend.Simulator.Runner.{
  Assignment, Rounding, Draw, Start, Bus, start_bus, start_buses, load_assignments, run_simulator,
}
use fleet_tracking_backend.Simulator.Runner.Fixes.{each_in_range, IsSound, IsDrawn}
use fleet_tracking_backend.Simulator.Runner.Ticks.{IsBusOf, IsFixOf, run_ticks_lem}
use fleet_tracking_backend.Simulator.Runner.Loaded.{Describes, loaded-Describes}

-- `json.dumps` of a fix as the decoder reads it: the same number, the same coordinates and speed, and
-- the instant of the ISO time stamp.
pub record Encoder (c : Decoder) : Type 0 where
  pub dumps : GpsMessage → List ℕ
  pub loads-dumps :
      (m : GpsMessage)
      → (j : c.Json) × (o : c.Object) × (c.loads (dumps m) ≡ loaded j)
        × (c.as_object j ≡ some o)
        × (c.int_field "vehicle_id" o ≡ some (pos m.vehicle_id))
        × (c.float_field "lat" o ≡ some m.lat)
        × (c.float_field "lng" o ≡ some m.lng)
        × (c.float_field "speed" o ≡ some (pos m.speed))
        × (c.datetime_field "timestamp" o ≡ some m.timestamp)

-- A sound message is read back as it is.
sound_accepted :
    (c : Decoder) (e : Encoder c) (m : GpsMessage)
    → IsSound m
    → parse_payload c (e.dumps m) ≡ ok (some m)
sound_accepted c e m (positive, range, slow, zone) =
    let (j, o, l, a, id, lat, lng, speed, at) = e.loads-dumps m in
    (parse_payload_accepts c (e.dumps m) m).1 (
      j,
      o,
      l,
      a,
      (id, positive, lat, range.0, range.1, lng, range.2, range.3, speed, slow, at, zone),
    )

at_least_two : (ws : List Waypoint) → waypoints_ok ws ≡ true → 2 ≤ length ws
unfolding waypoints_ok between
at_least_two ws e = leb→le 2 (length ws) (and_true _ _ (and_true _ _ e).0).0

not_fewer : (n : ℕ) → 2 ≤ n → ltb n 2 ≡ false
not_fewer n h = ground arith

module _ (haversine : Waypoint → Waypoint → ℕ) (rounding : Rounding) (interval : ℕ) where
  started :
      (P : ℕ → Type 0) (start : Start) (a : Assignment)
      → start.base ≤ 42_000_000
      → 0 < a.vehicle_id
      → waypoints_ok a.waypoints ≡ true
      → P a.vehicle_id
      → (bus : Bus) × (start_bus haversine start a ≡ ok bus)
        × IsBusOf haversine rounding interval P bus
  unfolding start_bus new_walker
  started P start a slow numbered shaped p =
      let two : 2 ≤ length a.waypoints = at_least_two a.waypoints shaped in
      let enough : ltb (length a.waypoints) 2 ≡ false = not_fewer (length a.waypoints) two in
      let walker : BusWalker = record {
        waypoints = a.waypoints;
        distance = start.distance;
        direction = forward;
        cumulative = cumulative_of haversine a.waypoints;
      } in
      let bus : Bus = record { walker = walker; vehicle_id = a.vehicle_id; base = start.base } in
      (
        bus,
        rw enough refl,
        (
          record {
            walks = record { two = two; summed = refl };
            in_ranges = each_in_range a.waypoints (all_in_range a.waypoints shaped);
            slow = slow;
            numbered = numbered;
          },
          p,
        ),
      )

  -- An assignment that a bus can start from.
  abbrev pub IsReady : (ℕ → Type 0) → Assignment → Type 0
  IsReady P a = (0 < a.vehicle_id) × (waypoints_ok a.waypoints ≡ true) × P a.vehicle_id

  start_buses_lem :
      (P : ℕ → Type 0) (starts : ℕ → Start)
      → ((id : ℕ) → (starts id).base ≤ 42_000_000)
      → (rows : List Assignment) → All (IsReady P) rows
      → (buses : List Bus) × (start_buses haversine starts rows ≡ ok buses)
        × All (IsBusOf haversine rounding interval P) buses
  unfolding start_buses
  start_buses_lem P starts slow [] h = ([], refl, tt)
  start_buses_lem P starts slow (a ∷ rows) h =
      let (bus, e, good) =
        started P (starts a.vehicle_id) a (slow a.vehicle_id) h.0.0 h.0.1 h.0.2 in
      let (buses, f, goods) = start_buses_lem P starts slow rows h.1 in
      (bus ∷ buses, rw (e, f) refl, (good, goods))

  module _ (s : Session) (d : Database) (c : Decoder) (encoder : Encoder c) (prefix : Text) where
    -- A fix that the subscriber reads as it was sent, for a vehicle of the database.
    abbrev pub IsReadBack : GpsMessage → Type 0
    IsReadBack m =
        (parse_payload c (encoder.dumps m) ≡ ok (some m))
        × (parse_topic prefix (topic_of prefix m.vehicle_id) ≡ some m.vehicle_id)
        × ((v : Vehicle) × Member v d.vehicles × (v.id ≡ m.vehicle_id))

    abbrev HasNumber : ℕ → Type 0
    HasNumber id = (v : Vehicle) × Member v d.vehicles × (v.id ≡ id)

    abbrev pub IsNumbered : Vehicle → Type 0
    IsNumbered v = (0 < v.id) × (digit_count (decimal v.id) ≤ max_digits)

    rows-IsReady :
        All IsShapedRoute d.routes
        → All IsNumbered d.vehicles
        → All (IsReady HasNumber) (load_assignments s d)
    rows-IsReady shaped numbered =
        All-map (λ a. (u : User) × Member u d.users × Describes d u a) (IsReady HasNumber)
          (load_assignments s d)
          (λ a described.
            let (u, m, (o, (v, n, q), (r, k, z, w))) = described in
            (
              subst (λ id. 0 < id) q (All-Member IsNumbered d.vehicles v numbered n).0,
              subst (λ ws. waypoints_ok ws ≡ true) (sym w)
                  (All-Member IsShapedRoute d.routes r shaped k).1,
              (v, n, q),
            ))
          (loaded-Describes s d)

    -- Started on a database whose routes the API has accepted, the simulator publishes without an
    -- exception for any number of ticks and whatever it draws, and the subscriber reads every fix as it
    -- was sent: the payload is a valid message with the same values, and its topic names the vehicle,
    -- which is stored. The vehicles' numbers are from 1 up and not longer than int() converts, and the
    -- prefix has no slash.
    pub run_simulator-IsReadBack :
        (starts : ℕ → Start) (ticks : List (ℕ × (ℕ → Draw)))
        → All IsShapedRoute d.routes
        → All IsNumbered d.vehicles
        → All (λ x. x ≢ slash) prefix
        → ((id : ℕ) → (starts id).base ≤ 42_000_000)
        → All (λ t. (id : ℕ) → IsDrawn (t.1 id)) ticks
        → (buses : List Bus) × (fixes : List GpsMessage) × (run_simulator s haversine rounding
              interval d starts ticks
            ≡ ok (buses, fixes))
          × All IsReadBack fixes
    unfolding run_simulator
    run_simulator-IsReadBack starts ticks shaped numbered clean slow drawn =
        let (buses, e, goods) =
          start_buses_lem HasNumber starts slow (load_assignments s d)
            (rows-IsReady shaped numbered) in
        let (buses', fixes, f, goods', sounds) =
          run_ticks_lem haversine rounding interval HasNumber ticks drawn buses goods in
        (
          buses',
          fixes,
          rw e f,
          All-map (IsFixOf haversine rounding interval HasNumber) IsReadBack fixes
              (λ m sound.
                let (v, n, q) = sound.1 in
                let (positive, short) = All-Member IsNumbered d.vehicles v numbered n in
                (
                  sound_accepted c encoder m sound.0,
                  subst (λ id. parse_topic prefix (topic_of prefix id) ≡ some id) q
                      (parse_topic-topic_of prefix v.id clean positive short),
                  sound.1,
                ))
              sounds,
        )
