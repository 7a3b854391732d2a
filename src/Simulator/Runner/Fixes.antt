-- ===== src/Simulator/Runner/Fixes.antt =====
-- What the simulator publishes is a message that the subscriber accepts.
use native.Mathlib.Nat.{mul-le-mul_right}
use fleet_tracking_backend.Prelude.{
  ℕ, suc, ◌+◌, ◌-◌, ◌*◌, ◌≤◌, ◌<◌, ◌≡◌, refl, sym, ap, subst, inl, inr, true, false, some, List, [],
  ◌∷◌, ◌++◌, leb, arith, Bool-cases, All,
}
use fleet_tracking_backend.Prelude.Int.{ℤ, pos, negsuc, pos_part, neg_part, ◌≤ℤ◌}
use fleet_tracking_backend.Errors.{Result, ok}
use fleet_tracking_backend.Store.{Waypoint}
use fleet_tracking_backend.Tracking.Status.{aware}
use fleet_tracking_backend.Mqtt.Payload.{GpsMessage, max_lat, max_lng, max_speed}
use fleet_tracking_backend.Api.Responses.{in_range, all_of}
use fleet_tracking_backend.Api.Shape.{and_true}
use fleet_tracking_backend.Simulator.Walk.{Position, at_waypoint, between, advance, last?}
use fleet_tracking_backend.Simulator.Walk.Path.{IsWalker, OnPath, advance-position}
use fleet_tracking_backend.Simulator.Runner.{
  Rounding, Draw, jittered, next_speed, Bus, mean, coordinates, fix_at, located_fix, contract_ok,
  checked_fix, drive,
}

-- The ranges of a waypoint, as inequalities.
abbrev pub InRange : Waypoint → Type 0
InRange w =
    (negsuc 89_999_999 ≤ℤ w.lat)
    × (w.lat ≤ℤ pos max_lat)
    × (negsuc 179_999_999 ≤ℤ w.lng)
    × (w.lng ≤ℤ pos max_lng)

pub in_range-InRange : (w : Waypoint) → in_range w ≡ true → InRange w
unfolding in_range
in_range-InRange w e = (ground arith, ground arith, ground arith, ground arith)

-- A weighted sum of two inequalities.
weighted :
    (a b c d m q p w : ℕ)
    → a ≤ b + m
    → c ≤ d + m
    → q + p ≡ w
    → a * q + c * p ≤ b * q + d * p + m * w
weighted a b c d m q p w h k e =
    omega (arith, mul-le-mul_right q h, mul-le-mul_right p k, ap (◌*◌ m) e)

pub each_in_range : (ws : List Waypoint) → all_of in_range ws ≡ true → All InRange ws
unfolding all_of
each_in_range [] e = tt
each_in_range (w ∷ ws) e =
    let (first, rest) = and_true (in_range w) (all_of in_range ws) e in
    (in_range-InRange w first, each_in_range ws rest)

last_all :
    (P : Waypoint → Type 0) (ws : List Waypoint) (a : Waypoint) → All P ws → last? ws ≡ some a → P a
unfolding last?
last_all P [] a h e = cc
last_all P (w ∷ []) a h e = let same : w ≡ a = cc in subst P same h.0
last_all P (w ∷ v ∷ ws) a h e = last_all P (v ∷ ws) a h.1 e

All-segment :
    (P : Waypoint → Type 0) (front back : List Waypoint) (p q : Waypoint)
    → All P (front ++ p ∷ q ∷ back)
    → P p × P q
All-segment P [] back p q h = (h.0, h.1.0)
All-segment P (c ∷ front) back p q h = All-segment P front back p q h.1

-- What `GPSMessage` asks of a message.
abbrev pub IsSound : GpsMessage → Type 0
IsSound m =
    (0 < m.vehicle_id)
    × InRange (record { lat = m.lat; lng = m.lng })
    × (m.speed ≤ max_speed)
    × ((at clock : ℕ) × (m.timestamp ≡ aware at clock))

-- A sound message passes the simulator's own check.
contract_lem : (m : GpsMessage) → IsSound m → contract_ok m ≡ true
unfolding contract_ok in_range
contract_lem m (positive, (a, b, e, f), slow, zone) = ground arith

-- `uniform(-6.0, 6.0)` is at most 6.
abbrev pub IsDrawn : Draw → Type 0
IsDrawn draw = draw.jitter ≤ℤ pos 6_000_000

jittered_le : (base : ℕ) (z : ℤ) → z ≤ℤ pos 6_000_000 → jittered base z ≤ base + 6_000_000
unfolding jittered
jittered_le base (pos n) h = omega (arith, h)
jittered_le base (negsuc n) h = omega arith

next_speed_le : (base : ℕ) (draw : Draw) → IsDrawn draw → next_speed base draw ≤ base + 6_000_000
unfolding next_speed
next_speed_le base draw h = elim (Bool-cases draw.halts) [
  | inl e ↦ rw e (omega arith)
  | inr e ↦ rw e (jittered_le base draw.jitter h)
]

more_than : (whole part : ℕ) → part < whole → leb whole 0 ≡ false
more_than whole part k = ground arith

module _ (rounding : Rounding) where
  mean_low :
      (a b : ℤ) (n part whole : ℕ)
      → 0 < whole
      → part < whole
      → negsuc n ≤ℤ a
      → negsuc n ≤ℤ b
      → negsuc n ≤ℤ mean rounding a b part whole
  unfolding mean
  mean_low a b n part whole h k f g = rounding.ratio_low _ _ whole (negsuc n) h (
      omega (
        arith,
        weighted (neg_part a) (pos_part a) (neg_part b) (pos_part b) (suc n) (whole - part) part
            whole (omega (arith, f)) (omega (arith, g)) (omega (arith, k)),
      ))

  mean_high :
      (a b : ℤ) (n part whole : ℕ)
      → 0 < whole
      → part < whole
      → a ≤ℤ pos n
      → b ≤ℤ pos n
      → mean rounding a b part whole ≤ℤ pos n
  unfolding mean
  mean_high a b n part whole h k f g = rounding.ratio_high _ _ whole (pos n) h (
      omega (
        arith,
        weighted (pos_part a) (neg_part a) (pos_part b) (neg_part b) n (whole - part) part whole
            (omega (arith, f)) (omega (arith, g)) (omega (arith, k)),
      ))

  coordinates-InRange :
      (haversine : Waypoint → Waypoint → ℕ) (ws : List Waypoint) (x : ℕ) (p : Position)
      → All InRange ws
      → OnPath haversine ws x p
      → InRange (coordinates rounding p)
  unfolding coordinates
  coordinates-InRange haversine ws x (at_waypoint a) h (e, far) = last_all InRange ws a h e
  coordinates-InRange haversine ws x (between a b part whole) h (front, back, e, w, k, o) =
      let (f, g) = All-segment InRange front back a b (subst (All InRange) e h) in
      let more : leb whole 0 ≡ false = more_than whole part k in
      let some_length : 0 < whole = omega (arith, k) in
      rw more (
        mean_low a.lat b.lat 89_999_999 part whole some_length k f.0 g.0,
        mean_high a.lat b.lat max_lat part whole some_length k f.1 g.1,
        mean_low a.lng b.lng 179_999_999 part whole some_length k f.2 g.2,
        mean_high a.lng b.lng max_lng part whole some_length k f.3 g.3,
      )

  -- A speed of at most 48 km/h, rounded to a tenth.
  fast_enough :
      (base : ℕ) (draw : Draw)
      → base ≤ 42_000_000
      → IsDrawn draw
      → rounding.tenth (next_speed base draw) ≤ max_speed
  fast_enough base draw b h =
      let most = next_speed_le base draw h in
      omega (arith, rounding.tenth_high (next_speed base draw) 480 (omega (arith, most, b)))

  module _ (haversine : Waypoint → Waypoint → ℕ) where
    -- A bus as the simulator starts it on a route that the API has accepted.
    pub record IsBus (bus : Bus) : Type 0 where
      pub walks : IsWalker haversine bus.walker
      pub in_ranges : All InRange bus.walker.waypoints
      pub slow : bus.base ≤ 42_000_000
      pub numbered : 0 < bus.vehicle_id

    abbrev pub Drives : ℕ → Result (Bus × GpsMessage) → Type 0
    Drives id result =
        (bus : Bus) × (fix : GpsMessage) × (result ≡ ok (bus, fix))
        × IsBus bus
        × IsSound fix
        × (bus.vehicle_id ≡ id)
        × (fix.vehicle_id ≡ id)

    pub drive_lem :
        (interval now : ℕ) (bus : Bus) (draw : Draw)
        → IsBus bus
        → IsDrawn draw
        → Drives bus.vehicle_id (drive rounding interval now bus draw)
    unfolding drive located_fix fix_at checked_fix
    drive_lem interval now bus draw b h =
        let speed = next_speed bus.base draw in
        let walker = advance bus.walker speed interval in
        let (walks, same, short, near, (point, e, on)) =
          advance-position haversine bus.walker speed interval b.walks in
        let moved : Bus = record bus { walker = walker } in
        let fix = fix_at rounding moved speed now (coordinates rounding point) in
        let sound : IsSound fix = (
          b.numbered,
          coordinates-InRange haversine bus.walker.waypoints walker.distance point b.in_ranges on,
          fast_enough bus.base draw b.slow h,
          (now, now, refl),
        ) in
        (
          moved,
          fix,
          rw (e, contract_lem fix sound) refl,
          record {
            walks = walks;
            in_ranges = subst (All InRange) (sym same) b.in_ranges;
            slow = b.slow;
            numbered = b.numbered;
          },
          sound,
          refl,
          refl,
        )
