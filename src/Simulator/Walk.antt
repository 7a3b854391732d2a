-- ===== src/Simulator/Walk.antt =====
-- `BusWalker` of simulator/walk.py. Distances are counted in 3600ths of a millimetre, so that a step,
-- which is a speed in millionths of a km/h times seconds, is their product; sums and comparisons are
-- exact, without the rounding of floats. The great-circle distance of two points is a parameter.
pub mod Path
use fleet_tracking_backend.Prelude.{
  ℕ, zero, suc, ◌+◌, ◌-◌, ◌*◌, Bool, true, false, Option, none, some, List, [], ◌∷◌, length, ltb,
  leb, if◌then◌else◌,
}
use fleet_tracking_backend.Prelude.Int.{ℤ, pos, negsuc}
use fleet_tracking_backend.Errors.{Result, ok, err, unexpected}
use fleet_tracking_backend.Store.{Waypoint}

-- +1 and -1.
pub data Direction : Type 0 where
  forward backward : Direction

pub record BusWalker : Type 0 where
  pub waypoints : List Waypoint
  pub distance : ℕ
  pub direction : Direction
  pub cumulative : List ℕ

-- A point of the polyline: a waypoint, or `a + (b - a) * t` with the ratio of two lengths for `t`, which
-- is 0 where the second length is.
pub data Position : Type 0 where
  at_waypoint : Waypoint → Position
  between : Waypoint → Waypoint → ℕ → ℕ → Position

-- `xs[i]`; none stands for the IndexError.
unfoldable pub get_elem? : {A : Type 0} → List A → ℕ → Option A
get_elem? [] i = none
get_elem? (x ∷ xs) zero = some x
get_elem? (x ∷ xs) (suc i) = get_elem? xs i

-- `xs[-1]`
unfoldable pub last? : {A : Type 0} → List A → Option A
last? [] = none
last? (x ∷ []) = some x
last? (x ∷ y ∷ xs) = last? (y ∷ xs)

-- `bisect_right` on a sorted list: how many entries are at most `x`.
unfoldable pub bisect_right : List ℕ → ℕ → ℕ
bisect_right [] x = 0
bisect_right (y ∷ ys) x = let rest = bisect_right ys x in if leb y x then suc rest else 0

min : ℕ → ℕ → ℕ
min a b = if leb a b then a else b

-- `_cumulative[-1]`; the list is never empty.
unfoldable pub total_of : List ℕ → ℕ
unfolding last?
total_of cumulative = elim (last? cumulative) [ none ↦ 0 | some total ↦ total ]

-- `total_m`
unfoldable pub total_m : BusWalker → ℕ
unfolding total_of
total_m w = total_of w.cumulative

-- The signed distance after a step, before it is clamped.
unfoldable pub stepped : Direction → ℕ → ℕ → ℤ
stepped forward distance step = pos (distance + step)
stepped backward distance step =
    if leb step distance then pos (distance - step) else negsuc (step - distance - 1)

-- The two tests of `advance`.
unfoldable pub clamped : ℕ → Direction → ℤ → ℕ × Direction
clamped total direction (pos distance) =
    if leb total distance
    then (total, backward)
    else (if leb distance 0 then (0, forward) else (distance, direction))
clamped total direction (negsuc n) = (0, forward)

-- `advance`: the speed in millionths of a km/h, the time in seconds.
unfoldable pub advance : BusWalker → ℕ → ℕ → BusWalker
unfolding total_m stepped clamped
advance w speed dt =
    let moved = clamped (total_m w) w.direction (stepped w.direction w.distance (speed * dt)) in
    record w { distance = moved.0; direction = moved.1 }

segment : Option ℕ → Option ℕ → Option Waypoint → Option Waypoint → ℕ → Option Position
segment (some start) (some stop) (some a) (some b) distance =
    some (between a b (distance - start) (stop - start))
segment none stop a b distance = none
segment (some start) none a b distance = none
segment (some start) (some stop) none b distance = none
segment (some start) (some stop) (some a) none distance = none

-- The index of the segment that the distance lies in.
unfoldable pub segment_index : List Waypoint → List ℕ → ℕ → ℕ
unfolding min bisect_right
segment_index waypoints cumulative distance =
    min (bisect_right cumulative distance - 1) (length waypoints - 2)

unfoldable pub segment_at : List Waypoint → List ℕ → ℕ → ℕ → Option Position
unfolding segment get_elem?
segment_at waypoints cumulative distance i =
    segment (get_elem? cumulative i) (get_elem? cumulative (suc i)) (get_elem? waypoints i)
      (get_elem? waypoints (suc i)) distance

unfoldable pub position_at : List Waypoint → List ℕ → ℕ → Option Position
unfolding total_of segment_at segment_index last?
position_at waypoints cumulative distance =
    if leb (total_of cumulative) distance
    then elim (last? waypoints) [ none ↦ none | some a ↦ some (at_waypoint a) ]
    else segment_at waypoints cumulative distance (segment_index waypoints cumulative distance)

unfoldable pub position : BusWalker → Option Position
unfolding position_at
position w = position_at w.waypoints w.cumulative w.distance

module _ (haversine : Waypoint → Waypoint → ℕ) where
  -- The running sums from one waypoint on.
  unfoldable pub sums : ℕ → Waypoint → List Waypoint → List ℕ
  sums total a [] = total ∷ []
  sums total a (b ∷ ws) = total ∷ sums (total + haversine a b) b ws

  -- `_cumulative`
  unfoldable pub cumulative_of : List Waypoint → List ℕ
  unfolding sums
  cumulative_of [] = 0 ∷ []
  cumulative_of (a ∷ ws) = sums 0 a ws

  -- `BusWalker(waypoints, distance_m=distance)` with `__post_init__`; the error is the ValueError.
  unfoldable pub new_walker : List Waypoint → ℕ → Result BusWalker
  unfolding cumulative_of
  new_walker waypoints distance =
      if ltb (length waypoints) 2
      then err unexpected
      else ok (record {
        waypoints = waypoints;
        distance = distance;
        direction = forward;
        cumulative = cumulative_of waypoints;
      })
