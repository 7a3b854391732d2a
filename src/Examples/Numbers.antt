-- ===== src/Examples/Numbers.antt =====
-- Concrete parts in place of the simulator's parameters: a rounding, and a codec of fixes.
use native.Mathlib.Nat.{le-div_iff_mul-le, div-le_of_le-mul, mul_comm}
use fleet_tracking_backend.Prelude.{
  ℕ, zero, suc, ◌+◌, ◌-◌, ◌*◌, ◌/◌, ◌≤◌, ◌<◌, ◌≡◌, refl, Bool, true, false, String, some, List, [],
  ◌∷◌, arith, leb, leb→le, if◌then◌else◌, ◌==str◌,
}
use fleet_tracking_backend.Prelude.Int.{ℤ, pos, negsuc, pos_part, neg_part, ◌≤ℤ◌}
use fleet_tracking_backend.Tracking.Status.{Datetime, aware, naive}
use fleet_tracking_backend.Mqtt.Payload.{GpsMessage, Decoder, Loaded, loaded, decode_error}
use fleet_tracking_backend.Simulator.Runner.{Rounding}
use fleet_tracking_backend.Simulator.Runner.Published.{Encoder}

-- Rounding towards zero.
abbrev pub negative : ℕ → ℤ
negative zero = pos zero
negative (suc n) = negsuc n

abbrev pub toward_zero : Bool → ℕ → ℕ → ℕ → ℤ
toward_zero true up down whole = pos ((up - down) / whole)
toward_zero false up down whole = negative ((down - up) / whole)

abbrev pub truncated : ℕ → ℕ → ℕ → ℤ
truncated up down whole = toward_zero (leb down up) up down whole

parts-negative : (n : ℕ) → (pos_part (negative n) ≡ 0) × (neg_part (negative n) ≡ n)
parts-negative zero = (refl, refl)
parts-negative (suc n) = (refl, refl)

pub toward_zero_low :
    (b : Bool) (up down whole : ℕ) (low : ℤ)
    → leb down up ≡ b
    → 0 < whole
    → pos_part low * whole + down ≤ up + neg_part low * whole
    → low ≤ℤ toward_zero b up down whole
toward_zero_low true up down whole (pos l) e p h =
    omega (arith, (le-div_iff_mul-le {k = whole} {x = l} {y = up - down} p).1 (omega (arith, h)))
toward_zero_low true up down whole (negsuc m) e p h = omega arith
toward_zero_low false up down whole (pos l) e p h =
    let below : down ≤ up = omega (arith, h) in let above : up < down = ground arith in omega arith
toward_zero_low false up down whole (negsuc m) e p h =
    let (a, b) = parts-negative ((down - up) / whole) in
    omega (
      arith,
      a,
      b,
      div-le_of_le-mul whole {m = down - up} {n = suc m} (omega (arith, h, mul_comm whole (suc m))),
    )

pub toward_zero_high :
    (b : Bool) (up down whole : ℕ) (high : ℤ)
    → leb down up ≡ b
    → 0 < whole
    → up + neg_part high * whole ≤ pos_part high * whole + down
    → toward_zero b up down whole ≤ℤ high
toward_zero_high true up down whole (pos n) e p h =
    omega
      (arith, div-le_of_le-mul whole {m = up - down} {n = n} (omega (arith, h, mul_comm whole n)))
toward_zero_high true up down whole (negsuc m) e p h =
    let below : down ≤ up = leb→le down up e in
    let most : whole ≤ suc m * whole = omega arith in omega (arith, h, most, p, below)
toward_zero_high false up down whole (pos n) e p h =
    let (a, b) = parts-negative ((down - up) / whole) in omega (arith, a, b)
toward_zero_high false up down whole (negsuc m) e p h =
    let (a, b) = parts-negative ((down - up) / whole) in
    omega (
      arith,
      a,
      b,
      (le-div_iff_mul-le {k = whole} {x = suc m} {y = down - up} p).1 (omega (arith, h)),
    )

pub tenth_high : (x n : ℕ) → x ≤ n * 100_000 → (x + 50_000) / 100_000 * 100_000 ≤ n * 100_000
tenth_high x n h = omega (arith, h)

abbrev pub towards_zero : Rounding
towards_zero = record {
  ratio = truncated;
  ratio_low = λ up down whole low. toward_zero_low (leb down up) up down whole low refl;
  ratio_high = λ up down whole high. toward_zero_high (leb down up) up down whole high refl;
  tenth = λ x. (x + 50_000) / 100_000 * 100_000;
  tenth_high = tenth_high;
}

-- A codec of fixes as lists of numbers.
abbrev signed : ℤ → List ℕ → List ℕ
signed (pos n) rest = 0 ∷ n ∷ rest
signed (negsuc n) rest = 1 ∷ n ∷ rest

abbrev zoned : Datetime → List ℕ
zoned (aware t l) = 0 ∷ t ∷ l ∷ []
zoned (naive t) = 1 ∷ t ∷ t ∷ []

abbrev pub put_fix : GpsMessage → List ℕ
put_fix m = m.vehicle_id ∷ m.speed ∷ signed m.lat (signed m.lng (zoned m.timestamp))

abbrev of_sign : ℕ → ℕ → ℤ
of_sign zero n = pos n
of_sign (suc k) n = negsuc n

abbrev of_zone : ℕ → ℕ → ℕ → Datetime
of_zone zero t l = aware t l
of_zone (suc k) t l = naive t

pub get_fix : List ℕ → Loaded GpsMessage
get_fix (id ∷ speed ∷ a ∷ lat ∷ b ∷ lng ∷ z ∷ t ∷ l ∷ rest) = loaded (record {
  vehicle_id = id;
  lat = of_sign a lat;
  lng = of_sign b lng;
  speed = speed;
  timestamp = of_zone z t l;
})
get_fix bytes = decode_error

pub get_fix-put_fix : (m : GpsMessage) → get_fix (put_fix m) ≡ loaded m
unfolding get_fix
get_fix-put_fix m = by_parts m.vehicle_id m.speed m.lat m.lng m.timestamp
  where
    by_parts :
        (id speed : ℕ) (lat lng : ℤ) (at : Datetime)
        → let m : GpsMessage = record {
          vehicle_id = id;
          lat = lat;
          lng = lng;
          speed = speed;
          timestamp = at;
        } in
          get_fix (put_fix m) ≡ loaded m
    by_parts id speed (pos a) (pos b) (aware t l) = refl
    by_parts id speed (pos a) (pos b) (naive t) = refl
    by_parts id speed (pos a) (negsuc b) (aware t l) = refl
    by_parts id speed (pos a) (negsuc b) (naive t) = refl
    by_parts id speed (negsuc a) (pos b) (aware t l) = refl
    by_parts id speed (negsuc a) (pos b) (naive t) = refl
    by_parts id speed (negsuc a) (negsuc b) (aware t l) = refl
    by_parts id speed (negsuc a) (negsuc b) (naive t) = refl

pub float_of : String → GpsMessage → ℤ
float_of name m =
    if name ==str "lat" then m.lat else (if name ==str "lng" then m.lng else pos m.speed)

abbrev pub numbers : Decoder
numbers = record {
  Json = GpsMessage;
  Object = GpsMessage;
  loads = get_fix;
  as_object = λ j. some j;
  int_field = λ name m. some (pos m.vehicle_id);
  float_field = λ name m. some (float_of name m);
  datetime_field = λ name m. some m.timestamp;
}

pub number_codec : Encoder numbers
unfolding float_of
number_codec = record {
  dumps = put_fix;
  loads-dumps = λ m. (m, m, get_fix-put_fix m, refl, refl, refl, refl, refl, refl);
}
