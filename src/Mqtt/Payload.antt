-- ===== src/Mqtt/Payload.antt =====
-- `GPSMessage` and `parse_payload` of app/mqtt/payload.py. `json.loads` and pydantic's conversions
-- are a parameter; the constraints that the model declares are definitions.
pub mod Bounds
use fleet_tracking_backend.Prelude.{
  ℕ, zero, suc, String, ◌&&◌, Option, none, some, List, if◌then◌else◌,
}
use fleet_tracking_backend.Prelude.Int.{ℤ, pos, negsuc, leb_ℤ}
use fleet_tracking_backend.Errors.{Result, ok, err, unexpected}
use fleet_tracking_backend.Tracking.Status.{Datetime, aware, naive}

-- A latitude, a longitude and a speed are counted in millionths.
pub record GpsMessage : Type 0 where
  pub vehicle_id : ℕ
  pub lat : ℤ
  pub lng : ℤ
  pub speed : ℕ
  pub timestamp : Datetime

-- How `json.loads` ends: a value; a UnicodeDecodeError or a JSONDecodeError; any other exception.
pub data Loaded (Json : Type 0) : Type 0 where
  loaded : Json → Loaded Json
  decode_error : Loaded Json
  other_error : Loaded Json

pub record Decoder : Type 1 where
  pub Json : Type 0
  pub Object : Type 0
  pub loads : List ℕ → Loaded Json
  -- `isinstance(data, dict)`
  pub as_object : Json → Option Object
  -- The value of a key, converted to the annotated type; none where the key is missing or the
  -- conversion fails.
  pub int_field : String → Object → Option ℤ
  pub float_field : String → Object → Option ℤ
  pub datetime_field : String → Object → Option Datetime

infixl 5 ◌>>=◌
abbrev ◌>>=◌ : {A B : Type 0} → Option A → (A → Option B) → Option B
none >>= f = none
some a >>= f = f a

-- A natural number from an integer that has passed `ge=0`.
natural : ℤ → Option ℕ
natural (pos n) = some n
natural (negsuc n) = none

-- `Field(ge=low, le=high)`
within : ℤ → ℤ → ℤ → Option ℤ
within low high x = if leb_ℤ low x && leb_ℤ x high then some x else none

-- `Field(ge=1)`
positive : ℤ → Option ℕ
positive (negsuc n) = none
positive (pos zero) = none
positive (pos (suc n)) = some (suc n)

-- `_must_be_timezone_aware`
timezone_aware : Datetime → Option Datetime
timezone_aware (aware instant clock) = some (aware instant clock)
timezone_aware (naive t) = none

abbrev pub max_lat : ℕ
max_lat = 90_000_000

abbrev pub max_lng : ℕ
max_lng = 180_000_000

abbrev pub max_speed : ℕ
max_speed = 300_000_000

module _ (c : Decoder) where
  -- `GPSMessage.model_validate`; none stands for the ValidationError.
  unfoldable pub model_validate : c.Object → Option GpsMessage
  unfolding positive within natural timezone_aware
  model_validate o = do
    id ← c.int_field "vehicle_id" o
    id ← positive id
    lat ← c.float_field "lat" o
    lat ← within (negsuc 89_999_999) (pos max_lat) lat
    lng ← c.float_field "lng" o
    lng ← within (negsuc 179_999_999) (pos max_lng) lng
    speed ← c.float_field "speed" o
    speed ← within (pos 0) (pos max_speed) speed
    speed ← natural speed
    at ← c.datetime_field "timestamp" o
    at ← timezone_aware at
    some (record { vehicle_id = id; lat = lat; lng = lng; speed = speed; timestamp = at })

  validate_object : Option c.Object → Option GpsMessage
  validate_object none = none
  validate_object (some o) = model_validate o

  unfoldable pub validate_loaded : Loaded c.Json → Result (Option GpsMessage)
  unfolding validate_object
  validate_loaded (loaded j) = ok (validate_object (c.as_object j))
  validate_loaded decode_error = ok none
  validate_loaded other_error = err unexpected

  -- None where the payload is discarded; an exception of `json.loads` that is not one of the two
  -- caught ones passes through.
  unfoldable pub parse_payload : List ℕ → Result (Option GpsMessage)
  unfolding validate_loaded
  parse_payload payload = validate_loaded (c.loads payload)
