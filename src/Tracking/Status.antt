-- ===== src/Tracking/Status.antt =====
-- `derive_status` and its constants, and the row of a live location.
use fleet_tracking_backend.Prelude.{ℕ, ◌+◌, String, Option, none, some, Bool, ltb, if◌then◌else◌}
use fleet_tracking_backend.Prelude.Int.{ℤ}

pub data Status : Type 0 where
  moving idle offline : Status

-- A `datetime`: with a time zone its instant and its local clock reading, else a bare clock reading.
pub data Datetime : Type 0 where
  aware : (instant clock : ℕ) → Datetime
  naive : ℕ → Datetime

-- In the time zone of UTC.
abbrev pub utc : ℕ → Datetime
utc t = aware t t

-- `value.replace(tzinfo=UTC)` where there is no time zone, as an instant.
unfoldable pub as_utc : Datetime → ℕ
as_utc (aware instant clock) = instant
as_utc (naive t) = t

-- In microseconds, and in hundredths of a km/h.
abbrev pub stale_after : ℕ
stale_after = 60_000_000

abbrev pub moving_threshold : ℕ
moving_threshold = 500

-- `now - recorded_at > STALE_AFTER`: written without the subtraction, which may be negative.
is_stale : ℕ → ℕ → Bool
is_stale recorded_at now = ltb (recorded_at + stale_after) now

is_moving : Option ℕ → Bool
is_moving none = ltb moving_threshold 0
is_moving (some speed) = ltb moving_threshold speed

unfoldable pub derive_status : Option Datetime → Option ℕ → ℕ → Status
unfolding as_utc is_stale is_moving
derive_status none speed now = offline
derive_status (some recorded_at) speed now =
    if is_stale (as_utc recorded_at) now
    then offline
    else (if is_moving speed then moving else idle)

-- `VehicleLiveOut`
pub record VehicleLiveOut : Type 0 where
  pub vehicle_id : ℕ
  pub vehicle_code : String
  pub lat : Option ℤ
  pub lng : Option ℤ
  pub speed : Option ℕ
  pub recorded_at : Option ℕ
  pub status : Status
