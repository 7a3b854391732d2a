-- ===== src/Admin.antt =====
-- app/services/fleet_admin_service.py and the routers that call it: the parts that its modules
-- share.
pub mod Routes
pub mod Vehicles
pub mod Users
pub mod Assignment
use fleet_tracking_backend.Prelude.{ℕ, String, Option, none, some, List, [], ◌∷◌}
use fleet_tracking_backend.Errors.{
  AppError, Message, Part, lit, num, conflict_error, not_found_error, Result, ok, err,
  integrity_error,
}

-- A field of a PATCH body: left out (`exclude_unset`), given as null, or given.
pub data Field (A : Type 0) : Type 0 where
  unset : Field A
  null : Field A
  value : A → Field A

unfoldable pub conflict : Message → String → AppError
conflict message code = record { class = conflict_error; message = message; override = some code }

unfoldable pub not_found : String → Part → String → AppError
not_found what id code = record {
  class = not_found_error;
  message = lit what ∷ id ∷ lit " not found" ∷ [];
  override = some code;
}

-- An attribute set to None cannot be written to a column that is NOT NULL.
unfoldable pub not_null : {A : Type 0} → Option A → Result A
not_null none = err integrity_error
not_null (some a) = ok a

-- `if value is not None: attribute = value`
unfoldable pub unless_null : {A : Type 0} → Field A → A → A
unless_null unset old = old
unless_null null old = old
unless_null (value a) old = a

-- `if "field" in changes: attribute = changes["field"]`
unfoldable pub if_set : {A : Type 0} → Field A → A → Option A
if_set unset old = some old
if_set null old = none
if_set (value a) old = some a
