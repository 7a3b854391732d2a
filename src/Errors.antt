-- ===== src/Errors.antt =====
-- app/core/exceptions.py: the error classes, and how a request ends.
use fleet_tracking_backend.Prelude.{ℕ, String, Option, none, some, List, Bool, if◌then◌else◌}

-- A human-readable message: what its format string is filled with stays in place.
pub data Part : Type 0 where
  lit : String → Part
  num : ℕ → Part
  str : String → Part
  repr : String → Part

abbrev pub Message : Type 0
Message = List Part

pub data ErrorClass : Type 0 where
  credentials_error forbidden_error no_assignment_error not_found_error conflict_error : ErrorClass

-- An instance of a subclass of `AppError`; `override` is the `code` given to the constructor.
pub record AppError : Type 0 where
  pub class : ErrorClass
  pub message : Message
  pub override : Option String

-- The class attributes `status_code` and `code`.
unfoldable pub status_code : ErrorClass → ℕ
status_code credentials_error = 401
status_code forbidden_error = 403
status_code no_assignment_error = 403
status_code not_found_error = 404
status_code conflict_error = 409

unfoldable pub class_code : ErrorClass → String
class_code credentials_error = "invalid_credentials"
class_code forbidden_error = "forbidden"
class_code no_assignment_error = "no_assignment"
class_code not_found_error = "not_found"
class_code conflict_error = "conflict"

-- `AppError.__init__`: the given code hides the class attribute.
unfoldable pub code : AppError → String
unfolding class_code
code e = elim e.override [ none ↦ class_code e.class | some c ↦ c ]

-- How a service call fails: by a deliberate error, or by an exception that no handler expects.
pub data Failure : Type 0 where
  app : AppError → Failure
  integrity_error : Failure
  overflow_error : Failure
  unexpected : Failure

pub data Result (A : Type 0) : Type 0 where
  ok : A → Result A
  err : Failure → Result A

-- An exception ends the call; else the next step runs on the value.
infixl 5 ◌>>=◌ ◌>>◌
abbrev pub ◌>>=◌ : {A B : Type 0} → Result A → (A → Result B) → Result B
err failure >>= next = err failure
ok value >>= next = next value

abbrev pub ◌>>◌ : {B : Type 0} → Result (Unit {0}) → Result B → Result B
check >> next = check >>= λ done. next

abbrev pub raise : {A : Type 0} → AppError → Result A
raise e = err (app e)

abbrev pub raise_if : Bool → AppError → Result (Unit {0})
raise_if c e = if c then raise e else ok tt
