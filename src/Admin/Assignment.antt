-- ===== src/Admin/Assignment.antt =====
-- `set_assignment` of app/services/fleet_admin_service.py, PUT /admin/users/{user_id}/assignment,
-- and the validator of its body in app/schemas/user.py.
pub mod Outcomes
pub mod Race
use fleet_tracking_backend.Prelude.{
  ℕ, String, Option, none, some, List, [], ◌∷◌, Bool, true, false, not, ◌&&◌, ◌==◌, if◌then◌else◌,
  is_some, holds, put_row, differ,
}
use fleet_tracking_backend.Errors.{
  Result, ok, err, ◌>>=◌, ◌>>◌, raise, raise_if, AppError, Part, lit, str,
}
use fleet_tracking_backend.Store.{Database, BusRoute, Vehicle, User, user_key}
use fleet_tracking_backend.Store.Session.{Session, scalar, commit}
use fleet_tracking_backend.Admin.{conflict, not_found}
use fleet_tracking_backend.Admin.Routes.{get_route}
use fleet_tracking_backend.Admin.Vehicles.{get_vehicle}
use fleet_tracking_backend.Admin.Users.{get_user}

pub record AssignmentUpdate : Type 0 where
  pub route_id : Option ℕ
  pub vehicle_id : Option ℕ

-- `_pair_must_be_complete`: whether the body passes the validator.
unfoldable pub pair_is_complete : AssignmentUpdate → Bool
pair_is_complete body = not (differ (not (is_some body.route_id)) (not (is_some body.vehicle_id)))

-- Another user than the given one has the route, or the vehicle.
unfoldable pub other_on_route : ℕ → ℕ → User → Bool
other_on_route user route u = holds u.route_id route && not (u.id == user)

unfoldable pub other_in_vehicle : ℕ → ℕ → User → Bool
other_in_vehicle user vehicle u = holds u.vehicle_id vehicle && not (u.id == user)

-- The error that names the holder, if there is one.
unfoldable pub free_of : Option User → String → String → Result (Unit {0})
free_of none what code = ok tt
free_of (some other) what code = raise (conflict (lit what ∷ str other.email ∷ []) code)

module _ (s : Session) where
  -- `get_route` and `get_vehicle` on an id that may be None, which finds nothing.
  route_of : Database → Option ℕ → Result BusRoute
  route_of d none = raise (not_found "Route " (lit "None") "route_not_found")
  route_of d (some id) = get_route s d id

  vehicle_of : Database → Option ℕ → Result Vehicle
  vehicle_of d none = raise (not_found "Vehicle " (lit "None") "vehicle_not_found")
  vehicle_of d (some id) = get_vehicle s d id

  -- The checks that a new pair passes, up to the assignment of the attributes.
  unfoldable pub check_pair : Database → User → Option ℕ → Option ℕ → Result User
  unfolding route_of vehicle_of free_of
  check_pair d user route_id vehicle_id = do
    route ← route_of d route_id
    vehicle ← vehicle_of d vehicle_id
    free_of (scalar s (other_on_route user.id route.id) d.users) "Route is already assigned to "
        "route_already_assigned"
    free_of (scalar s (other_in_vehicle user.id vehicle.id) d.users)
        "Vehicle is already assigned to " "vehicle_already_assigned"
    ok (record user { route_id = some route.id; vehicle_id = some vehicle.id })

  -- All that the request does before it commits: the user with the new attributes.
  unfoldable pub assigned : Database → User → AssignmentUpdate → Result User
  assigned d user body =
      if not (is_some body.route_id) && not (is_some body.vehicle_id)
      then ok (record user { route_id = none; vehicle_id = none })
      else check_pair d user body.route_id body.vehicle_id

  -- `await db.commit()` of the user's attributes.
  unfoldable pub commit_user : Database → User → Result (User × Database)
  commit_user d user = do
    d' ← commit s (record d { users = put_row user_key user d.users })
    ok (user, d')

  unfoldable pub set_assignment : Database → ℕ → AssignmentUpdate → Result (User × Database)
  set_assignment d id body = do
    user ← get_user s d id
    user' ← assigned d user body
    commit_user d user'
