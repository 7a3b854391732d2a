-- ===== src/Admin/Routes.antt =====
-- The routes: app/services/fleet_admin_service.py, app/api/v1/admin/routes.py.
pub mod Outcomes
use fleet_tracking_backend.Prelude.{
  ℕ, String, Option, none, some, List, [], ◌∷◌, ◌++◌, Bool, true, false, not, ◌==◌, leb,
  if◌then◌else◌, ◌==str◌, is_some, holds, put_row, delete_row,
}
use fleet_tracking_backend.Errors.{
  Result, ok, err, ◌>>=◌, ◌>>◌, raise, raise_if, AppError, Part, lit, num, repr,
}
use fleet_tracking_backend.Store.{Database, BusRoute, Waypoint, User, Assigned, route_key}
use fleet_tracking_backend.Store.Session.{Session, scalar, get, count, commit}
use fleet_tracking_backend.Admin.{
  Field, unset, null, value, conflict, not_found, not_null, unless_null,
}

pub record RouteCreate : Type 0 where
  pub name : String
  pub waypoints : List Waypoint

pub record RouteUpdate : Type 0 where
  pub name : Field String
  pub waypoints : Field (List Waypoint)

unfoldable pub name_taken : String → AppError
unfolding conflict
name_taken name = conflict (lit "Route name already exists: " ∷ repr name ∷ []) "route_name_taken"

unfoldable pub new_route : RouteCreate → Assigned → BusRoute
new_route body a = record {
  id = a.id;
  name = body.name;
  waypoints = body.waypoints;
  created_at = a.now;
}

unfoldable pub has_name : String → BusRoute → Bool
has_name name r = r.name ==str name

unfoldable pub on_route : ℕ → User → Bool
on_route id u = holds u.route_id id

or_missing : ℕ → Option BusRoute → Result BusRoute
or_missing id none = raise (not_found "Route " (num id) "route_not_found")
or_missing id (some route) = ok route

module _ (s : Session) where
  unfoldable pub create_route : Database → Assigned → RouteCreate → Result (BusRoute × Database)
  create_route d a body = do
    raise_if (is_some (scalar s (has_name body.name) d.routes)) (name_taken body.name)
    let route = new_route body a
    d' ← commit s (record d { routes = d.routes ++ route ∷ [] })
    ok (route, d')

  unfoldable pub list_routes : Database → List BusRoute
  list_routes d = s.order_by (λ a b. leb a.id b.id) (s.select (λ r. true) d.routes)

  unfoldable pub get_route : Database → ℕ → Result BusRoute
  unfolding or_missing
  get_route d id = or_missing id (get s route_key id d.routes)

  -- The attribute `name` after `update_route` has looked at the body; None where null was given.
  renamed : Database → BusRoute → Field String → Result (Option String)
  renamed d route unset = ok (some route.name)
  renamed d route null = ok none
  renamed d route (value name) = if name ==str route.name then ok (some route.name) else do
    raise_if (is_some (scalar s (has_name name) d.routes)) (name_taken name)
    ok (some name)

  unfoldable pub update_route : Database → BusRoute → RouteUpdate → Result (BusRoute × Database)
  unfolding renamed
  update_route d route body = do
    name ← renamed d route body.name
    let waypoints = unless_null body.waypoints route.waypoints
    name ← not_null name
    let route' = record route { name = name; waypoints = waypoints }
    d' ← commit s (record d { routes = put_row route_key route' d.routes })
    ok (route', d')

  unfoldable pub delete_route : Database → BusRoute → Result Database
  delete_route d route = do
    let in_use = count s (on_route route.id) d.users
    raise_if (not (in_use == 0)) (
        conflict
          (lit "Route is assigned to " ∷ num in_use ∷ lit " user(s) and cannot be deleted" ∷ [])
          "route_in_use")
    commit s (record d { routes = delete_row route_key route.id d.routes })

  -- PATCH /admin/routes/{route_id}
  unfoldable pub patch_route : Database → ℕ → RouteUpdate → Result (BusRoute × Database)
  patch_route d id body = do route ← get_route d id; update_route d route body

  -- DELETE /admin/routes/{route_id}
  unfoldable pub remove_route : Database → ℕ → Result Database
  remove_route d id = do route ← get_route d id; delete_route d route
