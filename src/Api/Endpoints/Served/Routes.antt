-- ===== src/Api/Endpoints/Served/Routes.antt =====
-- The operations on routes.
use fleet_tracking_backend.Prelude.{
  ℕ, String, ◌⊎◌, ◌≡◌, refl, ap, inl, inr, true, List, is_some, All, All-append_one, All-put_row,
  All-filter, All-Member, All-map, Option-cases, not, ◌==◌, leb,
}
use fleet_tracking_backend.Store.{Database, BusRoute, route_key}
use fleet_tracking_backend.Store.Session.{Session, get}
use fleet_tracking_backend.Store.Query.{get-some}
use fleet_tracking_backend.Auth.Passwords.{Hasher}
use fleet_tracking_backend.Mqtt.Topic.{Text}
use fleet_tracking_backend.Mqtt.Payload.{Decoder}
use fleet_tracking_backend.Admin.{unset, null, value, unless_null}
use fleet_tracking_backend.Admin.Routes.{
  RouteCreate, RouteUpdate, list_routes, get_route, new_route,
}
use fleet_tracking_backend.Admin.Routes.Outcomes.{
  create_route_outcome, patch_route_outcome, remove_route_outcome,
}
use fleet_tracking_backend.Invariant.{IsValid}
use fleet_tracking_backend.Serving.{route_created, route_patched, route_removed}
use fleet_tracking_backend.Api.Responses.{EmailCheck, render, route_out}
use fleet_tracking_backend.Api.Bodies.{
  route_create_ok, route_update_ok, field_ok, name_ok, waypoints_ok,
}
use fleet_tracking_backend.Api.Shape.{
  IsShaped, unless_null_ok, listed_lem, IsShapedRoute, and_true, each_some, is_some-option_map,
  route_out_some,
}
use fleet_tracking_backend.Api.Inputs.{
  Call, post_route, list_all_routes, read_route, change_route, drop_route,
}
use fleet_tracking_backend.Api.Endpoints.{serve, changing, reading, deleting}
use fleet_tracking_backend.Api.Endpoints.Served.{IsFresh, IsServed}

module _ (s : Session) (h : Hasher) (c : Decoder) (prefix : Text) (email : EmailCheck) where
  module _ (d : Database) (v : IsValid d) (shaped : IsShaped email d) where
    with_routes :
        (rs : List BusRoute) → All IsShapedRoute rs → IsShaped email (record d { routes = rs })
    with_routes rs a = record { routes = a; vehicles = shaped.vehicles; users = shaped.users }

    pub post_route_lem :
        (call : Call) (body : RouteCreate)
        → IsFresh d call.assigned (post_route body)
        → route_create_ok body ≡ true
        → IsServed s h c prefix email d ⊥ (serve s h d call (post_route body))
    unfolding serve changing render new_route route_create_ok
    post_route_lem call body fresh accepted =
        elim (create_route_outcome s d v call.assigned body fresh) [
          | inl (free, e, valid) ↦
              let shape : IsShapedRoute (new_route body call.assigned) = and_true _ _ accepted in
              rw e (
                valid,
                with_routes _ (All-append_one _ d.routes _ shaped.routes shape),
                is_some-option_map _ _ (route_out_some (new_route body call.assigned) shape),
                inr (route_created call.assigned body fresh e),
              )
          | inr (x, m, q, e) ↦ rw e tt
        ]

    pub list_all_routes_lem :
        (call : Call) → IsServed s h c prefix email d ⊥ (serve s h d call list_all_routes)
    unfolding serve render list_routes
    list_all_routes_lem call = (
      v,
      shaped,
      is_some-option_map _ _ (
          each_some route_out (list_routes s d) (
            All-map IsShapedRoute (λ r. is_some (route_out r) ≡ true) (list_routes s d)
              route_out_some
              (listed_lem IsShapedRoute s (λ a b. leb a.id b.id) d.routes shaped.routes))),
      inl refl,
    )

    pub read_route_lem :
        (call : Call) (id : ℕ) → IsServed s h c prefix email d ⊥ (serve s h d call (read_route id))
    unfolding serve reading render get_route
    read_route_lem call id = elim (Option-cases (get s route_key id d.routes)) [
      | inl e ↦ rw e tt
      | inr (r, e) ↦
          let (m, q) = get-some s route_key id d.routes r e in
          let shape : IsShapedRoute r = All-Member IsShapedRoute d.routes r shaped.routes m in
          rw e (v, shaped, is_some-option_map _ _ (route_out_some r shape), inl refl)
    ]

    -- The name of the row that a PATCH writes.
    new_name_ok :
        (r : BusRoute) (body : RouteUpdate) (name : String)
        → IsShapedRoute r
        → route_update_ok body ≡ true
        → (body.name ≡ value name) ⊎ ((body.name ≡ unset) × (name ≡ r.name))
        → name_ok name ≡ true
    unfolding route_update_ok field_ok
    new_name_ok r body name shape accepted (inl e) =
        rw (← ap (field_ok name_ok) e) (and_true _ _ accepted).0
    new_name_ok r body name shape accepted (inr (e, q)) = rw q shape.0

    pub change_route_lem :
        (call : Call) (id : ℕ) (body : RouteUpdate)
        → route_update_ok body ≡ true
        → IsServed s h c prefix email d (body.name ≡ null) (serve s h d call (change_route id body))
    unfolding serve changing render route_update_ok
    change_route_lem call id body accepted = elim (patch_route_outcome s d v id body) [
      | inl (free, e) ↦ rw e tt
      | inr (r, m, q, inl (n, e)) ↦ rw e n
      | inr (r, m, q, inr (inl (name, x, a, b, g, k, e))) ↦ rw e tt
      | inr (r, m, q, inr (inr (name, a, e, valid))) ↦
          let old : IsShapedRoute r = All-Member IsShapedRoute d.routes r shaped.routes m in
          let row = record r { name = name; waypoints = unless_null body.waypoints r.waypoints } in
          let shape : IsShapedRoute row = (
            new_name_ok r body name old accepted a,
            unless_null_ok waypoints_ok body.waypoints r.waypoints (and_true _ _ accepted).1 old.1,
          ) in
          rw e (
            valid,
            with_routes _ (All-put_row route_key IsShapedRoute row d.routes shaped.routes shape),
            is_some-option_map _ _ (route_out_some row shape),
            inr (route_patched id body e),
          )
    ]

    pub drop_route_lem :
        (call : Call) (id : ℕ) → IsServed s h c prefix email d ⊥ (serve s h d call (drop_route id))
    unfolding serve deleting render
    drop_route_lem call id = elim (remove_route_outcome s d v id) [
      | inl (free, e) ↦ rw e tt
      | inr (inl (users, a, b, e)) ↦ rw e tt
      | inr (inr (a, e, valid)) ↦ rw e (
        valid,
        with_routes _ (All-filter IsShapedRoute (λ x. not (x.id == id)) d.routes shaped.routes),
        refl,
        inr (route_removed id e),
      )
    ]
