-- ===== src/Admin/Routes/Outcomes.antt =====
-- How each request about routes ends.
use fleet_tracking_backend.Prelude.{
  ℕ, String, ◌≡◌, ◌≢◌, refl, ap, length, filter, ◌⊎◌, inl, inr, [], ◌∷◌, ◌++◌, false, ◌==◌, ==_iff,
  ◌==str◌, eq_iff, holds, arith, All, All-map, Member, put_row, delete_row, Option-cases,
  Bool-cases, ◌∙◌,
}
use fleet_tracking_backend.Errors.{Result, ok, err, raise, lit, num, integrity_error}
use fleet_tracking_backend.Store.{Database, BusRoute, Assigned, route_key}
use fleet_tracking_backend.Store.Session.{Session, get, count, commit}
use fleet_tracking_backend.Store.Query.{get-none, get-some, count-zero, count-eq}
use fleet_tracking_backend.Store.Lookup.{scalar-text, own_value}
use fleet_tracking_backend.Invariant.{IsValid}
use fleet_tracking_backend.Invariant.Commits.{commit-ok}
use fleet_tracking_backend.Invariant.Routes.{
  IsValid-add_route, IsValid-put_route, IsValid-delete_route,
}
use fleet_tracking_backend.Admin.{
  Field, unset, null, value, conflict, not_found, not_null, unless_null,
}
use fleet_tracking_backend.Admin.Routes.{
  RouteCreate, RouteUpdate, name_taken, new_route, has_name, create_route, get_route, update_route,
  delete_route, patch_route, remove_route, on_route,
}

module _ (s : Session) (d : Database) (v : IsValid d) where
  -- How `create_route` ends.
  abbrev pub CreateEnds : Assigned → RouteCreate → Type 0
  CreateEnds a body =
      let d' = record d { routes = d.routes ++ new_route body a ∷ [] } in
      (All (λ x. x.name ≢ body.name) d.routes
        × (create_route s d a body ≡ ok (new_route body a, d'))
        × IsValid d')
      ⊎ ((x : BusRoute) × Member x d.routes
          × (x.name ≡ body.name)
          × (create_route s d a body ≡ raise (name_taken body.name)))

  -- The new route is stored exactly if no route has its name; else the request ends in the conflict
  -- `route_name_taken`. It never ends in an IntegrityError.
  pub create_route_outcome :
      (a : Assigned) (body : RouteCreate) → All (λ x. x.id ≢ a.id) d.routes → CreateEnds a body
  unfolding create_route has_name new_route
  create_route_outcome a body new_id = elim (scalar-text s (λ r. r.name) body.name d.routes) [
    | inl (e, free) ↦
        let valid = IsValid-add_route d v (new_route body a) new_id free in
        inl (free, rw (e, commit-ok s _ valid.schema), valid)
    | inr (x, e, m, q) ↦ inr (x, m, q, rw e)
  ]

  -- The row that an update writes.
  abbrev changed : BusRoute → RouteUpdate → String → BusRoute
  changed r body name = record r { name = name; waypoints = unless_null body.waypoints r.waypoints }

  abbrev stored : BusRoute → Database
  stored r = record d { routes = put_row route_key r d.routes }

  store_route :
      (r : BusRoute) (body : RouteUpdate) (name : String)
      → All (λ x. x.id ≢ r.id → x.name ≢ name) d.routes
      → IsValid (stored (changed r body name))
        × (commit s (stored (changed r body name)) ≡ ok (stored (changed r body name)))
  store_route r body name free =
      let valid = IsValid-put_route d v (changed r body name) free in
      (valid, commit-ok s _ valid.schema)

  -- The name of a row differs from those of the other rows.
  own_name : (r : BusRoute) → Member r d.routes → All (λ x. x.id ≢ r.id → x.name ≢ r.name) d.routes
  own_name r m = own_value route_key (λ x. x.name) r d.routes v.schema.routes_ok.uq_name m

  -- How an update of a stored route ends.
  abbrev pub Updates : BusRoute → RouteUpdate → Result (BusRoute × Database) → Type 0
  Updates r body result =
      ((body.name ≡ null) × (result ≡ err integrity_error))
      ⊎ ((name : String) × (x : BusRoute) × (body.name ≡ value name)
          × (r.name ≢ name)
          × Member x d.routes
          × (x.name ≡ name)
          × (result ≡ raise (name_taken name)))
      ⊎ ((name : String) × ((body.name ≡ value name) ⊎ ((body.name ≡ unset) × (name ≡ r.name)))
          × (result ≡ ok (changed r body name, stored (changed r body name)))
          × IsValid (stored (changed r body name)))

  update_route_outcome :
      (r : BusRoute) (body : RouteUpdate)
      → Member r d.routes
      → (field : Field String) → body.name ≡ field
      → Updates r body (update_route s d r body)
  unfolding update_route has_name not_null
  update_route_outcome r body m unset e =
      let (valid, done) = store_route r body r.name (own_name r m) in
      inr (inr (r.name, inr (e, refl), rw (e, done), valid))
  update_route_outcome r body m null e = inl (e, rw e)
  update_route_outcome r body m (value name) e = elim (Bool-cases (name ==str r.name)) [
    | inl same ↦
        let (valid, done) = store_route r body r.name (own_name r m) in
        let q : name ≡ r.name = (eq_iff name r.name).0 same in
        inr (inr (r.name, inl (e ∙ ap value q), rw (e, same, done), valid))
    | inr other ↦ elim (scalar-text s (λ r. r.name) name d.routes) [
      | inl (clash, free) ↦
          let (valid, done) = store_route r body name (
            All-map (λ x. x.name ≢ name) (λ x. x.id ≢ r.id → x.name ≢ name) d.routes (λ x ne _. ne)
              free) in
          inr (inr (name, inl e, rw (e, other, clash, done), valid))
      | inr (x, clash, k, q) ↦
          inr (
            inl (name, x, e, (λ h. ground (arith, eq_iff name r.name)), k, q, rw (e, other, clash)))
    ]
  ]

  -- How a PATCH of a route ends.
  abbrev pub PatchEnds : ℕ → RouteUpdate → Type 0
  PatchEnds id body =
      (All (λ x. x.id ≢ id) d.routes
        × (patch_route s d id body ≡ raise (not_found "Route " (num id) "route_not_found")))
      ⊎ ((r : BusRoute) × Member r d.routes
          × (r.id ≡ id)
          × Updates r body (patch_route s d id body))

  -- PATCH of a route: a missing route is `route_not_found`; a body whose name is null ends in an
  -- IntegrityError; a name that another route has is `route_name_taken`; in every other case the row
  -- is replaced, with the old name and waypoints where the body leaves them out, and the database
  -- stays valid.
  pub patch_route_outcome : (id : ℕ) (body : RouteUpdate) → PatchEnds id body
  unfolding patch_route get_route
  patch_route_outcome id body = elim (Option-cases (get s route_key id d.routes)) [
    | inl e ↦ inl (get-none s route_key id d.routes e, rw e)
    | inr (r, e) ↦
        let (m, q) = get-some s route_key id d.routes r e in
        inr (r, m, q, rw e (update_route_outcome r body m body.name refl))
  ]

  -- How a DELETE of a route ends.
  abbrev pub RemoveEnds : ℕ → Type 0
  RemoveEnds id =
      let d' = record d { routes = delete_row route_key id d.routes } in
      (All (λ x. x.id ≢ id) d.routes
        × (remove_route s d id ≡ raise (not_found "Route " (num id) "route_not_found")))
      ⊎ ((users : ℕ) × (users ≡ length (filter (on_route id) d.users))
          × (users ≢ 0)
          × (remove_route s d id
              ≡ raise (
                  conflict
                    (lit "Route is assigned to "
                      ∷ num users
                      ∷ lit " user(s) and cannot be deleted"
                      ∷ [])
                    "route_in_use")))
      ⊎ (All (λ u. on_route id u ≡ false) d.users × (remove_route s d id ≡ ok d') × IsValid d')

  -- DELETE of a route: a missing route is `route_not_found`; a route that users are assigned to is
  -- `route_in_use`, with their number, and stays; any other route is deleted, and the database stays
  -- valid.
  pub remove_route_outcome : (id : ℕ) → RemoveEnds id
  unfolding remove_route get_route delete_route on_route
  remove_route_outcome id = elim (Option-cases (get s route_key id d.routes)) [
    | inl e ↦ inl (get-none s route_key id d.routes e, rw e)
    | inr (r, e) ↦
        let (m, q) = get-some s route_key id d.routes r e in
        elim (Bool-cases (count s (λ u. holds u.route_id id) d.users == 0)) [
          | inl zero_users ↦
              let free =
                count-zero s (λ u. holds u.route_id id) d.users ((==_iff _ 0).0 zero_users) in
              let valid = IsValid-delete_route d v id free in
              inr (inr (free, rw (e, q, zero_users) (commit-ok s _ valid.schema), valid))
          | inr some_users ↦ inr (
              inl (
                count s (λ u. holds u.route_id id) d.users,
                count-eq s (λ u. holds u.route_id id) d.users,
                (λ z. ground arith),
                rw (e, q, some_users),
              ))
        ]
  ]
