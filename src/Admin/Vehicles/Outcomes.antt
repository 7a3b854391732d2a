-- ===== src/Admin/Vehicles/Outcomes.antt =====
-- How each request about vehicles ends.
use fleet_tracking_backend.Prelude.{
  ℕ, String, ◌≡◌, ◌≢◌, refl, subst, length, filter, ◌⊎◌, inl, inr, some, [], ◌∷◌, ◌++◌, Bool, false,
  ◌==◌, ==_iff, ◌==str◌, eq_iff, holds, arith, All, All-map, Member, put_row, delete_row,
  Option-cases, Bool-cases,
}
use fleet_tracking_backend.Errors.{
  Result, ok, err, ◌>>=◌, raise, Message, lit, num, integrity_error,
}
use fleet_tracking_backend.Store.{
  Database, Vehicle, User, GpsPoint, VehicleCurrentLocation, Assigned, vehicle_key, location_key,
}
use fleet_tracking_backend.Store.Session.{Session, get, count, commit}
use fleet_tracking_backend.Store.Query.{get-none, get-some, count-zero, count-eq}
use fleet_tracking_backend.Store.Lookup.{scalar-text, own_value}
use fleet_tracking_backend.Invariant.{IsValid}
use fleet_tracking_backend.Invariant.Commits.{commit-ok}
use fleet_tracking_backend.Invariant.Vehicles.{
  IsValid-add_vehicle, IsValid-put_vehicle, IsValid-delete_vehicle,
}
use fleet_tracking_backend.Admin.{Field, unset, null, value, conflict, not_found, not_null, if_set}
use fleet_tracking_backend.Admin.Vehicles.{
  VehicleCreate, VehicleUpdate, code_taken, new_vehicle, has_code, create_vehicle, get_vehicle,
  update_vehicle, delete_vehicle, patch_vehicle, remove_vehicle, in_vehicle, of_vehicle,
}

module _ (s : Session) (d : Database) (v : IsValid d) where
  -- How `create_vehicle` ends.
  abbrev pub CreateEnds : Assigned → VehicleCreate → Type 0
  CreateEnds a body =
      let d' = record d { vehicles = d.vehicles ++ new_vehicle body a ∷ [] } in
      (All (λ x. x.code ≢ body.code) d.vehicles
        × (create_vehicle s d a body ≡ ok (new_vehicle body a, d'))
        × IsValid d')
      ⊎ ((x : Vehicle) × Member x d.vehicles
          × (x.code ≡ body.code)
          × (create_vehicle s d a body ≡ raise (code_taken body.code)))

  -- The new vehicle is stored exactly if no vehicle has its code; else the request ends in the
  -- conflict `vehicle_code_taken`. It never ends in an IntegrityError.
  pub create_vehicle_outcome :
      (a : Assigned) (body : VehicleCreate) → All (λ x. x.id ≢ a.id) d.vehicles → CreateEnds a body
  unfolding create_vehicle has_code new_vehicle
  create_vehicle_outcome a body new_id = elim (scalar-text s (λ x. x.code) body.code d.vehicles) [
    | inl (e, free) ↦
        let valid = IsValid-add_vehicle d v (new_vehicle body a) new_id free in
        inl (free, rw (e, commit-ok s _ valid.schema), valid)
    | inr (x, e, m, q) ↦ inr (x, m, q, rw e)
  ]

  -- The row that an update writes.
  abbrev changed : Vehicle → String → String → Bool → Vehicle
  changed r code name active = record r { code = code; name = name; is_active = active }

  abbrev stored : Vehicle → Database
  stored r = record d { vehicles = put_row vehicle_key r d.vehicles }

  -- How an update of a stored vehicle ends, once its code is settled.
  abbrev Stores : Vehicle → VehicleUpdate → Result (Vehicle × Database) → Type 0
  Stores r body result =
      (((body.code ≡ null) ⊎ (body.name ≡ null) ⊎ (body.is_active ≡ null))
        × (result ≡ err integrity_error))
      ⊎ ((code : String) × (name : String) × (active : Bool) × (if_set body.code r.code ≡ some code)
          × (if_set body.name r.name ≡ some name)
          × (if_set body.is_active r.is_active ≡ some active)
          × (result ≡ ok (changed r code name active, stored (changed r code name active)))
          × IsValid (stored (changed r code name active)))

  -- How an update of a stored vehicle ends.
  abbrev pub Updates : Vehicle → VehicleUpdate → Result (Vehicle × Database) → Type 0
  Updates r body result =
      ((code : String) × (x : Vehicle) × (body.code ≡ value code)
        × (r.code ≢ code)
        × Member x d.vehicles
        × (x.code ≡ code)
        × (result ≡ raise (code_taken code)))
      ⊎ Stores r body result

  -- `update_vehicle` after the code: the other two fields, and the commit.
  store_rest : Vehicle → VehicleUpdate → String → Result (Vehicle × Database)
  store_rest r body code = do
    name ← not_null (if_set body.name r.name)
    active ← not_null (if_set body.is_active r.is_active)
    d' ← commit s (stored (changed r code name active))
    ok (changed r code name active, d')

  store_rest_outcome :
      (r : Vehicle) (body : VehicleUpdate) (code : String)
      → if_set body.code r.code ≡ some code
      → All (λ x. x.id ≢ r.id → x.code ≢ code) d.vehicles
      → (name : Field String) → body.name ≡ name
      → (active : Field Bool) → body.is_active ≡ active
      → Stores r body (store_rest r body code)
  unfolding store_rest not_null if_set
  store_rest_outcome r body code c free null e active f = inl (inr (inl e), rw e)
  store_rest_outcome r body code c free unset e null f = inl (inr (inr f), rw (e, f))
  store_rest_outcome r body code c free (value name) e null f = inl (inr (inr f), rw (e, f))
  store_rest_outcome r body code c free unset e unset f =
      let valid = IsValid-put_vehicle d v (changed r code r.name r.is_active) free in
      inr (code, r.name, r.is_active, c, rw e, rw f, rw (e, f, commit-ok s _ valid.schema), valid)
  store_rest_outcome r body code c free unset e (value active) f =
      let valid = IsValid-put_vehicle d v (changed r code r.name active) free in
      inr (code, r.name, active, c, rw e, rw f, rw (e, f, commit-ok s _ valid.schema), valid)
  store_rest_outcome r body code c free (value name) e unset f =
      let valid = IsValid-put_vehicle d v (changed r code name r.is_active) free in
      inr (code, name, r.is_active, c, rw e, rw f, rw (e, f, commit-ok s _ valid.schema), valid)
  store_rest_outcome r body code c free (value name) e (value active) f =
      let valid = IsValid-put_vehicle d v (changed r code name active) free in
      inr (code, name, active, c, rw e, rw f, rw (e, f, commit-ok s _ valid.schema), valid)

  keeps_code :
      (r : Vehicle) (body : VehicleUpdate)
      → Member r d.vehicles
      → if_set body.code r.code ≡ some r.code
      → Stores r body (store_rest r body r.code)
  keeps_code r body m c =
      store_rest_outcome r body r.code c
        (own_value vehicle_key (λ x. x.code) r d.vehicles v.schema.vehicles_ok.uq_code m) body.name
        refl body.is_active refl

  update_vehicle_outcome :
      (r : Vehicle) (body : VehicleUpdate)
      → Member r d.vehicles
      → (field : Field String) → body.code ≡ field
      → Updates r body (update_vehicle s d r body)
  unfolding update_vehicle has_code not_null store_rest if_set
  update_vehicle_outcome r body m null e = inr (inl (inl e, rw e))
  update_vehicle_outcome r body m unset e =
      inr (subst (Stores r body) (rw e) (keeps_code r body m (rw e)))
  update_vehicle_outcome r body m (value code) e = elim (Bool-cases (code ==str r.code)) [
    | inl same ↦
        let q : code ≡ r.code = (eq_iff code r.code).0 same in
        inr (subst (Stores r body) (rw (e, same)) (keeps_code r body m (rw (e, q))))
    | inr other ↦ elim (scalar-text s (λ x. x.code) code d.vehicles) [
      | inl (clash, free) ↦ inr (
          subst (Stores r body) (rw (e, other, clash)) (
            store_rest_outcome r body code (rw e)
              (All-map (λ x. x.code ≢ code) (λ x. x.id ≢ r.id → x.code ≢ code) d.vehicles
                (λ x ne _. ne) free)
              body.name refl body.is_active refl))
      | inr (x, clash, k, q) ↦
          inl (code, x, e, (λ h. ground (arith, eq_iff code r.code)), k, q, rw (e, other, clash))
    ]
  ]

  -- How a PATCH of a vehicle ends.
  abbrev pub PatchEnds : ℕ → VehicleUpdate → Type 0
  PatchEnds id body =
      (All (λ x. x.id ≢ id) d.vehicles
        × (patch_vehicle s d id body ≡ raise (not_found "Vehicle " (num id) "vehicle_not_found")))
      ⊎ ((r : Vehicle) × Member r d.vehicles
          × (r.id ≡ id)
          × Updates r body (patch_vehicle s d id body))

  -- PATCH of a vehicle: a missing vehicle is `vehicle_not_found`; a code that another vehicle has is
  -- `vehicle_code_taken`; else a null in any of the three fields ends in an IntegrityError; in every
  -- other case the row is replaced, with the old values where the body leaves them out, and the
  -- database stays valid.
  pub patch_vehicle_outcome : (id : ℕ) (body : VehicleUpdate) → PatchEnds id body
  unfolding patch_vehicle get_vehicle
  patch_vehicle_outcome id body = elim (Option-cases (get s vehicle_key id d.vehicles)) [
    | inl e ↦ inl (get-none s vehicle_key id d.vehicles e, rw e)
    | inr (r, e) ↦
        let (m, q) = get-some s vehicle_key id d.vehicles r e in
        inr (r, m, q, rw e (update_vehicle_outcome r body m body.code refl))
  ]

  abbrev delete_conflict : Message → Result Database
  delete_conflict message = raise (conflict message "vehicle_in_use")

  -- How a DELETE of a vehicle ends.
  abbrev pub RemoveEnds : ℕ → Type 0
  RemoveEnds id =
      let d' = record d { vehicles = delete_row vehicle_key id d.vehicles } in
      (All (λ x. x.id ≢ id) d.vehicles
        × (remove_vehicle s d id ≡ raise (not_found "Vehicle " (num id) "vehicle_not_found")))
      ⊎ ((users : ℕ) × (users ≡ length (filter (in_vehicle id) d.users))
          × (users ≢ 0)
          × (remove_vehicle s d id
              ≡ delete_conflict (
                  lit "Vehicle is assigned to "
                  ∷ num users
                  ∷ lit " user(s) and cannot be deleted"
                  ∷ [])))
      ⊎ (((length (filter (of_vehicle id) d.points) ≢ 0)
            ⊎ ((l : VehicleCurrentLocation) × Member l d.locations × (l.vehicle_id ≡ id)))
          × (remove_vehicle s d id
              ≡ delete_conflict (lit "Vehicle has GPS tracking data and cannot be deleted" ∷ [])))
      ⊎ (All (λ u. in_vehicle id u ≡ false) d.users
          × All (λ p. of_vehicle id p ≡ false) d.points
          × All (λ l. l.vehicle_id ≢ id) d.locations
          × (remove_vehicle s d id ≡ ok d')
          × IsValid d')

  -- DELETE of a vehicle: a missing vehicle is `vehicle_not_found`; a vehicle that users are assigned
  -- to, or that has a fix in the history or a current location, is `vehicle_in_use` and stays; any
  -- other vehicle is deleted, and the database stays valid.
  pub remove_vehicle_outcome : (id : ℕ) → RemoveEnds id
  unfolding remove_vehicle get_vehicle delete_vehicle in_vehicle of_vehicle
  remove_vehicle_outcome id = elim (Option-cases (get s vehicle_key id d.vehicles)) [
    | inl e ↦ inl (get-none s vehicle_key id d.vehicles e, rw e)
    | inr (r, e) ↦
        let q = (get-some s vehicle_key id d.vehicles r e).1 in
        let assigned : User → Bool = λ u. holds u.vehicle_id id in
        let history : GpsPoint → Bool = λ p. p.vehicle_id == id in
        elim (Bool-cases (count s assigned d.users == 0)) [
          | inr some_users ↦ inr (
              inl (
                count s assigned d.users,
                count-eq s assigned d.users,
                (λ z. ground arith),
                rw (e, q, some_users),
              ))
          | inl no_users ↦ elim (Bool-cases (count s history d.points == 0)) [
            | inr some_points ↦ inr (
                inr (
                  inl (
                    inl (λ z. ground (arith, count-eq s history d.points)),
                    rw (e, q, no_users, some_points),
                  )))
            | inl no_points ↦ elim (Option-cases (get s location_key id d.locations)) [
              | inr (l, f) ↦
                  let (k, z) = get-some s location_key id d.locations l f in
                  inr (inr (inl (inr (l, k, z), rw (e, q, no_users, no_points, f))))
              | inl f ↦
                  let free = count-zero s assigned d.users ((==_iff _ 0).0 no_users) in
                  let none_left = count-zero s history d.points ((==_iff _ 0).0 no_points) in
                  let elsewhere = get-none s location_key id d.locations f in
                  let valid = IsValid-delete_vehicle d v id free none_left (
                    All-map (λ l. l.vehicle_id ≢ id) (λ l. (l.vehicle_id == id) ≡ false) d.locations
                      (λ l ne. ground (arith, ==_iff l.vehicle_id id)) elsewhere) in
                  inr (
                    inr (
                      inr (
                        free,
                        none_left,
                        elsewhere,
                        rw (e, q, no_users, no_points, f) (commit-ok s _ valid.schema),
                        valid,
                      )))
            ]
          ]
        ]
  ]
