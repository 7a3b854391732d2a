-- ===== src/Simulator/Runner/Loaded.antt =====
-- The assignments that the simulator loads: those of the users, each with its own vehicle.
use fleet_tracking_backend.Prelude.{
  ℕ, ◌≡◌, ◌≢◌, refl, sym, ap, ◌∙◌, subst, inl, inr, true, false, Option, none, some, List, [], ◌∷◌,
  arith, is_some, All, All-Member, All-of-Member, All-map, Pairwise, Pairwise-filter, Pairwise-perm,
  Pairwise-map, Pairwise-concat_map, All-concat_map, Member-concat_map, Permᴰ-sym, Member,
  Member-perm, Member-filter, filter-Member, Option-cases, HasKey, HasKey-absent,
}
use fleet_tracking_backend.Store.{Database, Vehicle, BusRoute, User, route_key, vehicle_key}
use fleet_tracking_backend.Store.Session.{Session, get}
use fleet_tracking_backend.Store.Query.{get-some, get-none}
use fleet_tracking_backend.Invariant.{IsValid, IsPaired, VehicleApart, shares}
use fleet_tracking_backend.Store.Schema.{Refers}
use fleet_tracking_backend.Invariant.Users.{shares_flip}
use fleet_tracking_backend.Simulator.Runner.{
  Assignment, joined, is_assigned, vehicle_row, route_row, join_user, load_assignments,
}

-- What a row of the join says of its user.
abbrev pub Describes : Database → User → Assignment → Type 0
Describes d u a =
    (u.vehicle_id ≡ some a.vehicle_id)
    × ((v : Vehicle) × Member v d.vehicles × (v.id ≡ a.vehicle_id))
    × ((r : BusRoute) × Member r d.routes × (u.route_id ≡ some r.id) × (a.waypoints ≡ r.waypoints))

module _ (s : Session) (d : Database) where
  joined-Describes :
      (u : User) (vehicle : Option Vehicle) (route : Option BusRoute)
      → ((v : Vehicle) → vehicle ≡ some v → Member v d.vehicles × (u.vehicle_id ≡ some v.id))
      → ((r : BusRoute) → route ≡ some r → Member r d.routes × (u.route_id ≡ some r.id))
      → All (Describes d u) (joined vehicle route)
  unfolding joined
  joined-Describes u none route f g = tt
  joined-Describes u (some v) none f g = tt
  joined-Describes u (some v) (some r) f g =
      let (m, e) = g r refl in let (n, q) = f v refl in ((q, (v, n, refl), (r, m, e, refl)), tt)

  vehicle_row_lem :
      (id : Option ℕ) (v : Vehicle)
      → vehicle_row s d id ≡ some v
      → Member v d.vehicles × (id ≡ some v.id)
  unfolding vehicle_row
  vehicle_row_lem none v e = cc
  vehicle_row_lem (some id) v e =
      let (m, q) = get-some s vehicle_key id d.vehicles v e in (m, ap some (sym q))

  route_row_lem :
      (id : Option ℕ) (r : BusRoute)
      → route_row s d id ≡ some r
      → Member r d.routes × (id ≡ some r.id)
  unfolding route_row
  route_row_lem none r e = cc
  route_row_lem (some id) r e =
      let (m, q) = get-some s route_key id d.routes r e in (m, ap some (sym q))

  join_user-Describes : (u : User) → All (Describes d u) (join_user s d u)
  unfolding join_user
  join_user-Describes u =
      joined-Describes u (vehicle_row s d u.vehicle_id) (route_row s d u.route_id)
        (vehicle_row_lem u.vehicle_id) (route_row_lem u.route_id)

  -- Two rows for different vehicles.
  abbrev pub OtherVehicle : Assignment → Assignment → Type 0
  OtherVehicle a b = a.vehicle_id ≢ b.vehicle_id

  apart_lem : (o p : Option ℕ) (j k : ℕ) → shares o p ≡ false → o ≡ some j → p ≡ some k → j ≢ k
  apart_lem none p j k h e f q = cc
  apart_lem (some i) none j k h e f q = cc
  apart_lem (some i) (some l) j k h e f q =
      let same : i ≡ j = cc in let same' : l ≡ k = cc in ground arith

  users_apart :
      (u w : User)
      → VehicleApart u w
      → All (λ a. All (OtherVehicle a) (join_user s d w)) (join_user s d u)
  users_apart u w h =
      All-map (Describes d u) (λ a. All (OtherVehicle a) (join_user s d w)) (join_user s d u)
        (λ a k.
          All-map (Describes d w) (OtherVehicle a) (join_user s d w)
            (λ b m. apart_lem u.vehicle_id w.vehicle_id a.vehicle_id b.vehicle_id h k.0 m.0)
            (join_user-Describes w))
        (join_user-Describes u)

  one_joined :
      (vehicle : Option Vehicle) (route : Option BusRoute)
      → Pairwise OtherVehicle (joined vehicle route)
  unfolding joined
  one_joined none route = tt
  one_joined (some v) none = tt
  one_joined (some v) (some r) = (tt, tt)

  one_row : (u : User) → Pairwise OtherVehicle (join_user s d u)
  unfolding join_user
  one_row u = one_joined (vehicle_row s d u.vehicle_id) (route_row s d u.route_id)

  -- The users that the query selects.
  selected_apart : IsValid d → Pairwise VehicleApart (s.select is_assigned d.users)
  selected_apart v =
      Pairwise-perm VehicleApart (λ x y. shares_flip x.vehicle_id y.vehicle_id)
        (Permᴰ-sym (s.select_perm is_assigned d.users))
        (Pairwise-filter VehicleApart is_assigned d.users v.assigned.vehicles_apart)

  pub loaded_apart : IsValid d → Pairwise OtherVehicle (load_assignments s d)
  unfolding load_assignments
  loaded_apart v =
      Pairwise-concat_map OtherVehicle (join_user s d) (s.select is_assigned d.users) one_row
        (Pairwise-map VehicleApart _ users_apart (s.select is_assigned d.users) (selected_apart v))

  -- Every row belongs to a user.
  pub loaded-Describes :
      All (λ a. (u : User) × Member u d.users × Describes d u a) (load_assignments s d)
  unfolding load_assignments
  loaded-Describes =
      All-concat_map (λ a. (u : User) × Member u d.users × Describes d u a) (join_user s d)
        (s.select is_assigned d.users)
        (All-of-Member
          (λ u. All (λ a. (w : User) × Member w d.users × Describes d w a) (join_user s d u))
          (s.select is_assigned d.users)
          (λ u m.
            All-map (Describes d u) (λ a. (w : User) × Member w d.users × Describes d w a)
              (join_user s d u)
              (λ a k. (
                u,
                (Member-filter is_assigned d.users u
                    (Member-perm u (s.select_perm is_assigned d.users) m)).0,
                k,
              ))
              (join_user-Describes u)))

  -- The row that a stored key names is found.
  row_found :
      {Row : Type 0} (key : Row → ℕ) (k : ℕ) (rows : List Row)
      → HasKey key k rows
      → (r : Row) × (get s key k rows ≡ some r)
  row_found key k rows h = elim (Option-cases (get s key k rows)) [
    | inl e ↦ absurd (HasKey-absent key k rows h (get-none s key k rows e))
    | inr (r, e) ↦ (r, e)
  ]

  vehicle_found :
      (o : Option ℕ)
      → Refers vehicle_key o d.vehicles
      → is_some o ≡ true
      → (v : Vehicle) × (vehicle_row s d o ≡ some v)
  unfolding vehicle_row
  vehicle_found none h e = cc
  vehicle_found (some k) h e = row_found vehicle_key k d.vehicles h

  route_found :
      (o : Option ℕ)
      → Refers route_key o d.routes
      → is_some o ≡ true
      → (r : BusRoute) × (route_row s d o ≡ some r)
  unfolding route_row
  route_found none h e = cc
  route_found (some k) h e = row_found route_key k d.routes h

  -- A user with an assignment has a row, which the query selects.
  pub has_row :
      (u : User)
      → IsValid d
      → Member u d.users
      → is_some u.vehicle_id ≡ true
      → (a : Assignment) × Member a (load_assignments s d) × Describes d u a
  unfolding load_assignments join_user joined is_assigned
  has_row u v m e =
      let paired : is_some u.route_id ≡ true =
        All-Member IsPaired d.users u v.assigned.paired m ∙ e in
      let (w, f) =
        vehicle_found u.vehicle_id
          (All-Member (λ x. Refers vehicle_key x.vehicle_id d.vehicles) d.users u
            v.schema.users_vehicle m)
          e in
      let (r, g) =
        route_found u.route_id
          (All-Member (λ x. Refers route_key x.route_id d.routes) d.users u v.schema.users_route m)
          paired in
      let a : Assignment = record { vehicle_id = w.id; waypoints = r.waypoints } in
      let alone : join_user s d u ≡ a ∷ [] = rw (f, g) refl in
      let inside : Member a (join_user s d u) = subst (Member a) (sym alone) (inl refl) in
      let chosen : is_assigned u ≡ true = rw (paired, e) refl in
      (
        a,
        Member-concat_map (join_user s d) (s.select is_assigned d.users) u a
            (Member-perm u (Permᴰ-sym (s.select_perm is_assigned d.users))
              (filter-Member is_assigned d.users u m chosen))
            inside,
        All-Member (Describes d u) (join_user s d u) a (join_user-Describes u) inside,
      )

  -- What the simulator loads from a valid database is the assignments: every row has the vehicle of a
  -- user and the waypoints of that user's route, every user with an assignment has such a row, and no
  -- two rows are for one vehicle, so that no vehicle is driven twice.
  pub load_assignments_exact :
      IsValid d
      → All (λ a. (u : User) × Member u d.users × Describes d u a) (load_assignments s d)
        × ((u : User)
            → Member u d.users
            → is_some u.vehicle_id ≡ true
            → (a : Assignment) × Member a (load_assignments s d) × Describes d u a)
        × Pairwise OtherVehicle (load_assignments s d)
  load_assignments_exact v = (loaded-Describes, (λ u m e. has_row u v m e), loaded_apart v)
