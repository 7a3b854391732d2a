-- ===== src/Admin/Assignment/Outcomes.antt =====
-- How `set_assignment` ends.
use fleet_tracking_backend.Prelude.{
  ℕ, ◌≡◌, ◌≢◌, refl, ◌⊎◌, inl, inr, Option, none, some, List, [], ◌∷◌, Bool, true, false, not, ◌&&◌,
  ◌==◌, holds, arith, All, All-map, Member, put_row, Option-cases, HasKey, Member-HasKey,
}
use fleet_tracking_backend.Errors.{Result, ok, ◌>>=◌, raise, lit, num, str}
use fleet_tracking_backend.Store.{Database, User, user_key, route_key, vehicle_key}
use fleet_tracking_backend.Store.Session.{Session, scalar, get}
use fleet_tracking_backend.Store.Query.{get-none, get-some, scalar-none, scalar-some}
use fleet_tracking_backend.Store.Lookup.{own_value}
use fleet_tracking_backend.Invariant.{IsValid, shares}
use fleet_tracking_backend.Invariant.Commits.{commit-ok}
use fleet_tracking_backend.Invariant.Users.{IsValid-put_user, shares-none}
use fleet_tracking_backend.Admin.{conflict, not_found}
use fleet_tracking_backend.Admin.Routes.{get_route}
use fleet_tracking_backend.Admin.Vehicles.{get_vehicle}
use fleet_tracking_backend.Admin.Users.{get_user}
use fleet_tracking_backend.Admin.Assignment.{
  AssignmentUpdate, pair_is_complete, other_on_route, other_in_vehicle, free_of, check_pair,
  assigned, commit_user, set_assignment,
}

-- Nobody else than the given user holds the value of a column.
abbrev pub NoOther : (User → Option ℕ) → ℕ → ℕ → List User → Type 0
NoOther column user value users = All (λ x. x.id ≢ user → holds (column x) value ≡ false) users

-- Somebody else holds it.
abbrev pub Other : (User → Option ℕ) → ℕ → ℕ → List User → User → Type 0
Other column user value users x = Member x users × (x.id ≢ user) × (holds (column x) value ≡ true)

no_other :
    (s : Session) (column : User → Option ℕ) (user value : ℕ) (users : List User)
    → scalar s (λ u. holds (column u) value && not (u.id == user)) users ≡ none
    → NoOther column user value users
no_other s column user value users e =
    All-map (λ u. (holds (column u) value && not (u.id == user)) ≡ false)
      (λ x. x.id ≢ user → holds (column x) value ≡ false) users (λ x f ne. ground arith)
      (scalar-none s (λ u. holds (column u) value && not (u.id == user)) users e)

other :
    (s : Session) (column : User → Option ℕ) (user value : ℕ) (users : List User) (x : User)
    → scalar s (λ u. holds (column u) value && not (u.id == user)) users ≡ some x
    → Other column user value users x
other s column user value users x e =
    let (m, p) = scalar-some s (λ u. holds (column u) value && not (u.id == user)) users x e in
    (m, (λ q. ground arith), ground arith)

abbrev pub paired_with : User → ℕ → ℕ → User
paired_with u r w = record u { route_id = some r; vehicle_id = some w }

abbrev pub stored : Database → User → Database
stored d u = record d { users = put_row user_key u d.users }

module _ (s : Session) (d : Database) (v : IsValid d) where
  -- How the checks of a complete pair end, and what holds where all of them pass.
  abbrev pub Checks : {A : Type 0} → User → ℕ → ℕ → Result A → Type 0 → Type 0
  Checks u r w result passed =
      (All (λ x. x.id ≢ r) d.routes
        × (result ≡ raise (not_found "Route " (num r) "route_not_found")))
      ⊎ (HasKey route_key r d.routes
          × All (λ x. x.id ≢ w) d.vehicles
          × (result ≡ raise (not_found "Vehicle " (num w) "vehicle_not_found")))
      ⊎ ((x : User) × Other (λ z. z.route_id) u.id r d.users x
          × (result
              ≡ raise (
                  conflict (lit "Route is already assigned to " ∷ str x.email ∷ [])
                    "route_already_assigned")))
      ⊎ ((x : User) × NoOther (λ z. z.route_id) u.id r d.users
          × Other (λ z. z.vehicle_id) u.id w d.users x
          × (result
              ≡ raise (
                  conflict (lit "Vehicle is already assigned to " ∷ str x.email ∷ [])
                    "vehicle_already_assigned")))
      ⊎ (HasKey route_key r d.routes
          × HasKey vehicle_key w d.vehicles
          × NoOther (λ z. z.route_id) u.id r d.users
          × NoOther (λ z. z.vehicle_id) u.id w d.users
          × passed)

  pub check_pair_outcome :
      (u : User) (r w : ℕ)
      → let result = check_pair s d u (some r) (some w) in
        Checks u r w result (result ≡ ok (paired_with u r w))
  unfolding check_pair get_route get_vehicle other_on_route other_in_vehicle free_of
  check_pair_outcome u r w = elim (Option-cases (get s route_key r d.routes)) [
    | inl e ↦ inl (get-none s route_key r d.routes e, rw e)
    | inr (x, e) ↦
        let (m, q) = get-some s route_key r d.routes x e in
        let has_route = Member-HasKey route_key d.routes r m q in
        elim (Option-cases (get s vehicle_key w d.vehicles)) [
          | inl f ↦ inr (inl (has_route, get-none s vehicle_key w d.vehicles f, rw (e, f)))
          | inr (y, f) ↦
              let (n, z) = get-some s vehicle_key w d.vehicles y f in
              let has_vehicle = Member-HasKey vehicle_key d.vehicles w n z in
              let on_route : User → Bool = λ k. holds k.route_id r && not (k.id == u.id) in
              let aboard : User → Bool = λ k. holds k.vehicle_id w && not (k.id == u.id) in
              elim (Option-cases (scalar s on_route d.users)) [
                | inr (k, g) ↦
                    inr
                      (inr (inl (k, other s (λ z. z.route_id) u.id r d.users k g, rw (e, f, q, g))))
                | inl g ↦
                    let free_route = no_other s (λ z. z.route_id) u.id r d.users g in
                    elim (Option-cases (scalar s aboard d.users)) [
                      | inr (k, h) ↦ inr (
                          inr (
                            inr (
                              inl (
                                k,
                                free_route,
                                other s (λ z. z.vehicle_id) u.id w d.users k h,
                                rw (e, f, q, z, g, h),
                              ))))
                      | inl h ↦ inr (
                          inr (
                            inr (
                              inr (
                                has_route,
                                has_vehicle,
                                free_route,
                                no_other s (λ z. z.vehicle_id) u.id w d.users h,
                                rw (e, f, q, z, g, h),
                              ))))
                    ]
              ]
        ]
  ]

  -- How `set_assignment` ends for a stored user.
  abbrev pub Assigns : User → AssignmentUpdate → Result (User × Database) → Type 0
  Assigns u body result =
      ((body.route_id ≡ none)
        × (body.vehicle_id ≡ none)
        × (result
            ≡ ok (
              record u { route_id = none; vehicle_id = none },
              stored d (record u { route_id = none; vehicle_id = none }),
            ))
        × IsValid (stored d (record u { route_id = none; vehicle_id = none })))
      ⊎ ((r : ℕ) × (w : ℕ) × (body.route_id ≡ some r)
          × (body.vehicle_id ≡ some w)
          × Checks u r w result (
              (result ≡ ok (paired_with u r w, stored d (paired_with u r w)))
              × IsValid (stored d (paired_with u r w))))

  pub own_email : (u : User) → Member u d.users → All (λ x. x.id ≢ u.id → x.email ≢ u.email) d.users
  own_email u m = own_value user_key (λ x. x.email) u d.users v.schema.users_ok.uq_email m

  cleared_valid :
      (u : User)
      → Member u d.users
      → IsValid (stored d (record u { route_id = none; vehicle_id = none }))
  cleared_valid u m =
      IsValid-put_user d v (record u { route_id = none; vehicle_id = none }) (own_email u m) tt tt
        refl
        (All-map (λ x. x.id ≢ u.id → x.email ≢ u.email)
          (λ x. x.id ≢ u.id → shares x.route_id none ≡ false) d.users
          (λ x _ _. shares-none x.route_id) (own_email u m))
        (All-map (λ x. x.id ≢ u.id → x.email ≢ u.email)
          (λ x. x.id ≢ u.id → shares x.vehicle_id none ≡ false) d.users
          (λ x _ _. shares-none x.vehicle_id) (own_email u m))

  shares-holds : (o : Option ℕ) (k : ℕ) → holds o k ≡ false → shares o (some k) ≡ false
  shares-holds none k h = refl
  shares-holds (some j) k h = ground arith

  pub paired_valid :
      (u : User) (r w : ℕ)
      → Member u d.users
      → HasKey route_key r d.routes
      → HasKey vehicle_key w d.vehicles
      → NoOther (λ z. z.route_id) u.id r d.users
      → NoOther (λ z. z.vehicle_id) u.id w d.users
      → IsValid (stored d (paired_with u r w))
  paired_valid u r w m has_route has_vehicle free_route free_vehicle =
      IsValid-put_user d v (paired_with u r w) (own_email u m) has_route has_vehicle refl
        (All-map (λ x. x.id ≢ u.id → holds x.route_id r ≡ false)
          (λ x. x.id ≢ u.id → shares x.route_id (some r) ≡ false) d.users
          (λ x f ne. shares-holds x.route_id r (f ne)) free_route)
        (All-map (λ x. x.id ≢ u.id → holds x.vehicle_id w ≡ false)
          (λ x. x.id ≢ u.id → shares x.vehicle_id (some w) ≡ false) d.users
          (λ x f ne. shares-holds x.vehicle_id w (f ne)) free_vehicle)

  -- The request after the user is found.
  assign : User → AssignmentUpdate → Result (User × Database)
  assign u body = do user ← assigned s d u body; commit_user s d user

  assign_outcome :
      (u : User) (body : AssignmentUpdate)
      → Member u d.users
      → (r w : Option ℕ) → body.route_id ≡ r
      → body.vehicle_id ≡ w
      → pair_is_complete (record { route_id = r; vehicle_id = w }) ≡ true
      → Assigns u body (assign u body)
  unfolding assign assigned commit_user pair_is_complete
  assign_outcome u body m none none e f c =
      let valid = cleared_valid u m in inl (e, f, rw (e, f, commit-ok s _ valid.schema), valid)
  assign_outcome u body m none (some w) e f c = cc
  assign_outcome u body m (some r) none e f c = cc
  assign_outcome u body m (some r) (some w) e f c = inr (
    r,
    w,
    e,
    f,
    elim (check_pair_outcome u r w) [
      | inl (a, q) ↦ inl (a, rw (e, f, q))
      | inr (inl (a, b, q)) ↦ inr (inl (a, b, rw (e, f, q)))
      | inr (inr (inl (x, a, q))) ↦ inr (inr (inl (x, a, rw (e, f, q))))
      | inr (inr (inr (inl (x, a, b, q)))) ↦ inr (inr (inr (inl (x, a, b, rw (e, f, q)))))
      | inr (inr (inr (inr (a, b, g, h, q)))) ↦
          let valid = paired_valid u r w m a b g h in
          inr (inr (inr (inr (a, b, g, h, (rw (e, f, q, commit-ok s _ valid.schema), valid)))))
    ],
  )

  -- How `set_assignment` ends.
  abbrev pub AssignmentEnds : ℕ → AssignmentUpdate → Type 0
  AssignmentEnds id body =
      (All (λ x. x.id ≢ id) d.users
        × (set_assignment s d id body ≡ raise (not_found "User " (num id) "user_not_found")))
      ⊎ ((u : User) × Member u d.users × (u.id ≡ id) × Assigns u body (set_assignment s d id body))

  -- The assignment of a complete pair: a missing user, route or vehicle is its 404; a route, then a
  -- vehicle, that another user has is the 409 that names the holder; null/null clears the pair; in the
  -- remaining case both ids are set, nobody else has either, and the database stays valid.
  pub set_assignment_outcome :
      (id : ℕ) (body : AssignmentUpdate) → pair_is_complete body ≡ true → AssignmentEnds id body
  unfolding set_assignment get_user assign
  set_assignment_outcome id body c = elim (Option-cases (get s user_key id d.users)) [
    | inl e ↦ inl (get-none s user_key id d.users e, rw e)
    | inr (u, e) ↦
        let (m, q) = get-some s user_key id d.users u e in
        inr (u, m, q, rw e (assign_outcome u body m body.route_id body.vehicle_id refl refl c))
  ]
