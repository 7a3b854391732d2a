-- ===== src/Seed/Shares.antt =====
-- Seeding after the administrators have changed assignments.
use fleet_tracking_backend.Prelude.{
  ℕ, String, ◌≡◌, ◌≢◌, refl, sym, false, none, some, Option, List, [], ◌∷◌, ◌++◌, inl, inr, All,
  All-append_one, All-Member, Member, Member-append_one, Member-HasKey, Pairwise-append_one,
  Pairwise-Member, head?, filter, arith,
}
use fleet_tracking_backend.Errors.{ok}
use fleet_tracking_backend.Store.{
  Database, BusRoute, Vehicle, User, user_key, route_key, vehicle_key,
}
use fleet_tracking_backend.Store.Schema.{EmailDiffers, Refers, Schema}
use fleet_tracking_backend.Store.Session.{Session, commit}
use fleet_tracking_backend.Store.Lookup.{scalar-text}
use fleet_tracking_backend.Invariant.{IsValid, VehicleApart, shares}
use fleet_tracking_backend.Invariant.Commits.{commit-ok}
use fleet_tracking_backend.Invariant.Users.{shares_flip}
use fleet_tracking_backend.Auth.Passwords.{Hasher}
use fleet_tracking_backend.Admin.Routes.{has_name}
use fleet_tracking_backend.Admin.Vehicles.{has_code}
use fleet_tracking_backend.Admin.Users.{has_email}
use fleet_tracking_backend.Seed.{DemoAssignment, key_of, demo_user, add_user, seed_user, seed_users}

Member-append_left : {A : Type 0} (xs : List A) (x y : A) → Member x xs → Member x (xs ++ y ∷ [])
Member-append_left [] x y m = elim m [ ]
Member-append_left (z ∷ xs) x y (inl e) = inl e
Member-append_left (z ∷ xs) x y (inr m) = inr (Member-append_left xs x y m)

module _ (s : Session) (h : Hasher) (salt : ℕ) (password : String) (d : Database) (v : IsValid d)
    (routes : List BusRoute) (vehicles : List Vehicle) (spec : DemoAssignment) where
  -- The account that the entry stands for, with a given route and vehicle.
  abbrev pub account : BusRoute → Vehicle → User
  account r w = demo_user h salt password spec.email false (some r.id) (some w.id) spec.assigned

  abbrev pub with_account : BusRoute → Vehicle → Database
  with_account r w = record d { users = d.users ++ account r w ∷ [] }

  account_Schema :
      (r : BusRoute) (w : Vehicle)
      → Member r d.routes
      → Member w d.vehicles
      → All (λ x. x.id ≢ spec.assigned.id) d.users
      → All (λ x. x.email ≢ spec.email) d.users
      → Schema (with_account r w)
  unfolding demo_user
  account_Schema r w m n new_id new_email = record {
    users_ok = record {
      primary =
          Pairwise-append_one (λ x y. x.id ≢ y.id) d.users (account r w) v.schema.users_ok.primary
            new_id;
      uq_email =
          Pairwise-append_one EmailDiffers d.users (account r w) v.schema.users_ok.uq_email
            new_email;
    };
    users_route =
        All-append_one (λ x. Refers route_key x.route_id d.routes) d.users (account r w)
          v.schema.users_route (Member-HasKey route_key d.routes r.id m refl);
    users_vehicle =
        All-append_one (λ x. Refers vehicle_key x.vehicle_id d.vehicles) d.users (account r w)
          v.schema.users_vehicle (Member-HasKey vehicle_key d.vehicles w.id n refl);
    routes_ok = v.schema.routes_ok;
    vehicles_ok = v.schema.vehicles_ok;
    points_primary = v.schema.points_primary;
    points_vehicle = v.schema.points_vehicle;
    locations_primary = v.schema.locations_primary;
    locations_vehicle = v.schema.locations_vehicle;
  }

  seeds_account :
      (r : BusRoute) (w : Vehicle)
      → head? (filter (has_name spec.route_name) routes) ≡ some r
      → head? (filter (has_code spec.vehicle_code) vehicles) ≡ some w
      → All (λ x. x.email ≢ spec.email) d.users
      → seed_users s h salt password d routes vehicles (spec ∷ []) ≡ ok (1, with_account r w)
  unfolding seed_users seed_user add_user key_of has_email
  seeds_account r w e f new_email = elim (scalar-text s (λ u. u.email) spec.email d.users) [
    | inl (g, free) ↦ rw (g, e, f)
    | inr (u, g, m, q) ↦ absurd (All-Member (λ x. x.email ≢ spec.email) d.users u new_email m q)
  ]

  not_apart : (o : Option ℕ) (k : ℕ) → o ≡ some k → ¬ (shares o (some k) ≡ false)
  not_apart none k e f = cc
  not_apart (some j) k e f = ground arith

  -- How the entry ends.
  abbrev pub SharesVehicle : BusRoute → Vehicle → User → Type 0
  SharesVehicle r w x =
      let d' = with_account r w in
      (seed_users s h salt password d routes vehicles (spec ∷ []) ≡ ok (1, d'))
      × (commit s d' ≡ ok d')
      × Member x d'.users
      × Member (account r w) d'.users
      × ((account r w).vehicle_id ≡ x.vehicle_id)
      × ¬ (IsValid d')

  -- In a valid database let the account of a demo entry be missing, its route and vehicle be stored,
  -- the number of the new account be new, and the vehicle be assigned to another user. Then the entry
  -- creates the account with that vehicle too, the commit is accepted, and the database is no longer
  -- valid.
  pub seed_takes_vehicle :
      (r : BusRoute) (w : Vehicle) (x : User)
      → head? (filter (has_name spec.route_name) routes) ≡ some r
      → head? (filter (has_code spec.vehicle_code) vehicles) ≡ some w
      → Member r d.routes
      → Member w d.vehicles
      → All (λ y. y.id ≢ spec.assigned.id) d.users
      → All (λ y. y.email ≢ spec.email) d.users
      → Member x d.users
      → x.vehicle_id ≡ some w.id
      → SharesVehicle r w x
  unfolding demo_user
  seed_takes_vehicle r w x e f m n new_id new_email k held =
      let first = Member-append_left d.users x (account r w) k in
      let second = Member-append_one d.users (account r w) in
      (
        seeds_account r w e f new_email,
        commit-ok s (with_account r w) (account_Schema r w m n new_id new_email),
        first,
        second,
        sym held,
        (λ bad. not_apart x.vehicle_id w.id held (
            Pairwise-Member user_key VehicleApart (λ a b. shares_flip a.vehicle_id b.vehicle_id)
              (with_account r w).users x (account r w) bad.assigned.vehicles_apart first second
              (All-Member (λ y. y.id ≢ spec.assigned.id) d.users x new_id k))),
      )
