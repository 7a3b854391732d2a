-- ===== src/Seed/Again.antt =====
-- Seeding a database that has every demo row.
use fleet_tracking_backend.Prelude.{
  ℕ, String, ◌≡◌, refl, false, some, List, [], ◌∷◌, inl, inr, All, All-Member, Member, ◌==str◌,
}
use fleet_tracking_backend.Errors.{ok}
use fleet_tracking_backend.Store.{Database, BusRoute, Vehicle}
use fleet_tracking_backend.Store.Session.{Session, scalar}
use fleet_tracking_backend.Store.Lookup.{scalar-text}
use fleet_tracking_backend.Invariant.{IsValid}
use fleet_tracking_backend.Invariant.Commits.{commit-ok}
use fleet_tracking_backend.Auth.Passwords.{Hasher}
use fleet_tracking_backend.Admin.Routes.{has_name}
use fleet_tracking_backend.Admin.Vehicles.{has_code}
use fleet_tracking_backend.Admin.Users.{has_email}
use fleet_tracking_backend.Seed.{
  Demo, DemoRoute, DemoVehicle, DemoAssignment, add_route, seed_routes, add_vehicle, seed_vehicles,
  seed_admin, seed_user, seed_users, seed_missing, seed,
}

-- Some row has the text in the column.
abbrev pub HasText : {Row : Type 0} → (Row → String) → String → List Row → Type 0
HasText {Row} field text rows = (r : Row) × Member r rows × (field r ≡ text)

-- Every demo route, vehicle and account has a row.
abbrev pub IsSeeded : Demo → Database → Type 0
IsSeeded demo d =
    All (λ x. HasText (λ r. r.name) x.name d.routes) demo.routes
    × All (λ x. HasText (λ r. r.code) x.code d.vehicles) demo.vehicles
    × HasText (λ u. u.email) demo.admin_email d.users
    × All (λ x. HasText (λ u. u.email) x.email d.users) demo.users

module _ (s : Session) where
  has_row :
      {Row : Type 0} (field : Row → String) (text : String) (rows : List Row)
      → HasText field text rows
      → (r : Row) × (scalar s (λ x. field x ==str text) rows ≡ some r)
  has_row field text rows (r, m, q) = elim (scalar-text s field text rows) [
    | inl (e, free) ↦ absurd (All-Member (λ x. ¬ (field x ≡ text)) rows r free m q)
    | inr (x, e, k, p) ↦ (x, e)
  ]

  seed_routes-again :
      (d : Database) (specs : List DemoRoute)
      → All (λ x. HasText (λ r. r.name) x.name d.routes) specs
      → (rows : List BusRoute) × (seed_routes s d specs ≡ ok (rows, 0, d))
  unfolding seed_routes add_route has_name
  seed_routes-again d [] h = ([], refl)
  seed_routes-again d (x ∷ xs) h =
      let (r, e) = has_row (λ r. r.name) x.name d.routes h.0 in
      let (rows, f) = seed_routes-again d xs h.1 in (r ∷ rows, rw (e, f))

  seed_vehicles-again :
      (d : Database) (specs : List DemoVehicle)
      → All (λ x. HasText (λ r. r.code) x.code d.vehicles) specs
      → (rows : List Vehicle) × (seed_vehicles s d specs ≡ ok (rows, 0, d))
  unfolding seed_vehicles add_vehicle has_code
  seed_vehicles-again d [] h = ([], refl)
  seed_vehicles-again d (x ∷ xs) h =
      let (r, e) = has_row (λ r. r.code) x.code d.vehicles h.0 in
      let (rows, f) = seed_vehicles-again d xs h.1 in (r ∷ rows, rw (e, f))

  module _ (h : Hasher) (salt : ℕ) where
    seed_users-again :
        (d : Database) (password : String) (routes : List BusRoute) (vehicles : List Vehicle)
        (specs : List DemoAssignment)
        → All (λ x. HasText (λ u. u.email) x.email d.users) specs
        → seed_users s h salt password d routes vehicles specs ≡ ok (0, d)
    unfolding seed_users seed_user has_email
    seed_users-again d password routes vehicles [] k = refl
    seed_users-again d password routes vehicles (x ∷ xs) k =
        let (u, e) = has_row (λ u. u.email) x.email d.users k.0 in
        rw (e, seed_users-again d password routes vehicles xs k.1)

    -- In a valid database that has a row for every demo route, vehicle and account, a seed that does
    -- not wipe succeeds, creates nothing and leaves every row as it is.
    pub seed_again :
        (demo : Demo) (d : Database)
        → IsValid d
        → IsSeeded demo d
        → seed s h salt demo false d ≡ ok (record { routes = 0; vehicles = 0; users = 0 }, d)
    unfolding seed seed_missing seed_admin has_email
    seed_again demo d v (a, b, c, e) =
        let (routes, f) = seed_routes-again d demo.routes a in
        let (vehicles, g) = seed_vehicles-again d demo.vehicles b in
        let (admin, i) = has_row (λ u. u.email) demo.admin_email d.users c in
        rw (
          f,
          g,
          i,
          seed_users-again d demo.password routes vehicles demo.users e,
          commit-ok s d v.schema,
        )
