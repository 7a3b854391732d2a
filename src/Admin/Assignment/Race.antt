-- ===== src/Admin/Assignment/Race.antt =====
-- Two assignment requests whose checks both run before either of them commits. READ COMMITTED, the
-- isolation level that app/db/session.py leaves as it is, allows this order.
use fleet_tracking_backend.Prelude.{
  ℕ, ◌≡◌, ◌≢◌, refl, sym, inl, inr, Option, some, List, false, ◌==◌, holds, arith, All, All-map,
  All-Member, Member, HasKey, HasKey-absent, Member-put_row, Member-put_row_self, Pairwise-Member,
}
use fleet_tracking_backend.Errors.{ok}
use fleet_tracking_backend.Store.{Database, User, user_key, route_key, vehicle_key}
use fleet_tracking_backend.Store.Session.{Session}
use fleet_tracking_backend.Invariant.{IsValid, VehicleApart}
use fleet_tracking_backend.Invariant.Commits.{commit-ok}
use fleet_tracking_backend.Invariant.Users.{Schema-put_user, shares_flip}
use fleet_tracking_backend.Admin.Assignment.{AssignmentUpdate, assigned, commit_user}
use fleet_tracking_backend.Admin.Assignment.Outcomes.{
  check_pair_outcome, paired_with, paired_valid, stored, own_email, NoOther, Other,
}

abbrev pub pair : ℕ → ℕ → AssignmentUpdate
pair r w = record { route_id = some r; vehicle_id = some w }

-- Nobody has the route; nobody has the vehicle.
abbrev pub IsFree : (User → Option ℕ) → ℕ → List User → Type 0
IsFree column value users = All (λ x. holds (column x) value ≡ false) users

module _ (s : Session) (d : Database) (v : IsValid d) (r w : ℕ) where
  module _ (has_route : HasKey route_key r d.routes) (has_vehicle : HasKey vehicle_key w d.vehicles)
      (free_route : IsFree (λ z. z.route_id) r d.users)
      (free_vehicle : IsFree (λ z. z.vehicle_id) w d.users) where
    NoOther-of_free :
        (column : User → Option ℕ) (value : ℕ) (id : ℕ)
        → IsFree column value d.users
        → NoOther column id value d.users
    NoOther-of_free column value id =
        All-map (λ x. holds (column x) value ≡ false)
          (λ x. x.id ≢ id → holds (column x) value ≡ false) d.users (λ x f _. f)

    taken :
        (column : User → Option ℕ) (value id : ℕ) (x : User)
        → IsFree column value d.users
        → ¬ (Other column id value d.users x)
    taken column value id x free (m, ne, held) =
        let none_held = All-Member (λ z. holds (column z) value ≡ false) d.users x free m in cc

    -- The checks of a free pair pass for any user.
    checks_pass : (u : User) → assigned s d u (pair r w) ≡ ok (paired_with u r w)
    unfolding assigned
    checks_pass u = elim (check_pair_outcome s d v u r w) [
      | inl (a, q) ↦ absurd (HasKey-absent route_key r d.routes has_route a)
      | inr (inl (a, b, q)) ↦ absurd (HasKey-absent vehicle_key w d.vehicles has_vehicle b)
      | inr (inr (inl (x, a, q))) ↦ absurd (taken (λ z. z.route_id) r u.id x free_route a)
      | inr (inr (inr (inl (x, a, b, q)))) ↦
          absurd (taken (λ z. z.vehicle_id) w u.id x free_vehicle b)
      | inr (inr (inr (inr (a, b, g, h, q)))) ↦ q
    ]

    -- Both requests commit.
    abbrev pub RaceEnds : User → User → Type 0
    RaceEnds x y =
        let x' = paired_with x r w in
        let y' = paired_with y r w in
        (d₁ : Database) × (d₂ : Database) × (assigned s d x (pair r w) ≡ ok x')
        × (assigned s d y (pair r w) ≡ ok y')
        × (commit_user s d x' ≡ ok (x', d₁))
        × (commit_user s d₁ y' ≡ ok (y', d₂))
        × Member x' d₂.users
        × Member y' d₂.users
        × ¬ (IsValid d₂)

    -- In a valid database let the route and the vehicle exist and be free. Then the requests that
    -- assign them to two different users both pass their checks, run on that database, and both commit,
    -- the second on top of the first. Both users then have the vehicle, and the database is no longer
    -- valid: the declared constraints do not ask for what the checks alone ensure.
    pub race_shares_vehicle :
        (x y : User) → Member x d.users → Member y d.users → x.id ≢ y.id → RaceEnds x y
    unfolding commit_user
    race_shares_vehicle x y m n ne =
        let x' = paired_with x r w in
        let y' = paired_with y r w in
        let d₁ = stored d x' in
        let d₂ = stored d₁ y' in
        let v₁ : IsValid d₁ =
          paired_valid s d v x r w m has_route has_vehicle
            (NoOther-of_free (λ z. z.route_id) r x.id free_route)
            (NoOther-of_free (λ z. z.vehicle_id) w x.id free_vehicle) in
        let still : Member y d₁.users = Member-put_row user_key x' y d.users n (λ e. ne (sym e)) in
        let schema = Schema-put_user d₁ v₁ y' (own_email s d₁ v₁ y still) has_route has_vehicle in
        let first : Member x' d₂.users =
          Member-put_row user_key y' x' d₁.users (Member-put_row_self user_key x' x d.users m refl)
            ne in
        let second : Member y' d₂.users = Member-put_row_self user_key y' y d₁.users still refl in
        (
          d₁,
          d₂,
          checks_pass x,
          checks_pass y,
          rw (commit-ok s d₁ v₁.schema),
          rw (commit-ok s d₂ schema),
          first,
          second,
          (λ bad. clash (
              Pairwise-Member user_key VehicleApart (λ a b. shares_flip a.vehicle_id b.vehicle_id)
                d₂.users x' y' bad.assigned.vehicles_apart first second ne)),
        )
      where
        clash : ¬ ((w == w) ≡ false)
        clash e = ground arith
