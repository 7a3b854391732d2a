-- ===== src/Tracking/Me/Assigned.antt =====
-- What a driver reads about the own assignment.
use fleet_tracking_backend.Prelude.{
  ℕ, zero, suc, List, ◌≡◌, ◌≢◌, refl, sym, ap, ◌∙◌, ◌⊎◌, inl, inr, false, Option, none, some, arith,
  All-Member, Member, HasKey, HasKey-absent, Option-cases, is_some, ◌==◌,
}
use fleet_tracking_backend.Errors.{ok, raise}
use fleet_tracking_backend.Store.{Database, BusRoute, Vehicle, User, route_key, vehicle_key}
use fleet_tracking_backend.Store.Schema.{Refers}
use fleet_tracking_backend.Store.Session.{Session, get}
use fleet_tracking_backend.Store.Query.{get-none, get-some}
use fleet_tracking_backend.Invariant.{IsValid, IsPaired}
use fleet_tracking_backend.Tracking.Me.{
  no_assignment, no_route, require_assignment, get_assignment, get_route_polyline, summary_of_route,
  summary_of_vehicle, polyline_of, related, map_option, polyline_for, found_route,
}

module _ (s : Session) (d : Database) (v : IsValid d) where
  -- A foreign key of a valid database leads to its row.
  data Referred {Row : Type 0} (key : Row → ℕ) (k : ℕ) (rows : List Row) : Type 0 where
    at_row : (r : Row) → Member r rows → key r ≡ k → get s key k rows ≡ some r → Referred key k rows

  referred :
      {Row : Type 0} (key : Row → ℕ) (k : ℕ) (rows : List Row)
      → HasKey key k rows
      → Referred key k rows
  referred key k rows h = elim (Option-cases (get s key k rows)) [
    | inl e ↦ absurd (HasKey-absent key k rows h (get-none s key k rows e))
    | inr (r, e) ↦ let (m, q) = get-some s key k rows r e in at_row r m q e
  ]

  -- What the reads of the assignment and of the route answer.
  abbrev pub AssignmentReads : User → Type 0
  AssignmentReads u =
      ((u.route_id ≡ none)
        × (u.vehicle_id ≡ none)
        × (get_assignment s d u
            ≡ raise
                (no_assignment "No route/vehicle assigned yet - contact your fleet administrator"))
        × (get_route_polyline s d u ≡ raise no_route))
      ⊎ ((r : BusRoute) × (y : Vehicle) × Member r d.routes
          × Member y d.vehicles
          × (u.route_id ≡ some r.id)
          × (u.vehicle_id ≡ some y.id)
          × (get_assignment s d u
              ≡ ok (record {
                route = some (summary_of_route r);
                vehicle = some (summary_of_vehicle y);
              }))
          × (get_route_polyline s d u ≡ ok (polyline_of r)))

  reads_by :
      (u : User) (a b : Option ℕ)
      → u.route_id ≡ a
      → u.vehicle_id ≡ b
      → is_some a ≡ is_some b
      → Refers route_key a d.routes
      → Refers vehicle_key b d.vehicles
      → a ≢ some 0
      → b ≢ some 0
      → AssignmentReads u
  unfolding get_assignment get_route_polyline require_assignment related map_option polyline_for
      found_route
  reads_by u none none e f paired h k p q = inl (e, f, rw (e, f), rw e)
  reads_by u none (some w) e f paired h k p q = cc
  reads_by u (some r) none e f paired h k p q = cc
  reads_by u (some r) (some w) e f paired h k p q = elim (referred route_key r d.routes h) [
    | at_row x m i g ↦ elim (referred vehicle_key w d.vehicles k) [
      | at_row y n j z ↦
          let r_positive : (r == 0) ≡ false = nonzero r p in
          let w_positive : (w == 0) ≡ false = nonzero w q in
          inr (
            x,
            y,
            m,
            n,
            e ∙ ap some (sym i),
            f ∙ ap some (sym j),
            rw (e, f, r_positive, w_positive, g, z),
            rw (e, g),
          )
    ]
  ]
    where
      nonzero : (n : ℕ) → some n ≢ some 0 → (n == 0) ≡ false
      nonzero zero ne = absurd (ne refl)
      nonzero (suc n) ne = ground arith

  -- In a valid database, where no id is 0, a stored user either has neither a route nor a vehicle, and
  -- both reads end in `no_assignment`; or has both, and the reads answer with these two rows.
  pub assignment_reads :
      (u : User)
      → Member u d.users
      → u.route_id ≢ some 0
      → u.vehicle_id ≢ some 0
      → AssignmentReads u
  assignment_reads u m p q =
      reads_by u u.route_id u.vehicle_id refl refl
        (All-Member IsPaired d.users u v.assigned.paired m)
        (All-Member (λ x. Refers route_key x.route_id d.routes) d.users u v.schema.users_route m)
        (All-Member (λ x. Refers vehicle_key x.vehicle_id d.vehicles) d.users u
          v.schema.users_vehicle m)
        p q
