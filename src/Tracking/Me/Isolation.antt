-- ===== src/Tracking/Me/Isolation.antt =====
-- Which vehicle a driver sees.
use fleet_tracking_backend.Prelude.{
  ℕ, ◌≡◌, ◌≢◌, refl, sym, ap, ◌∙◌, ◌⊎◌, inl, inr, false, Option, none, some, arith, All, All-Member,
  Member, HasKey-absent, Option-cases, Pairwise-Member,
}
use fleet_tracking_backend.Errors.{ok, raise}
use fleet_tracking_backend.Store.{
  Database, Vehicle, User, VehicleCurrentLocation, user_key, vehicle_key, location_key,
}
use fleet_tracking_backend.Store.Schema.{Refers}
use fleet_tracking_backend.Store.Session.{Session, get}
use fleet_tracking_backend.Store.Query.{get-none, get-some}
use fleet_tracking_backend.Invariant.{IsValid, IsNewest, VehicleApart, shares}
use fleet_tracking_backend.Invariant.Users.{shares_flip}
use fleet_tracking_backend.Tracking.Status.{offline, VehicleLiveOut, derive_status, utc}
use fleet_tracking_backend.Tracking.Me.{
  get_current_location, live_for, found_vehicle, live, no_vehicle,
}

module _ (s : Session) (d : Database) (v : IsValid d) where
  -- How a read of the current location ends.
  abbrev pub LiveEnds : ℕ → User → Type 0
  LiveEnds now u =
      ((u.vehicle_id ≡ none) × (get_current_location s d now u ≡ raise no_vehicle))
      ⊎ ((y : Vehicle) × (out : VehicleLiveOut) × Member y d.vehicles
          × (u.vehicle_id ≡ some y.id)
          × (get_current_location s d now u ≡ ok out)
          × (out.vehicle_id ≡ y.id)
          × (out.vehicle_code ≡ y.code)
          × ((All (λ l. l.vehicle_id ≢ y.id) d.locations
                × (out.status ≡ offline)
                × (out.recorded_at ≡ none)
                × (out.lat ≡ none)
                × (out.lng ≡ none)
                × (out.speed ≡ none))
              ⊎ ((l : VehicleCurrentLocation) × Member l d.locations
                  × (l.vehicle_id ≡ y.id)
                  × IsNewest l d.points
                  × (out.status ≡ derive_status (some (utc l.recorded_at)) (some l.speed) now)
                  × (out.recorded_at ≡ some l.recorded_at)
                  × (out.lat ≡ some l.lat)
                  × (out.lng ≡ some l.lng)
                  × (out.speed ≡ some l.speed))))

  live_by :
      (now : ℕ) (u : User) (o : Option ℕ)
      → u.vehicle_id ≡ o
      → Refers vehicle_key o d.vehicles
      → LiveEnds now u
  unfolding get_current_location live_for found_vehicle live derive_status
  live_by now u none e h = inl (e, rw e)
  live_by now u (some k) e h = elim (Option-cases (get s vehicle_key k d.vehicles)) [
    | inl f ↦
        absurd (HasKey-absent vehicle_key k d.vehicles h (get-none s vehicle_key k d.vehicles f))
    | inr (y, f) ↦
        let (m, q) = get-some s vehicle_key k d.vehicles y f in
        elim (Option-cases (get s location_key k d.locations)) [
          | inl g ↦ inr (
            y,
            live now y none,
            m,
            e ∙ ap some (sym q),
            rw (e, f, g),
            refl,
            refl,
            inl (rw q (get-none s location_key k d.locations g), refl, refl, refl, refl, refl),
          )
          | inr (l, g) ↦
              let (n, z) = get-some s location_key k d.locations l g in
              inr (
                y,
                live now y (some l),
                m,
                e ∙ ap some (sym q),
                rw (e, f, g),
                refl,
                refl,
                inr (
                  l,
                  n,
                  z ∙ sym q,
                  All-Member (λ k. IsNewest k d.points) d.locations l v.tracked.newest n,
                  refl,
                  refl,
                  refl,
                  refl,
                  refl,
                ),
              )
        ]
  ]

  -- A stored user without a vehicle gets `no_assignment`. Any other stored user gets the own vehicle:
  -- offline with nulls where it has sent no fix, else its newest fix and the status derived from it.
  -- The answer "Assigned vehicle no longer exists" does not occur.
  pub get_current_location_outcome : (now : ℕ) (u : User) → Member u d.users → LiveEnds now u
  get_current_location_outcome now u m = live_by now u u.vehicle_id refl (
      All-Member (λ x. Refers vehicle_key x.vehicle_id d.vehicles) d.users u v.schema.users_vehicle
        m)

  seen_vehicle :
      (now : ℕ) (u : User) (out : VehicleLiveOut)
      → Member u d.users
      → get_current_location s d now u ≡ ok out
      → u.vehicle_id ≡ some out.vehicle_id
  seen_vehicle now u out m e = elim (get_current_location_outcome now u m) [
    | inl (a, f) ↦ cc
    | inr (y, out', k, a, f, b, c, rest) ↦
        let same : out' ≡ out = cc in
        a ∙ ap some (sym b ∙ ap (λ (o : VehicleLiveOut). o.vehicle_id) same)
  ]

  shared : (a b : Option ℕ) (k : ℕ) → a ≡ some k → b ≡ some k → ¬ (shares a b ≡ false)
  shared none b k e f h = cc
  shared (some i) none k e f h = cc
  shared (some i) (some j) k e f h = ground arith

  -- In a valid database two different users never see one vehicle's live location.
  pub location_isolated :
      (now : ℕ) (u w : User) (a b : VehicleLiveOut)
      → Member u d.users
      → Member w d.users
      → u.id ≢ w.id
      → get_current_location s d now u ≡ ok a
      → get_current_location s d now w ≡ ok b
      → a.vehicle_id ≢ b.vehicle_id
  location_isolated now u w a b m n ne e f q =
      shared u.vehicle_id w.vehicle_id b.vehicle_id (seen_vehicle now u a m e ∙ ap some q)
        (seen_vehicle now w b n f)
        (Pairwise-Member user_key VehicleApart (λ x y. shares_flip x.vehicle_id y.vehicle_id)
          d.users u w v.assigned.vehicles_apart m n ne)
