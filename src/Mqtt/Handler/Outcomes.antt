-- ===== src/Mqtt/Handler/Outcomes.antt =====
-- How the handling of a fix ends.
use fleet_tracking_backend.Prelude.{
  ◌≤◌, ◌<◌, ◌≡◌, ◌≢◌, refl, sym, ◌∙◌, true, false, ◌⊎◌, inl, inr, Option, none, some, List, [], ◌∷◌,
  ◌++◌, arith, All, All-append_one, All-map, All-put_row, Member, put_row, ltb, ltb→lt,
  Option-cases, Bool-cases, Unique, HasKey, Member-HasKey, Pairwise-append_one, Pairwise-put_row,
}
use fleet_tracking_backend.Errors.{ok}
use fleet_tracking_backend.Store.{
  Database, Vehicle, GpsPoint, VehicleCurrentLocation, Assigned, vehicle_key, location_key,
}
use fleet_tracking_backend.Store.Session.{Session, get}
use fleet_tracking_backend.Store.Query.{get-none, get-some}
use fleet_tracking_backend.Invariant.{IsValid, IsTracked}
use fleet_tracking_backend.Invariant.Commits.{commit-ok}
use fleet_tracking_backend.Invariant.Tracking.{
  SameFix, IsTracked-first, IsTracked-late, IsTracked-newer,
}
use fleet_tracking_backend.Tracking.Status.{as_utc}
use fleet_tracking_backend.Mqtt.Payload.{GpsMessage}
use fleet_tracking_backend.Mqtt.Handler.{
  new_point, new_location, moved, store_fix, for_vehicle, handle_gps_message,
}

module _ (s : Session) (d : Database) (v : IsValid d) where
  -- The row of the history, and that of the current location, which hold the fix.
  abbrev point_of : Assigned → GpsMessage → GpsPoint
  point_of a m = record {
    id = a.id;
    vehicle_id = m.vehicle_id;
    lat = m.lat;
    lng = m.lng;
    speed = s.to_hundredths m.speed;
    recorded_at = as_utc m.timestamp;
    created_at = a.now;
  }

  abbrev location_of : Assigned → GpsMessage → VehicleCurrentLocation
  location_of a m = record {
    vehicle_id = m.vehicle_id;
    lat = m.lat;
    lng = m.lng;
    speed = s.to_hundredths m.speed;
    recorded_at = as_utc m.timestamp;
    updated_at = a.now;
  }

  -- The database with the fix.
  abbrev pub with_fix : Assigned → GpsMessage → Database
  with_fix a m = record d {
    points = d.points ++ point_of a m ∷ [];
    locations = moved d.locations (get s location_key m.vehicle_id d.locations) (location_of a m);
  }

  -- The current locations after the fix: a vehicle without one gets it, a later fix replaces the one
  -- there was, and a fix that is not later leaves it.
  abbrev Locates : VehicleCurrentLocation → List VehicleCurrentLocation → Type 0
  Locates l ls =
      (All (λ x. x.vehicle_id ≢ l.vehicle_id) d.locations × (ls ≡ d.locations ++ l ∷ []))
      ⊎ ((x : VehicleCurrentLocation) × Member x d.locations
          × (x.vehicle_id ≡ l.vehicle_id)
          × (((x.recorded_at < l.recorded_at) × (ls ≡ put_row location_key l d.locations))
              ⊎ ((l.recorded_at ≤ x.recorded_at) × (ls ≡ d.locations))))

  moved-Locates :
      (l : VehicleCurrentLocation) (o : Option VehicleCurrentLocation)
      → get s location_key l.vehicle_id d.locations ≡ o
      → Locates l (moved d.locations o l)
  unfolding moved
  moved-Locates l none e = inl (get-none s location_key l.vehicle_id d.locations e, refl)
  moved-Locates l (some x) e =
      let (stored, its) = get-some s location_key l.vehicle_id d.locations x e in
      inr (
        x,
        stored,
        its,
        elim (Bool-cases (ltb x.recorded_at l.recorded_at)) [
          | inl later ↦ rw later (inl (ltb→lt _ _ later, refl))
          | inr old ↦ rw old (inr (ground arith, refl))
        ],
      )

  abbrev IdDiffers : GpsPoint → GpsPoint → Type 0
  IdDiffers x y = x.id ≢ y.id

  -- The invariant, from what a new fix has to keep.
  grown_valid :
      (p : GpsPoint) (ls : List VehicleCurrentLocation)
      → All (λ q. q.id ≢ p.id) d.points
      → HasKey vehicle_key p.vehicle_id d.vehicles
      → Unique location_key ls
      → All (λ l. HasKey vehicle_key l.vehicle_id d.vehicles) ls
      → IsTracked (d.points ++ p ∷ []) ls
      → IsValid (record d { points = d.points ++ p ∷ []; locations = ls })
  grown_valid p ls new_id has_vehicle primary vehicles tracked = record {
    schema = record {
      routes_ok = v.schema.routes_ok;
      vehicles_ok = v.schema.vehicles_ok;
      users_ok = v.schema.users_ok;
      users_route = v.schema.users_route;
      users_vehicle = v.schema.users_vehicle;
      points_primary = Pairwise-append_one IdDiffers d.points p v.schema.points_primary new_id;
      points_vehicle =
          All-append_one (λ q. HasKey vehicle_key q.vehicle_id d.vehicles) d.points p
            v.schema.points_vehicle has_vehicle;
      locations_primary = primary;
      locations_vehicle = vehicles;
    };
    assigned = v.assigned;
    tracked = tracked;
  }

  abbrev OfVehicle : VehicleCurrentLocation → Type 0
  OfVehicle l = HasKey vehicle_key l.vehicle_id d.vehicles

  abbrev KeyDiffers : VehicleCurrentLocation → VehicleCurrentLocation → Type 0
  KeyDiffers x y = x.vehicle_id ≢ y.vehicle_id

  moved_valid :
      (p : GpsPoint) (l : VehicleCurrentLocation)
      → SameFix p l
      → All (λ q. q.id ≢ p.id) d.points
      → HasKey vehicle_key p.vehicle_id d.vehicles
      → HasKey vehicle_key l.vehicle_id d.vehicles
      → (o : Option VehicleCurrentLocation) → get s location_key l.vehicle_id d.locations ≡ o
      → IsValid (record d { points = d.points ++ p ∷ []; locations = moved d.locations o l })
  unfolding moved
  moved_valid p l same new_id has_vehicle of_vehicle none e =
      let absent = get-none s location_key l.vehicle_id d.locations e in
      grown_valid p (d.locations ++ l ∷ []) new_id has_vehicle
        (Pairwise-append_one KeyDiffers d.locations l v.schema.locations_primary absent)
        (All-append_one OfVehicle d.locations l v.schema.locations_vehicle of_vehicle)
        (IsTracked-first d.points d.locations v.tracked p l same absent)
  moved_valid p l same new_id has_vehicle of_vehicle (some c) e =
      let (stored, its) = get-some s location_key l.vehicle_id d.locations c e in
      let of_c : p.vehicle_id ≡ c.vehicle_id = same.0 ∙ sym its in
      elim (Bool-cases (ltb c.recorded_at l.recorded_at)) [
        | inl newer ↦ rw newer (
            grown_valid p (put_row location_key l d.locations) new_id has_vehicle
              (Pairwise-put_row location_key KeyDiffers (λ x y ne q. ne (sym q)) l d.locations
                v.schema.locations_primary v.schema.locations_primary
                (All-map OfVehicle (λ x. x.vehicle_id ≢ l.vehicle_id → KeyDiffers x l) d.locations
                  (λ x _ ne. ne) v.schema.locations_vehicle))
              (All-put_row location_key OfVehicle l d.locations v.schema.locations_vehicle
                of_vehicle)
              (IsTracked-newer d.points d.locations v.tracked p c v.schema.locations_primary stored
                of_c l same (ltb→lt _ _ newer)))
        | inr late ↦ rw late (
            grown_valid p d.locations new_id has_vehicle v.schema.locations_primary
              v.schema.locations_vehicle
              (IsTracked-late d.points d.locations v.tracked p c v.schema.locations_primary stored
                of_c (not_later p l c same late)))
      ]
    where
      not_later :
          (p : GpsPoint) (l c : VehicleCurrentLocation)
          → SameFix p l
          → ltb c.recorded_at l.recorded_at ≡ false
          → p.recorded_at ≤ c.recorded_at
      not_later p l c same late = ground (arith, same.4)

  with_fix_valid :
      (a : Assigned) (m : GpsMessage)
      → All (λ p. p.id ≢ a.id) d.points
      → HasKey vehicle_key m.vehicle_id d.vehicles
      → IsValid (with_fix a m)
  unfolding new_point new_location
  with_fix_valid a m new_id has_vehicle =
      moved_valid (point_of a m) (location_of a m) (refl, refl, refl, refl, refl) new_id has_vehicle
        has_vehicle (get s location_key m.vehicle_id d.locations) refl

  -- How `handle_gps_message` ends.
  abbrev pub HandleEnds : Assigned → GpsMessage → Type 0
  HandleEnds a m =
      (All (λ x. x.id ≢ m.vehicle_id) d.vehicles × (handle_gps_message s d a m ≡ ok (false, d)))
      ⊎ ((x : Vehicle) × Member x d.vehicles
          × (x.id ≡ m.vehicle_id)
          × (((x.is_active ≡ false) × (handle_gps_message s d a m ≡ ok (false, d)))
              ⊎ ((x.is_active ≡ true)
                  × (handle_gps_message s d a m ≡ ok (true, with_fix a m))
                  × IsValid (with_fix a m)
                  × Locates (location_of a m) (with_fix a m).locations)))

  -- A fix of a missing or an inactive vehicle is discarded and changes nothing. Any other fix is
  -- stored: the history grows by one row with the vehicle, the coordinates, the rounded speed and the
  -- time of the message. A vehicle without a current location gets those as its current location;
  -- they replace a current location if the message's time is later than its time, and leave it alone
  -- otherwise. The database stays valid. It never ends in an IntegrityError.
  pub handle_gps_message_outcome :
      (a : Assigned) (m : GpsMessage) → All (λ p. p.id ≢ a.id) d.points → HandleEnds a m
  unfolding handle_gps_message for_vehicle store_fix new_point new_location
  handle_gps_message_outcome a m new_id =
      elim (Option-cases (get s vehicle_key m.vehicle_id d.vehicles)) [
        | inl e ↦ inl (get-none s vehicle_key m.vehicle_id d.vehicles e, rw e)
        | inr (x, e) ↦
            let (k, q) = get-some s vehicle_key m.vehicle_id d.vehicles x e in
            let valid =
              with_fix_valid a m new_id (Member-HasKey vehicle_key d.vehicles m.vehicle_id k q) in
            inr (
              x,
              k,
              q,
              elim (Bool-cases x.is_active) [
                | inl on ↦ inr (
                  on,
                  rw (e, on, commit-ok s _ valid.schema),
                  valid,
                  moved-Locates (location_of a m) _ refl,
                )
                | inr off ↦ inl (off, rw (e, off))
              ],
            )
      ]
