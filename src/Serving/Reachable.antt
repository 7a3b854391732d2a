-- ===== src/Serving/Reachable.antt =====
-- The databases that serving leads to against the invariant.
use fleet_tracking_backend.Prelude.{ℕ, ◌≡◌, ◌≢◌, sym, subst, ◌∙◌, ap, inl, inr, Member}
use fleet_tracking_backend.Errors.{Result, ok, err, Failure}
use fleet_tracking_backend.Store.{Database, User}
use fleet_tracking_backend.Store.Session.{Session}
use fleet_tracking_backend.Auth.Passwords.{Hasher}
use fleet_tracking_backend.Invariant.{IsValid}
use fleet_tracking_backend.Admin.Routes.Outcomes as Routes
use fleet_tracking_backend.Admin.Vehicles.Outcomes as Vehicles
use fleet_tracking_backend.Admin.Users.Outcomes as Users
use fleet_tracking_backend.Admin.Assignment.Outcomes as Assignment
use fleet_tracking_backend.Mqtt.Topic.{Text}
use fleet_tracking_backend.Mqtt.Payload.{Decoder}
use fleet_tracking_backend.Mqtt.Client.Keeps.{process_message_outcome}
use fleet_tracking_backend.Tracking.Status.{VehicleLiveOut}
use fleet_tracking_backend.Tracking.Me.{get_current_location}
use fleet_tracking_backend.Tracking.Me.Isolation.{location_isolated}
use fleet_tracking_backend.Serving.{
  empty_database, Step, route_created, route_patched, route_removed, vehicle_created,
  vehicle_patched, vehicle_removed, user_created, user_patched, user_removed, assignment_set,
  message_processed, Reach, start, later,
}

module _ {A : Type 0} {result : Result A} {a : A} where
  -- A call has one result.
  one_result : {b : A} → result ≡ ok b → result ≡ ok a → b ≡ a
  one_result e f = let q = sym e ∙ f in cc

  failed : {k : Failure} {P : Type 0} → result ≡ err k → result ≡ ok a → P
  failed e f = let q = sym e ∙ f in cc

second_valid :
    {A : Type 0} {result : Result (A × Database)} {a b : A} {d d' : Database}
    → result ≡ ok (b, d)
    → IsValid d
    → result ≡ ok (a, d')
    → IsValid d'
second_valid e v f = subst IsValid (ap (λ p. p.1) (one_result e f)) v

empty-IsValid : IsValid empty_database
empty-IsValid = record {
  schema = record {
    routes_ok = record { primary = tt; uq_name = tt };
    vehicles_ok = record { primary = tt; uq_code = tt };
    users_ok = record { primary = tt; uq_email = tt };
    users_route = tt;
    users_vehicle = tt;
    points_primary = tt;
    points_vehicle = tt;
    locations_primary = tt;
    locations_vehicle = tt;
  };
  assigned = record { paired = tt; routes_apart = tt; vehicles_apart = tt };
  tracked = record { recorded = tt; newest = tt; located = tt };
}

module _ (s : Session) (h : Hasher) (c : Decoder) (prefix : Text) where
  -- Every step keeps the database valid.
  pub step-IsValid : {d d' : Database} → IsValid d → Step s h c prefix d d' → IsValid d'
  step-IsValid {d} v (route_created a body new f) =
      elim (Routes.create_route_outcome s d v a body new) [
        | inl (free, e, valid) ↦ second_valid e valid f
        | inr (x, m, q, e) ↦ failed e f
      ]
  step-IsValid {d} v (route_patched id body f) = elim (Routes.patch_route_outcome s d v id body) [
    | inl (free, e) ↦ failed e f
    | inr (r, m, q, inl (n, e)) ↦ failed e f
    | inr (r, m, q, inr (inl (name, x, a, b, g, k, e))) ↦ failed e f
    | inr (r, m, q, inr (inr (name, a, e, valid))) ↦ second_valid e valid f
  ]
  step-IsValid {d} v (route_removed id f) = elim (Routes.remove_route_outcome s d v id) [
    | inl (free, e) ↦ failed e f
    | inr (inl (users, a, b, e)) ↦ failed e f
    | inr (inr (a, e, valid)) ↦ subst IsValid (one_result e f) valid
  ]
  step-IsValid {d} v (vehicle_created a body new f) =
      elim (Vehicles.create_vehicle_outcome s d v a body new) [
        | inl (free, e, valid) ↦ second_valid e valid f
        | inr (x, m, q, e) ↦ failed e f
      ]
  step-IsValid {d} v (vehicle_patched id body f) =
      elim (Vehicles.patch_vehicle_outcome s d v id body) [
        | inl (free, e) ↦ failed e f
        | inr (r, m, q, inl (code, x, a, b, g, k, e)) ↦ failed e f
        | inr (r, m, q, inr (inl (n, e))) ↦ failed e f
        | inr (r, m, q, inr (inr (code, name, active, a, b, g, e, valid))) ↦ second_valid e valid f
      ]
  step-IsValid {d} v (vehicle_removed id f) = elim (Vehicles.remove_vehicle_outcome s d v id) [
    | inl (free, e) ↦ failed e f
    | inr (inl (users, a, b, e)) ↦ failed e f
    | inr (inr (inl (a, e))) ↦ failed e f
    | inr (inr (inr (a, b, g, e, valid))) ↦ subst IsValid (one_result e f) valid
  ]
  step-IsValid {d} v (user_created salt a body new f) =
      elim (Users.create_user_outcome s d v h salt a body new) [
        | inl (free, e, valid) ↦ second_valid e valid f
        | inr (x, m, q, e) ↦ failed e f
      ]
  step-IsValid {d} v (user_patched salt id body f) =
      elim (Users.patch_user_outcome s d v h salt id body) [
        | inl (free, e) ↦ failed e f
        | inr (r, m, q, inl (n, e)) ↦ failed e f
        | inr (r, m, q, inr (inl (name, x, a, b, g, k, e))) ↦ failed e f
        | inr (r, m, q, inr (inr (name, a, e, valid))) ↦ second_valid e valid f
      ]
  step-IsValid {d} v (user_removed id f) = elim (Users.remove_user_outcome s d v id) [
    | inl (free, e) ↦ failed e f
    | inr (u, m, q, e, valid) ↦ subst IsValid (one_result e f) valid
  ]
  step-IsValid {d} v (assignment_set id body complete f) =
      elim (Assignment.set_assignment_outcome s d v id body complete) [
        | inl (free, e) ↦ failed e f
        | inr (u, m, q, inl (a, b, e, valid)) ↦ second_valid e valid f
        | inr (u, m, q, inr (r, w, a, b, inl (g, e))) ↦ failed e f
        | inr (u, m, q, inr (r, w, a, b, inr (inl (g, k, e)))) ↦ failed e f
        | inr (u, m, q, inr (r, w, a, b, inr (inr (inl (x, g, e))))) ↦ failed e f
        | inr (u, m, q, inr (r, w, a, b, inr (inr (inr (inl (x, g, k, e)))))) ↦ failed e f
        | inr (u, m, q, inr (r, w, a, b, inr (inr (inr (inr (g, k, n, z, (e, valid))))))) ↦
            second_valid e valid f
      ]
  step-IsValid {d} v (message_processed x new f) =
      elim (process_message_outcome s c prefix d v x new) [
        | inl (a, e) ↦ subst IsValid (one_result e f) v
        | inr (inl (e, a)) ↦ failed e f
        | inr (inr (m, y, a, b, g, k, z, e, valid)) ↦ subst IsValid (one_result e f) valid
      ]

  -- Every database that requests and messages, served one after the other, lead to from the empty one
  -- is valid: its constraints hold, assignments are complete and exclusive pairs, and a current
  -- location is a recorded fix that none of its vehicle's fixes is newer than.
  pub Reach-IsValid : {d : Database} → Reach s h c prefix d → IsValid d
  Reach-IsValid start = empty-IsValid
  Reach-IsValid (later r step) = step-IsValid (Reach-IsValid r) step

  -- In every database that requests and messages, served one after the other, lead to from the empty
  -- one, two different users never see one vehicle's live location.
  pub Reach-isolated :
      {d : Database} (now : ℕ) (u w : User) (a b : VehicleLiveOut)
      → Reach s h c prefix d
      → Member u d.users
      → Member w d.users
      → u.id ≢ w.id
      → get_current_location s d now u ≡ ok a
      → get_current_location s d now w ≡ ok b
      → a.vehicle_id ≢ b.vehicle_id
  Reach-isolated {d} now u w a b r = location_isolated s d (Reach-IsValid r) now u w a b
