-- ===== src/Api/Endpoints/Served/Vehicles.antt =====
-- The operations on vehicles.
use fleet_tracking_backend.Prelude.{
  ℕ, ◌≡◌, refl, inl, inr, true, List, All, All-append_one, All-put_row, All-filter, All-Member,
  Option-cases, not, ◌==◌,
}
use fleet_tracking_backend.Store.{Database, Vehicle, vehicle_key}
use fleet_tracking_backend.Store.Session.{Session, get}
use fleet_tracking_backend.Auth.Passwords.{Hasher}
use fleet_tracking_backend.Mqtt.Topic.{Text}
use fleet_tracking_backend.Mqtt.Payload.{Decoder}
use fleet_tracking_backend.Admin.Vehicles.{VehicleCreate, VehicleUpdate, get_vehicle, new_vehicle}
use fleet_tracking_backend.Admin.Vehicles.Outcomes.{
  create_vehicle_outcome, patch_vehicle_outcome, remove_vehicle_outcome,
}
use fleet_tracking_backend.Invariant.{IsValid}
use fleet_tracking_backend.Serving.{vehicle_created, vehicle_patched, vehicle_removed}
use fleet_tracking_backend.Api.Responses.{EmailCheck, render}
use fleet_tracking_backend.Api.Bodies.{vehicle_create_ok, vehicle_update_ok, name_ok, code_ok}
use fleet_tracking_backend.Api.Shape.{IsShaped, IsShapedVehicle, and_true, if_set_ok}
use fleet_tracking_backend.Api.Inputs.{
  Call, post_vehicle, list_all_vehicles, read_vehicle, change_vehicle, drop_vehicle,
}
use fleet_tracking_backend.Api.Endpoints.{serve, changing, reading, deleting}
use fleet_tracking_backend.Api.Endpoints.Served.{IsFresh, IsServed, GivesNull}

module _ (s : Session) (h : Hasher) (c : Decoder) (prefix : Text) (email : EmailCheck) where
  module _ (d : Database) (v : IsValid d) (shaped : IsShaped email d) where
    with_vehicles :
        (vs : List Vehicle) → All IsShapedVehicle vs → IsShaped email (record d { vehicles = vs })
    with_vehicles vs a = record { routes = shaped.routes; vehicles = a; users = shaped.users }

    pub post_vehicle_lem :
        (call : Call) (body : VehicleCreate)
        → IsFresh d call.assigned (post_vehicle body)
        → vehicle_create_ok body ≡ true
        → IsServed s h c prefix email d ⊥ (serve s h d call (post_vehicle body))
    unfolding serve changing render new_vehicle vehicle_create_ok
    post_vehicle_lem call body fresh accepted =
        elim (create_vehicle_outcome s d v call.assigned body fresh) [
          | inl (free, e, valid) ↦
              let shape : IsShapedVehicle (new_vehicle body call.assigned) =
                and_true _ _ accepted in
              rw e (
                valid,
                with_vehicles _ (All-append_one _ d.vehicles _ shaped.vehicles shape),
                refl,
                inr (vehicle_created call.assigned body fresh e),
              )
          | inr (x, m, q, e) ↦ rw e tt
        ]

    pub list_all_vehicles_lem :
        (call : Call) → IsServed s h c prefix email d ⊥ (serve s h d call list_all_vehicles)
    unfolding serve render
    list_all_vehicles_lem call = (v, shaped, refl, inl refl)

    pub read_vehicle_lem :
        (call : Call) (id : ℕ)
        → IsServed s h c prefix email d ⊥ (serve s h d call (read_vehicle id))
    unfolding serve reading render get_vehicle
    read_vehicle_lem call id = elim (Option-cases (get s vehicle_key id d.vehicles)) [
      | inl e ↦ rw e tt
      | inr (r, e) ↦ rw e (v, shaped, refl, inl refl)
    ]

    pub change_vehicle_lem :
        (call : Call) (id : ℕ) (body : VehicleUpdate)
        → vehicle_update_ok body ≡ true
        → IsServed s h c prefix email d
            (GivesNull (change_vehicle id body))
            (serve s h d call (change_vehicle id body))
    unfolding serve changing render vehicle_update_ok
    change_vehicle_lem call id body accepted = elim (patch_vehicle_outcome s d v id body) [
      | inl (free, e) ↦ rw e tt
      | inr (r, m, q, inl (code, x, a, b, g, k, e)) ↦ rw e tt
      | inr (r, m, q, inr (inl (n, e))) ↦ rw e n
      | inr (r, m, q, inr (inr (code, name, active, a, b, g, e, valid))) ↦
          let old : IsShapedVehicle r = All-Member IsShapedVehicle d.vehicles r shaped.vehicles m in
          let row : Vehicle = record r { code = code; name = name; is_active = active } in
          let shape : IsShapedVehicle row = (
            if_set_ok code_ok body.code r.code code (and_true _ _ accepted).0 old.0 a,
            if_set_ok name_ok body.name r.name name (and_true _ _ accepted).1 old.1 b,
          ) in
          rw e (
            valid,
            with_vehicles _
                (All-put_row vehicle_key IsShapedVehicle row d.vehicles shaped.vehicles shape),
            refl,
            inr (vehicle_patched id body e),
          )
    ]

    pub drop_vehicle_lem :
        (call : Call) (id : ℕ)
        → IsServed s h c prefix email d ⊥ (serve s h d call (drop_vehicle id))
    unfolding serve deleting render
    drop_vehicle_lem call id = elim (remove_vehicle_outcome s d v id) [
      | inl (free, e) ↦ rw e tt
      | inr (inl (users, a, b, e)) ↦ rw e tt
      | inr (inr (inl (a, e))) ↦ rw e tt
      | inr (inr (inr (a, b, g, e, valid))) ↦ rw e (
        valid,
        with_vehicles _
            (All-filter IsShapedVehicle (λ x. not (x.id == id)) d.vehicles shaped.vehicles),
        refl,
        inr (vehicle_removed id e),
      )
    ]
