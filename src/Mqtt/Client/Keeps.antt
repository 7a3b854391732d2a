-- ===== src/Mqtt/Client/Keeps.antt =====
-- `_process_message` and the subscriber's loop against the invariant.
use fleet_tracking_backend.Prelude.{
  sym, ◌∙◌, false, arith, ℕ, ◌≡◌, ◌≢◌, refl, ap, ◌∙◌, ◌⊎◌, inl, inr, Option, none, some, List, [],
  ◌∷◌, true, ◌==◌, All, All-append_one, Pairwise, Bool-cases, Option-cases, Member, ==_iff,
}
use fleet_tracking_backend.Errors.{Result, ok, err, Failure, unexpected}
use fleet_tracking_backend.Store.{Database, Vehicle}
use fleet_tracking_backend.Store.Session.{Session}
use fleet_tracking_backend.Invariant.{IsValid}
use fleet_tracking_backend.Mqtt.Topic.{Text, parse_topic}
use fleet_tracking_backend.Mqtt.Payload.{
  GpsMessage, Decoder, Loaded, loaded, decode_error, other_error, validate_loaded, parse_payload,
}
use fleet_tracking_backend.Mqtt.Handler.{new_point}
use fleet_tracking_backend.Mqtt.Handler.Outcomes.{with_fix, handle_gps_message_outcome}
use fleet_tracking_backend.Mqtt.Client.{
  Delivery, process_message, survive, consume, for_topic, for_message,
}

validate_loaded-err :
    (c : Decoder) (l : Loaded c.Json) (k : Failure) → validate_loaded c l ≡ err k → k ≡ unexpected
unfolding validate_loaded
validate_loaded-err c (loaded j) k e = cc
validate_loaded-err c decode_error k e = cc
validate_loaded-err c other_error k e = cc

-- The only exception of `parse_payload` is one that `json.loads` raised.
parse_payload-err :
    (c : Decoder) (payload : List ℕ) (k : Failure)
    → parse_payload c payload ≡ err k
    → k ≡ unexpected
unfolding parse_payload
parse_payload-err c payload k e = validate_loaded-err c (c.loads payload) k e

-- The number that the server would give to a new fix is not in use.
abbrev pub NewId : Database → Delivery → Type 0
NewId d x = All (λ p. p.id ≢ x.assigned.id) d.points

abbrev pub OtherId : Delivery → Delivery → Type 0
OtherId x y = x.assigned.id ≢ y.assigned.id

some_inj : (i k : ℕ) → some i ≡ some k → i ≡ k
some_inj i k e = cc

module _ (s : Session) (c : Decoder) (prefix : Text) where
  -- Why a message is discarded: its topic has no vehicle's number; its payload is no valid fix; the two
  -- numbers differ; the vehicle is missing; it is inactive.
  abbrev pub IsDiscarded : Database → Delivery → Type 0
  IsDiscarded d x =
      (parse_topic prefix x.topic ≡ none)
      ⊎ (parse_payload c x.payload ≡ ok none)
      ⊎ ((m : GpsMessage) × (parse_payload c x.payload ≡ ok (some m))
          × ((parse_topic prefix x.topic ≢ some m.vehicle_id)
              ⊎ All (λ y. y.id ≢ m.vehicle_id) d.vehicles
              ⊎ ((y : Vehicle) × Member y d.vehicles
                  × (y.id ≡ m.vehicle_id)
                  × (y.is_active ≡ false))))

  -- How `_process_message` ends.
  abbrev pub ProcessEnds : (d : Database) → IsValid d → Delivery → Type 0
  ProcessEnds d v x =
      (IsDiscarded d x × (process_message s c prefix d x ≡ ok d))
      ⊎ ((process_message s c prefix d x ≡ err unexpected)
          × (parse_payload c x.payload ≡ err unexpected))
      ⊎ ((m : GpsMessage) × (y : Vehicle) × (parse_topic prefix x.topic ≡ some m.vehicle_id)
          × (parse_payload c x.payload ≡ ok (some m))
          × Member y d.vehicles
          × (y.id ≡ m.vehicle_id)
          × (y.is_active ≡ true)
          × (process_message s c prefix d x ≡ ok (with_fix s d v x.assigned m))
          × IsValid (with_fix s d v x.assigned m))

  module _ (d : Database) (v : IsValid d) (x : Delivery) (new : NewId d x) where
    handled :
        (id : ℕ) (m : GpsMessage)
        → parse_topic prefix x.topic ≡ some id
        → parse_payload c x.payload ≡ ok (some m)
        → ProcessEnds d v x
    unfolding process_message for_topic for_message
    handled id m e f = elim (Bool-cases (m.vehicle_id == id)) [
      | inr other ↦
          let apart : m.vehicle_id ≢ id = λ q. ground (arith, ==_iff m.vehicle_id id) in
          inl (
            inr (inr (m, f, inl (λ q. apart (sym (some_inj id m.vehicle_id (sym e ∙ q)))))),
            rw (e, f, other),
          )
      | inl same ↦
          let q : m.vehicle_id ≡ id = (==_iff m.vehicle_id id).0 same in
          elim (handle_gps_message_outcome s d v x.assigned m new) [
            | inl (a, r) ↦ inl (inr (inr (m, f, inr (inl a))), rw (e, f, same, r))
            | inr (y, k, z, inl (off, r)) ↦
                inl (inr (inr (m, f, inr (inr (y, k, z, off)))), rw (e, f, same, r))
            | inr (y, k, z, inr (on, r, valid, located)) ↦
                inr (inr (m, y, rw q e, f, k, z, on, rw (e, f, same, r), valid))
          ]
    ]

    parsed :
        (id : ℕ)
        → parse_topic prefix x.topic ≡ some id
        → (r : Result (Option GpsMessage)) → parse_payload c x.payload ≡ r
        → ProcessEnds d v x
    unfolding process_message for_topic for_message
    parsed id e (ok none) f = inl (inr (inl f), rw (e, f))
    parsed id e (ok (some m)) f = handled id m e f
    parsed id e (err k) f =
        let q = parse_payload-err c x.payload k f in inr (inl (rw (e, f) (ap err q), f ∙ ap err q))

    -- A message whose number is new ends in one of three ways. It changes nothing, because its topic
    -- has no vehicle's number, its payload is no valid fix, the numbers of the two differ, or the
    -- vehicle is missing or inactive. Or topic and payload name one stored, active vehicle, and the
    -- valid database with the fix is committed. Or it ends in an exception that `json.loads` raised
    -- and `parse_payload` does not catch.
    pub process_message_outcome : ProcessEnds d v x
    unfolding process_message for_topic
    process_message_outcome = elim (Option-cases (parse_topic prefix x.topic)) [
      | inl e ↦ inl (inl e, rw e)
      | inr (id, e) ↦ parsed id e (parse_payload c x.payload) refl
    ]

  -- One message keeps the database valid and the numbers of the later ones new.
  next :
      (d : Database) (v : IsValid d) (x : Delivery) (xs : List Delivery)
      → NewId d x
      → All (NewId d) xs
      → All (OtherId x) xs
      → let d' = survive d (process_message s c prefix d x) in IsValid d' × All (NewId d') xs
  unfolding survive new_point
  next d v x xs new later apart = elim (process_message_outcome d v x new) [
    | inl (_, e) ↦ rw e (v, later)
    | inr (inl (e, f)) ↦ rw e (v, later)
    | inr (inr (m, y, a, b, f, g, h, e, valid)) ↦ rw e (valid, still_new m xs later apart)
  ]
    where
      still_new :
          (m : GpsMessage) (ys : List Delivery)
          → All (NewId d) ys
          → All (OtherId x) ys
          → All (NewId (with_fix s d v x.assigned m)) ys
      still_new m [] a b = tt
      still_new m (y ∷ ys) a b = (
        All-append_one (λ p. p.id ≢ y.assigned.id) d.points (new_point s m x.assigned) a.0
            (has_id m y b.0),
        still_new m ys a.1 b.1,
      )
        where
          has_id :
              (m : GpsMessage) (y : Delivery)
              → OtherId x y
              → (new_point s m x.assigned).id ≢ y.assigned.id
          has_id m y ne = ne

  -- After any messages, with new and different numbers for the fixes, the database is valid again.
  pub consume-IsValid :
      (d : Database) (xs : List Delivery)
      → IsValid d
      → All (NewId d) xs
      → Pairwise OtherId xs
      → IsValid (consume s c prefix d xs)
  unfolding consume
  consume-IsValid d [] v new apart = v
  consume-IsValid d (x ∷ xs) v new apart =
      let (valid, later) = next d v x xs new.0 new.1 apart.0 in
      consume-IsValid (survive d (process_message s c prefix d x)) xs valid later apart.1
