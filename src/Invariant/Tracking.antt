-- ===== src/Invariant/Tracking.antt =====
-- The current locations and the history under a new fix.
use fleet_tracking_backend.Prelude.{
  ℕ, ◌≤◌, ◌<◌, ◌≡◌, ◌≢◌, sym, subst, ◌∙◌, inl, inr, List, [], ◌∷◌, ◌++◌, arith, All, All-map,
  All-append_one, All-put_row, All-put_row_others, All-of-Member, All-Member, Member, HasKey,
  HasKey-append_one, HasKey-put_row, HasKey-absent, Member-HasKey, put_row, Unique,
}
use fleet_tracking_backend.Store.{GpsPoint, VehicleCurrentLocation, location_key}
use fleet_tracking_backend.Store.Query.{Unique-row}
use fleet_tracking_backend.Invariant.{IsRecorded, IsNewest, IsTracked}

-- The location row and the history row of one fix.
abbrev pub SameFix : GpsPoint → VehicleCurrentLocation → Type 0
SameFix p l =
    (p.vehicle_id ≡ l.vehicle_id)
    × (p.lat ≡ l.lat)
    × (p.lng ≡ l.lng)
    × (p.speed ≡ l.speed)
    × (p.recorded_at ≡ l.recorded_at)

IsRecorded-append :
    (l : VehicleCurrentLocation) (ps : List GpsPoint) (p : GpsPoint)
    → IsRecorded l ps
    → IsRecorded l (ps ++ p ∷ [])
IsRecorded-append l [] p h = elim h [ ]
IsRecorded-append l (q ∷ ps) p (inl e) = inl e
IsRecorded-append l (q ∷ ps) p (inr h) = inr (IsRecorded-append l ps p h)

IsRecorded-last :
    (l : VehicleCurrentLocation) (ps : List GpsPoint) (p : GpsPoint)
    → SameFix p l
    → IsRecorded l (ps ++ p ∷ [])
IsRecorded-last l [] p e = inl e
IsRecorded-last l (q ∷ ps) p e = inr (IsRecorded-last l ps p e)

-- A row of another vehicle stays the newest one of its vehicle.
IsNewest-append_other :
    (l : VehicleCurrentLocation) (ps : List GpsPoint) (p : GpsPoint)
    → p.vehicle_id ≢ l.vehicle_id
    → IsNewest l ps
    → IsNewest l (ps ++ p ∷ [])
IsNewest-append_other l ps p ne h =
    All-append_one (λ q. q.vehicle_id ≡ l.vehicle_id → q.recorded_at ≤ l.recorded_at) ps p h
      (λ e. absurd (ne e))

module _ (ps : List GpsPoint) (ls : List VehicleCurrentLocation) (t : IsTracked ps ls)
    (p : GpsPoint) where
  IsRecorded-more : All (λ k. IsRecorded k (ps ++ p ∷ [])) ls
  IsRecorded-more =
      All-map (λ k. IsRecorded k ps) (λ k. IsRecorded k (ps ++ p ∷ [])) ls
        (λ k. IsRecorded-append k ps p) t.recorded

  -- The first fix of a vehicle: there is no row yet.
  pub IsTracked-first :
      (l : VehicleCurrentLocation)
      → SameFix p l
      → All (λ k. k.vehicle_id ≢ l.vehicle_id) ls
      → IsTracked (ps ++ p ∷ []) (ls ++ l ∷ [])
  IsTracked-first l e absent = record {
    recorded =
        All-append_one (λ k. IsRecorded k (ps ++ p ∷ [])) ls l IsRecorded-more
          (IsRecorded-last l ps p e);
    newest =
        All-append_one (λ k. IsNewest k (ps ++ p ∷ [])) ls l (others ls t.newest absent)
          (All-append_one (λ q. q.vehicle_id ≡ l.vehicle_id → q.recorded_at ≤ l.recorded_at) ps p
            (All-map (λ q. HasKey location_key q.vehicle_id ls)
              (λ q. q.vehicle_id ≡ l.vehicle_id → q.recorded_at ≤ l.recorded_at) ps
              (λ q h same. absurd (
                HasKey-absent location_key l.vehicle_id ls
                  (subst (λ k. HasKey location_key k ls) same h) absent))
              t.located)
            (λ _. omega (arith, e.4)));
    located =
        All-append_one (λ q. HasKey location_key q.vehicle_id (ls ++ l ∷ [])) ps p
          (All-map (λ q. HasKey location_key q.vehicle_id ls)
            (λ q. HasKey location_key q.vehicle_id (ls ++ l ∷ [])) ps
            (λ q h. HasKey-append_one location_key q.vehicle_id ls l h) t.located)
          (has_last ls);
  }
    where
      others :
          (ks : List VehicleCurrentLocation)
          → All (λ k. IsNewest k ps) ks
          → All (λ k. k.vehicle_id ≢ l.vehicle_id) ks
          → All (λ k. IsNewest k (ps ++ p ∷ [])) ks
      others [] a b = tt
      others (k ∷ ks) a b =
          (IsNewest-append_other k ps p (λ q. b.0 (sym q ∙ e.0)) a.0, others ks a.1 b.1)

      has_last :
          (ks : List VehicleCurrentLocation) → HasKey location_key p.vehicle_id (ks ++ l ∷ [])
      has_last [] = inl (sym e.0)
      has_last (k ∷ ks) = inr (has_last ks)

  module _ (c : VehicleCurrentLocation) (primary : Unique location_key ls) (stored : Member c ls)
      (its : p.vehicle_id ≡ c.vehicle_id) where
    located_more :
        (ks : List VehicleCurrentLocation)
        → ((k : ℕ) → HasKey location_key k ls → HasKey location_key k ks)
        → All (λ q. HasKey location_key q.vehicle_id ks) (ps ++ p ∷ [])
    located_more ks keep =
        All-append_one (λ q. HasKey location_key q.vehicle_id ks) ps p
          (All-map (λ q. HasKey location_key q.vehicle_id ls)
            (λ q. HasKey location_key q.vehicle_id ks) ps (λ q. keep q.vehicle_id) t.located)
          (keep p.vehicle_id (Member-HasKey location_key ls p.vehicle_id stored (sym its)))

    -- A fix that is no later than the current location: only the history grows.
    pub IsTracked-late : p.recorded_at ≤ c.recorded_at → IsTracked (ps ++ p ∷ []) ls
    IsTracked-late late = record {
      recorded = IsRecorded-more;
      newest =
          All-of-Member (λ k. IsNewest k (ps ++ p ∷ [])) ls
            (λ k m.
              All-append_one (λ q. q.vehicle_id ≡ k.vehicle_id → q.recorded_at ≤ k.recorded_at) ps p
                (All-Member (λ j. IsNewest j ps) ls k t.newest m)
                (λ same.
                  let its_row = Unique-row location_key ls c k primary stored m (sym its ∙ same) in
                  subst (λ (j : VehicleCurrentLocation). p.recorded_at ≤ j.recorded_at) its_row
                    late));
      located = located_more ls (λ k h. h);
    }

    -- A fix that is later takes the place of the current location.
    pub IsTracked-newer :
        (l : VehicleCurrentLocation)
        → SameFix p l
        → c.recorded_at < l.recorded_at
        → IsTracked (ps ++ p ∷ []) (put_row location_key l ls)
    IsTracked-newer l e newer = record {
      recorded =
          All-put_row location_key (λ k. IsRecorded k (ps ++ p ∷ [])) l ls IsRecorded-more
            (IsRecorded-last l ps p e);
      newest =
          All-put_row_others location_key (λ k. IsNewest k (ps ++ p ∷ [])) l ls
            (All-map (λ k. IsNewest k ps)
              (λ k. k.vehicle_id ≢ l.vehicle_id → IsNewest k (ps ++ p ∷ [])) ls
              (λ k h ne. IsNewest-append_other k ps p (λ q. ne (sym q ∙ e.0)) h) t.newest)
            (All-append_one (λ q. q.vehicle_id ≡ l.vehicle_id → q.recorded_at ≤ l.recorded_at) ps p
              (All-map (λ q. q.vehicle_id ≡ c.vehicle_id → q.recorded_at ≤ c.recorded_at)
                (λ q. q.vehicle_id ≡ l.vehicle_id → q.recorded_at ≤ l.recorded_at) ps
                (λ q h same.
                  let bound : q.recorded_at ≤ c.recorded_at = h (same ∙ sym e.0 ∙ its) in
                  omega arith)
                (All-Member (λ k. IsNewest k ps) ls c t.newest stored))
              (λ _. omega (arith, e.4)));
      located = located_more (put_row location_key l ls) (λ k. HasKey-put_row location_key k l ls);
    }
