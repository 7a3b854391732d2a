-- ===== src/Mqtt/Handler/Latest.antt =====
-- `latest_fix` against the table of current locations.
use fleet_tracking_backend.Prelude.{
  ℕ, ◌≤◌, ◌≡◌, ◌≢◌, refl, sym, subst, ◌∙◌, ◌⊎◌, inl, inr, true, none, some, List, [], ◌∷◌, arith,
  ◌==◌, ==_iff, All, All-Member, Member, Member-perm, Permᴰ, Permᴰ-sym, filter, filter-Member,
  Member-filter, Pairwise, head?, Option-cases, HasKey, HasKey-absent,
}
use fleet_tracking_backend.Store.{Database, GpsPoint, VehicleCurrentLocation, location_key}
use fleet_tracking_backend.Store.Session.{Session, get}
use fleet_tracking_backend.Store.Query.{get-none, get-some}
use fleet_tracking_backend.Invariant.{IsValid, IsRecorded, IsNewest}
use fleet_tracking_backend.Mqtt.Handler.{newest_first, latest_fix}

newest_first-total : (a b : GpsPoint) → (newest_first a b ≡ true) ⊎ (newest_first b a ≡ true)
unfolding newest_first
newest_first-total a b = ground arith

newest_first_trans :
    (a b c : GpsPoint) → newest_first a b ≡ true → newest_first b c ≡ true → newest_first a c ≡ true
unfolding newest_first
newest_first_trans a b c h k = ground arith

newest_first-le : (a b : GpsPoint) → newest_first a b ≡ true → b.recorded_at ≤ a.recorded_at
unfolding newest_first
newest_first-le a b h = ground arith

-- The head of an ordered list is as late as every member.
head-latest :
    (rows : List GpsPoint) (p q : GpsPoint)
    → Pairwise (λ a b. newest_first a b ≡ true) rows
    → head? rows ≡ some p
    → Member q rows
    → q.recorded_at ≤ p.recorded_at
head-latest [] p q h e m = elim m [ ]
head-latest (x ∷ rows) p q h e (inl same) =
    let top : x ≡ p = cc in
    subst (λ z. z.recorded_at ≤ p.recorded_at) (sym top ∙ sym same) (omega arith)
head-latest (x ∷ rows) p q h e (inr m) =
    let top : x ≡ p = cc in
    subst (λ z. q.recorded_at ≤ z.recorded_at) top
      (newest_first-le x q (All-Member (λ b. newest_first x b ≡ true) rows q h.0 m))

head-Member : (rows : List GpsPoint) (p : GpsPoint) → head? rows ≡ some p → Member p rows
head-Member [] p e = cc
head-Member (x ∷ rows) p e = inl cc

head-none : (rows : List GpsPoint) (q : GpsPoint) → head? rows ≡ none → ¬ (Member q rows)
head-none [] q e m = m
head-none (x ∷ rows) q e m = cc

-- The fix behind a current location.
recorded_point :
    (l : VehicleCurrentLocation) (ps : List GpsPoint)
    → IsRecorded l ps
    → (p : GpsPoint) × Member p ps × (p.vehicle_id ≡ l.vehicle_id) × (p.recorded_at ≡ l.recorded_at)
recorded_point l [] h = elim h [ ]
recorded_point l (p ∷ ps) (inl h) = (p, inl refl, h.0, h.4)
recorded_point l (p ∷ ps) (inr h) = let (q, m, a, b) = recorded_point l ps h in (q, inr m, a, b)

module _ (s : Session) (d : Database) (v : IsValid d) (id : ℕ) where
  -- What `latest_fix` finds.
  abbrev pub LatestEnds : Type 0
  LatestEnds =
      (All (λ p. p.vehicle_id ≢ id) d.points
        × All (λ l. l.vehicle_id ≢ id) d.locations
        × (latest_fix s d id ≡ none))
      ⊎ ((p : GpsPoint) × (l : VehicleCurrentLocation) × Member p d.points
          × (p.vehicle_id ≡ id)
          × Member l d.locations
          × (l.vehicle_id ≡ id)
          × (p.recorded_at ≡ l.recorded_at)
          × (latest_fix s d id ≡ some p))

  rows : List GpsPoint
  rows = s.order_by newest_first (s.select (λ p. p.vehicle_id == id) d.points)

  rows_perm : Permᴰ rows (filter (λ p. p.vehicle_id == id) d.points)
  unfolding rows
  rows_perm =
      Permᴰ.trans (s.order_by_perm newest_first (s.select (λ p. p.vehicle_id == id) d.points))
        (s.select_perm (λ p. p.vehicle_id == id) d.points)

  listed : (q : GpsPoint) → Member q d.points → q.vehicle_id ≡ id → Member q rows
  listed q m e =
      Member-perm q (Permᴰ-sym rows_perm)
        (filter-Member (λ p. p.vehicle_id == id) d.points q m ((==_iff q.vehicle_id id).1 e))

  found : (q : GpsPoint) → Member q rows → Member q d.points × (q.vehicle_id ≡ id)
  found q m =
      let (k, e) = Member-filter (λ p. p.vehicle_id == id) d.points q (Member-perm q rows_perm m) in
      (k, (==_iff q.vehicle_id id).0 e)

  ordered : Pairwise (λ a b. newest_first a b ≡ true) rows
  unfolding rows
  ordered = s.order_by_sorted newest_first _ newest_first-total newest_first_trans

  All-of : {A : Type 0} (P : A → Type 0) (xs : List A) → ((x : A) → Member x xs → P x) → All P xs
  All-of P [] h = tt
  All-of P (x ∷ xs) h = (h x (inl refl), All-of P xs (λ y m. h y (inr m)))

  no_fix : head? rows ≡ none → latest_fix s d id ≡ none → LatestEnds
  no_fix e f =
      let none_of : (p : GpsPoint) → Member p d.points → p.vehicle_id ≢ id =
        λ p m q. head-none rows p e (listed p m q) in
      inl (
        All-of (λ p. p.vehicle_id ≢ id) d.points none_of,
        All-of (λ l. l.vehicle_id ≢ id) d.locations
            (λ l m q.
              let (p, k, a, b) =
                recorded_point l d.points
                  (All-Member (λ l. IsRecorded l d.points) d.locations l v.tracked.recorded m) in
              none_of p k (a ∙ q)),
        f,
      )

  with_location : (p : GpsPoint) → head? rows ≡ some p → latest_fix s d id ≡ some p → LatestEnds
  with_location p e f =
      let (m, q) = found p (head-Member rows p e) in
      elim (Option-cases (get s location_key id d.locations)) [
        | inl g ↦ absurd (
            HasKey-absent location_key id d.locations
              (subst (λ k. HasKey location_key k d.locations) q
                (All-Member (λ x. HasKey location_key x.vehicle_id d.locations) d.points p
                  v.tracked.located m))
              (get-none s location_key id d.locations g))
        | inr (l, g) ↦
            let (n, z) = get-some s location_key id d.locations l g in
            let (b, k, same, at) =
              recorded_point l d.points
                (All-Member (λ l. IsRecorded l d.points) d.locations l v.tracked.recorded n) in
            let late : b.recorded_at ≤ p.recorded_at =
              head-latest rows p b ordered e (listed b k (same ∙ z)) in
            let newest : p.recorded_at ≤ l.recorded_at =
              All-Member (λ x. x.vehicle_id ≡ l.vehicle_id → x.recorded_at ≤ l.recorded_at) d.points
                p (All-Member (λ l. IsNewest l d.points) d.locations l v.tracked.newest n) m
                (q ∙ sym z) in
            inr (p, l, m, q, n, z, omega (arith, late, newest, at), f)
      ]

  -- In a valid database `latest_fix` finds none exactly for a vehicle without a fix and without a
  -- current location; else the current location has the same time as the fix that it finds.
  pub latest_fix_outcome : LatestEnds
  unfolding latest_fix rows
  latest_fix_outcome = elim (Option-cases (latest_fix s d id)) [
    | inl e ↦ no_fix e e
    | inr (p, e) ↦ with_location p e e
  ]
