-- ===== src/Simulator/Walk/Path.antt =====
-- Where a walker stands: the position that it reports lies as far along the polyline as it has walked.
use fleet_tracking_backend.Prelude.{
  ℕ, suc, ◌+◌, ◌-◌, ◌*◌, ◌≤◌, ◌<◌, ◌≡◌, refl, sym, ap, ◌∙◌, subst, inl, inr, false, Option, some,
  List, [], ◌∷◌, ◌++◌, length, ltb, leb, leb→le, arith, Bool-cases,
}
use fleet_tracking_backend.Prelude.Int.{ℤ, pos, negsuc}
use fleet_tracking_backend.Store.{Waypoint}
use fleet_tracking_backend.Simulator.Walk.{
  Direction, forward, backward, BusWalker, Position, at_waypoint, between, get_elem?, last?,
  bisect_right, min, segment_at, position_at, total_of, total_m, stepped, clamped, advance, segment,
  segment_index, position, sums, cumulative_of,
}

module _ (haversine : Waypoint → Waypoint → ℕ) where
  -- The length of a polyline.
  abbrev pub path_length : List Waypoint → ℕ
  path_length [] = 0
  path_length (a ∷ []) = 0
  path_length (a ∷ b ∷ ws) = haversine a b + path_length (b ∷ ws)

  last-sums :
      (t : ℕ) (a : Waypoint) (ws : List Waypoint)
      → last? (sums haversine t a ws) ≡ some (t + path_length (a ∷ ws))
  unfolding last? sums
  last-sums t a [] = ap some (omega arith)
  last-sums t a (b ∷ []) = ap some (omega arith)
  last-sums t a (b ∷ c ∷ ws) = last-sums (t + haversine a b) b (c ∷ ws) ∙ ap some (omega arith)

  -- The segment of a distance that is less than the whole: its number, its ends, and the sums there.
  data Located (t : ℕ) (a : Waypoint) (ws : List Waypoint) (x : ℕ) : Type 0 where
    located :
        (k : ℕ) (front back : List Waypoint) (p q : Waypoint) (start : ℕ)
        → a ∷ ws ≡ front ++ p ∷ q ∷ back
        → start ≡ t + path_length (front ++ p ∷ [])
        → start ≤ x
        → x < start + haversine p q
        → bisect_right (sums haversine t a ws) x ≡ suc k
        → suc k < length (a ∷ ws)
        → get_elem? (a ∷ ws) k ≡ some p
        → get_elem? (a ∷ ws) (suc k) ≡ some q
        → get_elem? (sums haversine t a ws) k ≡ some start
        → get_elem? (sums haversine t a ws) (suc k) ≡ some (start + haversine p q)
        → Located t a ws x

  head-sums :
      (t : ℕ) (a : Waypoint) (ws : List Waypoint) → get_elem? (sums haversine t a ws) 0 ≡ some t
  unfolding get_elem? sums
  head-sums t a [] = refl
  head-sums t a (b ∷ ws) = refl

  bisect-below :
      (t : ℕ) (a : Waypoint) (ws : List Waypoint) (x : ℕ)
      → x < t
      → bisect_right (sums haversine t a ws) x ≡ 0
  unfolding bisect_right sums
  bisect-below t a [] x h = ground arith
  bisect-below t a (b ∷ ws) x h = ground arith

  bisect-above :
      (t : ℕ) (ts : List ℕ) (x : ℕ) → t ≤ x → bisect_right (t ∷ ts) x ≡ suc (bisect_right ts x)
  unfolding bisect_right
  bisect-above t ts x h = ground arith

  cons_head : {a b : Waypoint} {us vs : List Waypoint} → a ∷ us ≡ b ∷ vs → a ≡ b
  cons_head e = cc

  path-cons :
      (a b : Waypoint) (ws front back : List Waypoint) (p q : Waypoint)
      → b ∷ ws ≡ front ++ p ∷ q ∷ back
      → path_length (a ∷ front ++ p ∷ []) ≡ haversine a b + path_length (front ++ p ∷ [])
  path-cons a b ws [] back p q e = rw (cons_head e) refl
  path-cons a b ws (c ∷ []) back p q e = rw (cons_head e) refl
  path-cons a b ws (c ∷ d ∷ front) back p q e = rw (cons_head e) refl

  further :
      (t : ℕ) (a b : Waypoint) (ws : List Waypoint) (x : ℕ)
      → t ≤ x
      → Located (t + haversine a b) b ws x
      → Located t a (b ∷ ws) x
  unfolding bisect_right sums get_elem?
  further t a b ws x h (located k front back p q start e f g i j l m n o r) =
      let ahead = path-cons a b ws front back p q e in
      located (suc k) (a ∷ front) back p q start (ap (◌∷◌ a) e) (f ∙ omega (arith, ahead)) g i
        (bisect-above t _ x h ∙ ap suc j) (omega arith) m n o r

  locate :
      (t : ℕ) (a : Waypoint) (ws : List Waypoint) (x : ℕ)
      → t ≤ x
      → x < t + path_length (a ∷ ws)
      → Located t a ws x
  unfolding bisect_right sums get_elem?
  locate t a [] x h k = absurd (omega arith)
  locate t a (b ∷ ws) x h k = elim (Bool-cases (ltb x (t + haversine a b))) [
    | inl e ↦
        let below : x < t + haversine a b = ground arith in
        located 0 [] ws a b t refl (omega arith) h below
          (bisect-above t _ x h ∙ ap suc (bisect-below _ b ws x below)) (omega arith) refl refl refl
          (head-sums _ b ws)
    | inr e ↦
        let above : t + haversine a b ≤ x = ground arith in
        further t a b ws x h (locate (t + haversine a b) b ws x above (omega arith))
  ]

  -- A walker as `BusWalker(...)` makes it, and as it stays.
  pub record IsWalker (w : BusWalker) : Type 0 where
    pub two : 2 ≤ length w.waypoints
    pub summed : w.cumulative ≡ cumulative_of haversine w.waypoints

  -- The position lies on the polyline, as far along it as the distance says.
  abbrev pub OnPath : List Waypoint → ℕ → Position → Type 0
  OnPath ws x (at_waypoint a) = (last? ws ≡ some a) × (path_length ws ≤ x)
  OnPath ws x (between p q part whole) =
      (front : List Waypoint) × (back : List Waypoint) × (ws ≡ front ++ p ∷ q ∷ back)
      × (whole ≡ haversine p q)
      × (part < whole)
      × (x ≡ path_length (front ++ p ∷ []) + part)

  abbrev pub Stands : List Waypoint → ℕ → Option Position → Type 0
  Stands ws x o = (p : Position) × (o ≡ some p) × OnPath ws x p

  total_lem :
      (ws : List Waypoint) → 2 ≤ length ws → total_of (cumulative_of haversine ws) ≡ path_length ws
  unfolding total_of cumulative_of
  total_lem [] h = absurd (omega arith)
  total_lem (a ∷ ws) h = rw (total_of, last-sums 0 a ws) (omega arith)

  last_some : (a : Waypoint) (ws : List Waypoint) → (b : Waypoint) × (last? (a ∷ ws) ≡ some b)
  unfolding last?
  last_some a [] = (a, refl)
  last_some a (b ∷ ws) = last_some b ws

  index_lem : (k b n : ℕ) → b ≡ suc k → suc k < n → min (b - 1) (n - 2) ≡ k
  unfolding min
  index_lem k b n e h = ground arith

  not_far : (t x n : ℕ) → leb t x ≡ false → t ≡ n → x < n
  not_far t x n e f = ground arith

  Stands-Located :
      (a : Waypoint) (ws : List Waypoint) (x : ℕ)
      → Located 0 a ws x
      → let ts = sums haversine 0 a ws in
        Stands (a ∷ ws) x (segment_at (a ∷ ws) ts x (segment_index (a ∷ ws) ts x))
  unfolding segment_at segment segment_index
  Stands-Located a ws x (located k front back p q start g h i j l m n o r z) = (
    between p q (x - start) (start + haversine p q - start),
    rw (index_lem k _ (length (a ∷ ws)) l m, n, o, r, z) refl,
    (front, back, g, omega arith, omega (arith, i, j), omega (arith, h, i)),
  )

  pub stands_lem :
      (ws : List Waypoint) (x : ℕ)
      → 2 ≤ length ws
      → Stands ws x (position_at ws (cumulative_of haversine ws) x)
  unfolding position_at cumulative_of
  stands_lem [] x h = absurd (omega arith)
  stands_lem (a ∷ ws) x h =
      let whole = total_lem (a ∷ ws) h in
      elim (Bool-cases (leb (total_of (sums haversine 0 a ws)) x)) [
        | inl far ↦
            let (b, last) = last_some a ws in
            let past : path_length (a ∷ ws) ≤ x = rw (← whole) (leb→le _ _ far) in
            rw (far, last) (at_waypoint b, refl, (last, past))
        | inr near ↦ rw near (
            Stands-Located a ws x
              (locate 0 a ws x (omega arith) (omega (arith, not_far _ x _ near whole))))
      ]

  clamped_le : (total : ℕ) (dir : Direction) (z : ℤ) → (clamped total dir z).0 ≤ total
  unfolding clamped
  clamped_le total dir (pos n) = ground arith
  clamped_le total dir (negsuc n) = omega arith

  -- The distance changes by at most one step.
  abbrev pub Near : ℕ → ℕ → ℕ → Type 0
  Near x y step = (y ≤ x + step) × (x ≤ y + step)

  clamped-Near :
      (total x step : ℕ) (dir : Direction)
      → x ≤ total
      → Near x (clamped total dir (stepped dir x step)).0 step
  unfolding clamped stepped
  clamped-Near total x step forward h = ground arith
  clamped-Near total x step backward h = ground arith

  -- A bus that moves, at whatever speed and for whatever time, stays the walker of its route. It then
  -- stands between the two ends, no further from where it was than the speed allows, if that was
  -- between the ends too; and the position that it reports is the end or a point of a segment of the
  -- route that lies exactly as far along the route as the bus has come.
  pub advance-position :
      (w : BusWalker) (speed dt : ℕ)
      → IsWalker w
      → let w' = advance w speed dt in
        IsWalker w'
        × (w'.waypoints ≡ w.waypoints)
        × (w'.distance ≤ path_length w.waypoints)
        × (w.distance ≤ path_length w.waypoints → Near w.distance w'.distance (speed * dt))
        × Stands w.waypoints w'.distance (position w')
  unfolding advance total_m position
  advance-position w speed dt k =
      let whole : total_of w.cumulative ≡ path_length w.waypoints =
        ap total_of k.summed ∙ total_lem w.waypoints k.two in
      let x =
        (clamped (total_of w.cumulative) w.direction
          (stepped w.direction w.distance (speed * dt))).0 in
      (
        record { two = k.two; summed = k.summed },
        refl,
        omega (
          arith,
          clamped_le (total_of w.cumulative) w.direction
              (stepped w.direction w.distance (speed * dt)),
          whole,
        ),
        (λ h.
            clamped-Near (total_of w.cumulative) w.distance (speed * dt) w.direction
              (omega (arith, h, whole))),
        subst (λ ts. Stands w.waypoints x (position_at w.waypoints ts x)) (sym k.summed)
            (stands_lem w.waypoints x k.two),
      )
