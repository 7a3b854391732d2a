-- ===== src/Tracking/Me/History.antt =====
-- What a page of the history holds.
use fleet_tracking_backend.Prelude.{
  inl, inr, ℕ, zero, suc, ◌≤◌, ◌<◌, ◌≡◌, refl, ap, ◌∙◌, ◌⊎◌, Bool, true, false, not, some, List, [],
  ◌∷◌, ◌++◌, map, Permᴰ, Permᴰ-sym, arith, filter, length, take, drop, All, All-map, All-perm,
  All-take, Pairwise-map, perm-append, split_perm, All-filter_self, length-perm, Pairwise,
  length-take-le,
}
use fleet_tracking_backend.Errors.{ok}
use fleet_tracking_backend.Store.{Database, User, GpsPoint}
use fleet_tracking_backend.Store.Session.{Session}
use fleet_tracking_backend.Store.Query.{count-eq}
use fleet_tracking_backend.Tracking.Me.Window.{IsWindow, window-IsWindow}
use fleet_tracking_backend.Tracking.Me.{
  HistoryParams, get_history, history_for, page, window, in_window, oldest_first, point_out,
}

module _ {A : Type 0} where
  Pairwise-take :
      (R : A → A → Type 0) (n : ℕ) (xs : List A) → Pairwise R xs → Pairwise R (take n xs)
  Pairwise-take R zero xs h = tt
  Pairwise-take R (suc n) [] h = tt
  Pairwise-take R (suc n) (x ∷ xs) h = (All-take (R x) n xs h.0, Pairwise-take R n xs h.1)

  Pairwise-drop :
      (R : A → A → Type 0) (n : ℕ) (xs : List A) → Pairwise R xs → Pairwise R (drop n xs)
  Pairwise-drop R zero xs h = h
  Pairwise-drop R (suc n) [] h = tt
  Pairwise-drop R (suc n) (x ∷ xs) h = Pairwise-drop R n xs h.1

  -- A full prefix, or nothing after it.
  take-IsFull : (n : ℕ) (xs : List A) → (length (take n xs) ≡ n) ⊎ (drop n xs ≡ [])
  take-IsFull zero xs = inl refl
  take-IsFull (suc n) [] = inr refl
  take-IsFull (suc n) (x ∷ xs) = elim (take-IsFull n xs) [ inl e ↦ inl (ap suc e) | inr e ↦ inr e ]

  take-IsNil : (n : ℕ) (xs : List A) → xs ≡ [] → take n xs ≡ []
  take-IsNil zero xs e = refl
  take-IsNil (suc n) xs e = rw e

  take-append-drop : (n : ℕ) (xs : List A) → take n xs ++ drop n xs ≡ xs
  take-append-drop zero xs = refl
  take-append-drop (suc n) [] = refl
  take-append-drop (suc n) (x ∷ xs) = rw (take-append-drop n xs)

-- What the conditions of the query say.
abbrev pub IsWanted : ℕ → ℕ → ℕ → GpsPoint → Type 0
IsWanted vehicle from to p =
    (p.vehicle_id ≡ vehicle) × (from ≤ p.recorded_at) × (p.recorded_at ≤ to)

wanted :
    (vehicle from to : ℕ) (p : GpsPoint)
    → in_window vehicle from to p ≡ true
    → IsWanted vehicle from to p
unfolding in_window
wanted vehicle from to p e = ground arith

unwanted :
    (vehicle from to : ℕ) (p : GpsPoint)
    → in_window vehicle from to p ≡ false
    → ¬ IsWanted vehicle from to p
unfolding in_window
unwanted vehicle from to p e (a, b, c) = ground arith

-- The order of the answer: by time, and by number among fixes of one time.
abbrev pub IsEarlier : GpsPoint → GpsPoint → Type 0
IsEarlier p q = (p.recorded_at < q.recorded_at) ⊎ ((p.recorded_at ≡ q.recorded_at) × (p.id ≤ q.id))

earlier : (p q : GpsPoint) → oldest_first p q ≡ true → IsEarlier p q
unfolding oldest_first
earlier p q e = ground arith

refused : (b : Bool) → not b ≡ true → b ≡ false
refused b e = ground arith

oldest_first-total : (a b : GpsPoint) → (oldest_first a b ≡ true) ⊎ (oldest_first b a ≡ true)
unfolding oldest_first
oldest_first-total a b = ground arith

oldest_first_trans :
    (a b c : GpsPoint) → oldest_first a b ≡ true → oldest_first b c ≡ true → oldest_first a c ≡ true
unfolding oldest_first
oldest_first_trans a b c h k = ground arith

module _ (s : Session) (d : Database) (now : ℕ) (user : User) (params : HistoryParams) where
  -- What the history answers for a vehicle and a window.
  abbrev pub HistoryEnds : ℕ → ℕ → ℕ → Type 0
  HistoryEnds vehicle from to =
      (before : List GpsPoint) × (points : List GpsPoint) × (after : List GpsPoint) × (others : List
        GpsPoint)
      × (get_history s d now user params
          ≡ ok (record {
            vehicle_id = vehicle;
            count = length (before ++ (points ++ after));
            points =
                map
                  (λ p. record {
                    lat = p.lat;
                    lng = p.lng;
                    speed = p.speed;
                    recorded_at = p.recorded_at;
                  })
                  points;
          }))
      × Permᴰ ((before ++ (points ++ after)) ++ others) d.points
      × All (IsWanted vehicle from to) (before ++ (points ++ after))
      × All (λ p. ¬ IsWanted vehicle from to p) others
      × Pairwise IsEarlier (before ++ (points ++ after))
      × (length before ≤ params.offset)
      × (length points ≤ params.limit)
      × ((length before ≡ params.offset) ⊎ (points ≡ []))
      × ((length points ≡ params.limit) ⊎ (after ≡ []))

  -- For a user with a vehicle and a window that can be formed: the window ends at the given end or now
  -- and starts at the given start or 24 hours before its end. The stored fixes fall into those of that
  -- vehicle in the window, bounds included, and the others. The former, ordered by time and then by
  -- number, fall into those before the page, the page, and those after it. Before it are at most
  -- `offset`, and exactly `offset` unless the page is empty; on it are at most `limit`, and exactly
  -- `limit` unless nothing comes after it. The answer is the page, and the count is that of all three.
  pub get_history_outcome :
      (vehicle from to : ℕ)
      → user.vehicle_id ≡ some vehicle
      → window now params ≡ ok (from, to)
      → IsWindow now params from to × HistoryEnds vehicle from to
  unfolding get_history history_for page point_out
  get_history_outcome vehicle from to e f =
      let p = in_window vehicle from to in
      let others = filter (λ x. not (p x)) d.points in
      let rows = s.order_by oldest_first (s.select p d.points) in
      let perm : Permᴰ rows (filter p d.points) =
        Permᴰ.trans (s.order_by_perm oldest_first (s.select p d.points))
          (s.select_perm p d.points) in
      let later = drop params.offset rows in
      let joined : take params.offset rows ++ (take params.limit later ++ drop params.limit later)
          ≡ rows =
        ap (λ t. take params.offset rows ++ t) (take-append-drop params.limit later)
        ∙ take-append-drop params.offset rows in
      (
        window-IsWindow now params from to f,
        (
          take params.offset rows,
          take params.limit later,
          drop params.limit later,
          others,
          rw (e, f, joined, count-eq s p d.points, length-perm perm) refl,
          rw joined (Permᴰ.trans (perm-append others perm) (split_perm p d.points)),
          rw joined (
              All-perm (IsWanted vehicle from to) (Permᴰ-sym perm) (
                All-map (λ x. p x ≡ true) (IsWanted vehicle from to) (filter p d.points)
                  (wanted vehicle from to) (All-filter_self p d.points))),
          All-map (λ x. not (p x) ≡ true) (λ x. ¬ IsWanted vehicle from to x) others
              (λ x n. unwanted vehicle from to x (refused (p x) n))
              (All-filter_self (λ x. not (p x)) d.points),
          rw joined (
              Pairwise-map (λ a b. oldest_first a b ≡ true) IsEarlier earlier rows
                (s.order_by_sorted oldest_first (s.select p d.points) oldest_first-total
                  oldest_first_trans)),
          length-take-le params.offset rows,
          length-take-le params.limit later,
          elim (take-IsFull params.offset rows) [
            | inl full ↦ inl full
            | inr empty ↦ inr (take-IsNil params.limit later empty)
          ],
          take-IsFull params.limit later,
        ),
      )
