-- ===== src/Examples/Constraints.antt =====
-- The declared constraints as a test, for the COMMIT of the reference session.
use fleet_tracking_backend.Prelude.{
  ℕ, String, ◌≡◌, ◌≢◌, refl, Bool, true, false, not, ◌&&◌, ◌||◌, ◌⊎◌, inl, inr, ◌↔◌, Option, none,
  some, List, [], ◌∷◌, All, Pairwise, HasKey, ◌==◌, ==_iff, ◌==str◌, eq_iff,
}
use fleet_tracking_backend.Store.{
  Database, route_key, vehicle_key, user_key, point_key, location_key,
}
use fleet_tracking_backend.Store.Schema.{Schema, Refers, NameDiffers, CodeDiffers, EmailDiffers}

-- A test decides a statement.
abbrev pub Decides : Bool → Type 0 → Type 0
Decides b P = (b ≡ true) ↔ P

and-Decides : {P Q : Type 0} (a b : Bool) → Decides a P → Decides b Q → Decides (a && b) (P × Q)
and-Decides true b p q = ((λ h. (p.0 refl, q.0 h)), (λ h. q.1 h.1))
and-Decides false b p q = ((λ h. cc), (λ h. absurd (cc (p.1 h.0))))

or-Decides : {P Q : Type 0} (a b : Bool) → Decides a P → Decides b Q → Decides (a || b) (P ⊎ Q)
or-Decides true b p q = ((λ h. inl (p.0 refl)), (λ h. refl))
or-Decides false b p q = ((λ h. inr (q.0 h)), (λ h. elim h [ inl x ↦ cc (p.1 x) | inr y ↦ q.1 y ]))

not-Decides : {P : Type 0} (a : Bool) → Decides a P → Decides (not a) (¬ P)
not-Decides true p = ((λ h. cc), (λ h. absurd (h (p.0 refl))))
not-Decides false p = ((λ h x. cc (p.1 x)), (λ h. refl))

module _ {A : Type 0} where
  unfoldable pub all_b : (A → Bool) → List A → Bool
  all_b p [] = true
  all_b p (x ∷ xs) = p x && all_b p xs

  unfoldable pub pairwise_b : (A → A → Bool) → List A → Bool
  unfolding all_b
  pairwise_b r [] = true
  pairwise_b r (x ∷ xs) = all_b (r x) xs && pairwise_b r xs

  unfoldable pub has_key_b : (A → ℕ) → ℕ → List A → Bool
  has_key_b key k [] = false
  has_key_b key k (x ∷ xs) = key x == k || has_key_b key k xs

  unfoldable pub refers_b : (A → ℕ) → Option ℕ → List A → Bool
  unfolding has_key_b
  refers_b key none xs = true
  refers_b key (some k) xs = has_key_b key k xs

  All-Decides :
      (p : A → Bool) (P : A → Type 0)
      → ((x : A) → Decides (p x) (P x))
      → (xs : List A) → Decides (all_b p xs) (All P xs)
  unfolding all_b
  All-Decides p P d [] = ((λ h. tt), (λ h. refl))
  All-Decides p P d (x ∷ xs) = and-Decides (p x) (all_b p xs) (d x) (All-Decides p P d xs)

  Pairwise-Decides :
      (r : A → A → Bool) (R : A → A → Type 0)
      → ((x y : A) → Decides (r x y) (R x y))
      → (xs : List A) → Decides (pairwise_b r xs) (Pairwise R xs)
  unfolding pairwise_b
  Pairwise-Decides r R d [] = ((λ h. tt), (λ h. refl))
  Pairwise-Decides r R d (x ∷ xs) =
      and-Decides (all_b (r x) xs) (pairwise_b r xs) (All-Decides (r x) (R x) (d x) xs)
        (Pairwise-Decides r R d xs)

  HasKey-Decides :
      (key : A → ℕ) (k : ℕ) (xs : List A) → Decides (has_key_b key k xs) (HasKey key k xs)
  unfolding has_key_b
  HasKey-Decides key k [] = ((λ h. cc), (λ h. elim h [ ]))
  HasKey-Decides key k (x ∷ xs) =
      or-Decides (key x == k) (has_key_b key k xs) (==_iff (key x) k) (HasKey-Decides key k xs)

  Refers-Decides :
      (key : A → ℕ) (o : Option ℕ) (xs : List A) → Decides (refers_b key o xs) (Refers key o xs)
  unfolding refers_b
  Refers-Decides key none xs = ((λ h. tt), (λ h. refl))
  Refers-Decides key (some k) xs = HasKey-Decides key k xs

  unfoldable pub unique_b : (A → ℕ) → List A → Bool
  unfolding pairwise_b
  unique_b key = pairwise_b λ x y. not (key x == key y)

  unique-Decides :
      (key : A → ℕ) (xs : List A) → Decides (unique_b key xs) (Pairwise (λ x y. key x ≢ key y) xs)
  unfolding unique_b
  unique-Decides key xs =
      Pairwise-Decides (λ x y. not (key x == key y)) (λ x y. key x ≢ key y)
        (λ x y. not-Decides (key x == key y) (==_iff (key x) (key y))) xs

  unfoldable pub distinct_b : (A → String) → List A → Bool
  unfolding pairwise_b
  distinct_b field = pairwise_b λ x y. not (field x ==str field y)

  distinct-Decides :
      (field : A → String) (xs : List A)
      → Decides (distinct_b field xs) (Pairwise (λ x y. field x ≢ field y) xs)
  unfolding distinct_b
  distinct-Decides field xs =
      Pairwise-Decides (λ x y. not (field x ==str field y)) (λ x y. field x ≢ field y)
        (λ x y. not-Decides (field x ==str field y) (eq_iff (field x) (field y))) xs

unfoldable pub schema_b : Database → Bool
unfolding unique_b distinct_b all_b refers_b has_key_b
schema_b d =
    (unique_b route_key d.routes && distinct_b (λ r. r.name) d.routes)
    && ((unique_b vehicle_key d.vehicles && distinct_b (λ v. v.code) d.vehicles)
        && ((unique_b user_key d.users && distinct_b (λ u. u.email) d.users)
            && (all_b (λ u. refers_b route_key u.route_id d.routes) d.users
                && (all_b (λ u. refers_b vehicle_key u.vehicle_id d.vehicles) d.users
                    && (unique_b point_key d.points
                        && (all_b (λ p. has_key_b vehicle_key p.vehicle_id d.vehicles) d.points
                            && (unique_b location_key d.locations
                                && all_b (λ l. has_key_b vehicle_key l.vehicle_id d.vehicles)
                                    d.locations)))))))

-- The same constraints, in the order of the test.
abbrev Constraints : Database → Type 0
Constraints d =
    (Pairwise (λ x y. x.id ≢ y.id) d.routes × Pairwise NameDiffers d.routes)
    × ((Pairwise (λ x y. x.id ≢ y.id) d.vehicles × Pairwise CodeDiffers d.vehicles)
        × ((Pairwise (λ x y. x.id ≢ y.id) d.users × Pairwise EmailDiffers d.users)
            × (All (λ u. Refers route_key u.route_id d.routes) d.users
                × (All (λ u. Refers vehicle_key u.vehicle_id d.vehicles) d.users
                    × (Pairwise (λ x y. x.id ≢ y.id) d.points
                        × (All (λ p. HasKey vehicle_key p.vehicle_id d.vehicles) d.points
                            × (Pairwise (λ x y. x.vehicle_id ≢ y.vehicle_id) d.locations
                                × All (λ l. HasKey vehicle_key l.vehicle_id d.vehicles)
                                    d.locations)))))))

Constraints-Decides : (d : Database) → Decides (schema_b d) (Constraints d)
unfolding schema_b
Constraints-Decides d =
    and-Decides _ _
      (and-Decides _ _ (unique-Decides route_key d.routes)
        (distinct-Decides (λ r. r.name) d.routes))
      (and-Decides _ _
        (and-Decides _ _ (unique-Decides vehicle_key d.vehicles)
          (distinct-Decides (λ v. v.code) d.vehicles))
        (and-Decides _ _
          (and-Decides _ _ (unique-Decides user_key d.users)
            (distinct-Decides (λ u. u.email) d.users))
          (and-Decides _ _
            (All-Decides _ (λ u. Refers route_key u.route_id d.routes)
              (λ u. Refers-Decides route_key u.route_id d.routes) d.users)
            (and-Decides _ _
              (All-Decides _ (λ u. Refers vehicle_key u.vehicle_id d.vehicles)
                (λ u. Refers-Decides vehicle_key u.vehicle_id d.vehicles) d.users)
              (and-Decides _ _ (unique-Decides point_key d.points) (
                and-Decides _ _
                  (All-Decides _ (λ p. HasKey vehicle_key p.vehicle_id d.vehicles)
                    (λ p. HasKey-Decides vehicle_key p.vehicle_id d.vehicles) d.points)
                  (and-Decides _ _ (unique-Decides location_key d.locations) (
                    All-Decides _ (λ l. HasKey vehicle_key l.vehicle_id d.vehicles)
                      (λ l. HasKey-Decides vehicle_key l.vehicle_id d.vehicles) d.locations))))))))

pub Schema-Decides : (d : Database) → Decides (schema_b d) (Schema d)
Schema-Decides d = (
  (λ h.
      let c = (Constraints-Decides d).0 h in
      record {
        routes_ok = record { primary = c.0.0; uq_name = c.0.1 };
        vehicles_ok = record { primary = c.1.0.0; uq_code = c.1.0.1 };
        users_ok = record { primary = c.1.1.0.0; uq_email = c.1.1.0.1 };
        users_route = c.1.1.1.0;
        users_vehicle = c.1.1.1.1.0;
        points_primary = c.1.1.1.1.1.0;
        points_vehicle = c.1.1.1.1.1.1.0;
        locations_primary = c.1.1.1.1.1.1.1.0;
        locations_vehicle = c.1.1.1.1.1.1.1.1;
      }),
  (λ h. (Constraints-Decides d).1 (
    (h.routes_ok.primary, h.routes_ok.uq_name),
    (
      (h.vehicles_ok.primary, h.vehicles_ok.uq_code),
      (
        (h.users_ok.primary, h.users_ok.uq_email),
        (
          h.users_route,
          (
            h.users_vehicle,
            (h.points_primary, (h.points_vehicle, (h.locations_primary, h.locations_vehicle))),
          ),
        ),
      ),
    ),
  )),
)
