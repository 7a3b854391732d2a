-- ===== src/Invariant/Users.antt =====
-- The invariant under each change of the table users.
use fleet_tracking_backend.Prelude.{
  ℕ, ◌≡◌, ◌≢◌, refl, sym, subst, ap, Member, All-Member, inl, inr, Bool, false, Option, none, some,
  List, [], ◌∷◌, ◌++◌, arith, All, Pairwise, All-map, All-append_one, All-put_row, All-filter,
  put_row, delete_row, Pairwise-append_one, Pairwise-put_row, Pairwise-filter, not, ◌==◌,
}
use fleet_tracking_backend.Store.{Database, User, user_key, route_key, vehicle_key}
use fleet_tracking_backend.Store.Schema.{EmailDiffers, Refers, Schema}
use fleet_tracking_backend.Invariant.{IsValid, IsPaired, RouteApart, VehicleApart, shares}

abbrev IdDiffers : User → User → Type 0
IdDiffers x y = x.id ≢ y.id

pub shares_flip : (a b : Option ℕ) → shares a b ≡ false → shares b a ≡ false
shares_flip none none h = refl
shares_flip none (some k) h = refl
shares_flip (some j) none h = refl
shares_flip (some j) (some k) h = ground arith

pub shares-none : (a : Option ℕ) → shares a none ≡ false
shares-none none = refl
shares-none (some k) = refl

-- A row is related to each row with another key.
pub own_relation :
    (R : User → User → Type 0)
    → ((x y : User) → R x y → R y x)
    → (u : User) (users : List User) → Pairwise R users
    → Member u users
    → All (λ x. x.id ≢ u.id → R x u) users
own_relation R flip u [] h m = tt
own_relation R flip u (x ∷ users) h (inl e) = (
  λ ne. absurd (ne (sym (ap user_key e))),
  All-map (R x) (λ y. y.id ≢ u.id → R y u) users (λ y r _. flip u y (subst (λ z. R z y) (sym e) r))
      h.0,
)
own_relation R flip u (x ∷ users) h (inr m) =
    (λ _. All-Member (R x) users u h.0 m, own_relation R flip u users h.1 m)

module _ (d : Database) (v : IsValid d) where
  open d use {users}

  -- A new user without an assignment.
  pub IsValid-add_user :
      (u : User)
      → u.route_id ≡ none
      → u.vehicle_id ≡ none
      → All (λ x. x.id ≢ u.id) users
      → All (λ x. x.email ≢ u.email) users
      → IsValid (record d { users = users ++ u ∷ [] })
  IsValid-add_user u no_route no_vehicle new_id new_email = record {
    schema = record {
      users_ok = record {
        primary = Pairwise-append_one IdDiffers users u v.schema.users_ok.primary new_id;
        uq_email = Pairwise-append_one EmailDiffers users u v.schema.users_ok.uq_email new_email;
      };
      users_route =
          All-append_one (λ x. Refers route_key x.route_id d.routes) users u v.schema.users_route
            (rw no_route tt);
      users_vehicle =
          All-append_one (λ x. Refers vehicle_key x.vehicle_id d.vehicles) users u
            v.schema.users_vehicle (rw no_vehicle tt);
      routes_ok = v.schema.routes_ok;
      vehicles_ok = v.schema.vehicles_ok;
      points_primary = v.schema.points_primary;
      points_vehicle = v.schema.points_vehicle;
      locations_primary = v.schema.locations_primary;
      locations_vehicle = v.schema.locations_vehicle;
    };
    assigned = record {
      paired = All-append_one IsPaired users u v.assigned.paired (rw (no_route, no_vehicle));
      routes_apart = Pairwise-append_one RouteApart users u v.assigned.routes_apart (
          All-map (λ x. x.id ≢ u.id) (λ x. RouteApart x u) users
            (λ x _. rw no_route (shares-none x.route_id)) new_id);
      vehicles_apart = Pairwise-append_one VehicleApart users u v.assigned.vehicles_apart (
          All-map (λ x. x.id ≢ u.id) (λ x. VehicleApart x u) users
            (λ x _. rw no_vehicle (shares-none x.vehicle_id)) new_id);
    };
    tracked = v.tracked;
  }

  -- The declared constraints say nothing of exclusive assignments.
  pub Schema-put_user :
      (u : User)
      → All (λ x. x.id ≢ u.id → x.email ≢ u.email) users
      → Refers route_key u.route_id d.routes
      → Refers vehicle_key u.vehicle_id d.vehicles
      → Schema (record d { users = put_row user_key u users })
  Schema-put_user u new_email route vehicle = record {
    users_ok = record {
      primary =
          Pairwise-put_row user_key IdDiffers (λ x y ne e. ne (sym e)) u users
            v.schema.users_ok.primary v.schema.users_ok.primary
            (All-map (λ x. x.id ≢ u.id → x.email ≢ u.email) (λ x. x.id ≢ u.id → x.id ≢ u.id) users
              (λ x h ne. ne) new_email);
      uq_email =
          Pairwise-put_row user_key EmailDiffers (λ x y ne e. ne (sym e)) u users
            v.schema.users_ok.primary v.schema.users_ok.uq_email new_email;
    };
    users_route =
        All-put_row user_key (λ x. Refers route_key x.route_id d.routes) u users
          v.schema.users_route route;
    users_vehicle =
        All-put_row user_key (λ x. Refers vehicle_key x.vehicle_id d.vehicles) u users
          v.schema.users_vehicle vehicle;
    routes_ok = v.schema.routes_ok;
    vehicles_ok = v.schema.vehicles_ok;
    points_primary = v.schema.points_primary;
    points_vehicle = v.schema.points_vehicle;
    locations_primary = v.schema.locations_primary;
    locations_vehicle = v.schema.locations_vehicle;
  }

  pub IsValid-put_user :
      (u : User)
      → All (λ x. x.id ≢ u.id → x.email ≢ u.email) users
      → Refers route_key u.route_id d.routes
      → Refers vehicle_key u.vehicle_id d.vehicles
      → IsPaired u
      → All (λ x. x.id ≢ u.id → RouteApart x u) users
      → All (λ x. x.id ≢ u.id → VehicleApart x u) users
      → IsValid (record d { users = put_row user_key u users })
  IsValid-put_user u new_email route vehicle paired route_free vehicle_free = record {
    schema = Schema-put_user u new_email route vehicle;
    assigned = record {
      paired = All-put_row user_key IsPaired u users v.assigned.paired paired;
      routes_apart =
          Pairwise-put_row user_key RouteApart (λ x y. shares_flip x.route_id y.route_id) u users
            v.schema.users_ok.primary v.assigned.routes_apart route_free;
      vehicles_apart =
          Pairwise-put_row user_key VehicleApart (λ x y. shares_flip x.vehicle_id y.vehicle_id) u
            users v.schema.users_ok.primary v.assigned.vehicles_apart vehicle_free;
    };
    tracked = v.tracked;
  }

  pub IsValid-delete_user : (k : ℕ) → IsValid (record d { users = delete_row user_key k users })
  IsValid-delete_user k = record {
    schema = record {
      users_ok = record {
        primary = Pairwise-filter IdDiffers kept users v.schema.users_ok.primary;
        uq_email = Pairwise-filter EmailDiffers kept users v.schema.users_ok.uq_email;
      };
      users_route =
          All-filter (λ x. Refers route_key x.route_id d.routes) kept users v.schema.users_route;
      users_vehicle =
          All-filter (λ x. Refers vehicle_key x.vehicle_id d.vehicles) kept users
            v.schema.users_vehicle;
      routes_ok = v.schema.routes_ok;
      vehicles_ok = v.schema.vehicles_ok;
      points_primary = v.schema.points_primary;
      points_vehicle = v.schema.points_vehicle;
      locations_primary = v.schema.locations_primary;
      locations_vehicle = v.schema.locations_vehicle;
    };
    assigned = record {
      paired = All-filter IsPaired kept users v.assigned.paired;
      routes_apart = Pairwise-filter RouteApart kept users v.assigned.routes_apart;
      vehicles_apart = Pairwise-filter VehicleApart kept users v.assigned.vehicles_apart;
    };
    tracked = v.tracked;
  }
    where
      kept : User → Bool
      kept x = not (x.id == k)
