-- ===== src/Admin/Users/Outcomes.antt =====
-- How each request about users ends; the assignment has a module of its own.
use fleet_tracking_backend.Prelude.{
  ℕ, String, ◌≡◌, ◌≢◌, refl, ap, ◌⊎◌, inl, inr, none, [], ◌∷◌, ◌++◌, ◌==str◌, eq_iff, arith, All,
  All-map, All-Member, Member, put_row, delete_row, Option-cases, Bool-cases, ◌∙◌,
}
use fleet_tracking_backend.Errors.{Result, ok, err, raise, num, integrity_error}
use fleet_tracking_backend.Store.{Database, User, Assigned, user_key, route_key, vehicle_key}
use fleet_tracking_backend.Store.Schema.{Refers}
use fleet_tracking_backend.Store.Session.{Session, get, commit}
use fleet_tracking_backend.Store.Query.{get-none, get-some}
use fleet_tracking_backend.Store.Lookup.{scalar-text, own_value}
use fleet_tracking_backend.Invariant.{IsValid, IsPaired, RouteApart, VehicleApart}
use fleet_tracking_backend.Invariant.Commits.{commit-ok}
use fleet_tracking_backend.Invariant.Users.{
  IsValid-add_user, IsValid-put_user, IsValid-delete_user, own_relation, shares_flip,
}
use fleet_tracking_backend.Auth.Passwords.{Hasher, hash_password}
use fleet_tracking_backend.Admin.{Field, unset, null, value, not_found, not_null, unless_null}
use fleet_tracking_backend.Admin.Users.{
  UserCreate, UserUpdate, email_taken, new_user, rehashed, has_email, create_user, get_user,
  update_user, patch_user, remove_user,
}

module _ (s : Session) (d : Database) (v : IsValid d) where
  -- How a DELETE of a user ends.
  abbrev pub RemoveEnds : ℕ → Type 0
  RemoveEnds id =
      let d' = record d { users = delete_row user_key id d.users } in
      (All (λ x. x.id ≢ id) d.users
        × (remove_user s d id ≡ raise (not_found "User " (num id) "user_not_found")))
      ⊎ ((u : User) × Member u d.users × (u.id ≡ id) × (remove_user s d id ≡ ok d') × IsValid d')

  -- DELETE of a user: a missing user is `user_not_found`; any other user is deleted, assigned or not,
  -- and the database stays valid.
  pub remove_user_outcome : (id : ℕ) → RemoveEnds id
  unfolding remove_user get_user
  remove_user_outcome id = elim (Option-cases (get s user_key id d.users)) [
    | inl e ↦ inl (get-none s user_key id d.users e, rw e)
    | inr (u, e) ↦
        let (m, q) = get-some s user_key id d.users u e in
        let valid = IsValid-delete_user d v id in
        inr (u, m, q, rw (e, q) (commit-ok s _ valid.schema), valid)
  ]

  module _ (h : Hasher) (salt : ℕ) where
    -- The account that is asked for: the hash of its password, and no assignment.
    abbrev account : Assigned → UserCreate → User
    account a body = record {
      id = a.id;
      email = body.email;
      hashed_password = h.hash salt body.password;
      is_admin = body.is_admin;
      route_id = none;
      vehicle_id = none;
      created_at = a.now;
    }

    -- How `create_user` ends.
    abbrev pub CreateEnds : Assigned → UserCreate → Type 0
    CreateEnds a body =
        let d' = record d { users = d.users ++ account a body ∷ [] } in
        (All (λ x. x.email ≢ body.email) d.users
          × (create_user s h salt d a body ≡ ok (account a body, d'))
          × IsValid d')
        ⊎ ((x : User) × Member x d.users
            × (x.email ≡ body.email)
            × (create_user s h salt d a body ≡ raise (email_taken body.email)))

    -- The new user, with the email and the role of the body, the hash of its password and no
    -- assignment, is stored exactly if no user has the email; else the request ends in the conflict `email_taken`. It never ends in an IntegrityError.
    pub create_user_outcome :
        (a : Assigned) (body : UserCreate) → All (λ x. x.id ≢ a.id) d.users → CreateEnds a body
    unfolding create_user has_email new_user hash_password
    create_user_outcome a body new_id = elim (scalar-text s (λ x. x.email) body.email d.users) [
      | inl (e, free) ↦
          let valid = IsValid-add_user d v (account a body) refl refl new_id free in
          inl (free, rw (e, commit-ok s _ valid.schema), valid)
      | inr (x, e, m, q) ↦ inr (x, m, q, rw e)
    ]

    -- The row that an update writes.
    abbrev changed : User → UserUpdate → String → User
    changed u body email = record u {
      email = email;
      hashed_password = rehashed h salt body.password u.hashed_password;
      is_admin = unless_null body.is_admin u.is_admin;
    }

    abbrev stored : User → Database
    stored u = record d { users = put_row user_key u d.users }

    -- How an update of a stored user ends.
    abbrev pub Updates : User → UserUpdate → Result (User × Database) → Type 0
    Updates u body result =
        ((body.email ≡ null) × (result ≡ err integrity_error))
        ⊎ ((email : String) × (x : User) × (body.email ≡ value email)
            × (u.email ≢ email)
            × Member x d.users
            × (x.email ≡ email)
            × (result ≡ raise (email_taken email)))
        ⊎ ((email : String) × ((body.email ≡ value email)
              ⊎ ((body.email ≡ unset) × (email ≡ u.email)))
            × (result ≡ ok (changed u body email, stored (changed u body email)))
            × IsValid (stored (changed u body email)))

    store_user :
        (u : User) (body : UserUpdate) (email : String)
        → Member u d.users
        → All (λ x. x.id ≢ u.id → x.email ≢ email) d.users
        → IsValid (stored (changed u body email))
          × (commit s (stored (changed u body email)) ≡ ok (stored (changed u body email)))
    store_user u body email m free =
        let valid =
          IsValid-put_user d v (changed u body email) free
            (All-Member (λ x. Refers route_key x.route_id d.routes) d.users u v.schema.users_route
              m)
            (All-Member (λ x. Refers vehicle_key x.vehicle_id d.vehicles) d.users u
              v.schema.users_vehicle m)
            (All-Member IsPaired d.users u v.assigned.paired m)
            (own_relation RouteApart (λ x y. shares_flip x.route_id y.route_id) u d.users
              v.assigned.routes_apart m)
            (own_relation VehicleApart (λ x y. shares_flip x.vehicle_id y.vehicle_id) u d.users
              v.assigned.vehicles_apart m) in
        (valid, commit-ok s _ valid.schema)

    own_email : (u : User) → Member u d.users → All (λ x. x.id ≢ u.id → x.email ≢ u.email) d.users
    own_email u m = own_value user_key (λ x. x.email) u d.users v.schema.users_ok.uq_email m

    update_user_outcome :
        (u : User) (body : UserUpdate)
        → Member u d.users
        → (field : Field String) → body.email ≡ field
        → Updates u body (update_user s h salt d u body)
    unfolding update_user has_email not_null
    update_user_outcome u body m unset e =
        let (valid, done) = store_user u body u.email m (own_email u m) in
        inr (inr (u.email, inr (e, refl), rw (e, done), valid))
    update_user_outcome u body m null e = inl (e, rw e)
    update_user_outcome u body m (value email) e = elim (Bool-cases (email ==str u.email)) [
      | inl same ↦
          let (valid, done) = store_user u body u.email m (own_email u m) in
          let q : email ≡ u.email = (eq_iff email u.email).0 same in
          inr (inr (u.email, inl (e ∙ ap value q), rw (e, same, done), valid))
      | inr other ↦ elim (scalar-text s (λ x. x.email) email d.users) [
        | inl (clash, free) ↦
            let (valid, done) = store_user u body email m (
              All-map (λ x. x.email ≢ email) (λ x. x.id ≢ u.id → x.email ≢ email) d.users
                (λ x ne _. ne) free) in
            inr (inr (email, inl e, rw (e, other, clash, done), valid))
        | inr (x, clash, k, q) ↦ inr (
            inl (
              email,
              x,
              e,
              (λ z. ground (arith, eq_iff email u.email)),
              k,
              q,
              rw (e, other, clash),
            ))
      ]
    ]

    -- How a PATCH of a user ends.
    abbrev pub PatchEnds : ℕ → UserUpdate → Type 0
    PatchEnds id body =
        (All (λ x. x.id ≢ id) d.users
          × (patch_user s h salt d id body ≡ raise (not_found "User " (num id) "user_not_found")))
        ⊎ ((u : User) × Member u d.users
            × (u.id ≡ id)
            × Updates u body (patch_user s h salt d id body))

    -- PATCH of a user: a missing user is `user_not_found`; a body whose email is null ends in an
    -- IntegrityError; an email that another user has is `email_taken`; in every other case the row is
    -- replaced, the assignment is kept, and the database stays valid.
    pub patch_user_outcome : (id : ℕ) (body : UserUpdate) → PatchEnds id body
    unfolding patch_user get_user
    patch_user_outcome id body = elim (Option-cases (get s user_key id d.users)) [
      | inl e ↦ inl (get-none s user_key id d.users e, rw e)
      | inr (u, e) ↦
          let (m, q) = get-some s user_key id d.users u e in
          inr (u, m, q, rw e (update_user_outcome u body m body.email refl))
    ]
