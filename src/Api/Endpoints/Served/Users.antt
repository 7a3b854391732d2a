-- ===== src/Api/Endpoints/Served/Users.antt =====
-- The operations on users, and the assignment.
use fleet_tracking_backend.Prelude.{
  ℕ, String, ◌⊎◌, ◌≡◌, refl, sym, ◌∙◌, inl, inr, true, none, some, List, All, All-append_one,
  put_row, All-put_row, All-filter, All-map, All-Member, Member, Option-cases, is_some, leb, not,
  ◌==◌,
}
use fleet_tracking_backend.Store.{Database, User, user_key}
use fleet_tracking_backend.Store.Session.{Session, get}
use fleet_tracking_backend.Store.Query.{get-some}
use fleet_tracking_backend.Auth.Passwords.{Hasher}
use fleet_tracking_backend.Mqtt.Topic.{Text}
use fleet_tracking_backend.Mqtt.Payload.{Decoder}
use fleet_tracking_backend.Admin.{Field, unset, null, value, unless_null}
use fleet_tracking_backend.Admin.Users.{
  UserCreate, UserUpdate, list_users, get_user, new_user, rehashed,
}
use fleet_tracking_backend.Admin.Users.Outcomes.{
  create_user_outcome, patch_user_outcome, remove_user_outcome,
}
use fleet_tracking_backend.Admin.Assignment.{AssignmentUpdate, pair_is_complete}
use fleet_tracking_backend.Admin.Assignment.Outcomes.{set_assignment_outcome, paired_with}
use fleet_tracking_backend.Invariant.{IsValid}
use fleet_tracking_backend.Serving.{user_created, user_patched, user_removed, assignment_set}
use fleet_tracking_backend.Api.Responses.{EmailCheck, render, user_out}
use fleet_tracking_backend.Api.Shape.{
  IsShaped, IsShapedUser, listed_lem, each_some, is_some-option_map, user_out_some,
}
use fleet_tracking_backend.Api.Inputs.{
  Call, post_user, list_all_users, read_user, change_user, drop_user, put_assignment,
}
use fleet_tracking_backend.Api.Endpoints.{serve, changing, reading, deleting}
use fleet_tracking_backend.Api.Endpoints.Served.{IsFresh, IsServed}

-- The address of a PATCH, where it gives one, is a normal form.
abbrev pub IsNormalField : EmailCheck → Field String → Type 0
IsNormalField email unset = Unit
IsNormalField email null = Unit
IsNormalField email (value text) = email.normalize text ≡ some text

module _ (s : Session) (h : Hasher) (c : Decoder) (prefix : Text) (email : EmailCheck) where
  module _ (d : Database) (v : IsValid d) (shaped : IsShaped email d) where
    with_users :
        (us : List User) → All (IsShapedUser email) us → IsShaped email (record d { users = us })
    with_users us a = record { routes = shaped.routes; vehicles = shaped.vehicles; users = a }

    stored_user : (u : User) → Member u d.users → IsShapedUser email u
    stored_user u m = All-Member (IsShapedUser email) d.users u shaped.users m

    with_user :
        (row : User)
        → IsShapedUser email row
        → IsShaped email (record d { users = put_row user_key row d.users })
    with_user row shape =
        with_users _ (All-put_row user_key (IsShapedUser email) row d.users shaped.users shape)

    pub post_user_lem :
        (call : Call) (body : UserCreate)
        → IsFresh d call.assigned (post_user body)
        → email.normalize body.email ≡ some body.email
        → IsServed s h c prefix email d ⊥ (serve s h d call (post_user body))
    unfolding serve changing render new_user
    post_user_lem call body fresh shape =
        elim (create_user_outcome s d v h call.salt call.assigned body fresh) [
          | inl (free, e, valid) ↦ rw e (
            valid,
            with_users _ (All-append_one _ d.users _ shaped.users shape),
            is_some-option_map _ _
                (user_out_some email (new_user h call.salt body call.assigned) shape),
            inr (user_created call.salt call.assigned body fresh e),
          )
          | inr (x, m, q, e) ↦ rw e tt
        ]

    pub list_all_users_lem :
        (call : Call) → IsServed s h c prefix email d ⊥ (serve s h d call list_all_users)
    unfolding serve render list_users
    list_all_users_lem call = (
      v,
      shaped,
      is_some-option_map _ _ (
          each_some (user_out email) (list_users s d) (
            All-map (IsShapedUser email) (λ r. is_some (user_out email r) ≡ true) (list_users s d)
              (user_out_some email)
              (listed_lem (IsShapedUser email) s (λ a b. leb a.id b.id) d.users shaped.users))),
      inl refl,
    )

    pub read_user_lem :
        (call : Call) (id : ℕ) → IsServed s h c prefix email d ⊥ (serve s h d call (read_user id))
    unfolding serve reading render get_user
    read_user_lem call id = elim (Option-cases (get s user_key id d.users)) [
      | inl e ↦ rw e tt
      | inr (r, e) ↦
          let (m, q) = get-some s user_key id d.users r e in
          rw e
            (v, shaped, is_some-option_map _ _ (user_out_some email r (stored_user r m)), inl refl)
    ]

    new_address :
        (u : User) (body : UserUpdate) (text : String)
        → IsShapedUser email u
        → (field : Field String) → IsNormalField email field
        → body.email ≡ field
        → (body.email ≡ value text) ⊎ ((body.email ≡ unset) × (text ≡ u.email))
        → email.normalize text ≡ some text
    new_address u body text shape unset n e (inl f) = let q = sym e ∙ f in cc
    new_address u body text shape null n e (inl f) = let q = sym e ∙ f in cc
    new_address u body text shape (value t) n e (inl f) =
        let q : value t ≡ value text = sym e ∙ f in cc
    new_address u body text shape field n e (inr (f, q)) = rw q shape

    pub change_user_lem :
        (call : Call) (id : ℕ) (body : UserUpdate)
        → IsNormalField email body.email
        → IsServed s h c prefix email d (body.email ≡ null) (serve s h d call (change_user id body))
    unfolding serve changing render
    change_user_lem call id body normal = elim (patch_user_outcome s d v h call.salt id body) [
      | inl (free, e) ↦ rw e tt
      | inr (r, m, q, inl (n, e)) ↦ rw e n
      | inr (r, m, q, inr (inl (text, x, a, b, g, k, e))) ↦ rw e tt
      | inr (r, m, q, inr (inr (text, a, e, valid))) ↦
          let row : User = record r {
            email = text;
            hashed_password = rehashed h call.salt body.password r.hashed_password;
            is_admin = unless_null body.is_admin r.is_admin;
          } in
          let shape : IsShapedUser email row =
            new_address r body text (stored_user r m) body.email normal refl a in
          rw e (
            valid,
            with_user row shape,
            is_some-option_map _ _ (user_out_some email row shape),
            inr (user_patched call.salt id body e),
          )
    ]

    pub drop_user_lem :
        (call : Call) (id : ℕ) → IsServed s h c prefix email d ⊥ (serve s h d call (drop_user id))
    unfolding serve deleting render
    drop_user_lem call id = elim (remove_user_outcome s d v id) [
      | inl (free, e) ↦ rw e tt
      | inr (u, m, q, e, valid) ↦ rw e (
        valid,
        with_users _ (All-filter (IsShapedUser email) (λ x. not (x.id == id)) d.users shaped.users),
        refl,
        inr (user_removed id e),
      )
    ]

    pub put_assignment_lem :
        (call : Call) (id : ℕ) (body : AssignmentUpdate)
        → pair_is_complete body ≡ true
        → IsServed s h c prefix email d ⊥ (serve s h d call (put_assignment id body))
    unfolding serve changing render
    put_assignment_lem call id body complete =
        elim (set_assignment_outcome s d v id body complete) [
          | inl (free, e) ↦ rw e tt
          | inr (u, m, q, inl (a, b, e, valid)) ↦
              let row : User = record u { route_id = none; vehicle_id = none } in
              rw e (
                valid,
                with_user row (stored_user u m),
                is_some-option_map _ _ (user_out_some email row (stored_user u m)),
                inr (assignment_set id body complete e),
              )
          | inr (u, m, q, inr (r, w, a, b, inl (g, e))) ↦ rw e tt
          | inr (u, m, q, inr (r, w, a, b, inr (inl (g, k, e)))) ↦ rw e tt
          | inr (u, m, q, inr (r, w, a, b, inr (inr (inl (x, g, e))))) ↦ rw e tt
          | inr (u, m, q, inr (r, w, a, b, inr (inr (inr (inl (x, g, k, e)))))) ↦ rw e tt
          | inr (u, m, q, inr (r, w, a, b, inr (inr (inr (inr (g, k, n, z, (e, valid))))))) ↦
              let row : User = paired_with u r w in
              rw e (
                valid,
                with_user row (stored_user u m),
                is_some-option_map _ _ (user_out_some email row (stored_user u m)),
                inr (assignment_set id body complete e),
              )
        ]
