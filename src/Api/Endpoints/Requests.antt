-- ===== src/Api/Endpoints/Requests.antt =====
-- What a request does to the database.
use fleet_tracking_backend.Prelude.{ℕ, ◌≡◌, refl, ◌⊎◌, inl, inr, Option, none, some, List}
use fleet_tracking_backend.Errors.{
  Result, ok, err, app, integrity_error, overflow_error, unexpected,
}
use fleet_tracking_backend.Store.{Database, User}
use fleet_tracking_backend.Store.Session.{Session}
use fleet_tracking_backend.Auth.Passwords.{Hasher}
use fleet_tracking_backend.Auth.Tokens.{Jwt, TokenSettings}
use fleet_tracking_backend.Auth.Service.{current_admin}
use fleet_tracking_backend.Mqtt.Topic.{Text}
use fleet_tracking_backend.Mqtt.Payload.{Decoder}
use fleet_tracking_backend.Invariant.{IsValid}
use fleet_tracking_backend.Serving.{Step}
use fleet_tracking_backend.Api.Responses.{EmailCheck, ErrorDetail, Answer, tokens_answer}
use fleet_tracking_backend.Api.Bodies.{LoginRequest, RefreshRequest, login_request, refresh_request}
use fleet_tracking_backend.Api.Shape.{IsShaped}
use fleet_tracking_backend.Api.Inputs.{
  not_json, ill_typed, typed, Operation, View, my_profile, my_assignment, my_route,
  my_vehicle_current, my_vehicle_history, Request, unmatched, health, post_login, post_refresh, me,
  admin, Call, validate, validate_view, checked_input,
}
use fleet_tracking_backend.Api.Endpoints.{
  success_status, finish, reading, serve, view, gated_admin, gated_view, login_response,
  refresh_response, respond_to, respond,
}
use fleet_tracking_backend.Api.Endpoints.Served.{IsFresh, IsFreshRequest, IsServed, GivesNull}
use fleet_tracking_backend.Api.Endpoints.Accepted.{
  IsAccepted, Whenever, validate-IsAccepted, validate-IsFresh, serve_lem,
}

module _ (s : Session) (h : Hasher) (j : Jwt) (settings : TokenSettings) (email : EmailCheck)
    (errors : Request → List ErrorDetail) (c : Decoder) (prefix : Text) where
  -- The database is kept, or the token is an administrator's and a step leads to the new one; it is
  -- valid and its rows are shaped either way.
  abbrev pub Refines : Database → Call → Database → Type 0
  Refines d call d' =
      IsValid d'
      × IsShaped email d'
      × ((d' ≡ d)
          ⊎ ((u : User) × (current_admin s j settings d call.now call.token ≡ ok u)
              × Step s h c prefix d d'))

  -- A read leaves the database.
  reading_keeps :
      {A : Type 0} (status : ℕ) (wrap : A → Answer) (d : Database) (result : Result A)
      → (finish email status d (reading wrap d result)).1 ≡ d
  unfolding finish reading
  reading_keeps status wrap d (ok a) = refl
  reading_keeps status wrap d (err e) = refl

  view_keeps :
      (d : Database) (now : ℕ) (u : User) (v : View)
      → (finish email 200 d (view s h d now u v)).1 ≡ d
  unfolding view finish
  view_keeps d now u my_profile = refl
  view_keeps d now u my_assignment = reading_keeps 200 _ d _
  view_keeps d now u my_route = reading_keeps 200 _ d _
  view_keeps d now u my_vehicle_current = reading_keeps 200 _ d _
  view_keeps d now u (my_vehicle_history params) = reading_keeps 200 _ d _

  gated_view_keeps :
      (d : Database) (call : Call) (gate : Result User) (v : Option View)
      → (gated_view s h j settings email errors d call gate v).1 ≡ d
  unfolding gated_view
  gated_view_keeps d call (err e) v = refl
  gated_view_keeps d call (ok u) none = refl
  gated_view_keeps d call (ok u) (some v) = view_keeps d call.now u v

  login_keeps :
      (d : Database) (call : Call) (body : Option LoginRequest)
      → (login_response s h j settings email errors d call body).1 ≡ d
  unfolding login_response
  login_keeps d call none = refl
  login_keeps d call (some body) = reading_keeps 200 tokens_answer d _

  refresh_keeps :
      (d : Database) (call : Call) (body : Option RefreshRequest)
      → (refresh_response s h j settings email errors d call body).1 ≡ d
  unfolding refresh_response
  refresh_keeps d call none = refl
  refresh_keeps d call (some body) = reading_keeps 200 tokens_answer d _

  module _ (d : Database) (valid : IsValid d) (shaped : IsShaped email d) where
    kept : (call : Call) (d' : Database) → d' ≡ d → Refines d call d'
    kept call d' e = rw e (valid, shaped, inl refl)

    finish-Refines :
        (call : Call) (u : User) (status : ℕ) (null_given : Type 0)
        (result : Result (Answer × Database))
        → current_admin s j settings d call.now call.token ≡ ok u
        → IsServed s h c prefix email d null_given result
        → Refines d call (finish email status d result).1
    unfolding finish
    finish-Refines call u status n (err (app e)) g served = (valid, shaped, inl refl)
    finish-Refines call u status n (err integrity_error) g served = (valid, shaped, inl refl)
    finish-Refines call u status n (err overflow_error) g served = absurd served
    finish-Refines call u status n (err unexpected) g served = absurd served
    finish-Refines call u status n (ok answer) g (a, b, e, inl q) = (a, b, inl q)
    finish-Refines call u status n (ok answer) g (a, b, e, inr q) = (a, b, inr (u, g, q))

    gated-Refines :
        (call : Call) (gate : Result User) (op : Option Operation)
        → current_admin s j settings d call.now call.token ≡ gate
        → Whenever (IsFresh d call.assigned) op
        → Whenever (IsAccepted email) op
        → Refines d call (gated_admin s h j settings email errors d call gate op).1
    unfolding gated_admin
    gated-Refines call (err e) op g fresh a = (valid, shaped, inl refl)
    gated-Refines call (ok u) none g fresh a = (valid, shaped, inl refl)
    gated-Refines call (ok u) (some op) g fresh a =
        finish-Refines call u (success_status op) (GivesNull op) (serve s h d call op) g
          (serve_lem s h c prefix email d valid shaped call op fresh a)

    request-Refines :
        (call : Call) (request : Request)
        → IsFreshRequest d call.assigned request
        → Refines d call (respond_to s h j settings email errors d call request).1
    unfolding respond_to login_response refresh_response
    request-Refines call (unmatched status detail) fresh = (valid, shaped, inl refl)
    request-Refines call health fresh = (valid, shaped, inl refl)
    request-Refines call (post_login body) fresh =
        kept call _ (login_keeps d call (checked_input (login_request email) body))
    request-Refines call (post_refresh body) fresh =
        kept call _ (refresh_keeps d call (checked_input refresh_request body))
    request-Refines call (me not_json) fresh = (valid, shaped, inl refl)
    request-Refines call (me ill_typed) fresh = kept call _ (gated_view_keeps d call _ none)
    request-Refines call (me (typed v)) fresh =
        kept call _ (gated_view_keeps d call _ (validate_view v))
    request-Refines call (admin not_json) fresh = (valid, shaped, inl refl)
    request-Refines call (admin ill_typed) fresh = gated-Refines call _ none refl tt tt
    request-Refines call (admin (typed op)) fresh =
        gated-Refines call _ (validate email op) refl
          (validate-IsFresh email d call.assigned op fresh) (validate-IsAccepted email op)

    -- On a valid database whose rows have the shape that the schemas ask for, every request, of every
    -- endpoint and with any token and body, keeps both, if the number drawn for a new row is not in use
    -- in its table; it changes the database only if its token is that of an administrator, and then as
    -- one of the steps of the administration.
    pub respond-Refines :
        (call : Call)
        → IsFreshRequest d call.assigned call.request
        → Refines d call (respond s h j settings email errors d call).1
    unfolding respond
    respond-Refines call fresh = request-Refines call call.request fresh
