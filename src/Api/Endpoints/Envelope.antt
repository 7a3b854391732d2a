-- ===== src/Api/Endpoints/Envelope.antt =====
-- The forms that a response has: the body of its endpoint, or the error envelope.
pub mod Bodies
pub mod Requests
use fleet_tracking_backend.Prelude.{
  ℕ, String, ◌≡◌, ◌≢◌, refl, ◌⊎◌, inl, inr, Bool, true, false, Bool-cases, Option, none, some, List,
  [], ◌∷◌, map, ◌==◌, eq_iff, arith,
}
use fleet_tracking_backend.Errors.{
  Result, ok, err, Failure, app, integrity_error, overflow_error, unexpected, Message, lit, str,
  ErrorClass, credentials_error, forbidden_error, no_assignment_error, not_found_error,
  conflict_error, status_code, class_code, code, AppError,
}
use fleet_tracking_backend.Store.{Database, BusRoute, User}
use fleet_tracking_backend.Auth.Service.{TokenPair}
use fleet_tracking_backend.Admin.Vehicles.{AdminVehicleOut}
use fleet_tracking_backend.Tracking.Status.{VehicleLiveOut}
use fleet_tracking_backend.Tracking.Me.{AssignmentOut, RoutePolylineOut, HistoryOut}
use fleet_tracking_backend.Api.Responses.{
  EmailCheck, ErrorDetail, Answer, user_answer, polyline_answer, nothing, Response, Content,
  RouteOut, VehicleOut, UserOut, no_content, error_content, invalid_content, health_content,
  tokens_content, user_content, users_content, route_content, routes_content, vehicle_content,
  fleet_content, assignment_content, polyline_content, live_content, history_content, unhandled,
  failure_response, to_response, validation_error, http_error, http_code, field_error, render,
  option_map, all_of, in_range,
}
use fleet_tracking_backend.Api.Inputs.{
  Input, not_json, ill_typed, typed, Operation, post_route, list_all_routes, read_route,
  change_route, drop_route, post_vehicle, list_all_vehicles, read_vehicle, change_vehicle,
  drop_vehicle, post_user, list_all_users, read_user, change_user, drop_user, put_assignment, View,
  my_profile, my_assignment, my_route, my_vehicle_current, my_vehicle_history, Request, unmatched,
  health, post_login, post_refresh, me, admin,
}
use fleet_tracking_backend.Api.Endpoints.{finish, rendered, reading, changing, deleting}
use fleet_tracking_backend.Api.Endpoints.Accepted.{Whenever}

-- The status and the code of each class of deliberate errors.
abbrev IsClass : ErrorClass → ℕ → String → Type 0
IsClass credentials_error n c = (n ≡ 401) × (c ≡ "invalid_credentials")
IsClass forbidden_error n c = (n ≡ 403) × (c ≡ "forbidden")
IsClass no_assignment_error n c = (n ≡ 403) × (c ≡ "no_assignment")
IsClass not_found_error n c = (n ≡ 404) × (c ≡ "not_found")
IsClass conflict_error n c = (n ≡ 409) × (c ≡ "conflict")

-- A deliberate error: the status of its class, its message, and its own code or that of its class.
abbrev IsDeliberate : Content → ℕ → Type 0
IsDeliberate x n =
    (e : AppError) × (c own : String) × (x ≡ error_content c e.message)
    × IsClass e.class n own
    × ((e.override ≡ some c) ⊎ ((e.override ≡ none) × (c ≡ own)))

-- A refused input, with its details.
abbrev IsInvalid : List ErrorDetail → Content → ℕ → Type 0
IsInvalid details x n =
    (n ≡ 422)
    × (x
        ≡ invalid_content "validation_error" (lit "Request validation failed" ∷ [])
            (map field_error details))

-- An unforeseen exception, of which nothing is said.
abbrev IsUnforeseen : Content → ℕ → Type 0
IsUnforeseen x n =
    (n ≡ 500) × (x ≡ error_content "internal_error" (lit "Unexpected server error" ∷ []))

-- A success of the given form, or one of the three errors.
abbrev pub Fits : List ErrorDetail → (Content → ℕ → Type 0) → Response → Type 0
Fits details P r =
    P r.content r.status
    ⊎ IsDeliberate r.content r.status
    ⊎ IsInvalid details r.content r.status
    ⊎ IsUnforeseen r.content r.status

-- The success of each operation of the administration.
abbrev pub OperationBody : Operation → Content → ℕ → Type 0
OperationBody (post_route body) x n = (n ≡ 201) × ((r : RouteOut) × (x ≡ route_content r))
OperationBody (post_vehicle body) x n = (n ≡ 201) × ((v : VehicleOut) × (x ≡ vehicle_content v))
OperationBody (post_user body) x n = (n ≡ 201) × ((u : UserOut) × (x ≡ user_content u))
OperationBody list_all_routes x n = (n ≡ 200) × ((rs : List RouteOut) × (x ≡ routes_content rs))
OperationBody list_all_vehicles x n =
    (n ≡ 200) × ((vs : List AdminVehicleOut) × (x ≡ fleet_content vs))
OperationBody list_all_users x n = (n ≡ 200) × ((us : List UserOut) × (x ≡ users_content us))
OperationBody (read_route id) x n = (n ≡ 200) × ((r : RouteOut) × (x ≡ route_content r))
OperationBody (read_vehicle id) x n = (n ≡ 200) × ((v : VehicleOut) × (x ≡ vehicle_content v))
OperationBody (read_user id) x n = (n ≡ 200) × ((u : UserOut) × (x ≡ user_content u))
OperationBody (change_route id body) x n = (n ≡ 200) × ((r : RouteOut) × (x ≡ route_content r))
OperationBody (change_vehicle id body) x n =
    (n ≡ 200) × ((v : VehicleOut) × (x ≡ vehicle_content v))
OperationBody (change_user id body) x n = (n ≡ 200) × ((u : UserOut) × (x ≡ user_content u))
OperationBody (put_assignment id body) x n = (n ≡ 200) × ((u : UserOut) × (x ≡ user_content u))
OperationBody (drop_route id) x n = (n ≡ 204) × (x ≡ no_content)
OperationBody (drop_vehicle id) x n = (n ≡ 204) × (x ≡ no_content)
OperationBody (drop_user id) x n = (n ≡ 204) × (x ≡ no_content)

-- The success of each read of a user.
abbrev pub ViewBody : View → Content → ℕ → Type 0
ViewBody my_profile x n = (n ≡ 200) × ((u : UserOut) × (x ≡ user_content u))
ViewBody my_assignment x n = (n ≡ 200) × ((a : AssignmentOut) × (x ≡ assignment_content a))
ViewBody my_route x n = (n ≡ 200) × ((p : RoutePolylineOut) × (x ≡ polyline_content p))
ViewBody my_vehicle_current x n = (n ≡ 200) × ((l : VehicleLiveOut) × (x ≡ live_content l))
ViewBody (my_vehicle_history params) x n = (n ≡ 200) × ((h : HistoryOut) × (x ≡ history_content h))

abbrev pub TokensBody : Content → ℕ → Type 0
TokensBody x n = (n ≡ 200) × ((t : TokenPair) × (x ≡ tokens_content t))

-- An input that is refused has no success.
abbrev pub NoBody : Content → ℕ → Type 0
NoBody x n = ⊥

-- An error of the framework keeps its status and text, and has a code of its own for 404 and 405.
abbrev FrameworkBody : ℕ → String → Response → Type 0
FrameworkBody status detail r =
    (c : String) × (r ≡ record { status = status; content = error_content c (str detail ∷ []) })
    × (((status ≡ 404) × (c ≡ "not_found"))
        ⊎ ((status ≡ 405) × (c ≡ "method_not_allowed"))
        ⊎ ((status ≢ 404) × (status ≢ 405) × (c ≡ "http_error")))

-- The form of the response to a request, whose refused inputs have the details.
abbrev pub IsEnveloped : List ErrorDetail → Request → Response → Type 0
IsEnveloped details (unmatched status detail) r = FrameworkBody status detail r
IsEnveloped details health r = (r.status ≡ 200) × (r.content ≡ health_content "ok")
IsEnveloped details (post_login (typed body)) r = Fits details TokensBody r
IsEnveloped details (post_login not_json) r = IsInvalid details r.content r.status
IsEnveloped details (post_login ill_typed) r = IsInvalid details r.content r.status
IsEnveloped details (post_refresh (typed body)) r = Fits details TokensBody r
IsEnveloped details (post_refresh not_json) r = IsInvalid details r.content r.status
IsEnveloped details (post_refresh ill_typed) r = IsInvalid details r.content r.status
IsEnveloped details (me (typed v)) r = Fits details (ViewBody v) r
IsEnveloped details (me not_json) r = IsInvalid details r.content r.status
IsEnveloped details (me ill_typed) r = Fits details NoBody r
IsEnveloped details (admin (typed op)) r = Fits details (OperationBody op) r
IsEnveloped details (admin not_json) r = IsInvalid details r.content r.status
IsEnveloped details (admin ill_typed) r = Fits details NoBody r

class_lem : (k : ErrorClass) → IsClass k (status_code k) (class_code k)
unfolding status_code class_code
class_lem credentials_error = (refl, refl)
class_lem forbidden_error = (refl, refl)
class_lem no_assignment_error = (refl, refl)
class_lem not_found_error = (refl, refl)
class_lem conflict_error = (refl, refl)

code_lem :
    (e : AppError) (o : Option String)
    → e.override ≡ o
    → (e.override ≡ some (code e)) ⊎ ((e.override ≡ none) × (code e ≡ class_code e.class))
unfolding code
code_lem e none q = rw q (inr (refl, refl))
code_lem e (some c) q = rw q (inl refl)

pub framework_lem :
    (status : ℕ) (detail : String) → FrameworkBody status detail (http_error status detail)
unfolding http_error http_code
framework_lem status detail = (http_code status, refl, coded status)
  where
    coded :
        (n : ℕ)
        → ((n ≡ 404) × (http_code n ≡ "not_found"))
          ⊎ ((n ≡ 405) × (http_code n ≡ "method_not_allowed"))
          ⊎ ((n ≢ 404) × (n ≢ 405) × (http_code n ≡ "http_error"))
    coded n = elim (Bool-cases (n == 404)) [
      | inl e ↦ rw e (inl (ground arith, refl))
      | inr e ↦ elim (Bool-cases (n == 405)) [
        | inl f ↦ rw (e, f) (inr (inl (ground arith, refl)))
        | inr f ↦ rw (e, f) (inr (inr (ground arith, ground arith, refl)))
      ]
    ]

module _ (details : List ErrorDetail) (P : Content → ℕ → Type 0) where
  unhandled-Fits : Fits details P unhandled
  unfolding unhandled
  unhandled-Fits = inr (inr (inr (refl, refl)))

  pub invalid-Fits : Fits details P (validation_error details)
  unfolding validation_error
  invalid-Fits = inr (inr (inl (refl, refl)))

  pub failure-Fits : (f : Failure) → Fits details P (failure_response f)
  unfolding failure_response to_response
  failure-Fits (app e) =
      inr (inl (e, code e, class_code e.class, refl, class_lem e.class, code_lem e e.override refl))
  failure-Fits integrity_error = unhandled-Fits
  failure-Fits overflow_error = unhandled-Fits
  failure-Fits unexpected = unhandled-Fits

  rendered-Fits :
      (n : ℕ) (o : Option Content) → Whenever (λ x. P x n) o → Fits details P (rendered n o)
  unfolding rendered
  rendered-Fits n none h = unhandled-Fits
  rendered-Fits n (some x) h = inl h

  module _ (email : EmailCheck) (n : ℕ) (d : Database) where
    pub listed-Fits :
        (a : Answer)
        → Whenever (λ x. P x n) (render email a)
        → Fits details P (finish email n d (ok (a, d))).0
    unfolding finish
    listed-Fits a h = rendered-Fits n (render email a) h

    pub reading-Fits :
        {A : Type 0} (wrap : A → Answer) (result : Result A)
        → ((a : A) → Whenever (λ x. P x n) (render email (wrap a)))
        → Fits details P (finish email n d (reading wrap d result)).0
    unfolding reading finish
    reading-Fits wrap (err e) h = failure-Fits e
    reading-Fits wrap (ok a) h = rendered-Fits n (render email (wrap a)) (h a)

    pub changing-Fits :
        {A : Type 0} (wrap : A → Answer) (result : Result (A × Database))
        → ((a : A) → Whenever (λ x. P x n) (render email (wrap a)))
        → Fits details P (finish email n d (changing wrap result)).0
    unfolding changing finish
    changing-Fits wrap (err e) h = failure-Fits e
    changing-Fits wrap (ok (a, d')) h = rendered-Fits n (render email (wrap a)) (h a)

    pub deleting-Fits :
        (result : Result Database)
        → P no_content n
        → Fits details P (finish email n d (deleting result)).0
    unfolding deleting finish render
    deleting-Fits (err e) h = failure-Fits e
    deleting-Fits (ok d') h = rendered-Fits n (some no_content) h

-- What every body of a form satisfies, an answer that is rendered satisfies.
pub mapped-Whenever :
    {A B : Type 0} (P : B → Type 0) (f : A → B) (o : Option A)
    → ((a : A) → P (f a))
    → Whenever P (option_map f o)
unfolding option_map
mapped-Whenever P f none h = tt
mapped-Whenever P f (some a) h = h a

pub polyline-Whenever :
    (email : EmailCheck) (P : Content → Type 0) (p : RoutePolylineOut)
    → P (polyline_content p)
    → Whenever P (render email (polyline_answer p))
unfolding render
polyline-Whenever email P p h = elim (Bool-cases (all_of in_range p.waypoints)) [
  | inl e ↦ rw e h
  | inr e ↦ rw e tt
]
