-- ===== src/Api/Endpoints/Accepted.antt =====
-- What validation lets through, and how every operation that it lets through ends.
use fleet_tracking_backend.Prelude.{
  String, ◌≡◌, refl, inl, inr, Bool, true, Option, none, some, Bool-cases,
}
use fleet_tracking_backend.Store.{Database, Assigned}
use fleet_tracking_backend.Store.Session.{Session}
use fleet_tracking_backend.Auth.Passwords.{Hasher}
use fleet_tracking_backend.Mqtt.Topic.{Text}
use fleet_tracking_backend.Mqtt.Payload.{Decoder}
use fleet_tracking_backend.Admin.{Field, unset, null, value}
use fleet_tracking_backend.Admin.Users.{UserCreate, UserUpdate}
use fleet_tracking_backend.Admin.Assignment.{pair_is_complete}
use fleet_tracking_backend.Invariant.{IsValid}
use fleet_tracking_backend.Api.Responses.{EmailCheck, option_map}
use fleet_tracking_backend.Api.Bodies.{
  accept, route_create_ok, route_update_ok, vehicle_create_ok, vehicle_update_ok, user_create,
  user_update, email_field, password_ok, field_ok,
}
use fleet_tracking_backend.Api.Shape.{IsShaped}
use fleet_tracking_backend.Api.Inputs.{
  Call, Operation, post_route, list_all_routes, read_route, change_route, drop_route, post_vehicle,
  list_all_vehicles, read_vehicle, change_vehicle, drop_vehicle, post_user, list_all_users,
  read_user, change_user, drop_user, put_assignment, validate,
}
use fleet_tracking_backend.Api.Endpoints.{serve}
use fleet_tracking_backend.Api.Endpoints.Served.{IsFresh, IsServed, GivesNull}
use fleet_tracking_backend.Api.Endpoints.Served.Routes.{
  post_route_lem, list_all_routes_lem, read_route_lem, change_route_lem, drop_route_lem,
}
use fleet_tracking_backend.Api.Endpoints.Served.Vehicles.{
  post_vehicle_lem, list_all_vehicles_lem, read_vehicle_lem, change_vehicle_lem, drop_vehicle_lem,
}
use fleet_tracking_backend.Api.Endpoints.Served.Users.{
  IsNormalField, post_user_lem, list_all_users_lem, read_user_lem, change_user_lem, drop_user_lem,
  put_assignment_lem,
}

-- The constraints that the body of an operation meets.
abbrev pub IsAccepted : EmailCheck → Operation → Type 0
IsAccepted email (post_route body) = route_create_ok body ≡ true
IsAccepted email (change_route id body) = route_update_ok body ≡ true
IsAccepted email (post_vehicle body) = vehicle_create_ok body ≡ true
IsAccepted email (change_vehicle id body) = vehicle_update_ok body ≡ true
IsAccepted email (post_user body) = email.normalize body.email ≡ some body.email
IsAccepted email (change_user id body) = IsNormalField email body.email
IsAccepted email (put_assignment id body) = pair_is_complete body ≡ true
IsAccepted email list_all_routes = Unit
IsAccepted email (read_route id) = Unit
IsAccepted email (drop_route id) = Unit
IsAccepted email list_all_vehicles = Unit
IsAccepted email (read_vehicle id) = Unit
IsAccepted email (drop_vehicle id) = Unit
IsAccepted email list_all_users = Unit
IsAccepted email (read_user id) = Unit
IsAccepted email (drop_user id) = Unit

-- What holds of all values of an optional result.
abbrev pub Whenever : {A : Type 0} → (A → Type 0) → Option A → Type 0
Whenever P none = Unit
Whenever P (some a) = P a

accepted_lem :
    {A B : Type 0} (test : A → Bool) (f : A → B) (P : B → Type 0) (a : A)
    → (test a ≡ true → P (f a))
    → Whenever P (option_map f (accept test a))
unfolding option_map accept
accepted_lem test f P a k = elim (Bool-cases (test a)) [ inl e ↦ rw e (k e) | inr e ↦ rw e tt ]

normal_lem :
    {B : Type 0} (email : EmailCheck) (f : String → B) (P : B → Type 0) (text : String)
    (o : Option String)
    → email.normalize text ≡ o
    → ((normal : String) → email.normalize normal ≡ some normal → P (f normal))
    → Whenever P (option_map f o)
unfolding option_map
normal_lem email f P text none e k = tt
normal_lem email f P text (some normal) e k = k normal (email.normalize_again text normal e)

mapped_lem :
    {A B : Type 0} (f : A → B) (P : B → Type 0) (o : Option A)
    → Whenever (λ a. P (f a)) o
    → Whenever P (option_map f o)
unfolding option_map
mapped_lem f P none h = tt
mapped_lem f P (some a) h = h

user_create_normal :
    (email : EmailCheck) (body : UserCreate)
    → Whenever (λ b. email.normalize b.email ≡ some b.email) (user_create email body)
unfolding user_create
user_create_normal email body = elim (Bool-cases (password_ok body.password)) [
  | inl e ↦ rw e (
      normal_lem email (λ text. record body { email = text })
        (λ b. email.normalize b.email ≡ some b.email) body.email (email.normalize body.email) refl
        (λ normal n. n))
  | inr e ↦ rw e tt
]

email_field_normal :
    (email : EmailCheck) (field : Field String)
    → Whenever (IsNormalField email) (email_field email field)
unfolding email_field
email_field_normal email unset = tt
email_field_normal email null = tt
email_field_normal email (value text) =
    normal_lem email value (IsNormalField email) text (email.normalize text) refl (λ normal n. n)

user_update_normal :
    (email : EmailCheck) (body : UserUpdate)
    → Whenever (λ b. IsNormalField email b.email) (user_update email body)
unfolding user_update
user_update_normal email body = elim (Bool-cases (field_ok password_ok body.password)) [
  | inl e ↦ rw e (
      mapped_lem (λ field. record body { email = field }) (λ b. IsNormalField email b.email)
        (email_field email body.email) (email_field_normal email body.email))
  | inr e ↦ rw e tt
]

-- Whatever passes the validation meets the constraints.
pub validate-IsAccepted :
    (email : EmailCheck) (op : Operation) → Whenever (IsAccepted email) (validate email op)
unfolding validate
validate-IsAccepted email (post_route body) =
    accepted_lem route_create_ok post_route (IsAccepted email) body (λ e. e)
validate-IsAccepted email (change_route id body) =
    accepted_lem route_update_ok (change_route id) (IsAccepted email) body (λ e. e)
validate-IsAccepted email (post_vehicle body) =
    accepted_lem vehicle_create_ok post_vehicle (IsAccepted email) body (λ e. e)
validate-IsAccepted email (change_vehicle id body) =
    accepted_lem vehicle_update_ok (change_vehicle id) (IsAccepted email) body (λ e. e)
validate-IsAccepted email (post_user body) =
    mapped_lem post_user (IsAccepted email) (user_create email body) (user_create_normal email body)
validate-IsAccepted email (change_user id body) =
    mapped_lem (change_user id) (IsAccepted email) (user_update email body)
      (user_update_normal email body)
validate-IsAccepted email (put_assignment id body) =
    accepted_lem pair_is_complete (put_assignment id) (IsAccepted email) body (λ e. e)
validate-IsAccepted email list_all_routes = tt
validate-IsAccepted email (read_route id) = tt
validate-IsAccepted email (drop_route id) = tt
validate-IsAccepted email list_all_vehicles = tt
validate-IsAccepted email (read_vehicle id) = tt
validate-IsAccepted email (drop_vehicle id) = tt
validate-IsAccepted email list_all_users = tt
validate-IsAccepted email (read_user id) = tt
validate-IsAccepted email (drop_user id) = tt

-- The operation that validation leaves adds its row to the same table.
fresh_mapped :
    {A : Type 0} (P : Operation → Type 0) (f : A → Operation) (o : Option A)
    → ((a : A) → P (f a))
    → Whenever P (option_map f o)
unfolding option_map
fresh_mapped P f none h = tt
fresh_mapped P f (some a) h = h a

pub validate-IsFresh :
    (email : EmailCheck) (d : Database) (a : Assigned) (op : Operation)
    → IsFresh d a op
    → Whenever (IsFresh d a) (validate email op)
unfolding validate
validate-IsFresh email d a (post_route body) h =
    fresh_mapped (IsFresh d a) post_route (accept route_create_ok body) (λ b. h)
validate-IsFresh email d a (change_route id body) h =
    fresh_mapped (IsFresh d a) (change_route id) (accept route_update_ok body) (λ b. tt)
validate-IsFresh email d a (post_vehicle body) h =
    fresh_mapped (IsFresh d a) post_vehicle (accept vehicle_create_ok body) (λ b. h)
validate-IsFresh email d a (change_vehicle id body) h =
    fresh_mapped (IsFresh d a) (change_vehicle id) (accept vehicle_update_ok body) (λ b. tt)
validate-IsFresh email d a (post_user body) h =
    fresh_mapped (IsFresh d a) post_user (user_create email body) (λ b. h)
validate-IsFresh email d a (change_user id body) h =
    fresh_mapped (IsFresh d a) (change_user id) (user_update email body) (λ b. tt)
validate-IsFresh email d a (put_assignment id body) h =
    fresh_mapped (IsFresh d a) (put_assignment id) (accept pair_is_complete body) (λ b. tt)
validate-IsFresh email d a list_all_routes h = tt
validate-IsFresh email d a (read_route id) h = tt
validate-IsFresh email d a (drop_route id) h = tt
validate-IsFresh email d a list_all_vehicles h = tt
validate-IsFresh email d a (read_vehicle id) h = tt
validate-IsFresh email d a (drop_vehicle id) h = tt
validate-IsFresh email d a list_all_users h = tt
validate-IsFresh email d a (read_user id) h = tt
validate-IsFresh email d a (drop_user id) h = tt

module _ (s : Session) (h : Hasher) (c : Decoder) (prefix : Text) (email : EmailCheck) where
  module _ (d : Database) (v : IsValid d) (shaped : IsShaped email d) where
    -- How every operation with an accepted body ends.
    pub serve_lem :
        (call : Call) (op : Operation)
        → IsFresh d call.assigned op
        → IsAccepted email op
        → IsServed s h c prefix email d (GivesNull op) (serve s h d call op)
    serve_lem call (post_route body) f a =
        post_route_lem s h c prefix email d v shaped call body f a
    serve_lem call list_all_routes f a = list_all_routes_lem s h c prefix email d v shaped call
    serve_lem call (read_route id) f a = read_route_lem s h c prefix email d v shaped call id
    serve_lem call (change_route id body) f a =
        change_route_lem s h c prefix email d v shaped call id body a
    serve_lem call (drop_route id) f a = drop_route_lem s h c prefix email d v shaped call id
    serve_lem call (post_vehicle body) f a =
        post_vehicle_lem s h c prefix email d v shaped call body f a
    serve_lem call list_all_vehicles f a = list_all_vehicles_lem s h c prefix email d v shaped call
    serve_lem call (read_vehicle id) f a = read_vehicle_lem s h c prefix email d v shaped call id
    serve_lem call (change_vehicle id body) f a =
        change_vehicle_lem s h c prefix email d v shaped call id body a
    serve_lem call (drop_vehicle id) f a = drop_vehicle_lem s h c prefix email d v shaped call id
    serve_lem call (post_user body) f a = post_user_lem s h c prefix email d v shaped call body f a
    serve_lem call list_all_users f a = list_all_users_lem s h c prefix email d v shaped call
    serve_lem call (read_user id) f a = read_user_lem s h c prefix email d v shaped call id
    serve_lem call (change_user id body) f a =
        change_user_lem s h c prefix email d v shaped call id body a
    serve_lem call (drop_user id) f a = drop_user_lem s h c prefix email d v shaped call id
    serve_lem call (put_assignment id body) f a =
        put_assignment_lem s h c prefix email d v shaped call id body a
