-- ===== src/Examples/Requests.antt =====
-- The theorems about requests, applied to requests of the administrator and of a driver.
use fleet_tracking_backend.Prelude.{
  String, ◌≡◌, refl, sym, ap, ◌∙◌, Option, none, some, List, [], ◌∷◌, arith, inl, inr, ◌==str◌,
  if◌then◌else◌, Bool-cases,
}
use fleet_tracking_backend.Errors.{ok}
use fleet_tracking_backend.Store.{Assigned, User}
use fleet_tracking_backend.Store.Session.{get, scalar}
use fleet_tracking_backend.Auth.Tokens.{create_access_token, access, decode_token}
use fleet_tracking_backend.Prelude.Int.{pos}
use fleet_tracking_backend.Auth.Service.{current_admin, get_current_user, user_of, require_admin}
use fleet_tracking_backend.Mqtt.Topic.{Text, decimal, parse_int}
use fleet_tracking_backend.Admin.{unset, null, not_null}
use fleet_tracking_backend.Admin.Routes.{patch_route, update_route, get_route}
use fleet_tracking_backend.Api.Responses.{EmailCheck, ErrorDetail, failure_response, unhandled}
use fleet_tracking_backend.Api.Bodies.{name_ok, waypoints_ok, code_ok, route_update_ok}
use fleet_tracking_backend.Api.Shape.{IsShaped}
use fleet_tracking_backend.Api.Inputs.{
  Input, typed, Operation, post_route, change_route, drop_user, Request, admin, Call, validate,
}
use fleet_tracking_backend.Api.Endpoints.{respond}
use fleet_tracking_backend.Api.Endpoints.Requests.{Refines, respond-Refines}
use fleet_tracking_backend.Api.Endpoints.Refusals.{RefusedWith, NoAdmin, admin_refused}
use fleet_tracking_backend.Examples.Reference.{reference}
use fleet_tracking_backend.Examples.Parts.{codec, plain, one_fix}
use fleet_tracking_backend.Examples.Fleet.{fleet, fleet-IsValid, terminus, airport}
use fleet_tracking_backend.Examples.Live.{fleet_prefix, settings}

-- Every text but the empty one is an address, in its normal form.
normalize : String → Option String
normalize text = if text ==str "" then none else some text

normalize_again :
    (text normal : String) → normalize text ≡ some normal → normalize normal ≡ some normal
unfolding normalize
normalize_again text normal e = elim (Bool-cases (text ==str "")) [
  | inl f ↦ ground arith
  | inr f ↦ ground arith
]

abbrev addresses : EmailCheck
addresses = record { normalize = normalize; normalize_again = normalize_again }

abbrev no_details : Request → List ErrorDetail
no_details request = []

admin_token : Text
admin_token = create_access_token codec settings 1 1_000_000

-- A driver's.
driver_token : Text
driver_token = create_access_token codec settings 2 1_000_000

abbrev tenth : Assigned
tenth = record { id = 10; now = 2_000_000 }

-- A new route, and a route whose name is taken away.
abbrev new_route_call : Call
new_route_call = record {
  request =
      admin (typed (post_route (record { name = "Harbour"; waypoints = terminus ∷ airport ∷ [] })));
  token = some admin_token;
  now = 2_000_000;
  assigned = tenth;
  salt = 0;
}

abbrev null_name : Input Operation
null_name = typed (change_route 1 (record { name = null; waypoints = unset }))

abbrev null_call : Call
null_call = record {
  request = admin null_name;
  token = some admin_token;
  now = 2_000_000;
  assigned = tenth;
  salt = 0;
}

abbrev driver_call : Call
driver_call = record {
  request = admin (typed (drop_user 2));
  token = some driver_token;
  now = 2_000_000;
  assigned = tenth;
  salt = 0;
}

fleet-IsShaped : IsShaped addresses fleet
unfolding name_ok waypoints_ok code_ok normalize
fleet-IsShaped = record {
  routes = ((refl, refl), ((refl, refl), tt));
  vehicles = ((refl, refl), ((refl, refl), ((refl, refl), tt)));
  users = (refl, (refl, (refl, tt)));
}

respond-Refines_example :
    Refines reference plain codec settings addresses no_details one_fix fleet_prefix fleet
      new_route_call
      (respond reference plain codec settings addresses no_details fleet new_route_call).1
respond-Refines_example =
    respond-Refines reference plain codec settings addresses no_details one_fix fleet_prefix fleet
      fleet-IsValid fleet-IsShaped new_route_call (omega arith, (omega arith, tt))

driver_number : decode_token codec settings 2_000_000 driver_token access ≡ ok (pos 2)
unfolding decode_token create_access_token codec driver_token decimal parse_int
driver_number = refl

driver_NoAdmin : NoAdmin reference plain codec settings addresses no_details fleet driver_call
driver_NoAdmin u (inl e) on (text, q, k) =
    let same : driver_token ≡ text = cc in
    let number : ok (pos 2) ≡ ok (pos u.id) =
      sym driver_number ∙ ap (λ t. decode_token codec settings 2_000_000 t access) same ∙ k in
    let first : u.id ≡ 1 = ap (λ (x : User). x.id) e in let second : 2 ≡ u.id = cc in omega arith
driver_NoAdmin u (inr (inl e)) on own = let off = ap (λ (x : User). x.is_admin) e in cc
driver_NoAdmin u (inr (inr (inl e))) on own = let off = ap (λ (x : User). x.is_admin) e in cc
driver_NoAdmin u (inr (inr (inr n))) on own = elim n [ ]

admin_refused_example :
    let r = respond reference plain codec settings addresses no_details fleet driver_call in
    (r.1 ≡ fleet)
    × RefusedWith reference plain codec settings addresses no_details fleet driver_call
        (typed (drop_user 2))
        r.0
admin_refused_example =
    admin_refused reference plain codec settings addresses no_details fleet driver_call
      (typed (drop_user 2)) refl driver_NoAdmin

null_is_500 :
    (respond reference plain codec settings addresses no_details fleet null_call).0.status ≡ 500
unfolding respond current_admin get_current_user decode_token user_of get scalar create_access_token
    codec admin_token patch_route update_route get_route validate name_ok waypoints_ok decimal
    parse_int require_admin route_update_ok not_null failure_response unhandled
null_is_500 = refl
