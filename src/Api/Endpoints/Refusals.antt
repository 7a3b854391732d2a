-- ===== src/Api/Endpoints/Refusals.antt =====
-- What the administration's endpoints answer without an administrator's token.
use fleet_tracking_backend.Prelude.{
  Member, false, ◌≡◌, refl, sym, subst, ◌⊎◌, inl, inr, true, Option, none, List, [], ◌∷◌,
}
use fleet_tracking_backend.Errors.{Result, Message, lit, status_code, class_code, code}
use fleet_tracking_backend.Store.{Database, User}
use fleet_tracking_backend.Store.Session.{Session}
use fleet_tracking_backend.Auth.Passwords.{Hasher}
use fleet_tracking_backend.Auth.Tokens.{Jwt, TokenSettings}
use fleet_tracking_backend.Auth.Service.{forbidden}
use fleet_tracking_backend.Auth.Service.Gate.{
  IsTokenOf, IsStrange, GateEnds, current_admin-GateEnds,
}
use fleet_tracking_backend.Api.Responses.{
  EmailCheck, ErrorDetail, Response, error_content, to_response, failure_response, validation_error,
}
use fleet_tracking_backend.Api.Inputs.{
  Input, not_json, ill_typed, typed, Operation, Request, admin, Call, validate,
}
use fleet_tracking_backend.Api.Endpoints.{gated_admin, respond_to, respond}

module _ (s : Session) (h : Hasher) (j : Jwt) (settings : TokenSettings) (email : EmailCheck)
    (errors : Request → List ErrorDetail) where
  -- What a refused request of the administration is answered with: 401 for a token that is nobody's,
  -- 403 for that of a user who is no administrator.
  abbrev pub RefusedWith : Database → Call → Input Operation → Response → Type 0
  RefusedWith d call input r =
      ((input ≡ not_json) × (r.status ≡ 422))
      ⊎ ((m : Message) × IsStrange s j settings d call.now call.token
          × (r ≡ record { status = 401; content = error_content "invalid_credentials" m }))
      ⊎ ((u : User) × Member u d.users
          × IsTokenOf s j settings d call.now call.token u
          × (u.is_admin ≡ false)
          × (r ≡ record {
            status = 403;
            content = error_content "forbidden" (lit "Admin privileges required" ∷ []);
          }))

  -- The token is that of no stored administrator.
  abbrev pub NoAdmin : Database → Call → Type 0
  NoAdmin d call =
      (u : User)
      → Member u d.users
      → u.is_admin ≡ true
      → ¬ IsTokenOf s j settings d call.now call.token u

  gate_refused :
      (d : Database) (call : Call) (input : Input Operation) (op : Option Operation)
      (gate : Result User)
      → NoAdmin d call
      → GateEnds s j settings d call.now call.token gate
      → let r = gated_admin s h j settings email errors d call gate op in
        (r.1 ≡ d) × RefusedWith d call input r.0
  unfolding gated_admin failure_response to_response status_code class_code code forbidden
  gate_refused d call input op gate n (inl (e, strange, (k, o), q)) =
      rw q (refl, inr (inl (e.message, strange, rw (k, o) refl)))
  gate_refused d call input op gate n (inr (u, m, own, inl (off, q))) =
      rw q (refl, inr (inr (u, m, own, off, refl)))
  gate_refused d call input op gate n (inr (u, m, own, inr (on, q))) = absurd (n u m on own)

  input_refused :
      (d : Database) (call : Call) (input : Input Operation)
      → NoAdmin d call
      → let r = respond_to s h j settings email errors d call (admin input) in
        (r.1 ≡ d) × RefusedWith d call input r.0
  unfolding respond_to validation_error
  input_refused d call not_json n = (refl, inl (refl, refl))
  input_refused d call ill_typed n =
      gate_refused d call ill_typed none _ n
        (current_admin-GateEnds s j settings d call.now call.token)
  input_refused d call (typed op) n =
      gate_refused d call (typed op) (validate email op) _ n
        (current_admin-GateEnds s j settings d call.now call.token)

  -- A request to any endpoint of the administration whose token does not decode, as an access token, to
  -- the number of a stored administrator leaves the database as it is. Where the token decodes to the
  -- number of a stored user, it is answered with 403, else with 401, and says nothing else; only a body
  -- that is no JSON is refused with 422 before the token is looked at.
  pub admin_refused :
      (d : Database) (call : Call) (input : Input Operation)
      → call.request ≡ admin input
      → NoAdmin d call
      → let r = respond s h j settings email errors d call in
        (r.1 ≡ d) × RefusedWith d call input r.0
  unfolding respond
  admin_refused d call input e n =
      subst
        (λ request.
          let r = respond_to s h j settings email errors d call request in
          (r.1 ≡ d) × RefusedWith d call input r.0)
        (sym e) (input_refused d call input n)
