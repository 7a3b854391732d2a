-- ===== src/Auth/Tokens/Refusals.antt =====
-- In which errors the decoding of a token ends.
use fleet_tracking_backend.Prelude.{ℕ, ◌≡◌, refl, inl, inr, Option, none, some, Bool-cases}
use fleet_tracking_backend.Prelude.Int.{ℤ}
use fleet_tracking_backend.Errors.{
  credentials_error, Failure, app, integrity_error, overflow_error, unexpected, Result, ok, err,
  ◌>>=◌,
}
use fleet_tracking_backend.Mqtt.Topic.{Text}
use fleet_tracking_backend.Auth.Tokens.{
  Jwt, TokenSettings, TokenType, Decoded, claims, expired_signature, invalid_token, credentials,
  expected, has_type, subject, or_malformed, checked, decode_token,
}

-- Where a call fails, its failure satisfies the predicate.
abbrev pub Fails : {A : Type 0} → (Failure → Type 0) → Result A → Type 0
Fails P (err e) = P e
Fails P (ok a) = Unit

pub Fails-bind :
    {A B : Type 0} (P : Failure → Type 0) (result : Result A) (next : A → Result B)
    → Fails P result
    → ((a : A) → Fails P (next a))
    → Fails P (result >>= next)
Fails-bind P (err e) next p q = p
Fails-bind P (ok a) next p q = q a

-- The 401 with its class's code.
abbrev pub IsUnauthorized : Failure → Type 0
IsUnauthorized (app e) = (e.class ≡ credentials_error) × (e.override ≡ none)
IsUnauthorized integrity_error = ⊥
IsUnauthorized overflow_error = ⊥
IsUnauthorized unexpected = ⊥

or_malformed-Fails : (o : Option ℤ) → Fails IsUnauthorized (or_malformed o)
unfolding or_malformed credentials
or_malformed-Fails none = (refl, refl)
or_malformed-Fails (some id) = tt

module _ (j : Jwt) (settings : TokenSettings) where
  checked-Fails : (x : Decoded) (t : TokenType) → Fails IsUnauthorized (checked j settings x t)
  unfolding checked expected credentials
  checked-Fails expired_signature t = (refl, refl)
  checked-Fails invalid_token t = (refl, refl)
  checked-Fails (claims c) t = elim (Bool-cases (has_type c.type t)) [
    | inl e ↦ rw e (or_malformed-Fails (subject c.sub))
    | inr e ↦ rw e (refl, refl)
  ]

  pub decode_token-Fails :
      (now : ℕ) (token : Text) (t : TokenType)
      → Fails IsUnauthorized (decode_token j settings now token t)
  unfolding decode_token
  decode_token-Fails now token t = checked-Fails (j.decode settings.secret_key now token) t
