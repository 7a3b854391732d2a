-- ===== src/Auth/Tokens.antt =====
-- The tokens of app/core/security.py. PyJWT is not part of the repository: encoding and decoding are
-- a parameter with its documented round trip. Instants are counted in microseconds; a token holds
-- whole seconds. A token, a key, a subject and a token type are the lists of their code points.
pub mod Lifetime
pub mod Refusals
use fleet_tracking_backend.Prelude.{
  ℕ, ◌+◌, ◌*◌, ◌/◌, ◌≤◌, ◌<◌, String, ◌≡◌, Bool, true, false, Option, none, some, List, [], ◌∷◌,
  ◌==str◌, if◌then◌else◌, ltb, leb,
}
use fleet_tracking_backend.Prelude.Int.{ℤ, pos}
use fleet_tracking_backend.Errors.{
  AppError, Part, lit, str, credentials_error, Result, ok, err, ◌>>=◌, raise,
}
use fleet_tracking_backend.Mqtt.Topic.{Text, parse_int, decimal, same_text}

pub data TokenType : Type 0 where
  access refresh : TokenType

unfoldable pub type_name : TokenType → Text
type_name access = b'a' ∷ b'c' ∷ b'c' ∷ b'e' ∷ b's' ∷ b's' ∷ []
type_name refresh = b'r' ∷ b'e' ∷ b'f' ∷ b'r' ∷ b'e' ∷ b's' ∷ b'h' ∷ []

-- The name of a type in a message.
unfoldable pub type_label : TokenType → String
type_label access = "access"
type_label refresh = "refresh"

-- The claims of a payload; `type` and `sub` may be missing from a token made elsewhere.
pub record Claims : Type 0 where
  pub sub : Option Text
  pub type : Option Text
  pub iat : ℕ
  pub exp : ℕ

-- How `jwt.decode` ends.
pub data Decoded : Type 0 where
  claims : Claims → Decoded
  expired_signature : Decoded
  invalid_token : Decoded

abbrev pub second : ℕ
second = 1_000_000

-- A payload in whole seconds, as it stands in a token.
abbrev pub in_seconds : Claims → Claims
in_seconds c = record c { iat = c.iat / second; exp = c.exp / second }

-- `jwt.encode` and `jwt.decode` under a secret key and an algorithm; the second argument of `decode`
-- is the time.
pub record Jwt : Type 0 where
  pub encode : Text → Claims → Text
  pub decode : Text → ℕ → Text → Decoded
  -- An unexpired token that was issued before now gives its claims back.
  pub decode-encode :
      (key : Text) (c : Claims) (now : ℕ)
      → c.iat / second ≤ now / second
      → now / second < c.exp / second
      → decode key now (encode key c) ≡ claims (in_seconds c)
  -- From its expiry on it is refused.
  pub decode-expired :
      (key : Text) (c : Claims) (now : ℕ)
      → c.iat / second ≤ now / second
      → c.exp / second ≤ now / second
      → decode key now (encode key c) ≡ expired_signature

-- The settings that the tokens depend on.
pub record TokenSettings : Type 0 where
  pub secret_key : Text
  pub access_token_expire_minutes : ℕ
  pub refresh_token_expire_days : ℕ

unfoldable pub credentials : List Part → AppError
credentials message = record { class = credentials_error; message = message; override = none }

unfoldable pub expected : TokenType → AppError
unfolding credentials type_label
expected t = credentials (lit "Expected a " ∷ str (type_label t) ∷ lit " token" ∷ [])

has_type : Option Text → TokenType → Bool
unfolding type_name same_text
has_type none t = false
has_type (some name) t = same_text name (type_name t)

-- `int(payload["sub"])`; none stands for the exceptions that are caught.
subject : Option Text → Option ℤ
subject none = none
subject (some text) = parse_int text

or_malformed : Option ℤ → Result ℤ
unfolding credentials
or_malformed none = raise (credentials (lit "Malformed token subject" ∷ []))
or_malformed (some id) = ok id

module _ (j : Jwt) (settings : TokenSettings) where
  create_token : Text → TokenType → ℕ → ℕ → Text
  unfolding type_name
  create_token sub type expires_delta now = j.encode settings.secret_key (record {
    sub = some sub;
    type = some (type_name type);
    iat = now;
    exp = now + expires_delta;
  })

  unfoldable pub create_access_token : ℕ → ℕ → Text
  unfolding create_token
  create_access_token id now =
      create_token (decimal id) access (settings.access_token_expire_minutes * 60 * second) now

  unfoldable pub create_refresh_token : ℕ → ℕ → Text
  unfolding create_token
  create_refresh_token id now =
      create_token (decimal id) refresh (settings.refresh_token_expire_days * 86400 * second) now

  checked : Decoded → TokenType → Result ℤ
  unfolding credentials expected has_type subject or_malformed
  checked expired_signature t = raise (credentials (lit "Token has expired" ∷ []))
  checked invalid_token t = raise (credentials (lit "Invalid token" ∷ []))
  checked (claims c) t =
      if has_type c.type t then or_malformed (subject c.sub) else raise (expected t)

  unfoldable pub decode_token : ℕ → Text → TokenType → Result ℤ
  unfolding checked
  decode_token now token t = checked (j.decode settings.secret_key now token) t
