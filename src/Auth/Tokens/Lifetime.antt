-- ===== src/Auth/Tokens/Lifetime.antt =====
-- How long and for what a token is good.
use fleet_tracking_backend.Prelude.{
  ℕ, ◌+◌, ◌*◌, ◌/◌, ◌≤◌, ◌≡◌, ◌≢◌, refl, ◌∙◌, true, false, inl, inr, some, [], ◌∷◌, arith, ltb,
  ltb→lt, if◌then◌else◌, Bool-cases,
}
use fleet_tracking_backend.Prelude.Int.{ℤ, pos}
use fleet_tracking_backend.Errors.{Result, ok, raise, lit}
use fleet_tracking_backend.Mqtt.Topic.{digit_count, decimal, max_digits}
use fleet_tracking_backend.Mqtt.Topic.RoundTrip.{parse_int-decimal}
use fleet_tracking_backend.Auth.Tokens.{
  Jwt, Claims, TokenSettings, TokenType, access, refresh, second, credentials, expected, type_name,
  has_type, subject, or_malformed, create_token, create_access_token, create_refresh_token, checked,
  decode_token,
}

other_type : TokenType → TokenType
other_type access = refresh
other_type refresh = access

has_type_self : (t : TokenType) → has_type (some (type_name t)) t ≡ true
unfolding has_type type_name
has_type_self access = refl
has_type_self refresh = refl

has_type-other : (t u : TokenType) → t ≢ u → has_type (some (type_name t)) u ≡ false
unfolding has_type type_name
has_type-other access access ne = absurd (ne refl)
has_type-other access refresh ne = refl
has_type-other refresh access ne = refl
has_type-other refresh refresh ne = absurd (ne refl)

module _ (j : Jwt) (settings : TokenSettings) (id issued now : ℕ) where
  -- What a token for a user, made with a lifetime, is worth at a time that is not before its issue.
  module _ (short : digit_count (decimal id) ≤ max_digits)
      (made : issued / second ≤ now / second) where
    abbrev claims_of : TokenType → ℕ → Claims
    claims_of t lifetime = record {
      sub = some (decimal id);
      type = some (type_name t);
      iat = issued;
      exp = issued + lifetime;
    }

    token_value :
        (t u : TokenType) (lifetime : ℕ)
        → decode_token j settings now (create_token j settings (decimal id) t lifetime issued) u ≡ (
            if ltb (now / second) ((issued + lifetime) / second)
            then (if has_type (some (type_name t)) u then ok (pos id) else raise (expected u))
            else raise (credentials (lit "Token has expired" ∷ [])))
    unfolding decode_token create_token checked subject or_malformed
    token_value t u lifetime =
        elim (Bool-cases (ltb (now / second) ((issued + lifetime) / second))) [
          | inl alive ↦ rw (
            alive,
            j.decode-encode settings.secret_key (claims_of t lifetime) now made (ltb→lt _ _ alive),
            parse_int-decimal id short,
          )
          | inr dead ↦ rw (
            dead,
            j.decode-expired settings.secret_key (claims_of t lifetime) now made (ground arith),
          )
        ]

    -- Whether a token with this lifetime is still good, and what it is worth then.
    abbrev Worth : ℕ → Result ℤ → Result ℤ → Type 0
    Worth lifetime result good = result ≡ (
        if ltb (now / second) ((issued + lifetime) / second)
        then good
        else raise (credentials (lit "Token has expired" ∷ [])))

    abbrev pub access_lifetime : ℕ
    access_lifetime = settings.access_token_expire_minutes * 60 * second

    abbrev pub refresh_lifetime : ℕ
    refresh_lifetime = settings.refresh_token_expire_days * 86400 * second

    -- What the two tokens of a user are worth as each of the two kinds.
    abbrev pub TokenWorth : Type 0
    TokenWorth =
        let access_token = create_access_token j settings id issued in
        let refresh_token = create_refresh_token j settings id issued in
        let decode = decode_token j settings now in
        Worth access_lifetime (decode access_token access) (ok (pos id))
        × Worth access_lifetime (decode access_token refresh) (raise (expected refresh))
        × Worth refresh_lifetime (decode refresh_token refresh) (ok (pos id))
        × Worth refresh_lifetime (decode refresh_token access) (raise (expected access))

    -- From its issue until its expiry a token gives the user's number back as a token of its own kind,
    -- and is refused as one of the other kind; from its expiry on it is refused as expired.
    pub token_worth : TokenWorth
    unfolding create_access_token create_refresh_token
    token_worth = (
      token_value access access access_lifetime ∙ rw (has_type_self access),
      token_value access refresh access_lifetime ∙ rw (has_type-other access refresh (λ e. cc)),
      token_value refresh refresh refresh_lifetime ∙ rw (has_type_self refresh),
      token_value refresh access refresh_lifetime ∙ rw (has_type-other refresh access (λ e. cc)),
    )
