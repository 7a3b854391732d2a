-- ===== src/Auth/Service/Login.antt =====
-- Who gets in.
use fleet_tracking_backend.Prelude.{
  ℕ, ◌+◌, ◌*◌, ◌/◌, ◌≤◌, ◌<◌, String, ◌≡◌, ◌≢◌, refl, sym, ap, subst, ◌∙◌, true, false, ◌⊎◌, inl,
  inr, none, some, [], ◌∷◌, lt→ltb, Bool-cases, All, Member,
}
use fleet_tracking_backend.Errors.{lit, ok, raise, ◌>>=◌}
use fleet_tracking_backend.Store.{Database, User, user_key}
use fleet_tracking_backend.Store.Session.{Session}
use fleet_tracking_backend.Store.Lookup.{scalar-text, scalar_one_or_none-scalar}
use fleet_tracking_backend.Store.Query.{get-Member}
use fleet_tracking_backend.Invariant.{IsValid}
use fleet_tracking_backend.Mqtt.Topic.{digit_count, decimal, max_digits}
use fleet_tracking_backend.Auth.Passwords.{Hasher, verify_password}
use fleet_tracking_backend.Auth.Tokens.{Jwt, TokenSettings, access, second, expected, credentials}
use fleet_tracking_backend.Auth.Tokens.Lifetime.{token_worth}
use fleet_tracking_backend.Auth.Service.{
  TokenPair, bad_login, with_password, or_gone, user_of, authenticate_user, issue_token_pair,
  refresh_token_pair, get_current_user, login, forbidden, require_admin, current_admin,
}

module _ (s : Session) (d : Database) (h : Hasher) where
  -- How the check of a login ends.
  abbrev pub LoginEnds : String → String → Type 0
  LoginEnds email password =
      (All (λ u. u.email ≢ email) d.users
        × (authenticate_user s h d email password ≡ raise bad_login))
      ⊎ ((u : User) × Member u d.users
          × (u.email ≡ email)
          × (((verify_password h password u.hashed_password ≡ false)
                × (authenticate_user s h d email password ≡ raise bad_login))
              ⊎ ((verify_password h password u.hashed_password ≡ true)
                  × (authenticate_user s h d email password ≡ ok u))))

  -- In a valid database a login succeeds exactly with the email of a stored user and a password that
  -- its hash verifies; an unknown email and a wrong password end in one and the same error.
  pub authenticate_user_outcome : (email password : String) → IsValid d → LoginEnds email password
  unfolding authenticate_user with_password
  authenticate_user_outcome email password v =
      let single =
        scalar_one_or_none-scalar s (λ u. u.email) email d.users v.schema.users_ok.uq_email in
      elim (scalar-text s (λ u. u.email) email d.users) [
        | inl (e, free) ↦ inl (free, rw (single, e))
        | inr (u, e, m, q) ↦ inr (
          u,
          m,
          q,
          elim (Bool-cases (verify_password h password u.hashed_password)) [
            | inl right ↦ inr (right, rw (single, e, right))
            | inr wrong ↦ inl (wrong, rw (single, e, wrong))
          ],
        )
      ]

  module _ (j : Jwt) (settings : TokenSettings) (issued now : ℕ) where
    -- What the tokens of a login give their user later.
    abbrev pub SignedIn : TokenPair → User → Type 0
    SignedIn pair u =
        (get_current_user s j settings d now (some pair.access_token) ≡ ok u)
        × (get_current_user s j settings d now (some pair.refresh_token) ≡ raise (expected access))
        × (refresh_token_pair s j settings d now pair.refresh_token
            ≡ ok (issue_token_pair s j settings now u))

    signed_in :
        (u : User)
        → IsValid d
        → Member u d.users
        → digit_count (decimal u.id) ≤ max_digits
        → issued / second ≤ now / second
        → now / second < (issued + settings.access_token_expire_minutes * 60 * second) / second
        → now / second < (issued + settings.refresh_token_expire_days * 86400 * second) / second
        → SignedIn (issue_token_pair s j settings issued u) u
    unfolding issue_token_pair get_current_user refresh_token_pair or_gone user_of
    signed_in u v m short made alive fresh =
        let worth = token_worth j settings u.id issued now short made in
        let access_alive = lt→ltb _ _ alive in
        let refresh_alive = lt→ltb _ _ fresh in
        let found = get-Member s user_key d.users u v.schema.users_ok.primary m in
        (
          rw (worth.0, access_alive, found),
          rw (worth.3, refresh_alive),
          rw (worth.2, refresh_alive, found),
        )

    wrong_login :
        {A : Type 0} (email password : String) (pair : TokenPair)
        → login s j settings h d issued email password ≡ ok pair
        → authenticate_user s h d email password ≡ raise bad_login
        → A
    unfolding login
    wrong_login email password pair e f =
        absurd
          (apart (sym (ap (λ r. r >>= λ u. ok (issue_token_pair s j settings issued u)) f) ∙ e))
      where
        apart : ¬ (raise {A = TokenPair} bad_login ≡ ok pair)
        apart q = cc

    -- After a login into a valid database that is unchanged since, and while both tokens live, the
    -- access token stands for the user with the given email and password, the refresh token does not
    -- open the API, and it is exchanged for a fresh pair of the same user.
    pub login_signs_in :
        (email password : String) (pair : TokenPair)
        → IsValid d
        → login s j settings h d issued email password ≡ ok pair
        → ((u : User) → Member u d.users → digit_count (decimal u.id) ≤ max_digits)
        → issued / second ≤ now / second
        → now / second < (issued + settings.access_token_expire_minutes * 60 * second) / second
        → now / second < (issued + settings.refresh_token_expire_days * 86400 * second) / second
        → (u : User) × Member u d.users
          × (u.email ≡ email)
          × (verify_password h password u.hashed_password ≡ true)
          × SignedIn pair u
    unfolding login
    login_signs_in email password pair v e short made alive fresh =
        elim (authenticate_user_outcome email password v) [
          | inl (free, f) ↦ wrong_login email password pair e f
          | inr (u, m, q, inl (wrong, f)) ↦ wrong_login email password pair e f
          | inr (u, m, q, inr (right, f)) ↦
              let same : ok (issue_token_pair s j settings issued u) ≡ ok pair =
                sym (ap (λ r. r >>= λ u. ok (issue_token_pair s j settings issued u)) f) ∙ e in
              let same_pair : issue_token_pair s j settings issued u ≡ pair = cc in
              (
                u,
                m,
                q,
                right,
                subst (λ p. SignedIn p u) same_pair (signed_in u v m (short u m) made alive fresh),
              )
        ]

    -- How the gate of the administration treats the tokens of a user.
    abbrev pub AdminGate : User → Type 0
    AdminGate u =
        let pair = issue_token_pair s j settings issued u in
        (((u.is_admin ≡ true) × (current_admin s j settings d now (some pair.access_token) ≡ ok u))
          ⊎ ((u.is_admin ≡ false)
              × (current_admin s j settings d now (some pair.access_token) ≡ raise forbidden)))
        × (current_admin s j settings d now (some pair.refresh_token) ≡ raise (expected access))
        × (current_admin s j settings d now none
            ≡ raise (credentials (lit "Not authenticated" ∷ [])))

    no_token :
        current_admin s j settings d now none ≡ raise (credentials (lit "Not authenticated" ∷ []))
    unfolding current_admin get_current_user
    no_token = refl

    -- In a valid database, while both tokens of a stored user live: the access token passes the gate
    -- of /admin exactly if the user is an administrator, and else ends in `forbidden`; the refresh
    -- token and a request without a token do not get as far.
    pub admin_gate :
        (u : User)
        → IsValid d
        → Member u d.users
        → digit_count (decimal u.id) ≤ max_digits
        → issued / second ≤ now / second
        → now / second < (issued + settings.access_token_expire_minutes * 60 * second) / second
        → now / second < (issued + settings.refresh_token_expire_days * 86400 * second) / second
        → AdminGate u
    unfolding current_admin require_admin
    admin_gate u v m short made alive fresh =
        let (opens, refused, _) = signed_in u v m short made alive fresh in
        (
          elim (Bool-cases u.is_admin) [
            | inl admin ↦ inl (admin, rw (opens, admin))
            | inr driver ↦ inr (driver, rw (opens, driver))
          ],
          rw refused,
          no_token,
        )
