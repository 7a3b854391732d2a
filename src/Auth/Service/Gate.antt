-- ===== src/Auth/Service/Gate.antt =====
-- Whom the gate of the administration admits, and how it refuses the others.
use fleet_tracking_backend.Prelude.{
  ℕ, ◌≡◌, refl, sym, ap, ◌∙◌, ◌⊎◌, inl, inr, ◌≢◌, All, All-Member, true, false, Option, none, some,
  Bool-cases, Member,
}
use fleet_tracking_backend.Prelude.Int.{ℤ, pos, negsuc}
use fleet_tracking_backend.Errors.{
  Failure, app, integrity_error, overflow_error, unexpected, Result, ok, err, AppError, raise,
  ◌>>=◌,
}
use fleet_tracking_backend.Store.{Database, User, user_key}
use fleet_tracking_backend.Store.Session.{Session}
use fleet_tracking_backend.Store.Query.{get-none, get-some}
use fleet_tracking_backend.Mqtt.Topic.{Text}
use fleet_tracking_backend.Auth.Tokens.{Jwt, TokenSettings, access, credentials, decode_token}
use fleet_tracking_backend.Auth.Tokens.Refusals.{Fails, IsUnauthorized, decode_token-Fails}
use fleet_tracking_backend.Auth.Service.{
  forbidden, or_gone, no_longer_exists, user_of, require_admin, get_current_user, current_admin,
}

module _ (s : Session) (j : Jwt) (settings : TokenSettings) (d : Database) (now : ℕ) where
  -- The access token of a request is for the number of the user.
  abbrev pub IsTokenOf : Option Text → User → Type 0
  IsTokenOf token u =
      (text : Text) × (token ≡ some text)
      × (decode_token j settings now text access ≡ ok (pos u.id))

  user_of-IsTokenOf :
      (text : Text) (id : ℤ) (u : User)
      → decode_token j settings now text access ≡ ok id
      → user_of s d id ≡ some u
      → Member u d.users × IsTokenOf (some text) u
  unfolding user_of
  user_of-IsTokenOf text (pos id) u e f =
      let (m, same) = get-some s user_key id d.users u f in
      (m, (text, refl, e ∙ ap (λ n. ok (pos n)) (sym same)))
  user_of-IsTokenOf text (negsuc n) u e f = cc

  abbrev pub IsStrange : Option Text → Type 0
  IsStrange token = (u : User) → Member u d.users → ¬ IsTokenOf token u

  same_text : (text other : Text) → some text ≡ some other → text ≡ other
  same_text text other e = cc

  same_id : (m n : ℤ) → ok m ≡ ok n → m ≡ n
  same_id m n e = cc

  undecoded :
      (text : Text) (f : Failure)
      → decode_token j settings now text access ≡ err f
      → IsStrange (some text)
  undecoded text f e u m (other, q, k) =
      let same = same_text text other q in
      let bad : err f ≡ ok (pos u.id) =
        sym e ∙ ap (λ x. decode_token j settings now x access) same ∙ k in
      cc

  deleted :
      (text : Text) (id : ℤ)
      → decode_token j settings now text access ≡ ok id
      → user_of s d id ≡ none
      → IsStrange (some text)
  unfolding user_of
  deleted text (pos id) e f u m (other, q, k) =
      let same = same_text text other q in
      let ids : pos id ≡ pos u.id =
        same_id _ _ (sym e ∙ ap (λ x. decode_token j settings now x access) same ∙ k) in
      let free : All (λ x. x.id ≢ id) d.users = get-none s user_key id d.users f in
      All-Member (λ (x : User). x.id ≢ id) d.users u free m (let g : id ≡ u.id = cc in sym g)
  deleted text (negsuc n) e f u m (other, q, k) =
      let same = same_text text other q in
      let ids : negsuc n ≡ pos u.id =
        same_id _ _ (sym e ∙ ap (λ x. decode_token j settings now x access) same ∙ k) in
      cc

  -- How the gate ends: in a 401 for a token that is nobody's, in the 403 of a stored user who is no administrator and whose token
  -- it is, or in a stored administrator whose token it is.
  abbrev pub GateEnds : Option Text → Result User → Type 0
  GateEnds token result =
      ((e : AppError) × IsStrange token × IsUnauthorized (app e) × (result ≡ raise e))
      ⊎ ((u : User) × Member u d.users
          × IsTokenOf token u
          × (((u.is_admin ≡ false) × (result ≡ raise forbidden))
              ⊎ ((u.is_admin ≡ true) × (result ≡ ok u))))

  admitted :
      (text : Text) (id : ℤ) (o : Option User)
      → decode_token j settings now text access ≡ ok id
      → user_of s d id ≡ o
      → GateEnds (some text) (or_gone o >>= require_admin)
  unfolding or_gone credentials require_admin
  admitted text id none e f = inl (no_longer_exists, deleted text id e f, (refl, refl), refl)
  admitted text id (some u) e f =
      let (m, own) = user_of-IsTokenOf text id u e f in
      inr (
        u,
        m,
        own,
        elim (Bool-cases u.is_admin) [
          | inl on ↦ inr (on, rw on refl)
          | inr off ↦ inl (off, rw off refl)
        ],
      )

  decoded :
      (text : Text) (r : Result ℤ)
      → decode_token j settings now text access ≡ r
      → Fails IsUnauthorized r
      → GateEnds (some text) ((r >>= λ id. or_gone (user_of s d id)) >>= require_admin)
  decoded text (ok id) e k = admitted text id (user_of s d id) e refl
  decoded text (err (app x)) e k = inl (x, undecoded text (app x) e, k, refl)
  decoded text (err integrity_error) e k = absurd k
  decoded text (err overflow_error) e k = absurd k
  decoded text (err unexpected) e k = absurd k

  pub current_admin-GateEnds :
      (token : Option Text) → GateEnds token (current_admin s j settings d now token)
  unfolding current_admin get_current_user credentials
  current_admin-GateEnds none = inl (_, (λ u m (text, q, k). cc), (refl, refl), refl)
  current_admin-GateEnds (some text) =
      decoded text (decode_token j settings now text access) refl
        (decode_token-Fails j settings now text access)
