-- ===== src/Examples/Parts.antt =====
-- Concrete parts in place of the other parameters: a token codec, a hasher, a decoder of one message.
use fleet_tracking_backend.Prelude.{
  ℕ, zero, suc, ◌/◌, ◌≤◌, ◌<◌, ◌≡◌, refl, ap, String, true, false, Option, none, some, [], ◌∷◌,
  ◌++◌, arith, length, take, drop, ltb, lt→ltb, if◌then◌else◌, ◌==str◌, eq_iff,
}
use fleet_tracking_backend.Prelude.Int.{pos}
use fleet_tracking_backend.Mqtt.Topic.{Text}
use fleet_tracking_backend.Mqtt.Payload.{Decoder, loaded, decode_error}
use fleet_tracking_backend.Tracking.Status.{utc}
use fleet_tracking_backend.Auth.Passwords.{Hasher}
use fleet_tracking_backend.Auth.Tokens.{
  Jwt, Claims, Decoded, claims, expired_signature, invalid_token, second, in_seconds,
}

take_prefix : (t rest : Text) → take (length t) (t ++ rest) ≡ t
take_prefix [] rest = refl
take_prefix (c ∷ t) rest = ap (◌∷◌ c) (take_prefix t rest)

drop_prefix : (t rest : Text) → drop (length t) (t ++ rest) ≡ rest
drop_prefix [] rest = refl
drop_prefix (c ∷ t) rest = drop_prefix t rest

-- A text with its length in front, and a number for a missing one.
put : Option Text → Text → Text
put none rest = 0 ∷ rest
put (some t) rest = suc (length t) ∷ (t ++ rest)

first_of_text : Text → Option Text
first_of_text [] = none
first_of_text (zero ∷ rest) = none
first_of_text (suc n ∷ rest) = some (take n rest)

rest_of_text : Text → Text
rest_of_text [] = []
rest_of_text (zero ∷ rest) = rest
rest_of_text (suc n ∷ rest) = drop n rest

first-put : (o : Option Text) (rest : Text) → first_of_text (put o rest) ≡ o
unfolding first_of_text put
first-put none rest = refl
first-put (some t) rest = ap some (take_prefix t rest)

rest-put : (o : Option Text) (rest : Text) → rest_of_text (put o rest) ≡ rest
unfolding rest_of_text put
rest-put none rest = refl
rest-put (some t) rest = drop_prefix t rest

pub encode : Text → Claims → Text
encode key c = (c.iat / second) ∷ (c.exp / second) ∷ put c.sub (put c.type [])

pub decode : Text → ℕ → Text → Decoded
decode key now [] = invalid_token
decode key now (i ∷ []) = invalid_token
decode key now (i ∷ e ∷ rest) =
    if ltb (now / second) e
    then claims (record {
      sub = first_of_text rest;
      type = first_of_text (rest_of_text rest);
      iat = i;
      exp = e;
    })
    else expired_signature

pub decode-encode :
    (key : Text) (c : Claims) (now : ℕ)
    → c.iat / second ≤ now / second
    → now / second < c.exp / second
    → decode key now (encode key c) ≡ claims (in_seconds c)
unfolding decode encode
decode-encode key c now made alive = rw (
  lt→ltb _ _ alive,
  first-put c.sub (put c.type []),
  rest-put c.sub (put c.type []),
  first-put c.type [],
)

pub decode-expired :
    (key : Text) (c : Claims) (now : ℕ)
    → c.iat / second ≤ now / second
    → c.exp / second ≤ now / second
    → decode key now (encode key c) ≡ expired_signature
unfolding decode encode
decode-expired key c now made dead =
    let over : ltb (now / second) (c.exp / second) ≡ false = ground arith in rw over

unfoldable pub codec : Jwt
unfolding encode decode first_of_text rest_of_text put
codec = record {
  encode = encode;
  decode = decode;
  decode-encode = decode-encode;
  decode-expired = decode-expired;
}

pub same_password : (salt : ℕ) (password : String) → (password ==str password) ≡ true
same_password salt password = (eq_iff password password).1 refl

-- The password is its own hash.
abbrev pub plain : Hasher
plain = record {
  hash = λ salt password. password;
  verify = λ password hashed. password ==str hashed;
  verify-hash = same_password;
}

value_of : String → ℕ
value_of name = if name ==str "speed" then 42_500_000 else 1

-- Every payload but the empty one is the fix of vehicle 1 at millionth 1.
unfoldable pub one_fix : Decoder
unfolding value_of
one_fix = record {
  Json = Unit {0};
  Object = Unit {0};
  loads = λ payload. elim payload [ [] ↦ decode_error | c ∷ cs ↦ loaded tt ];
  as_object = λ j. some j;
  int_field = λ name o. some (pos (value_of name));
  float_field = λ name o. some (pos (value_of name));
  datetime_field = λ name o. some (utc 1_020_000_000);
}
