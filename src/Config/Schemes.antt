-- ===== src/Config/Schemes.antt =====
-- Which scheme a normalized database URL has.
use fleet_tracking_backend.Prelude.{
  ◌≡◌, refl, sym, subst, ◌⊎◌, inl, inr, Bool, true, false, ◌&&◌, ◌==◌, ==_iff, [], ◌∷◌, ◌++◌,
  length, drop, arith, Bool-cases,
}
use fleet_tracking_backend.Mqtt.Topic.{Text}
use fleet_tracking_backend.Config.{
  starts_with, postgresql, postgres, asyncpg, normalize_database_url,
}

both_true : (a b : Bool) → (a && b) ≡ true → (a ≡ true) × (b ≡ true)
both_true a b e = ground arith

starts_with-append :
    (prefix text : Text)
    → starts_with prefix text ≡ true
    → text ≡ prefix ++ drop (length prefix) text
unfolding starts_with
starts_with-append [] text e = refl
starts_with-append (c ∷ prefix) [] e = cc
starts_with-append (c ∷ prefix) (d ∷ text) e =
    let (same, rest) = both_true (c == d) (starts_with prefix text) e in
    let q : c ≡ d = (==_iff c d).0 same in cc (q, starts_with-append prefix text rest)

-- What becomes of a URL.
abbrev pub IsNormalized : Text → Text → Type 0
IsNormalized url out =
    ((rest : Text) × ((url ≡ postgresql ++ rest) ⊎ (url ≡ postgres ++ rest))
      × (out ≡ asyncpg ++ rest))
    ⊎ ((starts_with postgresql url ≡ false) × (starts_with postgres url ≡ false) × (out ≡ url))

settled :
    (url : Text)
    → (starts_with postgresql url ≡ false) × (starts_with postgres url ≡ false)
    → normalize_database_url url ≡ url
unfolding normalize_database_url
settled url h = rw (h.0, h.1) refl

asyncpg_settled :
    (rest : Text)
    → (starts_with postgresql (asyncpg ++ rest) ≡ false)
      × (starts_with postgres (asyncpg ++ rest) ≡ false)
unfolding starts_with
asyncpg_settled rest = (refl, refl)

-- The result has neither scheme any more, and stays.
abbrev pub Settles : Text → Text → Type 0
Settles url out =
    IsNormalized url out
    × (starts_with postgresql out ≡ false)
    × (starts_with postgres out ≡ false)
    × (normalize_database_url out ≡ out)

to_asyncpg :
    (url rest : Text)
    → (url ≡ postgresql ++ rest) ⊎ (url ≡ postgres ++ rest)
    → Settles url (asyncpg ++ rest)
to_asyncpg url rest from =
    let (a, b) = asyncpg_settled rest in
    (inl (rest, from, refl), a, b, settled (asyncpg ++ rest) (a, b))

-- The two schemes that a hosting platform hands out become the one of the asynchronous driver, with
-- the rest of the URL as it is; every other URL stays. The result has neither of the two schemes, and
-- a second normalization changes nothing.
pub normalize-Settles : (url : Text) → Settles url (normalize_database_url url)
unfolding normalize_database_url
normalize-Settles url = elim (Bool-cases (starts_with postgresql url)) [
  | inl e ↦
      let same : normalize_database_url url ≡ asyncpg ++ drop (length postgresql) url = rw e refl in
      subst (Settles url) (sym same) (to_asyncpg url _ (inl (starts_with-append postgresql url e)))
  | inr e ↦ elim (Bool-cases (starts_with postgres url)) [
    | inl f ↦
        let same : normalize_database_url url ≡ asyncpg ++ drop (length postgres) url =
          rw (e, f) refl in
        subst (Settles url) (sym same) (to_asyncpg url _ (inr (starts_with-append postgres url f)))
    | inr f ↦
        let same = settled url (e, f) in
        subst (Settles url) (sym same) (inr (e, f, refl), e, f, same)
  ]
]
