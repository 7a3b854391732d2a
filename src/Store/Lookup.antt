-- ===== src/Store/Lookup.antt =====
-- What a read by primary key and a check by a unique column tell, in the form the services use.
use fleet_tracking_backend.Prelude.{
  refl, ◌≤◌, filter, length, length-perm, head?, Bool-cases, filter-none, ℕ, String, ◌≡◌, ◌≢◌, sym,
  ap, false, none, some, List, [], ◌∷◌, ◌⊎◌, inl, inr, arith, All, All-map, All-Member, Pairwise,
  ◌∙◌, Member, ◌==str◌, eq_iff, Option-cases,
}
use fleet_tracking_backend.Errors.{ok}
use fleet_tracking_backend.Store.Session.{Session, scalar, one_or_none, scalar_one_or_none}
use fleet_tracking_backend.Store.Query.{scalar-none, scalar-some}

module _ (s : Session) {Row : Type 0} (field : Row → String) (text : String) (rows : List Row) where
  -- A unique text column is free, or some row has the text.
  pub scalar-text :
      ((scalar s (λ r. field r ==str text) rows ≡ none) × All (λ r. field r ≢ text) rows)
      ⊎ ((r : Row) × (scalar s (λ r. field r ==str text) rows ≡ some r)
          × Member r rows
          × (field r ≡ text))
  scalar-text = elim (Option-cases (scalar s (λ r. field r ==str text) rows)) [
    | inl e ↦ inl (
      e,
      All-map (λ r. (field r ==str text) ≡ false) (λ r. field r ≢ text) rows
          (λ r ne q. ground (arith, eq_iff (field r) text))
          (scalar-none s (λ r. field r ==str text) rows e),
    )
    | inr (r, e) ↦
        let found = scalar-some s (λ r. field r ==str text) rows r e in
        inr (r, e, found.0, (eq_iff (field r) text).0 found.1)
  ]

none_else :
    {Row : Type 0} (field : Row → String) (text : String) (rows : List Row)
    → All (λ r. field r ≢ text) rows
    → filter (λ r. field r ==str text) rows ≡ []
none_else field text rows free =
    filter-none (λ r. field r ==str text) rows
      (All-map (λ r. field r ≢ text) (λ r. (field r ==str text) ≡ false) rows
        (λ r ne. ground (arith, eq_iff (field r) text)) free)

-- At most one row has a text in a unique column.
filter-le-one :
    {Row : Type 0} (field : Row → String) (text : String) (rows : List Row)
    → Pairwise (λ x y. field x ≢ field y) rows
    → length (filter (λ r. field r ==str text) rows) ≤ 1
filter-le-one field text [] u = omega arith
filter-le-one field text (r ∷ rows) u = elim (Bool-cases (field r ==str text)) [
  | inl same ↦
      let q : field r ≡ text = (eq_iff (field r) text).0 same in
      let empty = none_else field text rows (
        All-map (λ x. field r ≢ field x) (λ x. field x ≢ text) rows (λ x ne e. ne (q ∙ sym e))
          u.0) in
      rw (same, empty) (omega arith)
  | inr other ↦ rw other (filter-le-one field text rows u.1)
]

one_or_none-head :
    (s : Session) {Row : Type 0} (rows : List Row)
    → length rows ≤ 1
    → one_or_none s rows ≡ ok (head? rows)
unfolding one_or_none
one_or_none-head s [] h = refl
one_or_none-head s (r ∷ []) h = refl
one_or_none-head s (r ∷ q ∷ rows) h = absurd (omega arith)

-- A query by a unique text column has at most one row, which is the first one.
pub scalar_one_or_none-scalar :
    (s : Session) {Row : Type 0} (field : Row → String) (text : String) (rows : List Row)
    → Pairwise (λ x y. field x ≢ field y) rows
    → scalar_one_or_none s (λ r. field r ==str text) rows
      ≡ ok (scalar s (λ r. field r ==str text) rows)
unfolding scalar_one_or_none scalar
scalar_one_or_none-scalar s field text rows u =
    let same = length-perm (s.select_perm (λ r. field r ==str text) rows) in
    let few = filter-le-one field text rows u in
    one_or_none-head s (s.select (λ r. field r ==str text) rows) (ground arith)

-- The value of a row in a unique column differs from those of the rows with other keys.
pub own_value :
    {A B : Type 0} (key : A → ℕ) (field : A → B) (r : A) (rows : List A)
    → Pairwise (λ x y. field x ≢ field y) rows
    → Member r rows
    → All (λ x. key x ≢ key r → field x ≢ field r) rows
own_value key field r [] u m = tt
own_value key field r (x ∷ rows) u (inl e) = (
  λ ne. absurd (ne (sym (ap key e))),
  All-map (λ y. field x ≢ field y) (λ y. key y ≢ key r → field y ≢ field r) rows
      (λ y ne _ q. ne (sym (ap field e) ∙ sym q)) u.0,
)
own_value key field r (x ∷ rows) u (inr m) =
    (λ _. All-Member (λ y. field x ≢ field y) rows r u.0 m, own_value key field r rows u.1 m)
