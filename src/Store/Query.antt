-- ===== src/Store/Query.antt =====
-- What a query tells about a table, from the session's documented behaviour.
use fleet_tracking_backend.Prelude.{
  ℕ, ◌≡◌, ◌≢◌, refl, sym, ap, ◌∙◌, inl, inr, Bool, true, false, Option, none, some, List, [], ◌∷◌,
  arith, filter, length, head?, Member, All, length-perm, Permᴰ-sym, Member-perm, Member-filter,
  filter-Member, filter-eq-nil, All-Member, All-map, ◌==◌, ==_iff, Unique,
}
use fleet_tracking_backend.Store.Session.{Session, scalar, get, count}

length-zero : {A : Type 0} (xs : List A) → head? xs ≡ none → length xs ≡ 0
length-zero [] h = refl
length-zero (x ∷ xs) h = cc

Member-head : {A : Type 0} (xs : List A) {x : A} → head? xs ≡ some x → Member x xs
Member-head [] h = cc
Member-head (x ∷ xs) h = inl (cc)

-- A list that has a member has a head.
head-some : {A : Type 0} (xs : List A) (x : A) → Member x xs → head? xs ≢ none
head-some [] x m e = m
head-some (y ∷ xs) x m e = cc

-- A key that a row has is found on it.
pub Unique-row :
    {A : Type 0} (key : A → ℕ) (rows : List A) (x y : A)
    → Unique key rows
    → Member x rows
    → Member y rows
    → key x ≡ key y
    → x ≡ y
Unique-row key [] x y u m n e = elim m [ ]
Unique-row key (r ∷ rows) x y u (inl a) (inl b) e = a ∙ sym b
Unique-row key (r ∷ rows) x y u (inl a) (inr n) e =
    absurd (All-Member (λ z. key r ≢ key z) rows y u.0 n (sym (ap key a) ∙ e))
Unique-row key (r ∷ rows) x y u (inr m) (inl b) e =
    absurd (All-Member (λ z. key r ≢ key z) rows x u.0 m (sym (ap key b) ∙ sym e))
Unique-row key (r ∷ rows) x y u (inr m) (inr n) e = Unique-row key rows x y u.1 m n e

module _ (s : Session) {Row : Type 0} where
  pub scalar-none :
      (p : Row → Bool) (rows : List Row) → scalar s p rows ≡ none → All (λ x. p x ≡ false) rows
  unfolding scalar
  scalar-none p rows h =
      filter-eq-nil p rows
        (sym (length-perm (s.select_perm p rows)) ∙ length-zero (s.select p rows) h)

  pub scalar-some :
      (p : Row → Bool) (rows : List Row) (r : Row)
      → scalar s p rows ≡ some r
      → Member r rows × (p r ≡ true)
  unfolding scalar
  scalar-some p rows r h =
      Member-filter p rows r (Member-perm r (s.select_perm p rows) (Member-head _ h))

  pub scalar-ne-none :
      (p : Row → Bool) (rows : List Row) (r : Row)
      → Member r rows
      → p r ≡ true
      → scalar s p rows ≢ none
  unfolding scalar
  scalar-ne-none p rows r m h =
      head-some (s.select p rows) r
        (Member-perm r (Permᴰ-sym (s.select_perm p rows)) (filter-Member p rows r m h))

  pub count-zero :
      (p : Row → Bool) (rows : List Row) → count s p rows ≡ 0 → All (λ x. p x ≡ false) rows
  unfolding count
  count-zero p rows h = filter-eq-nil p rows (sym (length-perm (s.select_perm p rows)) ∙ h)

  pub count-eq : (p : Row → Bool) (rows : List Row) → count s p rows ≡ length (filter p rows)
  unfolding count
  count-eq p rows = length-perm (s.select_perm p rows)

  module _ (key : Row → ℕ) where
    pub get-none : (k : ℕ) (rows : List Row) → get s key k rows ≡ none → All (λ x. key x ≢ k) rows
    unfolding get
    get-none k rows h =
        All-map (λ x. (key x == k) ≡ false) (λ x. key x ≢ k) rows (λ x e q. ground arith)
          (scalar-none (λ r. key r == k) rows h)

    pub get-some :
        (k : ℕ) (rows : List Row) (r : Row)
        → get s key k rows ≡ some r
        → Member r rows × (key r ≡ k)
    unfolding get
    get-some k rows r h =
        let found = scalar-some (λ r. key r == k) rows r h in
        (found.0, (==_iff (key r) k).0 found.1)

    -- The row with a key is found by it.
    pub get-Member :
        (rows : List Row) (r : Row)
        → Unique key rows
        → Member r rows
        → get s key (key r) rows ≡ some r
    unfolding get
    get-Member rows r u m = found (get s key (key r) rows) refl
      where
        found : (o : Option Row) → get s key (key r) rows ≡ o → o ≡ some r
        found none e =
            absurd
              (scalar-ne-none (λ x. key x == key r) rows r m ((==_iff (key r) (key r)).1 refl) e)
        found (some x) e =
            let (n, q) = get-some (key r) rows x e in ap some (Unique-row key rows x r u n m q)
