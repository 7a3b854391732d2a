-- ===== src/Prelude/Tables.antt =====
-- Tables as lists of rows with a key: the effect of UPDATE and DELETE, and what they keep.
use Prim.Native.Nat.{ℕ}
use mathlib.Core.Path.{◌≡◌, refl, sym, ap, ◌∙◌, subst}
use mathlib.Core.Logic.{◌≢◌, ◌⊎◌, inl, inr}
use mathlib.Core.Bool.{Bool, not}
use mathlib.Core.List.{List, [], ◌∷◌, ◌++◌}
use native.Mathlib.Omega.{arith}
use fleet_tracking_backend.Prelude.Tests.{◌==◌, ==_iff, Bool-cases, if◌then◌else◌}
use fleet_tracking_backend.Prelude.Lists.{
  All, Pairwise, Member, filter, All-append_one, All-filter, All-map, All-Member,
}

module _ {A : Type 0} (key : A → ℕ) where
  -- UPDATE … WHERE key = key row: the row takes the place of the one with its key.
  abbrev pub put_row : A → List A → List A
  put_row row [] = []
  put_row row (x ∷ xs) = (if key x == key row then row else x) ∷ put_row row xs

  -- DELETE … WHERE key = k
  abbrev pub delete_row : ℕ → List A → List A
  delete_row k xs = filter (λ x. not (key x == k)) xs

  -- No two rows have one key.
  abbrev pub Unique : List A → Type 0
  Unique = Pairwise λ x y. key x ≢ key y

  -- Some row has the key.
  abbrev pub HasKey : ℕ → List A → Type 0
  HasKey k [] = ⊥
  HasKey k (x ∷ xs) = (key x ≡ k) ⊎ HasKey k xs

  pub Member-HasKey : (xs : List A) {y : A} (k : ℕ) → Member y xs → key y ≡ k → HasKey k xs
  Member-HasKey [] k m e = elim m [ ]
  Member-HasKey (x ∷ xs) k (inl h) e = inl (sym (ap key h) ∙ e)
  Member-HasKey (x ∷ xs) k (inr m) e = inr (Member-HasKey xs k m e)

  pub HasKey-absent : (k : ℕ) (xs : List A) → HasKey k xs → All (λ x. key x ≢ k) xs → ⊥
  HasKey-absent k [] h a = h
  HasKey-absent k (x ∷ xs) (inl e) a = a.0 e
  HasKey-absent k (x ∷ xs) (inr h) a = HasKey-absent k xs h a.1

  pub HasKey-append_one : (k : ℕ) (xs : List A) (y : A) → HasKey k xs → HasKey k (xs ++ y ∷ [])
  HasKey-append_one k [] y h = elim h [ ]
  HasKey-append_one k (x ∷ xs) y (inl e) = inl e
  HasKey-append_one k (x ∷ xs) y (inr h) = inr (HasKey-append_one k xs y h)

  pub HasKey-put_row : (k : ℕ) (row : A) (xs : List A) → HasKey k xs → HasKey k (put_row row xs)
  HasKey-put_row k row [] h = elim h [ ]
  HasKey-put_row k row (x ∷ xs) h = ground (arith, HasKey-put_row k row xs)

  pub HasKey-delete_row : (j k : ℕ) (xs : List A) → j ≢ k → HasKey j xs → HasKey j (delete_row k xs)
  HasKey-delete_row j k [] ne h = elim h [ ]
  HasKey-delete_row j k (x ∷ xs) ne h = ground (arith, HasKey-delete_row j k xs ne)

  pub Member-put_row_self :
      (row y : A) (xs : List A) → Member y xs → key y ≡ key row → Member row (put_row row xs)
  Member-put_row_self row y [] m e = elim m [ ]
  Member-put_row_self row y (x ∷ xs) (inl h) e =
      inl (rw ((==_iff (key x) (key row)).1 (sym (ap key h) ∙ e)))
  Member-put_row_self row y (x ∷ xs) (inr m) e = inr (Member-put_row_self row y xs m e)

  pub Member-put_row :
      (row y : A) (xs : List A) → Member y xs → key y ≢ key row → Member y (put_row row xs)
  Member-put_row row y [] m ne = elim m [ ]
  Member-put_row row y (x ∷ xs) (inl h) ne = inl (elim (Bool-cases (key x == key row)) [
    | inl e ↦ absurd (ne (ap key h ∙ (==_iff (key x) (key row)).0 e))
    | inr e ↦ rw e h
  ])
  Member-put_row row y (x ∷ xs) (inr m) ne = inr (Member-put_row row y xs m ne)

  -- Two members with different keys are related.
  pub Pairwise-Member {κ} :
      (R : A → A → Type κ) (flip : (x y : A) → R x y → R y x) (xs : List A) (x y : A)
      → Pairwise R xs
      → Member x xs
      → Member y xs
      → key x ≢ key y
      → R x y
  Pairwise-Member R flip [] x y h m n ne = elim m [ ]
  Pairwise-Member R flip (z ∷ xs) x y h (inl a) (inl b) ne = absurd (ne (ap key (a ∙ sym b)))
  Pairwise-Member R flip (z ∷ xs) x y h (inl a) (inr n) ne =
      subst (λ w. R w y) (sym a) (All-Member (R z) xs y h.0 n)
  Pairwise-Member R flip (z ∷ xs) x y h (inr m) (inl b) ne =
      flip y x (subst (λ w. R w x) (sym b) (All-Member (R z) xs x h.0 m))
  Pairwise-Member R flip (z ∷ xs) x y h (inr m) (inr n) ne =
      Pairwise-Member R flip xs x y h.1 m n ne

  -- Where no row has the key, UPDATE changes nothing.
  pub put_row_absent : (row : A) (xs : List A) → All (λ x. key x ≢ key row) xs → put_row row xs ≡ xs
  put_row_absent row [] h = refl
  put_row_absent row (x ∷ xs) h = ground (arith, put_row_absent row xs h.1)

  pub All-put_row {κ} :
      (P : A → Type κ) (row : A) (xs : List A) → All P xs → P row → All P (put_row row xs)
  All-put_row P row [] h p = tt
  All-put_row P row (x ∷ xs) h p = elim (Bool-cases (key x == key row)) [
    | inl e ↦ rw e (p, All-put_row P row xs h.1 p)
    | inr e ↦ rw e (h.0, All-put_row P row xs h.1 p)
  ]

  -- The row that UPDATE replaces need not satisfy the predicate.
  pub All-put_row_others {κ} :
      (P : A → Type κ) (row : A) (xs : List A)
      → All (λ x. key x ≢ key row → P x) xs
      → P row
      → All P (put_row row xs)
  All-put_row_others P row [] h p = tt
  All-put_row_others P row (x ∷ xs) h p = elim (Bool-cases (key x == key row)) [
    | inl e ↦ rw e (p, All-put_row_others P row xs h.1 p)
    | inr e ↦
        rw e (h.0 (λ q. cc ((==_iff (key x) (key row)).1 q)), All-put_row_others P row xs h.1 p)
  ]

  -- The rows with other keys, each related to the new row.
  All-others {κ} :
      (R : A → A → Type κ) (flip : (x y : A) → R x y → R y x) (row : A) (xs : List A)
      → All (λ x. key x ≢ key row) xs
      → All (λ x. key x ≢ key row → R x row) xs
      → All (R row) xs
  All-others R flip row [] a b = tt
  All-others R flip row (x ∷ xs) a b = (flip x row (b.0 a.0), All-others R flip row xs a.1 b.1)

  pub Pairwise-put_row {κ} :
      (R : A → A → Type κ) (flip : (x y : A) → R x y → R y x) (row : A) (xs : List A)
      → Unique xs
      → Pairwise R xs
      → All (λ x. key x ≢ key row → R x row) xs
      → Pairwise R (put_row row xs)
  Pairwise-put_row R flip row [] u h n = tt
  Pairwise-put_row R flip row (x ∷ xs) u h n = elim (Bool-cases (key x == key row)) [
    | inl e ↦
        let same : key x ≡ key row = (==_iff (key x) (key row)).0 e in
        let others : All (λ y. key y ≢ key row) xs =
          All-map (λ y. key x ≢ key y) (λ y. key y ≢ key row) xs (λ y ne q. ne (same ∙ sym q))
            u.0 in
        rw (e, put_row_absent row xs others) (All-others R flip row xs others n.1, h.1)
    | inr e ↦ rw e (
      All-put_row (R x) row xs h.0 (n.0 (λ q. cc ((==_iff (key x) (key row)).1 q))),
      Pairwise-put_row R flip row xs u.1 h.1 n.1,
    )
  ]

module _ {ℓ κ} {A : Type ℓ} (R : A → A → Type κ) where
  pub Pairwise-append_one :
      (xs : List A) (y : A) → Pairwise R xs → All (λ x. R x y) xs → Pairwise R (xs ++ y ∷ [])
  Pairwise-append_one [] y h n = (tt, tt)
  Pairwise-append_one (x ∷ xs) y h n =
      (All-append_one (R x) xs y h.0 n.0, Pairwise-append_one xs y h.1 n.1)

  pub Pairwise-filter : (p : A → Bool) (xs : List A) → Pairwise R xs → Pairwise R (filter p xs)
  Pairwise-filter p [] h = tt
  Pairwise-filter p (x ∷ xs) h = ground (arith, All-filter (R x) p xs h.0, Pairwise-filter p xs h.1)
