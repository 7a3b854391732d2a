-- ===== src/Prelude/Lists.antt =====
-- Lists measured by native numbers, predicates on their entries by recursion, and permutations.
use Prim.Native.Nat.{ℕ, zero, suc, ◌≤◌}
use mathlib.Core.Path.{◌≡◌, refl, sym, ap, ◌∙◌, subst}
use mathlib.Core.Bool.{Bool, true, false}
use mathlib.Core.Option.{Option, none, some}
use mathlib.Core.Logic.{◌⊎◌, inl, inr}
use mathlib.Core.List.{List, [], ◌∷◌, ◌++◌, Permᴰ}
use native.Mathlib.Omega.{arith}
use fleet_tracking_backend.Prelude.Tests.{if◌then◌else◌}

module _ {ℓ} {A : Type ℓ} where
  abbrev pub length : List A → ℕ
  length [] = 0
  length (x ∷ xs) = suc (length xs)

  abbrev pub take : ℕ → List A → List A
  take zero xs = []
  take (suc n) [] = []
  take (suc n) (x ∷ xs) = x ∷ take n xs

  abbrev pub drop : ℕ → List A → List A
  drop zero xs = xs
  drop (suc n) [] = []
  drop (suc n) (x ∷ xs) = drop n xs

  abbrev pub head? : List A → Option A
  head? [] = none
  head? (x ∷ xs) = some x

  -- The entries that a test accepts, in order.
  abbrev pub filter : (A → Bool) → List A → List A
  filter p [] = []
  filter p (x ∷ xs) = let rest = filter p xs in if p x then x ∷ rest else rest

  -- Every entry satisfies the predicate.
  abbrev pub All {κ} : (A → Type κ) → List A → Type κ
  All P [] = Unit
  All P (x ∷ xs) = P x × All P xs

  -- Any two entries at different places are related, the earlier one first.
  abbrev pub Pairwise {κ} : (A → A → Type κ) → List A → Type κ
  Pairwise R [] = Unit
  Pairwise R (x ∷ xs) = All (R x) xs × Pairwise R xs

module _ {A : Type 0} where
  -- The entry stands somewhere in the list.
  abbrev pub Member : A → List A → Type 0
  Member y [] = ⊥
  Member y (x ∷ xs) = (y ≡ x) ⊎ Member y xs

  pub Member-perm : {xs ys : List A} (y : A) → Permᴰ xs ys → Member y xs → Member y ys
  Member-perm y Permᴰ.nil m = m
  Member-perm y (Permᴰ.cons e p) (inl h) = inl (h ∙ e)
  Member-perm y (Permᴰ.cons e p) (inr m) = inr (Member-perm y p m)
  Member-perm y (Permᴰ.swap e f) (inl h) = inr (inl (h ∙ e))
  Member-perm y (Permᴰ.swap e f) (inr (inl h)) = inl (h ∙ f)
  Member-perm y (Permᴰ.swap e f) (inr (inr m)) = inr (inr m)
  Member-perm y (Permᴰ.trans p q) m = Member-perm y q (Member-perm y p m)

  pub Member-filter :
      (p : A → Bool) (xs : List A) (y : A) → Member y (filter p xs) → Member y xs × (p y ≡ true)
  Member-filter p [] y m = elim m [ ]
  Member-filter p (x ∷ xs) y m = ground (arith, Member-filter p xs y)

  pub filter-Member :
      (p : A → Bool) (xs : List A) (y : A) → Member y xs → p y ≡ true → Member y (filter p xs)
  filter-Member p [] y m h = elim m [ ]
  filter-Member p (x ∷ xs) y m h = ground (arith, filter-Member p xs y)

  pub Member-append_one : (xs : List A) (y : A) → Member y (xs ++ y ∷ [])
  Member-append_one [] y = inl refl
  Member-append_one (x ∷ xs) y = inr (Member-append_one xs y)

module _ {ℓ κ} {A : Type ℓ} (P : A → Type κ) where
  pub All-append_one : (xs : List A) (y : A) → All P xs → P y → All P (xs ++ y ∷ [])
  All-append_one [] y h p = (p, tt)
  All-append_one (x ∷ xs) y h p = (h.0, All-append_one xs y h.1 p)

  pub All-perm : {xs ys : List A} → Permᴰ xs ys → All P xs → All P ys
  All-perm Permᴰ.nil h = h
  All-perm (Permᴰ.cons e p) h = (subst P e h.0, All-perm p h.1)
  All-perm (Permᴰ.swap e f) h = (subst P f h.1.0, (subst P e h.0, h.1.1))
  All-perm (Permᴰ.trans p q) h = All-perm q (All-perm p h)

  pub All-filter : (p : A → Bool) (xs : List A) → All P xs → All P (filter p xs)
  All-filter p [] h = tt
  All-filter p (x ∷ xs) h = ground (arith, All-filter p xs h.1)

  pub All-take : (n : ℕ) (xs : List A) → All P xs → All P (take n xs)
  All-take zero xs h = tt
  All-take (suc n) [] h = tt
  All-take (suc n) (x ∷ xs) h = (h.0, All-take n xs h.1)

  pub All-drop : (n : ℕ) (xs : List A) → All P xs → All P (drop n xs)
  All-drop zero xs h = h
  All-drop (suc n) [] h = tt
  All-drop (suc n) (x ∷ xs) h = All-drop n xs h.1

module _ {ℓ κ μ} {A : Type ℓ} (P : A → Type κ) (Q : A → Type μ) where
  pub All-map : (xs : List A) → ((x : A) → P x → Q x) → All P xs → All Q xs
  All-map [] f h = tt
  All-map (x ∷ xs) f h = (f x h.0, All-map xs f h.1)

module _ {κ} {A : Type 0} (P : A → Type κ) where
  pub All-Member : (xs : List A) (y : A) → All P xs → Member y xs → P y
  All-Member [] y h m = elim m [ ]
  All-Member (x ∷ xs) y h (inl e) = subst P (sym e) h.0
  All-Member (x ∷ xs) y h (inr m) = All-Member xs y h.1 m

  pub All-of-Member : (xs : List A) → ((x : A) → Member x xs → P x) → All P xs
  All-of-Member [] f = tt
  All-of-Member (x ∷ xs) f = (f x (inl refl), All-of-Member xs (λ y m. f y (inr m)))

module _ {ℓ} {A : Type ℓ} where
  pub length-perm : {xs ys : List A} → Permᴰ xs ys → length xs ≡ length ys
  length-perm Permᴰ.nil = refl
  length-perm (Permᴰ.cons e p) = ap suc (length-perm p)
  length-perm (Permᴰ.swap e f) = refl
  length-perm (Permᴰ.trans p q) = length-perm p ∙ length-perm q

  pub Permᴰ-sym : {xs ys : List A} → Permᴰ xs ys → Permᴰ ys xs
  Permᴰ-sym Permᴰ.nil = Permᴰ.nil
  Permᴰ-sym (Permᴰ.cons e p) = Permᴰ.cons (sym e) (Permᴰ-sym p)
  Permᴰ-sym (Permᴰ.swap e f) = Permᴰ.swap (sym f) (sym e)
  Permᴰ-sym (Permᴰ.trans p q) = Permᴰ.trans (Permᴰ-sym q) (Permᴰ-sym p)

  -- A filtered list holds only what the test accepts, and an empty one that nothing was accepted.
  pub All-filter_self : (p : A → Bool) (xs : List A) → All (λ x. p x ≡ true) (filter p xs)
  All-filter_self p [] = tt
  All-filter_self p (x ∷ xs) = ground (arith, All-filter_self p xs)

  pub filter-eq-nil :
      (p : A → Bool) (xs : List A) → length (filter p xs) ≡ 0 → All (λ x. p x ≡ false) xs
  filter-eq-nil p [] h = tt
  filter-eq-nil p (x ∷ xs) h = ground (arith, filter-eq-nil p xs)

  pub filter-none : (p : A → Bool) (xs : List A) → All (λ x. p x ≡ false) xs → filter p xs ≡ []
  filter-none p [] h = refl
  filter-none p (x ∷ xs) h = rw (h.0, filter-none p xs h.1)

  pub length-take-le : (n : ℕ) (xs : List A) → length (take n xs) ≤ n
  length-take-le zero xs = omega arith
  length-take-le (suc n) [] = omega arith
  length-take-le (suc n) (x ∷ xs) = omega (arith, length-take-le n xs)
