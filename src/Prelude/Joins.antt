-- ===== src/Prelude/Joins.antt =====
-- Lists of lists, and relations between the entries of a list under a rearrangement.
use mathlib.Core.Path.{◌≡◌, refl, subst}
use mathlib.Core.Bool.{Bool, not}
use mathlib.Core.Logic.{inl, inr}
use mathlib.Core.List.{List, [], ◌∷◌, ◌++◌, Permᴰ}
use fleet_tracking_backend.Prelude.Tests.{Bool-cases}
use fleet_tracking_backend.Prelude.Lists.{
  All, Pairwise, Member, All-perm, All-map, All-Member, All-of-Member, filter,
}

-- The entries of all the lists that the entries become.
abbrev pub concat_map : {A B : Type 0} → (A → List B) → List A → List B
concat_map f [] = []
concat_map f (x ∷ xs) = f x ++ concat_map f xs

module _ {A : Type 0} (R : A → A → Type 0) where
  related_perm : {a b : A} {xs ys : List A} → a ≡ b → Permᴰ xs ys → All (R a) xs → All (R b) ys
  related_perm {a} {b} {xs} {ys} e p h = subst (λ x. All (R x) ys) e (All-perm (R a) p h)

  swapped :
      {a b c e : A} (xs : List A)
      → ((x y : A) → R x y → R y x)
      → a ≡ e
      → b ≡ c
      → Pairwise R (a ∷ b ∷ xs)
      → Pairwise R (c ∷ e ∷ xs)
  swapped {a} {b} {c} {e} xs flip f g h =
      let turned : R c e = subst (λ x. R x e) g (subst (λ x. R b x) f (flip a b h.0.0)) in
      ((turned, subst (λ x. All (R x) xs) g h.1.0), (subst (λ x. All (R x) xs) f h.0.1, h.1.1))

  pub Pairwise-perm :
      {xs ys : List A} → ((x y : A) → R x y → R y x) → Permᴰ xs ys → Pairwise R xs → Pairwise R ys
  Pairwise-perm flip Permᴰ.nil h = tt
  Pairwise-perm flip (Permᴰ.cons e p) h = (related_perm e p h.0, Pairwise-perm flip p h.1)
  Pairwise-perm flip (Permᴰ.swap e f) h = swapped _ flip e f h
  Pairwise-perm flip (Permᴰ.trans p q) h = Pairwise-perm flip q (Pairwise-perm flip p h)

pub All-append :
    {A : Type 0} (P : A → Type 0) (xs ys : List A) → All P xs → All P ys → All P (xs ++ ys)
All-append P [] ys h k = k
All-append P (x ∷ xs) ys h k = (h.0, All-append P xs ys h.1 k)

pub All-concat_map :
    {A B : Type 0} (P : B → Type 0) (f : A → List B) (xs : List A)
    → All (λ x. All P (f x)) xs
    → All P (concat_map f xs)
All-concat_map P f [] h = tt
All-concat_map P f (x ∷ xs) h = All-append P (f x) (concat_map f xs) h.0 (All-concat_map P f xs h.1)

Pairwise-append :
    {A : Type 0} (R : A → A → Type 0) (xs ys : List A)
    → Pairwise R xs
    → Pairwise R ys
    → All (λ x. All (R x) ys) xs
    → Pairwise R (xs ++ ys)
Pairwise-append R [] ys h k m = k
Pairwise-append R (x ∷ xs) ys h k m =
    (All-append (R x) xs ys h.0 m.0, Pairwise-append R xs ys h.1 k m.1)

pub Pairwise-map :
    {A : Type 0} (R S : A → A → Type 0)
    → ((x y : A) → R x y → S x y)
    → (xs : List A) → Pairwise R xs
    → Pairwise S xs
Pairwise-map R S f [] h = tt
Pairwise-map R S f (x ∷ xs) h = (All-map (R x) (S x) xs (f x) h.0, Pairwise-map R S f xs h.1)

pub Pairwise-concat_map :
    {A B : Type 0} (R : B → B → Type 0) (f : A → List B) (xs : List A)
    → ((x : A) → Pairwise R (f x))
    → Pairwise (λ x y. All (λ b. All (R b) (f y)) (f x)) xs
    → Pairwise R (concat_map f xs)
Pairwise-concat_map R f [] each h = tt
Pairwise-concat_map R f (x ∷ xs) each h =
    Pairwise-append R (f x) (concat_map f xs) (each x) (Pairwise-concat_map R f xs each h.1) (
      All-of-Member (λ b. All (R b) (concat_map f xs)) (f x)
        (λ b m. All-concat_map (R b) f xs (
          All-map (λ y. All (λ b. All (R b) (f y)) (f x)) (λ y. All (R b) (f y)) xs
            (λ y k. All-Member (λ b. All (R b) (f y)) (f x) b k m) h.0)))

Member-append_left : {A : Type 0} (x : A) (xs ys : List A) → Member x xs → Member x (xs ++ ys)
Member-append_left x [] ys m = absurd m
Member-append_left x (y ∷ xs) ys (inl e) = inl e
Member-append_left x (y ∷ xs) ys (inr m) = inr (Member-append_left x xs ys m)

Member-append_right : {A : Type 0} (x : A) (xs ys : List A) → Member x ys → Member x (xs ++ ys)
Member-append_right x [] ys m = m
Member-append_right x (y ∷ xs) ys m = inr (Member-append_right x xs ys m)

pub Member-concat_map :
    {A B : Type 0} (f : A → List B) (xs : List A) (x : A) (b : B)
    → Member x xs
    → Member b (f x)
    → Member b (concat_map f xs)
Member-concat_map f [] x b m n = absurd m
Member-concat_map f (y ∷ xs) x b (inl e) n =
    Member-append_left b (f y) (concat_map f xs) (subst (λ z. Member b (f z)) e n)
Member-concat_map f (y ∷ xs) x b (inr m) n =
    Member-append_right b (f y) (concat_map f xs) (Member-concat_map f xs x b m n)

module _ {A : Type 0} where
  perm_self : (xs : List A) → Permᴰ xs xs
  perm_self [] = Permᴰ.nil
  perm_self (x ∷ xs) = Permᴰ.cons refl (perm_self xs)

  perm_middle : (x : A) (xs ys : List A) → Permᴰ (xs ++ x ∷ ys) (x ∷ (xs ++ ys))
  perm_middle x [] ys = perm_self (x ∷ ys)
  perm_middle x (y ∷ xs) ys =
      Permᴰ.trans (Permᴰ.cons refl (perm_middle x xs ys)) (Permᴰ.swap refl refl)

  pub perm-append : {xs ys : List A} (zs : List A) → Permᴰ xs ys → Permᴰ (xs ++ zs) (ys ++ zs)
  perm-append zs Permᴰ.nil = perm_self zs
  perm-append zs (Permᴰ.cons e p) = Permᴰ.cons e (perm-append zs p)
  perm-append zs (Permᴰ.swap e f) = Permᴰ.swap e f
  perm-append zs (Permᴰ.trans p q) = Permᴰ.trans (perm-append zs p) (perm-append zs q)

  -- The entries that a test selects, and the others.
  pub split_perm :
      (test : A → Bool) (xs : List A) → Permᴰ (filter test xs ++ filter (λ x. not (test x)) xs) xs
  split_perm test [] = Permᴰ.nil
  split_perm test (x ∷ xs) = elim (Bool-cases (test x)) [
    | inl e ↦ rw e (Permᴰ.cons refl (split_perm test xs))
    | inr e ↦ rw e (
        Permᴰ.trans (perm_middle x (filter test xs) (filter (λ y. not (test y)) xs))
          (Permᴰ.cons refl (split_perm test xs)))
  ]
