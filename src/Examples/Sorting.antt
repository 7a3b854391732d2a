-- ===== src/Examples/Sorting.antt =====
-- Insertion sort, for the ORDER BY of the reference session.
use fleet_tracking_backend.Prelude.{
  ◌≡◌, refl, Bool, true, false, ◌⊎◌, inl, inr, List, [], ◌∷◌, Permᴰ, All-map, All-perm, Pairwise,
  if◌then◌else◌, Bool-cases, Permᴰ-sym,
}

module _ {A : Type 0} (le : A → A → Bool) where
  insert : A → List A → List A
  insert a [] = a ∷ []
  insert a (x ∷ xs) = let rest = insert a xs in if le a x then a ∷ x ∷ xs else x ∷ rest

  unfoldable pub sort : List A → List A
  unfolding insert
  sort [] = []
  sort (x ∷ xs) = insert x (sort xs)

  insert-perm : (a : A) (xs : List A) → Permᴰ (insert a xs) (a ∷ xs)
  unfolding insert
  insert-perm a [] = Permᴰ.cons refl Permᴰ.nil
  insert-perm a (x ∷ xs) = elim (Bool-cases (le a x)) [
    | inl e ↦ rw e (Permᴰ-refl (a ∷ x ∷ xs))
    | inr e ↦ rw e (Permᴰ.trans (Permᴰ.cons refl (insert-perm a xs)) (Permᴰ.swap refl refl))
  ]
    where
      Permᴰ-refl : (ys : List A) → Permᴰ ys ys
      Permᴰ-refl [] = Permᴰ.nil
      Permᴰ-refl (y ∷ ys) = Permᴰ.cons refl (Permᴰ-refl ys)

  pub sort-perm : (xs : List A) → Permᴰ (sort xs) xs
  unfolding sort
  sort-perm [] = Permᴰ.nil
  sort-perm (x ∷ xs) = Permᴰ.trans (insert-perm x (sort xs)) (Permᴰ.cons refl (sort-perm xs))

  abbrev pub Ordered : List A → Type 0
  Ordered = Pairwise λ a b. le a b ≡ true

  module _ (total : (a b : A) → (le a b ≡ true) ⊎ (le b a ≡ true))
      (trans : (a b c : A) → le a b ≡ true → le b c ≡ true → le a c ≡ true) where
    insert-Ordered : (a : A) (xs : List A) → Ordered xs → Ordered (insert a xs)
    unfolding insert
    insert-Ordered a [] h = (tt, tt)
    insert-Ordered a (x ∷ xs) h = elim (Bool-cases (le a x)) [
      | inl e ↦ rw e (
        (e, All-map (λ y. le x y ≡ true) (λ y. le a y ≡ true) xs (λ y f. trans a x y e f) h.0),
        h,
      )
      | inr e ↦ rw e (
        All-perm (λ y. le x y ≡ true) (Permᴰ-sym (insert-perm a xs)) (above e, h.0),
        insert-Ordered a xs h.1,
      )
    ]
      where
        above : le a x ≡ false → le x a ≡ true
        above e = elim (total a x) [ inl t ↦ cc | inr t ↦ t ]

    pub sort-Ordered : (xs : List A) → Ordered (sort xs)
    unfolding sort
    sort-Ordered [] = tt
    sort-Ordered (x ∷ xs) = insert-Ordered x (sort xs) (sort-Ordered xs)
