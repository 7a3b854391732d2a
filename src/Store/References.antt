-- ===== src/Store/References.antt =====
-- A foreign key under the changes of the table that it refers to.
use fleet_tracking_backend.Prelude.{
  ℕ, ◌≡◌, false, Option, none, some, List, [], ◌∷◌, ◌++◌, arith, All, All-map, HasKey-append_one,
  HasKey-put_row, HasKey-delete_row, put_row, delete_row, holds,
}
use fleet_tracking_backend.Store.Schema.{Refers}

module _ {A : Type 0} (key : A → ℕ) where
  pub Refers-append_one :
      (o : Option ℕ) (rows : List A) (r : A) → Refers key o rows → Refers key o (rows ++ r ∷ [])
  Refers-append_one none rows r h = tt
  Refers-append_one (some k) rows r h = HasKey-append_one key k rows r h

  pub Refers-put_row :
      (o : Option ℕ) (rows : List A) (r : A) → Refers key o rows → Refers key o (put_row key r rows)
  Refers-put_row none rows r h = tt
  Refers-put_row (some k) rows r h = HasKey-put_row key k r rows h

  pub Refers-delete_row :
      (o : Option ℕ) (rows : List A) (k : ℕ)
      → holds o k ≡ false
      → Refers key o rows
      → Refers key o (delete_row key k rows)
  Refers-delete_row none rows k ne h = tt
  Refers-delete_row (some j) rows k ne h = HasKey-delete_row key j k rows (λ e. ground arith) h

  -- Every row of a table refers to a row of the other one.
  abbrev pub AllRefer : {U : Type 0} → (U → Option ℕ) → List U → List A → Type 0
  AllRefer f us rows = All (λ u. Refers key (f u) rows) us

  module _ {U : Type 0} (f : U → Option ℕ) (us : List U) (rows : List A) where
    pub AllRefer-append_one : (r : A) → AllRefer f us rows → AllRefer f us (rows ++ r ∷ [])
    AllRefer-append_one r =
        All-map (λ u. Refers key (f u) rows) (λ u. Refers key (f u) (rows ++ r ∷ [])) us
          (λ u. Refers-append_one (f u) rows r)

    pub AllRefer-put_row : (r : A) → AllRefer f us rows → AllRefer f us (put_row key r rows)
    AllRefer-put_row r =
        All-map (λ u. Refers key (f u) rows) (λ u. Refers key (f u) (put_row key r rows)) us
          (λ u. Refers-put_row (f u) rows r)

    pub AllRefer-delete_row :
        (k : ℕ)
        → All (λ u. holds (f u) k ≡ false) us
        → AllRefer f us rows
        → AllRefer f us (delete_row key k rows)
    AllRefer-delete_row k free h = go us free h
      where
        go :
            (vs : List U)
            → All (λ u. holds (f u) k ≡ false) vs
            → All (λ u. Refers key (f u) rows) vs
            → All (λ u. Refers key (f u) (delete_row key k rows)) vs
        go [] a b = tt
        go (v ∷ vs) a b = (Refers-delete_row (f v) rows k a.0 b.0, go vs a.1 b.1)
