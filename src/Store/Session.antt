-- ===== src/Store/Session.antt =====
-- What the services use of SQLAlchemy's session over PostgreSQL (app/db/session.py): neither is
-- part of the repository, so both are a parameter with their documented behaviour.
use fleet_tracking_backend.Prelude.{
  ℕ, ◌+◌, ◌*◌, ◌≤◌, ◌≡◌, ◌↔◌, ◌⊎◌, Bool, true, Option, none, some, List, [], ◌∷◌, Permᴰ, filter,
  Pairwise, length, head?, ◌==◌, if◌then◌else◌,
}
use fleet_tracking_backend.Store.{Database}
use fleet_tracking_backend.Store.Schema.{Schema}
use fleet_tracking_backend.Errors.{Result, ok, err, integrity_error, unexpected}

pub record Session : Type 1 where
  -- SELECT … WHERE p: the rows that the condition holds of, in an order that is not specified.
  pub select : {Row : Type 0} → (Row → Bool) → List Row → List Row
  pub select_perm :
      {Row : Type 0} (p : Row → Bool) (rows : List Row) → Permᴰ (select p rows) (filter p rows)
  -- ORDER BY: a rearrangement of the rows in which none comes after one that it must precede.
  pub order_by : {Row : Type 0} → (Row → Row → Bool) → List Row → List Row
  pub order_by_perm :
      {Row : Type 0} (le : Row → Row → Bool) (rows : List Row) → Permᴰ (order_by le rows) rows
  pub order_by_sorted :
      {Row : Type 0} (le : Row → Row → Bool) (rows : List Row)
      → ((a b : Row) → (le a b ≡ true) ⊎ (le b a ≡ true))
      → ((a b c : Row) → le a b ≡ true → le b c ≡ true → le a c ≡ true)
      → Pairwise (λ a b. le a b ≡ true) (order_by le rows)
  -- COMMIT is accepted exactly when every declared constraint is met.
  pub accepts : Database → Bool
  pub accepts_iff : (d : Database) → (accepts d ≡ true) ↔ Schema d
  -- A Numeric(6, 2) column keeps the nearest hundredth of a number counted in millionths.
  pub to_hundredths : ℕ → ℕ
  pub to_hundredths_near :
      (x : ℕ) → (x ≤ to_hundredths x * 10000 + 5000) × (to_hundredths x * 10000 ≤ x + 5000)

module _ (s : Session) where
  -- `await db.scalar(select(Row).where(p))`: the first row of the answer, or None.
  unfoldable pub scalar : {Row : Type 0} → (Row → Bool) → List Row → Option Row
  scalar p rows = head? (s.select p rows)

  -- `result.scalar_one_or_none()` on the rows of an answer: more than one are an error.
  unfoldable pub one_or_none : {Row : Type 0} → List Row → Result (Option Row)
  one_or_none [] = ok none
  one_or_none (r ∷ []) = ok (some r)
  one_or_none (r ∷ q ∷ rows) = err unexpected

  -- The same of `select(Row).where(p)`.
  unfoldable pub scalar_one_or_none : {Row : Type 0} → (Row → Bool) → List Row → Result (Option Row)
  unfolding one_or_none
  scalar_one_or_none p rows = one_or_none (s.select p rows)

  -- `await db.get(Row, k)`
  unfoldable pub get : {Row : Type 0} → (Row → ℕ) → ℕ → List Row → Option Row
  unfolding scalar
  get key k rows = scalar (λ r. key r == k) rows

  -- `await db.scalar(select(func.count()).select_from(Row).where(p))`
  unfoldable pub count : {Row : Type 0} → (Row → Bool) → List Row → ℕ
  count p rows = length (s.select p rows)

  -- `await db.commit()`: all pending changes, or an IntegrityError and none of them.
  unfoldable pub commit : Database → Result Database
  commit d = if s.accepts d then ok d else err integrity_error
