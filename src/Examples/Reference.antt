-- ===== src/Examples/Reference.antt =====
-- A session that runs: it answers queries in table order, sorts by insertion and tests the declared
-- constraints. The parameter of the development can be filled.
use fleet_tracking_backend.Prelude.{
  ℕ, ◌+◌, ◌*◌, ◌/◌, ◌≤◌, List, [], ◌∷◌, Permᴰ, refl, arith, filter,
}
use fleet_tracking_backend.Store.Session.{Session}
use fleet_tracking_backend.Examples.Sorting.{sort, sort-perm, sort-Ordered}
use fleet_tracking_backend.Examples.Constraints.{schema_b, Schema-Decides}

pub same-perm : {A : Type 0} (xs : List A) → Permᴰ xs xs
same-perm [] = Permᴰ.nil
same-perm (x ∷ xs) = Permᴰ.cons refl (same-perm xs)

pub rounded_near :
    (x : ℕ) → (x ≤ (x + 5000) / 10000 * 10000 + 5000) × ((x + 5000) / 10000 * 10000 ≤ x + 5000)
rounded_near x = omega arith

abbrev pub reference : Session
reference = record {
  select = λ p rows. filter p rows;
  select_perm = λ p rows. same-perm (filter p rows);
  order_by = λ le rows. sort le rows;
  order_by_perm = λ le rows. sort-perm le rows;
  order_by_sorted = λ le rows total trans. sort-Ordered le total trans rows;
  accepts = schema_b;
  accepts_iff = Schema-Decides;
  to_hundredths = λ x. (x + 5000) / 10000;
  to_hundredths_near = rounded_near;
}
