-- ===== src/Adapter/Linear/Tests.antt =====
-- Two rows of three weights.
use aptp.Prelude.{◌≡◌, refl, some, List, [], ◌∷◌, length, ◌==◌, ltb, if◌then◌else◌, ◌%◌, arith}
use aptp.Float.{Fixed, fixed_float}
use aptp.Error.{ok, err, panic, incompatible_dimensions}
use aptp.Primitives.{word32, max_floats}
use aptp.Adapter.Linear.{LinearProjectionAdapter, new, adapt}
use aptp.Adapter.Linear.Product.{product, adapt-eq-product}

abbrev two_rows : List Fixed
two_rows = some 1 ∷ some 2 ∷ some 3 ∷ some 4 ∷ some 5 ∷ some 6 ∷ []

abbrev two_by_three : LinearProjectionAdapter Fixed
two_by_three = record { source_dim = 3; target_dim = 2; weights = two_rows }

abbrev vector : List Fixed
vector = some 1 ∷ some 0 ∷ some 2 ∷ []

made : new 3 2 two_rows ≡ ok two_by_three
unfolding new
made = refl

projected : adapt two_by_three vector ≡ ok (some 7 ∷ some 16 ∷ [])
unfolding adapt aptp.Float.dot
projected = refl

adapt-eq-product_example :
    (adapt two_by_three vector ≡ (
      if length vector == 3
      then (if ltb max_floats 2 then panic else ok (product 2 3 two_rows vector))
      else err (incompatible_dimensions (length vector % word32) (3 % word32))))
    × (length (product 2 3 two_rows vector) ≡ 2)
adapt-eq-product_example = adapt-eq-product 3 2 two_rows made (omega arith) vector
