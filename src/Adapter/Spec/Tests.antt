-- ===== src/Adapter/Spec/Tests.antt =====
-- A projection on a vector that is too short.
use aptp.Prelude.{some, List, [], ◌∷◌}
use aptp.Float.{Fixed, fixed_float}
use aptp.Adapter.Spec.{ManifoldAdapter, linear}
use aptp.Adapter.Spec.Outcome.{Outcome}

abbrev row : List Fixed
row = some 1 ∷ some 2 ∷ []

abbrev one_row : ManifoldAdapter Fixed
one_row = linear (record { source_dim = 2; target_dim = 1; weights = row })
