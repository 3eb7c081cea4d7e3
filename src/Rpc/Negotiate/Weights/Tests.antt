-- ===== src/Rpc/Negotiate/Weights/Tests.antt =====
-- Negotiations over small dimensions.
use aptp.Prelude.{ℕ, ◌<◌, ◌≡◌, ◌↔◌, none, List, arith}
use aptp.Float.{Fixed, fixed_float}
use aptp.Error.{ok}
use aptp.Adapter.Spec.{AdapterVariant, ManifoldAdapter, from_spec}
use aptp.Primitives.{word}
use aptp.Rpc.Negotiate.{handle, xorshift}
use aptp.Rpc.Negotiate.Generator.{xorshift_states}
use aptp.Rpc.Negotiate.Weights.{Adapts, negotiate-Adapts}

negotiate-Adapts_example :
    (variant : AdapterVariant) × (weights : List Fixed) × (a : ManifoldAdapter Fixed) × ((handle
        none 5 3 2 "llama" "qwen").0
      ≡ ok (variant, weights))
    × (from_spec variant 3 2 weights ≡ ok a)
    × Adapts 3 2 a
negotiate-Adapts_example =
    negotiate-Adapts none 5 3 2 "llama" "qwen" (omega arith) (omega arith) (omega arith)

abbrev seven : ℕ
seven = 7

abbrev eleven : ℕ
eleven = 11

xorshift_states_example :
    (xorshift seven < word)
    × ((xorshift seven ≡ 0) ↔ (seven ≡ 0))
    × ((xorshift seven ≡ xorshift eleven) ↔ (seven ≡ eleven))
xorshift_states_example = xorshift_states seven eleven (omega arith) (omega arith)
