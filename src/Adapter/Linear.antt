-- ===== src/Adapter/Linear.antt =====
-- src/adapter/linear.rs: the projection by a row-major matrix.
pub mod Product
mod Tests
use aptp.Prelude.{
  ℕ, zero, suc, ◌+◌, ◌-◌, ◌*◌, ◌%◌, List, [], ◌∷◌, length, take, drop, leb, ltb, ◌==◌, ◌&&◌,
  if◌then◌else◌,
}
use aptp.Float.{Float, sum, dot}
use aptp.Error.{Result, ok, err, panic, AptpError, incompatible_dimensions, ◌>>=◌}
use aptp.Primitives.{word, word32, max_floats}

pub record LinearProjectionAdapter (F : Type 0) : Type 0 where
  pub source_dim : ℕ
  pub target_dim : ℕ
  pub weights : List F

module _ {F : Type 0} where
  -- The product of two `usize` wraps, as in a release build.
  unfoldable pub new : ℕ → ℕ → List F → Result (AptpError F) (LinearProjectionAdapter F)
  new source_dim target_dim weights =
      let expected = source_dim * target_dim % word in
      if length weights == expected
      then ok (record { source_dim = source_dim; target_dim = target_dim; weights = weights })
      else err (incompatible_dimensions (source_dim % word32) (target_dim % word32))

  -- `&v[from..to]`, which panics unless `from <= to <= v.len()`.
  unfoldable pub slice : List F → ℕ → ℕ → Result (AptpError F) (List F)
  slice v from to =
      if leb from to && leb to (length v) then ok (take (to - from) (drop from v)) else panic

module _ {F : Type 0} ⦃f : Float F⦄ where
  -- `for i in 0..self.target_dim`, with `left` rounds to go: the outputs from row `i` on.
  unfoldable pub rows :
      LinearProjectionAdapter F → List F → (left i : ℕ) → Result (AptpError F) (List F)
  unfolding slice
  rows a input zero i = ok []
  rows a input (suc left) i = do
    let row_start = i * a.source_dim % word
    row ← slice a.weights row_start ((row_start + a.source_dim) % word)
    rest ← rows a input left (i + 1)
    ok (sum (dot row input) ∷ rest)

  -- `vec![0.0f32; self.target_dim]`, whose allocation can panic, and the loop.
  unfoldable pub output : LinearProjectionAdapter F → List F → Result (AptpError F) (List F)
  unfolding rows
  output a input = if ltb max_floats a.target_dim then panic else rows a input a.target_dim 0

  unfoldable pub adapt : LinearProjectionAdapter F → List F → Result (AptpError F) (List F)
  unfolding output
  adapt a input =
      if length input == a.source_dim
      then output a input
      else err (incompatible_dimensions (length input % word32) (a.source_dim % word32))
