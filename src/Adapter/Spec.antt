-- ===== src/Adapter/Spec.antt =====
-- src/adapter/mod.rs and manifold.rs: the adapter variants, the trait object, and `from_spec`.
pub mod Outcome
mod Tests
use aptp.Prelude.{ℕ, List, [], ◌∷◌}
use aptp.Float.{Float, one_f32}
use aptp.Error.{Result, ok, AptpError, ◌>>=◌}
use aptp.Adapter.Linear.{LinearProjectionAdapter}
use aptp.Adapter.Linear
use aptp.Adapter.NormMatch.{NormMatchAdapter}
use aptp.Adapter.NormMatch

pub data AdapterVariant : Type 0 where
  identity linear_projection norm_match : AdapterVariant

-- `Box<dyn ManifoldAdapter>`: one of the two implementations.
pub data ManifoldAdapter (F : Type 0) : Type 0 where
  linear : LinearProjectionAdapter F → ManifoldAdapter F
  norm : NormMatchAdapter F → ManifoldAdapter F

module _ {F : Type 0} where
  unfoldable pub source_dim : ManifoldAdapter F → ℕ
  source_dim (linear a) = a.source_dim
  source_dim (norm a) = a.dim

  unfoldable pub target_dim : ManifoldAdapter F → ℕ
  target_dim (linear a) = a.target_dim
  target_dim (norm a) = a.dim

module _ {F : Type 0} ⦃f : Float F⦄ where
  unfoldable pub adapt : ManifoldAdapter F → List F → Result (AptpError F) (List F)
  adapt (linear a) input = Linear.adapt a input
  adapt (norm a) input = NormMatch.adapt a input

  -- `if weights.len() == 1 { weights[0] } else { 1.0 }`
  unfoldable pub target_norm_of : List F → F
  target_norm_of [] = one_f32
  target_norm_of (w ∷ []) = w
  target_norm_of (w ∷ ws) = one_f32

  unfoldable pub from_spec :
      AdapterVariant
      → (source_dim target_dim : ℕ) (weights : List F) → Result (AptpError F) (ManifoldAdapter F)
  unfolding target_norm_of
  from_spec identity source_dim target_dim weights =
      ok (norm (record { dim = source_dim; target_norm = one_f32 }))
  from_spec linear_projection source_dim target_dim weights = do
    a ← Linear.new source_dim target_dim weights
    ok (linear a)
  from_spec norm_match source_dim target_dim weights =
      ok (norm (record { dim = source_dim; target_norm = target_norm_of weights }))
