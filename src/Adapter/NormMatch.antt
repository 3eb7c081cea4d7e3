-- ===== src/Adapter/NormMatch.antt =====
-- src/adapter/norm_match.rs: scaling a vector to a norm.
use aptp.Prelude.{ℕ, List, map, if◌then◌else◌}
use aptp.Float.{Float, one_f32, l2_norm}
use aptp.Error.{Result, ok, AptpError}

pub record NormMatchAdapter (F : Type 0) : Type 0 where
  pub dim : ℕ
  pub target_norm : F

module _ {F : Type 0} ⦃f : Float F⦄ where
  unfoldable pub scale_for : NormMatchAdapter F → List F → F
  scale_for a input =
      let current_norm = l2_norm input in
      if f.gt current_norm (f.literal 1 1_000_000_000)
      then f.div a.target_norm current_norm
      else one_f32

  unfoldable pub adapt : NormMatchAdapter F → List F → Result (AptpError F) (List F)
  adapt a input = let scale = scale_for a input in ok (map (λ x. f.mul x scale) input)
