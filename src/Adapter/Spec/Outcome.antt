-- ===== src/Adapter/Spec/Outcome.antt =====
-- What an adapter of any variant does with a vector of any length.
use aptp.Prelude.{ℕ, ◌%◌, ◌<◌, ◌≤◌, ◌≡◌, ◌≢◌, List, length, map}
use aptp.Float.{Float, one_f32}
use aptp.Error.{Result, ok, err, panic, AptpError, incompatible_dimensions}
use aptp.Primitives.{word32, max_floats}
use aptp.Adapter.Linear
use aptp.Adapter.Linear.Product.{product}
use aptp.Adapter.NormMatch.{scale_for}
use aptp.Adapter.NormMatch
use aptp.Adapter.Spec.{AdapterVariant, identity, linear_projection, norm_match, target_norm_of}

module _ {F : Type 0} ⦃f : Float F⦄ where
  -- The result of an adapter of each variant.
  pub data Outcome (source target : ℕ) (weights input : List F)
      : AdapterVariant → Result (AptpError F) (List F) → Type 0 where
    projected :
        length input ≡ source
        → target ≤ max_floats
        → length (product target source weights input) ≡ target
        → Outcome source target weights input linear_projection
            (ok (product target source weights input))
    unallocated :
        length input ≡ source
        → max_floats < target
        → Outcome source target weights input linear_projection panic
    misfit :
        length input ≢ source
        → Outcome source target weights input linear_projection
            (err (incompatible_dimensions (length input % word32) (source % word32)))
    unit : Outcome source target weights input identity (
        ok (
          map
            (λ x. f.mul x (scale_for (record { dim = source; target_norm = one_f32 }) input))
            input))
    scaled : Outcome source target weights input norm_match (
        ok (
          map
            (λ x.
              f.mul x
                (scale_for (record { dim = source; target_norm = target_norm_of weights }) input))
            input))
