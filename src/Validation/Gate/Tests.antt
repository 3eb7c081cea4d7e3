-- ===== src/Validation/Gate/Tests.antt =====
-- The firewall on a cache whose keys are too long, and on a NaN.
use aptp.Prelude.{◌≡◌, refl, ◌⊎◌, none, some, [], ◌∷◌, All, arith}
use aptp.Float.{Fixed, fixed_float, Fixed-NanLaws}
use aptp.Error.{ok, err, AptpError, off_manifold}
use aptp.Primitives.{PrimitivePayload, kv_cache, hidden_state}
use aptp.Samples.{validation_config}
use aptp.Validation.Gate.{NeuralFirewall, validate}
use aptp.Validation.Gate.Exact.{vectors, Passes, FirstRefused, validate-Outcome}
use aptp.Validation.Gate.Nan.{validate_nan}

abbrev probed : NeuralFirewall Fixed
probed = record {
  cfg = validation_config;
  probe = some (record { centroid = some 1 ∷ some 0 ∷ []; dim = 2 });
}

abbrev long_values : PrimitivePayload Fixed
long_values = kv_cache (record {
  layer_idx = 0;
  keys = some 3 ∷ some 4 ∷ [];
  values = some 30 ∷ some 40 ∷ [];
  shape = record { dims = [] };
})

refused : validate probed long_values ≡ err (off_manifold (some 50) (some 0))
unfolding validate aptp.Validation.Gate.check_vector aptp.Float.l2_norm
    aptp.Validation.Probe.cosine_similarity aptp.Float.dot
refused = refl

validate-Outcome_example :
    ((validate probed long_values ≡ ok tt) × All (Passes probed) (vectors long_values))
    ⊎ ((e : AptpError Fixed) × (validate probed long_values ≡ err e)
        × FirstRefused probed (vectors long_values) e)
validate-Outcome_example = validate-Outcome probed long_values

validate_nan_example : validate probed (hidden_state (none ∷ some 99 ∷ [])) ≡ ok tt
validate_nan_example =
    validate_nan Fixed-NanLaws probed (hidden_state (none ∷ some 99 ∷ [])) (ground arith)
      (λ probe same. ground arith)
