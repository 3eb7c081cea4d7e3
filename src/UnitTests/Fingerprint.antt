-- ===== src/UnitTests/Fingerprint.antt =====
-- The tests of src/backend/llama.rs.
use aptp.Prelude.{ℕ, ◌≡◌, refl, not, List, Bool-cases, inl, inr, arith}
use aptp.Error.{Result, ok}
use aptp.Primitives.Provenance.{Sha256, IsStreaming, bytes_eq}
use aptp.Primitives.Provenance.Coverage.{digest}
use aptp.Primitives.Provenance.Coverage.Bytes.{bytes_eq_iff}
use aptp.Backend.Llama.{compute_model_fingerprint}
use aptp.Backend.Llama.Fingerprint.{described, fingerprint_exact}
use aptp.UnitTests.{assert}

abbrev fingerprint : {H : Type 0} → Sha256 H → ℕ → List ℕ
fingerprint s n_vocab = compute_model_fingerprint s "/models/llama.gguf" n_vocab 4096 32 32

module _ (E : Type 0) {H : Type 0} (s : Sha256 H) where
  test_compute_fingerprint_is_deterministic : Result E (Unit {0})
  unfolding bytes_eq
  test_compute_fingerprint_is_deterministic =
      assert (bytes_eq (fingerprint s 32_000) (fingerprint s 32_000))

  test_compute_fingerprint_changes_with_params : Result E (Unit {0})
  unfolding bytes_eq
  test_compute_fingerprint_changes_with_params =
      assert (not (bytes_eq (fingerprint s 32_000) (fingerprint s 32_001)))

  deterministic_passes : test_compute_fingerprint_is_deterministic ≡ ok tt
  unfolding test_compute_fingerprint_is_deterministic
  deterministic_passes =
      rw ((bytes_eq_iff (fingerprint s 32_000) (fingerprint s 32_000)).1 refl) refl

  -- The test passes, if the hash does not collide on the two descriptions.
  changes_with_params_passes :
      IsStreaming s
      → (digest s (described "/models/llama.gguf" 32_000 4096 32 32)
            ≡ digest s (described "/models/llama.gguf" 32_001 4096 32 32)
          → described "/models/llama.gguf" 32_000 4096 32 32
            ≡ described "/models/llama.gguf" 32_001 4096 32 32)
      → test_compute_fingerprint_changes_with_params ≡ ok tt
  unfolding test_compute_fingerprint_changes_with_params
  changes_with_params_passes streaming no_collision =
      elim (Bool-cases (bytes_eq (fingerprint s 32_000) (fingerprint s 32_001))) [
        | inr differ ↦ rw differ refl
        | inl same ↦
            let (path, words, width, layers, heads) =
              (fingerprint_exact s streaming "/models/llama.gguf" "/models/llama.gguf" 32_000 32_001
                  4096 4096 32 32 32 32 no_collision (omega arith, omega arith)
                  (omega arith, omega arith) (omega arith, omega arith)
                  (omega arith, omega arith)).0
                ((bytes_eq_iff _ _).0 same) in
            absurd (omega arith)
      ]
