-- ===== src/Backend.antt =====
-- src/backend/mod.rs: what an inference gives, and what a backend tells of its model.
pub mod Llama
use aptp.Prelude.{ℕ, String, Option, none, List, []}
use aptp.Primitives.{KvCache}

pub record InferenceSnapshot (F : Type 0) : Type 0 where
  pub n_past : ℕ
  pub logits : List F
  pub hidden_states : List (List F)
  pub kv_cache_layer : Option (KvCache F)

unfoldable pub new_no_hidden : {F : Type 0} → ℕ → List F → InferenceSnapshot F
new_no_hidden n_past logits = record {
  n_past = n_past;
  logits = logits;
  hidden_states = [];
  kv_cache_layer = none;
}

-- The trait's getters. `infer` changes the backend: it is a function of its own.
pub record PrimitiveExtractor : Type 0 where
  pub hidden_size : ℕ
  pub num_layers : ℕ
  pub num_heads : ℕ
  pub vocab_size : ℕ
  pub model_family : String
  pub model_fingerprint : List ℕ
