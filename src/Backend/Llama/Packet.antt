-- ===== src/Backend/Llama/Packet.antt =====
-- `snapshot_to_packet` of src/backend/llama.rs.
pub mod Chosen
pub mod Arrives
mod Tests
use aptp.Prelude.{ℕ, ◌-◌, String, Option, none, some, List, [], ◌∷◌, length, get_elem?, min}
use aptp.Error.{Result, ok, panic, AptpError, ◌>>=◌}
use aptp.Primitives.{
  KvCache, PrimitivePacket, PrimitivePayload, hidden_state, kv_cache, latent_thought,
  version_number, new_now,
}
use aptp.Backend.{InferenceSnapshot, PrimitiveExtractor}

module _ {F : Type 0} where
  -- `v[idx]`, which panics out of range.
  unfoldable pub index : {A : Type 0} → List A → ℕ → Result (AptpError F) A
  index v i = elim (get_elem? v i) [ some x ↦ ok x | none ↦ panic ]

  unfoldable pub choose_payload :
      Option (KvCache F)
      → (hidden_states : List (List F)) (logits : List F) (layer_index : ℕ)
      → Result (AptpError F) (PrimitivePayload F)
  choose_payload (some kv) states logits layer_index = ok (kv_cache kv)
  choose_payload none [] logits layer_index = ok (latent_thought logits)
  choose_payload none (s ∷ states) logits layer_index = do
    state ← index (s ∷ states) (min layer_index (length (s ∷ states) - 1))
    ok (hidden_state state)

  unfoldable pub dims_of : (hidden_dim : ℕ) → PrimitivePayload F → List ℕ
  dims_of hidden_dim (hidden_state v) = 1 ∷ 1 ∷ hidden_dim ∷ []
  dims_of hidden_dim (latent_thought v) = 1 ∷ hidden_dim ∷ []
  dims_of hidden_dim (kv_cache kv) = kv.shape.dims

  unfoldable pub snapshot_to_packet :
      (clock : Option ℕ)
      → InferenceSnapshot F
      → PrimitiveExtractor
      → (sender_id session_id : String) (sequence_id layer_index : ℕ)
      → Result (AptpError F) (PrimitivePacket F)
  unfolding choose_payload dims_of
  snapshot_to_packet clock snapshot backend sender_id session_id sequence_id layer_index = do
    payload ←
        choose_payload snapshot.kv_cache_layer snapshot.hidden_states snapshot.logits layer_index
    ok (record {
      version = version_number;
      sender_id = sender_id;
      model_fingerprint = backend.model_fingerprint;
      layer_index = layer_index;
      payload = payload;
      shape = record { dims = dims_of backend.hidden_size payload };
      metadata = new_now clock session_id sequence_id;
    })
