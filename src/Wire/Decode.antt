-- ===== src/Wire/Decode.antt =====
-- Reading a message that a peer sent: `packet_from_capnp`, `shape_from_capnp` and
-- `agent_card_from_capnp` of src/primitives.rs.
use aptp.Prelude.{String, List, [], ◌∷◌}
use aptp.Error.{Result, ok, AptpError, internal, not_in_schema, map_err, from_rpc, ◌>>=◌}
use aptp.Primitives.{
  PrimitivePacket, PrimitivePayload, Shape, AgentCard, hidden_state, kv_cache, latent_thought,
}
use aptp.Wire.{Getter, TextReader, ShapeReader, Which, PacketReader, AgentCardReader}

module _ {F : Type 0} where
  -- `getter?.to_str().map_err(|e| AptpError::Internal(e.to_string()))?.to_owned()`
  unfoldable pub owned_text : Getter TextReader → Result (AptpError F) String
  owned_text getter = do reader ← from_rpc getter; map_err internal reader.to_str

  unfoldable pub shape_from_capnp : ShapeReader → Result (AptpError F) Shape
  shape_from_capnp reader = do dims ← from_rpc reader.get_dims; ok (record { dims = dims })

  unfoldable pub payload_from_capnp : Which F → Result (AptpError F) (PrimitivePayload F)
  unfolding shape_from_capnp
  payload_from_capnp (Which.hidden_state r) = do floats ← from_rpc r; ok (hidden_state floats)
  payload_from_capnp (Which.latent_thought r) = do floats ← from_rpc r; ok (latent_thought floats)
  payload_from_capnp (Which.kv_cache r) = do
    kv ← from_rpc r
    keys ← from_rpc kv.get_keys
    values ← from_rpc kv.get_values
    shape_reader ← from_rpc kv.get_shape
    shape ← shape_from_capnp shape_reader
    ok (
        kv_cache
          (record { layer_idx = kv.get_layer_idx; keys = keys; values = values; shape = shape }))

  unfoldable pub packet_from_capnp : PacketReader F → Result (AptpError F) (PrimitivePacket F)
  unfolding owned_text shape_from_capnp payload_from_capnp
  packet_from_capnp reader = do
    sender_id ← owned_text reader.get_sender_id
    model_fingerprint ← from_rpc reader.get_model_fingerprint
    which ← map_err not_in_schema reader.which
    payload ← payload_from_capnp which
    shape_reader ← from_rpc reader.get_shape
    shape ← shape_from_capnp shape_reader
    meta_reader ← from_rpc reader.get_metadata
    session_id ← owned_text meta_reader.get_session_id
    compression_alg ← owned_text meta_reader.get_compression_alg
    ok (record {
      version = reader.get_version;
      sender_id = sender_id;
      model_fingerprint = model_fingerprint;
      layer_index = reader.get_layer_index;
      payload = payload;
      shape = shape;
      metadata = record {
        timestamp_ns = meta_reader.get_timestamp_ns;
        sequence_id = meta_reader.get_sequence_id;
        session_id = session_id;
        compression_alg = compression_alg;
      };
    })

  -- The loop over the list of capabilities.
  unfoldable pub owned_texts : List (Getter TextReader) → Result (AptpError F) (List String)
  unfolding owned_text
  owned_texts [] = ok []
  owned_texts (getter ∷ rest) = do cap ← owned_text getter; caps ← owned_texts rest; ok (cap ∷ caps)

  unfoldable pub agent_card_from_capnp : AgentCardReader → Result (AptpError F) AgentCard
  unfolding owned_text owned_texts
  agent_card_from_capnp reader = do
    invariants ← from_rpc reader.get_invariants
    agent_id ← owned_text reader.get_agent_id
    model_family ← owned_text invariants.get_model_family
    cap_list ← from_rpc reader.get_capabilities
    capabilities ← owned_texts cap_list
    ok (record {
      agent_id = agent_id;
      aptp_version = reader.get_aptp_version;
      hidden_size = invariants.get_hidden_size;
      num_layers = invariants.get_num_layers;
      num_heads = invariants.get_num_heads;
      vocab_size = invariants.get_vocab_size;
      model_family = model_family;
      capabilities = capabilities;
    })
