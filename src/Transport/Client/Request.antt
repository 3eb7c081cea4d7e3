-- ===== src/Transport/Client/Request.antt =====
-- The requests that src/transport/client.rs builds.
pub mod Same
pub mod Card
mod Tests
use aptp.Prelude.{[]}
use aptp.Float.{Float, zero_f32}
use aptp.Error.{Result, ok, AptpError, ◌>>=◌}
use aptp.Primitives.{
  AgentCard, PrimitivePacket, PrimitivePayload, hidden_state, kv_cache, latent_thought,
}
use aptp.Wire.{AgentCardMessage, PacketMessage, PrimitiveMessage}
use aptp.Wire.Build.{write_list, write_data}

module _ {F : Type 0} where
  unfoldable pub write_card : AgentCard → Result (AptpError F) AgentCardMessage
  write_card card = do
    caps ← write_list "" card.capabilities
    ok (record {
      agent_id = card.agent_id;
      aptp_version = card.aptp_version;
      public_key = [];
      invariants = record {
        hidden_size = card.hidden_size;
        num_layers = card.num_layers;
        num_heads = card.num_heads;
        vocab_size = card.vocab_size;
        model_family = card.model_family;
      };
      capabilities = caps;
    })

module _ {F : Type 0} ⦃f : Float F⦄ where
  unfoldable pub request_payload : PrimitivePayload F → Result (AptpError F) (PrimitiveMessage F)
  request_payload (hidden_state v) = do
    list ← write_list zero_f32 v
    ok (PrimitiveMessage.hidden_state list)
  request_payload (latent_thought v) = do
    list ← write_list zero_f32 v
    ok (PrimitiveMessage.latent_thought list)
  request_payload (kv_cache kv) = do
    keys ← write_list zero_f32 kv.keys
    vals ← write_list zero_f32 kv.values
    dims ← write_list 0 kv.shape.dims
    ok (
        PrimitiveMessage.kv_cache
          (record { layer_idx = kv.layer_idx; keys = keys; values = vals; dims = dims }))

  unfoldable pub request_packet : PrimitivePacket F → Result (AptpError F) (PacketMessage F)
  unfolding request_payload
  request_packet packet = do
    fingerprint ← write_data packet.model_fingerprint
    primitive ← request_payload packet.payload
    dims ← write_list 0 packet.shape.dims
    ok (record {
      version = packet.version;
      sender_id = packet.sender_id;
      model_fingerprint = fingerprint;
      layer_index = packet.layer_index;
      primitive = primitive;
      dims = dims;
      metadata = record {
        timestamp_ns = packet.metadata.timestamp_ns;
        sequence_id = packet.metadata.sequence_id;
        session_id = packet.metadata.session_id;
        compression_alg = packet.metadata.compression_alg;
      };
    })
