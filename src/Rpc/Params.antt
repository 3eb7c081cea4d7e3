-- ===== src/Rpc/Params.antt =====
-- What the four methods of src/rpc/mod.rs do with their parameters and errors before and after the
-- handlers: every error becomes `capnp::Error::failed` of its text.
use aptp.Prelude.{ℕ, String, List, [], ◌∷◌}
use aptp.Float.{Float, zero_f32}
use aptp.Error.{Result, ok, AptpError, map_err, unwrap_or, to_string, ◌>>=◌}
use aptp.Config.{AptpConfig}
use aptp.Primitives.{AgentCard, version_number}
use aptp.Wire.{Capnp, Getter, TextReader, AgentCardMessage, PacketReader}
use aptp.Wire.Build.{write_list}
use aptp.Wire.Decode.{agent_card_from_capnp}
use aptp.Adapter.Spec.{AdapterVariant}
use aptp.Rpc.Messages.{
  adapter_type, AlignmentSpecMessage, HandshakeParams, StreamPrimitiveParams,
  NegotiateAlignmentParams, FinalizeParams,
}

module _ {F : Type 0} ⦃f : Float F⦄ (c : Capnp F) where
  -- `.map_err(|e| ::capnp::Error::failed(e.to_string()))`, on a capnp error and on the program's own
  unfoldable pub refail : {A : Type 0} → Getter A → Getter A
  refail = map_err (λ e. c.failed e.description)

  unfoldable pub fail_text : {A : Type 0} → Result String A → Getter A
  fail_text = map_err c.failed

  unfoldable pub fail : {A : Type 0} → Result (AptpError F) A → Getter A
  fail = map_err (λ e. c.failed (to_string e))

  -- The card that the server shows of itself.
  unfoldable pub server_card : AptpConfig F → AgentCardMessage
  server_card cfg = record {
    agent_id = cfg.agent.agent_id;
    aptp_version = version_number;
    public_key = [];
    invariants = record {
      hidden_size = cfg.agent.hidden_size;
      num_layers = cfg.agent.num_layers;
      num_heads = cfg.agent.num_heads;
      vocab_size = cfg.agent.vocab_size;
      model_family = cfg.agent.model_family;
    };
    capabilities = "hidden_state" ∷ "kv_cache" ∷ "latent_thought" ∷ [];
  }

  unfoldable pub read_card : Getter HandshakeParams → Getter AgentCard
  unfolding refail fail
  read_card params = do
    reader ← refail params
    card_reader ← refail reader.get_card
    fail (agent_card_from_capnp card_reader)

  unfoldable pub read_packet :
      {F' : Type 0} → Getter (StreamPrimitiveParams F') → Getter (PacketReader F')
  unfolding refail
  read_packet params = do reader ← refail params; refail reader.get_packet

  -- `getter.map_err(…)?.to_str().unwrap_or("unknown")`
  unfoldable pub family : Getter TextReader → Getter String
  unfolding refail
  family getter = do reader ← refail getter; unwrap_or "unknown" (map_err c.failed reader.to_str)

  -- The specification that a negotiation writes into the results.
  unfoldable pub write_spec :
      (source_dim target_dim : ℕ) → AdapterVariant × List F → Getter (AlignmentSpecMessage F)
  unfolding adapter_type
  write_spec source_dim target_dim (variant, weights) = do
    w ← write_list zero_f32 weights
    ok (record {
      adapter_type = adapter_type variant;
      source_dim = source_dim;
      target_dim = target_dim;
      weights = w;
    })

  unfoldable pub read_negotiation :
      Getter NegotiateAlignmentParams → Getter (ℕ × ℕ × String × String)
  unfolding refail family
  read_negotiation params = do
    p ← refail params
    source_family ← family p.get_source_family
    target_family ← family p.get_target_family
    ok (p.get_source_dim, p.get_target_dim, source_family, target_family)

  unfoldable pub read_session : Getter FinalizeParams → Getter String
  unfolding refail fail_text
  read_session params = do
    session_info ← refail params
    reader ← refail session_info.get_session_id
    fail_text reader.to_str
