-- ===== src/Primitives/Card.antt =====
-- `AgentCard::new_from_config` of src/primitives.rs.
use aptp.Prelude.{String, [], ◌∷◌, str_eq, if◌then◌else◌}
use aptp.Config.{AgentConfig}
use aptp.Primitives.{AgentCard}

-- `fresh` is what `Uuid::new_v4()` returns.
unfoldable pub new_from_config : String → AgentConfig → AgentCard
new_from_config fresh cfg = record {
  agent_id = if str_eq cfg.agent_id "" then fresh else cfg.agent_id;
  aptp_version = cfg.aptp_version;
  hidden_size = cfg.hidden_size;
  num_layers = cfg.num_layers;
  num_heads = cfg.num_heads;
  vocab_size = cfg.vocab_size;
  model_family = cfg.model_family;
  capabilities = "hidden_state" ∷ "kv_cache" ∷ "latent_thought" ∷ [];
}
