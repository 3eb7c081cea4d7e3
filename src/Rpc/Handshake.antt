-- ===== src/Rpc/Handshake.antt =====
-- src/rpc/handshake.rs
pub mod Branches
use aptp.Prelude.{ℕ, String, ◌<>◌, show_nat, Option, some, not, ◌==◌, if◌then◌else◌}
use aptp.Config.{AptpConfig}
use aptp.Primitives.{AgentCard, version_number}
use aptp.Adapter.Spec.{AdapterVariant, identity, linear_projection}
use aptp.Rpc.Registry.{SessionRegistry, open_session}
use aptp.Rpc.Messages.{HandshakeStatus, accepted, rejected, needs_adapter}

-- What the handler returns.
pub record Answer : Type 0 where
  pub status : HandshakeStatus
  pub session_id : String
  pub adapter : AdapterVariant
  pub reason : String

module _ {F : Type 0} where
  unfoldable pub choose : AptpConfig F → AgentCard → HandshakeStatus × AdapterVariant
  choose cfg remote_card =
      if cfg.agent.hidden_size == remote_card.hidden_size
      then (accepted, identity)
      else if not cfg.adapter.allow_dimension_mismatch_passthrough
      then (needs_adapter, linear_projection)
      else (accepted, identity)

  -- `id` and `clock` are for the session that it may open.
  unfoldable pub handle :
      (id : String) (clock : Option ℕ)
      → AgentCard
      → AptpConfig F
      → SessionRegistry
      → Answer × SessionRegistry
  unfolding choose
  handle id clock remote_card cfg sessions =
      if remote_card.aptp_version == version_number
      then (let (status, adapter) = choose cfg remote_card in
          let (reg, session_id) =
            open_session id clock sessions remote_card.agent_id (some adapter) in
          (
            record { status = status; session_id = session_id; adapter = adapter; reason = "" },
            reg,
          ))
      else (
        record {
          status = rejected;
          session_id = "";
          adapter = identity;
          reason =
              "version mismatch: remote="
              <> show_nat remote_card.aptp_version
              <> ", local="
              <> show_nat version_number;
        },
        sessions,
      )
