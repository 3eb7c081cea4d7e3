-- ===== src/Rpc/Messages.antt =====
-- The answers of the four methods, after schemas/aptp.capnp, and what their parameters' getters give.
use aptp.Prelude.{ℕ, String, List}
use aptp.Adapter.Spec.{AdapterVariant}
use aptp.Error.{Result}
use aptp.Wire.{Getter, TextReader, AgentCardReader, AgentCardMessage, PacketReader}

pub data HandshakeStatus : Type 0 where
  accepted rejected needs_adapter : HandshakeStatus

pub data AdapterType : Type 0 where
  identity linear_projection norm_match : AdapterType

-- The `match` that `handshake` and `negotiate_alignment` of src/rpc/mod.rs share.
unfoldable pub adapter_type : AdapterVariant → AdapterType
adapter_type AdapterVariant.identity = AdapterType.identity
adapter_type AdapterVariant.linear_projection = AdapterType.linear_projection
adapter_type AdapterVariant.norm_match = AdapterType.norm_match

pub record HandshakeResultMessage : Type 0 where
  pub status : HandshakeStatus
  pub assigned_session : String
  pub server_card : AgentCardMessage
  pub adapter_required : AdapterType
  pub rejection_reason : String

-- As the client reads it. `get_status` fails with the text of `NotInSchema` on an unknown status.
pub record HandshakeResultReader : Type 0 where
  pub get_status : Result String HandshakeStatus
  pub get_assigned_session : Getter TextReader
  pub get_rejection_reason : Getter TextReader

pub record AlignmentSpecMessage (F : Type 0) : Type 0 where
  pub adapter_type : AdapterType
  pub source_dim : ℕ
  pub target_dim : ℕ
  pub weights : List F

-- `params.get()`, and behind it the parameters' own getters.
pub record HandshakeParams : Type 0 where
  pub get_card : Getter AgentCardReader

pub record StreamPrimitiveParams (F : Type 0) : Type 0 where
  pub get_packet : Getter (PacketReader F)

pub record NegotiateAlignmentParams : Type 0 where
  pub get_source_dim : ℕ
  pub get_target_dim : ℕ
  pub get_source_family : Getter TextReader
  pub get_target_family : Getter TextReader

pub record FinalizeParams : Type 0 where
  pub get_session_id : Getter TextReader
