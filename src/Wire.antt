-- ===== src/Wire.antt =====
-- Cap'n Proto as the program meets it. A message is the record of the values that the builder's
-- setters were given, after schemas/aptp.capnp. A reader is the record of what its getters answer:
-- any of them may fail, as a peer may send any bytes. The code that capnpc generates and the capnp
-- crate stand between the two: `Capnp` is that link, a parameter.
pub mod Build
pub mod Decode
pub mod RoundTrip
use aptp.Prelude.{ℕ, String, ◌≡◌, List, map}
use aptp.Error.{CapnpError, Result, ok}

abbrev pub Getter {ℓ} : Type ℓ → Type ℓ
Getter A = Result CapnpError A

-- `text::Reader`, whose bytes may not be UTF-8; the error is what `Display` prints of it.
pub record TextReader : Type 0 where
  pub to_str : Result String String

pub record ShapeReader : Type 0 where
  pub get_dims : Getter (List ℕ)

pub record KvCacheReader (F : Type 0) : Type 0 where
  pub get_layer_idx : ℕ
  pub get_keys : Getter (List F)
  pub get_values : Getter (List F)
  pub get_shape : Getter ShapeReader

pub data Which (F : Type 0) : Type 0 where
  hidden_state : Getter (List F) → Which F
  kv_cache : Getter (KvCacheReader F) → Which F
  latent_thought : Getter (List F) → Which F

pub record MetadataReader : Type 0 where
  pub get_timestamp_ns : ℕ
  pub get_sequence_id : ℕ
  pub get_session_id : Getter TextReader
  pub get_compression_alg : Getter TextReader

-- `which` fails with the text of `NotInSchema` on a tag that the schema does not have.
pub record PacketReader (F : Type 0) : Type 0 where
  pub get_version : ℕ
  pub get_sender_id : Getter TextReader
  pub get_model_fingerprint : Getter (List ℕ)
  pub get_layer_index : ℕ
  pub which : Result String (Which F)
  pub get_shape : Getter ShapeReader
  pub get_metadata : Getter MetadataReader

pub record InvariantsReader : Type 0 where
  pub get_hidden_size : ℕ
  pub get_num_layers : ℕ
  pub get_num_heads : ℕ
  pub get_vocab_size : ℕ
  pub get_model_family : Getter TextReader

-- A text list answers for each index on its own.
pub record AgentCardReader : Type 0 where
  pub get_agent_id : Getter TextReader
  pub get_aptp_version : ℕ
  pub get_invariants : Getter InvariantsReader
  pub get_capabilities : Getter (List (Getter TextReader))

pub record KvCacheMessage (F : Type 0) : Type 0 where
  pub layer_idx : ℕ
  pub keys : List F
  pub values : List F
  pub dims : List ℕ

pub data PrimitiveMessage (F : Type 0) : Type 0 where
  hidden_state : List F → PrimitiveMessage F
  kv_cache : KvCacheMessage F → PrimitiveMessage F
  latent_thought : List F → PrimitiveMessage F

pub record MetadataMessage : Type 0 where
  pub timestamp_ns : ℕ
  pub sequence_id : ℕ
  pub session_id : String
  pub compression_alg : String

pub record PacketMessage (F : Type 0) : Type 0 where
  pub version : ℕ
  pub sender_id : String
  pub model_fingerprint : List ℕ
  pub layer_index : ℕ
  pub primitive : PrimitiveMessage F
  pub dims : List ℕ
  pub metadata : MetadataMessage

pub record InvariantsMessage : Type 0 where
  pub hidden_size : ℕ
  pub num_layers : ℕ
  pub num_heads : ℕ
  pub vocab_size : ℕ
  pub model_family : String

pub record AgentCardMessage : Type 0 where
  pub agent_id : String
  pub aptp_version : ℕ
  pub invariants : InvariantsMessage
  pub capabilities : List String
  pub public_key : List ℕ

-- A message that was built, as its receiver reads it; and `capnp::Error::failed`.
pub record Capnp (F : Type 0) : Type 0 where
  pub failed : String → CapnpError
  pub read_packet : PacketMessage F → PacketReader F
  pub read_card : AgentCardMessage → AgentCardReader

-- What the getters answer for a message that arrived: the value that the setter was given.
abbrev pub text : String → Getter TextReader
text s = ok (record { to_str = ok s })

abbrev pub shape_of : List ℕ → Getter ShapeReader
shape_of dims = ok (record { get_dims = ok dims })

abbrev pub which_of : {F : Type 0} → PrimitiveMessage F → Which F
which_of (PrimitiveMessage.hidden_state v) = Which.hidden_state (ok v)
which_of (PrimitiveMessage.latent_thought v) = Which.latent_thought (ok v)
which_of (PrimitiveMessage.kv_cache kv) = Which.kv_cache (
    ok (record {
      get_layer_idx = kv.layer_idx;
      get_keys = ok kv.keys;
      get_values = ok kv.values;
      get_shape = shape_of kv.dims;
    }))

abbrev pub packet_of : {F : Type 0} → PacketMessage F → PacketReader F
packet_of m = record {
  get_version = m.version;
  get_sender_id = text m.sender_id;
  get_model_fingerprint = ok m.model_fingerprint;
  get_layer_index = m.layer_index;
  which = ok (which_of m.primitive);
  get_shape = shape_of m.dims;
  get_metadata = ok (record {
    get_timestamp_ns = m.metadata.timestamp_ns;
    get_sequence_id = m.metadata.sequence_id;
    get_session_id = text m.metadata.session_id;
    get_compression_alg = text m.metadata.compression_alg;
  });
}

abbrev pub card_of : AgentCardMessage → AgentCardReader
card_of m = record {
  get_agent_id = text m.agent_id;
  get_aptp_version = m.aptp_version;
  get_invariants = ok (record {
    get_hidden_size = m.invariants.hidden_size;
    get_num_layers = m.invariants.num_layers;
    get_num_heads = m.invariants.num_heads;
    get_vocab_size = m.invariants.vocab_size;
    get_model_family = text m.invariants.model_family;
  });
  get_capabilities = ok (map text m.capabilities);
}

-- Cap'n Proto's promise: what was set is what is read.
pub record IsFaithful {F : Type 0} (c : Capnp F) : Type 0 where
  pub read_packet_lem : (m : PacketMessage F) → c.read_packet m ≡ packet_of m
  pub read_card_lem : (m : AgentCardMessage) → c.read_card m ≡ card_of m
