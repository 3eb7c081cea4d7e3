-- ===== src/Samples.antt =====
-- Values that the tests of several modules share.
use aptp.Prelude.{◌<>◌, ℕ, String, Option, List, [], ◌∷◌, ◌++◌, none, some, false, refl}
use aptp.Float.{Fixed}
use aptp.Config.{AptpConfig, ValidationConfig}
use aptp.Primitives.{
  PrimitivePacket, PrimitivePayload, KvCache, Metadata, AgentCard, hidden_state, kv_cache,
  TaggedPrimitive,
}
use aptp.Error.{Result, ok, err}
use aptp.Primitives.Provenance.{Sha256}
use aptp.Wire.{
  Capnp, Getter, IsFaithful, PacketMessage, PrimitiveMessage, AgentCardMessage, packet_of, card_of,
  text,
}
use aptp.Rpc.Messages.{FinalizeParams}
use aptp.Rpc.Registry.{default}
use aptp.Rpc.Sink.{Mpsc, Sent, sent, closed, ClosesOnDrop}
use aptp.Rpc.Server.{AptpRpcServer}
use aptp.Rpc.Server.Accepts.{IsRead}
use aptp.Rpc.Server.Calls.{Call, handshakes, streams}

abbrev pub direct : Capnp Fixed
direct = record {
  failed = λ e. record { description = "Failed: " <> e };
  read_packet = packet_of;
  read_card = card_of;
}

pub direct-IsFaithful : IsFaithful direct
direct-IsFaithful = record { read_packet_lem = λ m. refl; read_card_lem = λ m. refl }

abbrev pub sample_metadata : Metadata
sample_metadata = record {
  timestamp_ns = 7;
  sequence_id = 3;
  session_id = "s-1";
  compression_alg = "none";
}

abbrev pub sample_kv : KvCache Fixed
sample_kv = record {
  layer_idx = 5;
  keys = some 1 ∷ some 2 ∷ [];
  values = some 3 ∷ [];
  shape = record { dims = 1 ∷ 2 ∷ [] };
}

abbrev pub packet_with : PrimitivePayload Fixed → PrimitivePacket Fixed
packet_with payload = record {
  version = 1;
  sender_id = "agent";
  model_fingerprint = 171 ∷ 205 ∷ [];
  layer_index = 8;
  payload = payload;
  shape = record { dims = 1 ∷ 1 ∷ 2 ∷ [] };
  metadata = sample_metadata;
}

abbrev pub hidden_packet : PrimitivePacket Fixed
hidden_packet = packet_with (hidden_state (some 1 ∷ some 2 ∷ []))

abbrev pub kv_packet : PrimitivePacket Fixed
kv_packet = packet_with (kv_cache sample_kv)

abbrev pub sample_card : AgentCard
sample_card = record {
  agent_id = "peer";
  aptp_version = 1;
  hidden_size = 2;
  num_layers = 4;
  num_heads = 2;
  vocab_size = 10;
  model_family = "llama";
  capabilities = "hidden_state" ∷ [];
}

abbrev pub validation_config : ValidationConfig Fixed
validation_config = record {
  l2_norm_max = some 10;
  cosine_sim_min = some 0;
  fairness_threshold = some 0;
  probe_vectors_path = none;
}

abbrev pub server_config : AptpConfig Fixed
server_config = record {
  transport = record {
    bind_addr = "127.0.0.1:7878";
    connect_timeout_ms = 5000;
    max_frame_bytes = 67108864;
    tls = none;
  };
  validation = validation_config;
  adapter = record { allow_dimension_mismatch_passthrough = false };
  agent = record {
    agent_id = "server";
    model_family = "llama";
    hidden_size = 2;
    num_layers = 4;
    num_heads = 2;
    vocab_size = 10;
    aptp_version = 1;
  };
  backend = none;
}

-- A hasher that keeps the whole message: no two messages collide.
abbrev pub transcript : Sha256 (List ℕ)
transcript = record { new = []; update = ◌++◌; finalize = λ h. h }

abbrev pub Mailbox : Type 0
Mailbox = Option (List (TaggedPrimitive Fixed))

abbrev push : Mailbox → TaggedPrimitive Fixed → Sent Mailbox
push none tagged = closed
push (some queue) tagged = sent (some (tagged ∷ queue))

-- A channel that never fills; `none` when its receiver is gone.
abbrev pub mailbox : Mpsc (TaggedPrimitive Fixed) Mailbox
mailbox = record { channel = λ n. some []; drop_receiver = λ c. none; send = push }

pub mailbox-ClosesOnDrop : ClosesOnDrop mailbox
mailbox-ClosesOnDrop = record { send-drop_receiver = λ c t. refl }

-- A server whose sink still has its receiver.
abbrev pub live_server : AptpRpcServer Fixed Mailbox
live_server = record {
  cfg = server_config;
  firewall = record { cfg = validation_config; probe = none };
  shared = record { sessions = default; sink = some [] };
  counter = 0;
}

abbrev pub Queue : Type 0
Queue = List (TaggedPrimitive Fixed)

-- A channel that is always read.
abbrev pub queue : Mpsc (TaggedPrimitive Fixed) Queue
queue = record { channel = λ n. []; drop_receiver = λ q. q; send = λ q t. sent (t ∷ q) }

pub queue-IsRead : IsRead queue
queue-IsRead = record { send_lem = λ q t. (t ∷ q, refl) }

abbrev pub queue_server : AptpRpcServer Fixed Queue
queue_server = record {
  cfg = server_config;
  firewall = record { cfg = validation_config; probe = none };
  shared = record { sessions = default; sink = [] };
  counter = 0;
}

-- With a session of four packets.
abbrev pub session_server : AptpRpcServer Fixed Queue
session_server = record queue_server {
  shared = record {
    sessions = record {
      sessions =
          (
            "s-1",
            record {
              session_id = "s-1";
              peer_agent_id = "peer";
              received_count = 4;
              adapter = none;
              opened_at_ns = 9;
            },
          )
          ∷ [];
    };
    sink = [];
  };
}

abbrev pub no_file : String → Result String String
no_file path = err "no file"

abbrev pub no_json : String → Result String (List Fixed)
no_json line = err "no json"

abbrev pub kv_message : PacketMessage Fixed
kv_message = record {
  version = 1;
  sender_id = "agent";
  model_fingerprint = 171 ∷ 205 ∷ [];
  layer_index = 8;
  primitive = PrimitiveMessage.kv_cache (record {
    layer_idx = 5;
    keys = some 1 ∷ some 2 ∷ [];
    values = some 3 ∷ [];
    dims = 1 ∷ 2 ∷ [];
  });
  dims = 1 ∷ 1 ∷ 2 ∷ [];
  metadata = record {
    timestamp_ns = 7;
    sequence_id = 3;
    session_id = "s-1";
    compression_alg = "none";
  };
}

abbrev pub card_message : AgentCardMessage
card_message = record {
  agent_id = "peer";
  aptp_version = 1;
  invariants = record {
    hidden_size = 2;
    num_layers = 4;
    num_heads = 2;
    vocab_size = 10;
    model_family = "llama";
  };
  capabilities = "hidden_state" ∷ [];
  public_key = [];
}

abbrev pub greet : String → Call Fixed
greet id =
    handshakes (record { fresh = id; clock = some 9 })
      (ok (record { get_card = ok (card_of card_message) }))

abbrev pub stream : Call Fixed
stream = streams (ok (record { get_packet = ok (packet_of kv_message) }))

abbrev pub farewell : String → Getter FinalizeParams
farewell id = ok (record { get_session_id = text id })
