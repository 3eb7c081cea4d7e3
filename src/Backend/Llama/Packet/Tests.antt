-- ===== src/Backend/Llama/Packet/Tests.antt =====
-- A snapshot with two states, sent to a server that has counted four packets.
use aptp.Prelude.{String, ◌≡◌, refl, true, some, none, [], ◌∷◌, str_eq, if◌then◌else◌, arith}
use aptp.Float.{Fixed, fixed_float}
use aptp.Error.{ok}
use aptp.Primitives.{PrimitivePacket, hidden_state}
use aptp.Primitives.Provenance
use aptp.Samples.{Queue, queue, queue-IsRead, session_server, direct, direct-IsFaithful, transcript}
use aptp.Wire.{PacketMessage}
use aptp.Validation.Gate.{validate}
use aptp.Rpc.Registry.Counts.{count_of, bump}
use aptp.Rpc.Sink.{sent}
use aptp.Rpc.Stream.{Shared}
use aptp.Rpc.Server.{after_packet}
use aptp.Transport.Client.Request.{request_packet}
use aptp.Backend.{InferenceSnapshot, PrimitiveExtractor}
use aptp.Backend.Llama.Packet.{snapshot_to_packet}
use aptp.Backend.Llama.Packet.Chosen.{Chosen}
use aptp.Backend.Llama.Packet.Arrives.{SnapshotFits, snapshot_arrives}

abbrev two_states : InferenceSnapshot Fixed
two_states = record {
  n_past = 8;
  logits = some 0 ∷ some 1 ∷ [];
  hidden_states = (some 0 ∷ some 1 ∷ []) ∷ (some 1 ∷ some 2 ∷ []) ∷ [];
  kv_cache_layer = none;
}

two_states-SnapshotFits : SnapshotFits two_states
two_states-SnapshotFits = record {
  logits_fit = omega arith;
  states_fit = omega arith;
  cache_fits = λ held. cc;
}

abbrev small_model : PrimitiveExtractor
small_model = record {
  hidden_size = 2;
  num_layers = 2;
  num_heads = 2;
  vocab_size = 2;
  model_family = "llama";
  model_fingerprint = 171 ∷ [];
}

abbrev last_state : PrimitivePacket Fixed
last_state = record {
  version = 1;
  sender_id = "agent";
  model_fingerprint = 171 ∷ [];
  layer_index = 16;
  payload = hidden_state (some 1 ∷ some 2 ∷ []);
  shape = record { dims = 1 ∷ 1 ∷ 2 ∷ [] };
  metadata = record {
    timestamp_ns = 7;
    sequence_id = 3;
    session_id = "s-1";
    compression_alg = "none";
  };
}

last_state-made :
    snapshot_to_packet (some 7) two_states small_model "agent" "s-1" 3 16 ≡ ok last_state
unfolding snapshot_to_packet aptp.Backend.Llama.Packet.index aptp.Primitives.new_now
last_state-made = refl

last_state-valid : validate session_server.firewall last_state.payload ≡ ok tt
unfolding validate aptp.Validation.Gate.check_vector aptp.Validation.Gate.check_probe
    aptp.Float.l2_norm
last_state-valid = refl

counted_four : count_of session_server.shared.sessions "s-1" ≡ some 4
unfolding count_of aptp.Rpc.Registry.find
counted_four = refl

snapshot_arrives_example :
    Chosen two_states 16 last_state.payload
    × (message : PacketMessage Fixed) × (request_packet last_state ≡ ok message)
    × (shared : Shared Queue) × (after_packet direct transcript queue
          (ok (direct.read_packet message))
          session_server
        ≡ (ok true, record session_server { shared = shared }))
    × (queue.send session_server.shared.sink (Provenance.new transcript last_state (some 1))
        ≡ sent shared.sink)
    × ((k : String)
        → count_of shared.sessions k ≡ (
            if str_eq "s-1" k
            then bump (count_of session_server.shared.sessions k)
            else count_of session_server.shared.sessions k))
snapshot_arrives_example =
    snapshot_arrives direct direct-IsFaithful transcript queue queue-IsRead (some 7) two_states
      small_model "agent" "s-1" 3 16 session_server 4 two_states-SnapshotFits (omega arith)
      last_state-made last_state-valid counted_four
