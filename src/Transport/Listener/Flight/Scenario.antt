-- ===== src/Transport/Listener/Flight/Scenario.antt =====
-- What the runs of the process with calls in flight share.
use aptp.Prelude.{String, [], ◌∷◌, str_eq, if◌then◌else◌}
use aptp.Float.{Fixed, fixed_float, fixed_double}
use aptp.Error.{Result, ok, err}
use aptp.Primitives.Provenance
use aptp.Samples.{farewell}
use aptp.Rpc.Messages.{accepted, AdapterType}
use aptp.Config.{from_toml_file}
use aptp.Rpc.Server.Calls.{Call, Reply, finalizes, handshaken}
use aptp.Transport.Listener.{Net}
use aptp.Transport.Listener.Flight.{program}

-- All that the runs compute with.
unfoldable pub whole_program : Unit {0}
unfolding program aptp.Config.from_toml_file aptp.Rpc.Server.new aptp.Validation.Gate.new
    aptp.Rpc.Server.Tasks.poll aptp.Rpc.Server.Calls.step aptp.Rpc.Server.handshake
    aptp.Rpc.Params.read_card aptp.Wire.Decode.agent_card_from_capnp aptp.Rpc.Handshake.handle
    aptp.Rpc.Params.read_packet aptp.Rpc.Stream.receive aptp.Wire.Decode.packet_from_capnp
    aptp.Validation.Gate.validate aptp.Validation.Gate.check_vector aptp.Float.l2_norm
    Provenance.verify_provenance Provenance.provenance_hash aptp.Prelude.as_bytes Provenance.new
    Provenance.payload_bytes Provenance.bytes_eq aptp.Rpc.Sink.send aptp.Rpc.Server.finalize
    aptp.Rpc.Params.read_session aptp.Rpc.Params.fail aptp.Rpc.Registry.drain aptp.Rpc.Registry.find
    aptp.Rpc.Registry.without aptp.Error.to_string aptp.Rpc.Sink.new aptp.Rpc.Registry.open_session
    aptp.Primitives.unix_nanos
whole_program = tt

abbrev pub ending : Call Fixed
ending = finalizes (farewell "s-1")

abbrev pub toml : String → Result String String
toml path = if str_eq path "aptp.toml" then ok "[transport]" else err "No such file or directory"

abbrev pub net : Net String
net = record { parse = ok; bind = λ addr. ok tt }

abbrev pub greeting : Reply Fixed
greeting = handshaken (
    ok (record {
      status = accepted;
      assigned_session = "s-1";
      server_card = record {
        agent_id = "server";
        aptp_version = 1;
        invariants = record {
          hidden_size = 2;
          num_layers = 4;
          num_heads = 2;
          vocab_size = 10;
          model_family = "llama";
        };
        capabilities = "hidden_state" ∷ "kv_cache" ∷ "latent_thought" ∷ [];
        public_key = [];
      };
      adapter_required = AdapterType.identity;
      rejection_reason = "";
    }))
