-- ===== src/Rpc/Server/Sessions/Tests.antt =====
-- A visit whose session is told in full.
use aptp.Prelude.{◌≡◌, refl, Option, none, some, List, [], ◌∷◌}
use aptp.Float.{Fixed, fixed_float}
use aptp.Adapter.Spec.{identity}
use aptp.Samples.{sample_card, direct, transcript, mailbox, live_server, greet, stream}
use aptp.Rpc.Registry.{SessionState, find, open_session, increment}
use aptp.Rpc.Server.Calls.{Call, step, run}
use aptp.Rpc.Server.Entries.{after}
use aptp.Rpc.Server.Sessions.{session_told}
use aptp.Rpc.Server.Sessions.Tell.{entry, tell_all}

abbrev visit : List (Call Fixed)
visit = greet "s-1" ∷ stream ∷ greet "s-2" ∷ []

-- One packet was acknowledged for the first session.
visit_session :
    tell_all direct "s-1" none (run direct transcript mailbox live_server visit)
    ≡ some (record {
      session_id = "s-1";
      peer_agent_id = sample_card.agent_id;
      received_count = 1;
      adapter = some identity;
      opened_at_ns = 9;
    })
unfolding run step aptp.Rpc.Params.read_packet aptp.Rpc.Params.refail
    aptp.Wire.Decode.packet_from_capnp aptp.Wire.Decode.owned_text
    aptp.Wire.Decode.payload_from_capnp aptp.Wire.Decode.shape_from_capnp
    aptp.Rpc.Server.stream_primitive aptp.Rpc.Server.after_packet aptp.Rpc.Params.fail
    aptp.Rpc.Stream.handle aptp.Rpc.Stream.receive aptp.Rpc.Stream.receive_packet
    aptp.Rpc.Stream.admit aptp.Rpc.Stream.deliver aptp.Rpc.Stream.settle aptp.Rpc.Stream.count
    aptp.Rpc.Sink.send aptp.Validation.Gate.validate aptp.Validation.Gate.check_vector
    aptp.Validation.Gate.check_probe aptp.Float.l2_norm aptp.Rpc.Server.handshake
    aptp.Rpc.Server.after_card aptp.Rpc.Params.read_card aptp.Wire.Decode.agent_card_from_capnp
    aptp.Wire.Decode.owned_texts aptp.Rpc.Handshake.handle aptp.Rpc.Handshake.choose
    aptp.Rpc.Registry.open_session aptp.Rpc.Registry.put aptp.Rpc.Registry.without
    aptp.Rpc.Registry.find aptp.Rpc.Registry.increment aptp.Primitives.Provenance.verify_provenance
    aptp.Primitives.Provenance.provenance_hash aptp.Primitives.Provenance.new
    aptp.Primitives.Provenance.bytes_eq aptp.Primitives.Provenance.payload_bytes
    aptp.Prelude.as_bytes aptp.Primitives.unix_nanos
visit_session = refl

session_told_example :
    entry "s-1" (after direct transcript mailbox live_server visit)
    ≡ tell_all direct "s-1" none (run direct transcript mailbox live_server visit)
unfolding find
session_told_example = session_told direct transcript mailbox "s-1" live_server visit
