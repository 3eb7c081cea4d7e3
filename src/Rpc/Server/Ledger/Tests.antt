-- ===== src/Rpc/Server/Ledger/Tests.antt =====
-- A connection on a server whose sink is read: two packets are counted, then the session ends.
use aptp.Prelude.{◌≡◌, refl, ◌↔◌, none, some, List, [], ◌∷◌}
use aptp.Float.{Fixed, fixed_float}
use aptp.Error.{ok}
use aptp.Samples.{direct, transcript, mailbox, live_server, greet, stream, farewell}
use aptp.Rpc.Server.{finalize}
use aptp.Rpc.Server.Calls.{Call, step, run}
use aptp.Rpc.Server.Entries.{ledger, after}
use aptp.Rpc.Server.Ledger.{finalize_exact}

abbrev visit : List (Call Fixed)
visit = greet "s-1" ∷ stream ∷ greet "s-2" ∷ stream ∷ []

visit_told :
    ledger direct transcript mailbox "s-1" none (run direct transcript mailbox live_server visit)
    ≡ some 2
unfolding run step aptp.Rpc.Params.read_packet aptp.Rpc.Params.refail
    aptp.Wire.Decode.packet_from_capnp aptp.Wire.Decode.owned_text
    aptp.Wire.Decode.payload_from_capnp aptp.Wire.Decode.shape_from_capnp
    aptp.Rpc.Server.stream_primitive aptp.Rpc.Server.after_packet aptp.Rpc.Params.fail
    aptp.Rpc.Stream.handle aptp.Rpc.Stream.receive aptp.Rpc.Stream.receive_packet
    aptp.Rpc.Stream.admit aptp.Rpc.Stream.deliver aptp.Rpc.Stream.settle aptp.Rpc.Stream.count
    aptp.Rpc.Sink.send aptp.Validation.Gate.validate aptp.Validation.Gate.check_vector
    aptp.Validation.Gate.check_probe aptp.Float.l2_norm aptp.Rpc.Server.handshake
    aptp.Rpc.Server.after_card aptp.Rpc.Params.read_card aptp.Wire.Decode.agent_card_from_capnp
    aptp.Wire.Decode.owned_texts aptp.Rpc.Handshake.handle aptp.Rpc.Handshake.choose
    aptp.Rpc.Registry.open_session aptp.Rpc.Registry.put aptp.Rpc.Registry.without
    aptp.Rpc.Registry.find aptp.Rpc.Registry.increment aptp.Primitives.Provenance.verify_provenance
    aptp.Primitives.Provenance.provenance_hash aptp.Primitives.Provenance.new
    aptp.Primitives.Provenance.bytes_eq aptp.Primitives.Provenance.payload_bytes
    aptp.Prelude.as_bytes
visit_told = refl

visit_finalized :
    (finalize direct transcript mailbox
      (farewell "s-1")
      (after direct transcript mailbox live_server visit)).0
    ≡ ok 2
unfolding step aptp.Rpc.Params.read_packet aptp.Rpc.Params.refail aptp.Wire.Decode.packet_from_capnp
    aptp.Wire.Decode.owned_text aptp.Wire.Decode.payload_from_capnp
    aptp.Wire.Decode.shape_from_capnp aptp.Rpc.Server.stream_primitive aptp.Rpc.Server.after_packet
    aptp.Rpc.Params.fail aptp.Rpc.Stream.handle aptp.Rpc.Stream.receive
    aptp.Rpc.Stream.receive_packet aptp.Rpc.Stream.admit aptp.Rpc.Stream.deliver
    aptp.Rpc.Stream.settle aptp.Rpc.Stream.count aptp.Rpc.Sink.send aptp.Validation.Gate.validate
    aptp.Validation.Gate.check_vector aptp.Validation.Gate.check_probe aptp.Float.l2_norm
    aptp.Rpc.Server.handshake aptp.Rpc.Server.after_card aptp.Rpc.Params.read_card
    aptp.Wire.Decode.agent_card_from_capnp aptp.Wire.Decode.owned_texts aptp.Rpc.Handshake.handle
    aptp.Rpc.Handshake.choose aptp.Rpc.Registry.open_session aptp.Rpc.Registry.put
    aptp.Rpc.Registry.without aptp.Rpc.Registry.find aptp.Rpc.Registry.increment
    aptp.Primitives.Provenance.verify_provenance aptp.Primitives.Provenance.provenance_hash
    aptp.Primitives.Provenance.new aptp.Primitives.Provenance.bytes_eq
    aptp.Primitives.Provenance.payload_bytes aptp.Prelude.as_bytes finalize
    aptp.Rpc.Params.read_session aptp.Rpc.Params.fail_text aptp.Rpc.Server.after_session
    aptp.Rpc.Server.after_drain aptp.Rpc.Registry.drain
visit_finalized = refl

finalize_exact_example :
    ((finalize direct transcript mailbox
        (farewell "s-1")
        (after direct transcript mailbox live_server visit)).0
      ≡ ok 2)
    ↔ (ledger direct transcript mailbox "s-1" none (run direct transcript mailbox live_server visit)
        ≡ some 2)
unfolding aptp.Rpc.Params.read_session
finalize_exact_example =
    finalize_exact direct transcript mailbox live_server refl visit (farewell "s-1") "s-1" refl 2
