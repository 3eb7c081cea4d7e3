-- ===== src/Rpc/Server/Tasks/Tests.antt =====
-- A session that ends between the send of its packet and the count: the packet is in the sink, and
-- its call fails.
use aptp.Prelude.{◌≡◌, refl, List, [], ◌∷◌, map}
use aptp.Float.{Fixed, fixed_float, one_f32}
use aptp.Primitives.Provenance
use aptp.Error.{ok, err}
use aptp.Samples.{
  direct, transcript, Queue, queue, queue_server, session_server, kv_message, kv_packet, stream,
  farewell,
}
use aptp.Wire.{Getter, packet_of}
use aptp.Rpc.Messages.{StreamPrimitiveParams}
use aptp.Rpc.Server.{AptpRpcServer}
use aptp.Rpc.Server.Sessions.Tell.{entry, tell_all}
use aptp.Rpc.Server.Tasks.Told.{trace-session_told}
use aptp.Rpc.Server.Calls.{Call, Reply, streams, finalizes, finalized, streamed, step}
use aptp.Rpc.Server.Tasks.{
  waiting, counting, Poll, pending, ready, poll, first, later, Trace, stop, suspends, replies,
}

abbrev Step : Type 0
Step = Poll Fixed × AptpRpcServer Fixed Queue

abbrev calls : List (Call Fixed)
calls = stream ∷ finalizes (farewell "s-1") ∷ []

abbrev with_packet : AptpRpcServer Fixed Queue → AptpRpcServer Fixed Queue
with_packet srv = record srv {
  shared = record srv.shared { sink = Provenance.new transcript kv_packet one_f32 ∷ [] };
}

abbrev queued : AptpRpcServer Fixed Queue
queued = with_packet session_server

abbrev closed_down : AptpRpcServer Fixed Queue
closed_down = with_packet queue_server

abbrev params : Getter (StreamPrimitiveParams Fixed)
params = ok (record { get_packet = ok (packet_of kv_message) })

stream_gets_queued :
    poll direct transcript queue (waiting stream) session_server
    ≡ (pending (counting params "s-1"), queued)
unfolding poll aptp.Rpc.Params.read_packet aptp.Rpc.Stream.receive
    aptp.Wire.Decode.packet_from_capnp aptp.Validation.Gate.validate
    aptp.Validation.Gate.check_vector aptp.Float.l2_norm Provenance.verify_provenance
    Provenance.provenance_hash aptp.Prelude.as_bytes Provenance.new Provenance.payload_bytes
    aptp.Rpc.Sink.send
stream_gets_queued = refl

late :
    poll direct transcript queue (counting params "s-1") closed_down
    ≡ (ready (streamed (err (direct.failed "Internal error: unknown session: s-1"))), closed_down)
unfolding poll aptp.Rpc.Params.fail aptp.Rpc.Stream.count aptp.Rpc.Registry.increment
    aptp.Rpc.Registry.find aptp.Error.to_string
late = refl

-- The replies of the example, in their order.
abbrev history : List (Call Fixed × Reply Fixed)
history =
    (finalizes (farewell "s-1"), finalized (ok 4))
    ∷ (streams params, streamed (err (direct.failed "Internal error: unknown session: s-1")))
    ∷ []

drained :
    poll direct transcript queue (waiting (finalizes (farewell "s-1"))) queued
    ≡ (ready (finalized (ok 4)), closed_down)
unfolding poll step aptp.Rpc.Server.finalize aptp.Rpc.Params.read_session aptp.Rpc.Params.fail
    aptp.Rpc.Registry.drain aptp.Rpc.Registry.find aptp.Rpc.Registry.without
drained = refl

turned : Trace direct transcript queue session_server (map waiting calls) history closed_down []
turned = suspends first stream_gets_queued (replies (later first) drained (replies first late stop))

trace-session_told_example :
    entry "s-1" closed_down ≡ tell_all direct "s-1" (entry "s-1" session_server) history
trace-session_told_example =
    trace-session_told direct transcript queue "s-1" session_server closed_down calls [] history
      turned
