-- ===== src/Transport/Connection/Session/Tests.antt =====
-- A session of two packets over a channel that is a list.
use aptp.Prelude.{◌<>◌, ◌≡◌, refl, true, some, List, [], ◌∷◌, All, arith}
use aptp.Float.{Fixed, fixed_float}
use aptp.Error.{ok, err, internal, to_string}
use aptp.Primitives.{PrimitivePacket}
use aptp.Samples.{
  direct, direct-IsFaithful, transcript, server_config, sample_card, kv_packet, kv_message,
  hidden_packet, Queue, queue, queue-IsRead, queue_server,
}
use aptp.Validation.Gate.{validate}
use aptp.Rpc.Sink.{sent}
use aptp.Rpc.Server.{after_packet}
use aptp.Rpc.Server.Accepts.{after_packet-unknown}
use aptp.Wire.{packet_of}
use aptp.Wire.Decode.{packet_from_capnp}
use aptp.Primitives.Provenance
use aptp.Rpc.Registry.Counts.{count_of}
use aptp.Transport.Client.{Remote, connected, handshake, finalize}
use aptp.Transport.Connection.{Link, Host, remote}
use aptp.Transport.Connection.Session.{send_each, IsGood, Queued, session_completes}

abbrev wire : Link
wire = record { exception = λ e. e; disconnected = record { description = "disconnected" } }

abbrev host : Host Fixed Queue
host = record {
  server = queue_server;
  ambient = λ n. record { fresh = "s-1"; clock = some n };
  greeted = 0;
}

abbrev peer : Remote Fixed (Host Fixed Queue)
peer = remote wire direct transcript queue

abbrev packets : List (PrimitivePacket Fixed)
packets = kv_packet ∷ hidden_packet ∷ []

packets-IsGood : All (IsGood host.server.firewall "s-1") packets
unfolding validate aptp.Validation.Gate.check_vector aptp.Validation.Gate.check_probe
    aptp.Float.l2_norm
packets-IsGood = (
  record { fits = omega arith; valid = refl; named = refl },
  (record { fits = omega arith; valid = refl; named = refl }, tt),
)

session_completes_example :
    let (greeted, client, host') = handshake peer sample_card (connected server_config) host in
    let (acks, client', host'') = send_each peer packets client host' in
    (greeted ≡ ok "s-1")
    × All (λ ack. ack ≡ ok true) acks
    × Queued transcript queue host.server.shared.sink packets host''.server.shared.sink
    × ((finalize peer client' host'').0 ≡ ok 2)
session_completes_example =
    session_completes wire direct direct-IsFaithful transcript queue queue-IsRead sample_card
      (connected server_config) host packets (omega arith) refl packets-IsGood (omega arith)

after_packet-unknown_example :
    (sink : Queue) × (queue.send [] (Provenance.new transcript kv_packet (some 1)) ≡ sent sink)
    × (after_packet direct transcript queue (ok (packet_of kv_message)) host.server ≡ (
      err (direct.failed (to_string {F = Fixed} (internal ("unknown session: " <> "s-1")))),
      record host.server { shared = record host.server.shared { sink = sink } },
    ))
unfolding validate aptp.Validation.Gate.check_vector aptp.Validation.Gate.check_probe
    aptp.Float.l2_norm packet_from_capnp count_of aptp.Rpc.Registry.find
after_packet-unknown_example =
    after_packet-unknown direct transcript queue queue-IsRead (packet_of kv_message) kv_packet
      host.server refl refl refl
