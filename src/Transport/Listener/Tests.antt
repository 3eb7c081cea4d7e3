-- ===== src/Transport/Listener/Tests.antt =====
-- Two connections, of which one tries to end the other's session, and a third that is accepted.
use aptp.Prelude.{◌≡◌, refl, String, ◌<>◌, Option, none, some, List, [], ◌∷◌, str_eq, if◌then◌else◌}
use aptp.Float.{Fixed, fixed_float, fixed_double}
use aptp.Error.{Result, ok, err, config, io, map_err, ◌>>=◌, ◌>>◌}
use aptp.Samples.{
  direct, transcript, server_config, Queue, queue, queue_server, session_server, farewell, no_file,
  stream, Mailbox, mailbox, validation_config, no_json,
}
use aptp.Rpc.Registry.{default}
use aptp.Rpc.Server.Calls.{Call, Reply, finalizes, finalized, streamed}
use aptp.Transport.Listener.{Net, Event, accepts, calls, Process, run_server, main}
use aptp.Transport.Listener.Returns.{accepted, had, run_server-returns}

abbrev ending : Call Fixed
ending = finalizes (farewell "s-1")

abbrev events : List (Event Fixed)
events = calls 1 ending ∷ accepts (ok (ok tt)) ∷ calls 0 ending ∷ []

abbrev process : Process Fixed Queue
process = record { connections = some session_server ∷ some queue_server ∷ []; counter = 0 }

abbrev end : Process Fixed Queue
end = record {
  connections = some queue_server ∷ some queue_server ∷ some queue_server ∷ [];
  counter = 0;
}

abbrev history : List (Event Fixed × Option (Reply Fixed))
history =
    (calls 1 ending, some (finalized (err (direct.failed "Internal error: unknown session: s-1"))))
    ∷ (accepts (ok (ok tt)), none)
    ∷ (calls 0 ending, some (finalized (ok 4)))
    ∷ []

-- A parser that takes the address of the sample configuration only.
abbrev net : Net String
net = record {
  parse =
      λ text. if str_eq text "127.0.0.1:7878" then ok text else err "invalid socket address syntax";
  bind = λ addr. ok tt;
}

run_server-returns_example :
    had (run_server Fixed direct transcript queue no_file no_json server_config net 0 events) ≡ (do
      addr ←
          map_err
            (λ e. config ("invalid bind addr: " <> e))
            (net.parse server_config.transport.bind_addr)
      map_err io (net.bind addr)
      accepted events)
run_server-returns_example =
    run_server-returns Fixed direct transcript queue no_file no_json server_config net 0 events

still_running :
    had (run_server Fixed direct transcript queue no_file no_json server_config net 0 events) ≡ ok 1
unfolding run_server
still_running = refl

-- The program, on a channel that closes with its receiver.
abbrev visit : List (Event Fixed)
visit = accepts (ok (ok tt)) ∷ calls 0 stream ∷ calls 0 ending ∷ []

abbrev toml : String → Result String String
toml path = if str_eq path "aptp.toml" then ok "[transport]" else err "No such file or directory"

abbrev visit_history : List (Event Fixed × Option (Reply Fixed))
visit_history =
    (accepts (ok (ok tt)), none)
    ∷ (
      calls 0 stream,
      some (streamed (err (direct.failed "Internal error: PacketSink channel closed"))),
    )
    ∷ (
      calls 0 ending,
      some (finalized (err (direct.failed "Internal error: unknown session: s-1"))),
    )
    ∷ []

abbrev visit_end : Process Fixed Mailbox
visit_end = record {
  connections =
      some (record {
        cfg = server_config;
        firewall = record { cfg = validation_config; probe = none };
        shared = record { sessions = default; sink = none };
        counter = 0;
      })
      ∷ [];
  counter = 0;
}

visited :
    main Fixed direct transcript mailbox toml no_json (λ raw. ok server_config) net [] visit
    ≡ ok (visit_history, visit_end)
unfolding main aptp.Config.from_toml_file aptp.Rpc.Server.new aptp.Validation.Gate.new
    aptp.Rpc.Server.Calls.step aptp.Rpc.Server.stream_primitive aptp.Rpc.Params.read_packet
    aptp.Rpc.Params.fail aptp.Rpc.Stream.handle aptp.Rpc.Stream.receive
    aptp.Wire.Decode.packet_from_capnp aptp.Validation.Gate.validate
    aptp.Validation.Gate.check_vector aptp.Float.l2_norm
    aptp.Primitives.Provenance.verify_provenance aptp.Primitives.Provenance.provenance_hash
    aptp.Prelude.as_bytes aptp.Primitives.Provenance.new aptp.Primitives.Provenance.payload_bytes
    aptp.Primitives.Provenance.bytes_eq aptp.Rpc.Sink.send aptp.Rpc.Server.finalize
    aptp.Rpc.Params.read_session aptp.Rpc.Registry.drain aptp.Rpc.Registry.find aptp.Error.to_string
visited = refl
