-- ===== src/Lib.antt =====
-- APTP: agents send each other the inner states of their models (hidden states, key-value caches,
-- latent vectors) over Cap'n Proto RPC. A client shakes hands with a server, which opens a session;
-- it streams packets, which the server reads, checks with a firewall, tags with a provenance hash,
-- queues and counts; it may negotiate an adapter between two dimensions; and it finalises the
-- session, which gives it the count back.
--
-- The files, with the code that each models:
--   Prelude        lists, texts and tests that all share
--   Float          `f32` and `f64` as types with operations; `Fixed` is a small instance to run
--   Error          src/error.rs; `Result` has `panic` beside `ok` and `err`
--   Config         src/config.rs
--   Primitives     src/primitives.rs: the data (Primitives), `new_from_config` (Card), the
--                  provenance hash and the tag (Provenance)
--   Wire           the messages and readers of schemas/aptp.capnp; Build is `packet_to_bytes`,
--                  Decode is `packet_from_capnp` and `agent_card_from_capnp` of src/primitives.rs
--   Validation     src/validation: Probe is probe.rs, Gate is gate.rs
--   Adapter        src/adapter: Linear, NormMatch, and Spec for mod.rs and manifold.rs
--   Rpc            src/rpc: Registry, Sink, Params, Messages and Server are mod.rs; Handshake,
--                  Negotiate and Stream are the handlers' own files. Registry/Store is what a
--                  registry promises, as an interface with laws, with the map that meets it too;
--                  Server/Calls has calls one after the other, Server/Sessions what they tell of
--                  each session, Server/Tasks calls in flight
--   Transport      src/transport/client.rs (Client, with `connect` in Client/Connect); the server that a
--                  connection of src/transport/server.rs makes, at the other end (Connection); the
--                  accept loop of that file and all its connections (Listener), with
--                  src/bin/aptp-server.rs; src/bin/aptp-client.rs (Connection/Demo)
--   Backend        src/backend: mod.rs (Backend) and llama.rs (Llama), with `snapshot_to_packet` in
--                  Llama/Packet. Llama/Life has a backend over any sequence of inferences;
--                  Llama/Packet/Arrives follows a snapshot to the sink of the server
--   UnitTests      the tests in the source files, and tests/integration_handshake.rs
--   Benches        benches/serialization.rs
--   Samples        values that the tests share
--
-- State: a server is the record `AptpRpcServer` of its configuration, firewall, registry, sink and
-- the counter of the weight generator. Each method of the interface is a function from the call's
-- parameters and the server to the reply and the server after it (`handshake`, `stream_primitive`,
-- `negotiate_alignment`, `finalize` of Rpc/Server); `run` of Rpc/Server/Calls makes any sequence of
-- calls. A client is the record `AptpClient`; its methods act on it and on the state of a peer.
-- Rpc/Server/Tasks has many calls of one connection in flight: `Trace` is the relation of a server and
-- its handlers to what they become when they take turns, from one `await` to the next, in any order.
-- Transport/Listener has the process with many connections, each with a server of its own; there, and
-- in the sequences of Rpc/Server/Calls, a call is one step. Transport/Listener/Flight has the process
-- with the handlers of all connections taking turns, with calls that are given up and peers that
-- leave. Which handler runs next, which call is given up, and how a reply gets to its peer is up to
-- tokio and capnp-rpc: a run is any sequence of such turns. A lock is held in no handler across an
-- `await`, so that it shows in the order of the turns only; and a send waits for room in the sink's
-- buffer, which is a turn in which nothing happens.
--
-- Parameters: the floats, SHA-256, tokio's channel, sockets with the
-- parser and the resolver of addresses, the link between a client and its server, the
-- capnp crate with the code that it generates, the C shim, the file system, the parsers of TOML and
-- JSON, the clock, the UUIDs and the harness of the benchmarks.
--
-- Integers are natural numbers; what the code computes on `usize` and `u64` wraps at 2^64, as in a
-- release build for a 64-bit target; a list of Cap'n Proto has fewer than 2^29 elements, and a
-- vector of floats at most (2^63 - 1) / 4; running out of memory below that is not modelled, and a
-- text is taken to be shorter than a text of Cap'n Proto may be. No definition needs fuel: the loops
-- go down a list or a count.
--
-- Not modelled: logging, the RPC system between a socket and a call, the C shim; the build script
-- and the modules that only name others; what the benchmarks measure.
-- What a panic in a handler does to its connection is modelled in Transport/Listener only.
pub mod Prelude
pub mod Float
pub mod Error
pub mod Config
pub mod Primitives
pub mod Wire
pub mod Validation
pub mod Adapter
pub mod Rpc
pub mod Transport
pub mod Benches
pub mod UnitTests
pub mod Backend
pub mod Samples
