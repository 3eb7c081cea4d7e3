-- ===== src/UnitTests/Integration.antt =====
-- tests/integration_handshake.rs: a client and a server that are made from two configurations, a
-- handshake, and a session that ends without a packet. The sockets and the resolver of addresses are a
-- parameter, and so is the port that the system gives.
use aptp.Prelude.{
  ℕ, ◌≡◌, refl, ◌≢◌, String, ◌<>◌, show_nat, false, not, none, some, List, str_eq, eq_iff, ◌==◌,
  arith,
}
use aptp.Float.{Float, Double, zero_f32}
use aptp.Error.{Result, ok, AptpError, ◌>>=◌, ◌>>◌}
use aptp.Config.{AptpConfig}
use aptp.Primitives.{TaggedPrimitive}
use aptp.Primitives.Card.{new_from_config}
use aptp.Primitives.Provenance.{Sha256}
use aptp.Validation.Gate
use aptp.Wire.{Capnp, IsFaithful}
use aptp.Rpc.Registry.{default}
use aptp.Rpc.Sink.{Mpsc}
use aptp.Rpc.Sink
use aptp.Rpc.Server.{Ambient}
use aptp.Rpc.Server
use aptp.Transport.Client.{connected, handshake, finalize}
use aptp.Transport.Client.Connect.{Dial, connect, Reaches, connect_to_exact}
use aptp.Transport.Connection.{Link, Host, remote}
use aptp.Transport.Connection.Session.Steps.{greeted_host, handshake-opens, finalize-counts}
use aptp.UnitTests.{assert, unwrap, num}

module _ {F : Type 0} ⦃f : Float F⦄ where
  test_config : (bind_addr agent_id : String) → AptpConfig F
  test_config bind_addr agent_id = record {
    transport = record {
      bind_addr = bind_addr;
      connect_timeout_ms = 5000;
      max_frame_bytes = 67_108_864;
      tls = none;
    };
    validation = record {
      l2_norm_max = num 1000;
      cosine_sim_min = f.sub zero_f32 (f.literal 95 100);
      fairness_threshold = f.literal 1 10;
      probe_vectors_path = none;
    };
    adapter = record { allow_dimension_mismatch_passthrough = false };
    backend = none;
    agent = record {
      agent_id = agent_id;
      model_family = "llama";
      hidden_size = 4096;
      num_layers = 32;
      num_heads = 32;
      vocab_size = 32_000;
      aptp_version = 1;
    };
  }

module _ {F H Chan Addr Stream : Type 0} (D : Type 0) ⦃f : Float F⦄ ⦃d : Double F D⦄ (link : Link)
    (c : Capnp F) (s : Sha256 H) (m : Mpsc (TaggedPrimitive F) Chan) (dial : Dial Addr Stream)
    (read_to_string : String → Result String String) (from_str : String → Result String (List F))
    (ambient : ℕ → Ambient) (port : ℕ) (uuid : String) where
  integration_handshake : Result (AptpError F) (Unit {0})
  unfolding test_config
  integration_handshake = do
    rpc_server ←
        unwrap (Server.new D m read_to_string from_str (test_config "127.0.0.1:0" "server") 8 0)
    let client_cfg = test_config ("127.0.0.1:" <> show_nat port) "test-client"
    let card = new_from_config uuid client_cfg.agent
    client ← unwrap (connect dial client_cfg)
    let host : Host F Chan = record { server = rpc_server; ambient = ambient; greeted = 0 }
    let (greeted, client', host') = handshake (remote link c s m) card client host
    session_id ← unwrap greeted
    assert (not (str_eq session_id ""))
    total ← unwrap (finalize (remote link c s m) client' host').0
    assert (total == 0)

  -- The test passes over any channel, also one that is closed with its receiver, if the address takes
  -- the connection and the session's UUID has a text.
  integration_handshake_passes :
      IsFaithful c
      → (ambient 0).fresh ≢ ""
      → Reaches dial
          (test_config {F = F} ("127.0.0.1:" <> show_nat port) "test-client")
          ("127.0.0.1:" <> show_nat port)
      → integration_handshake ≡ ok tt
  unfolding integration_handshake Server.new Gate.new connect new_from_config
  integration_handshake_passes faithful some_text reaches =
      let bind_addr = "127.0.0.1:" <> show_nat port in
      let cfg = test_config {F = F} bind_addr "test-client" in
      let card = new_from_config uuid cfg.agent in
      let host : Host F Chan = record {
        server = record {
          cfg = test_config "127.0.0.1:0" "server";
          firewall = record {
            cfg = (test_config {F = F} "127.0.0.1:0" "server").validation;
            probe = none;
          };
          shared = record { sessions = default; sink = m.drop_receiver (Sink.new m 8) };
          counter = 0;
        };
        ambient = ambient;
        greeted = 0;
      } in
      let made = (connect_to_exact dial cfg bind_addr (connected cfg)).1 (reaches, refl) in
      let (greeted, opened) =
        handshake-opens link c faithful s m card (connected cfg) host (omega arith) refl in
      let id = (ambient 0).fresh in
      let counted =
        finalize-counts link c faithful s m (record (connected cfg) { session_id = some id })
          (greeted_host link c faithful s m card host) id 0 refl opened in
      let named : str_eq id "" ≡ false = ground (arith, eq_iff id "") in
      rw made (rw greeted (rw (named, counted)))
