-- ===== src/Transport/Connection/Demo/Completes.antt =====
-- How the demo program ends against a server whose sink is read.
use aptp.Prelude.{
  ℕ, zero, suc, ◌+◌, ◌%◌, ◌<◌, ◌≡◌, refl, ap, ◌∙◌, String, Option, some, List, length, arith,
}
use aptp.Float.{Float}
use aptp.Error.{Result, ok}
use aptp.Config.{AptpConfig, from_toml_file}
use aptp.Primitives.{TaggedPrimitive, version_number, word, hidden_state}
use aptp.Primitives.Card.{new_from_config}
use aptp.Primitives.Provenance.{Sha256}
use aptp.Wire.{Capnp, IsFaithful}
use aptp.Wire.Build.{max_elements}
use aptp.Validation.Gate.{NeuralFirewall, validate}
use aptp.Rpc.Registry.Counts.{count_of}
use aptp.Rpc.Sink.{Mpsc}
use aptp.Rpc.Server.Accepts.{IsRead}
use aptp.Transport.Args.{config_path}
use aptp.Transport.Client.{AptpClient, connected}
use aptp.Transport.Client.Connect.{Dial, connect}
use aptp.Transport.Connection.{Link, Host, remote}
use aptp.Transport.Connection.Session.Steps.{send-accepts, finalize-counts, handshake-opens}
use aptp.Transport.Connection.Demo.{
  demo_vector, demo_packet, send_all, after_handshake, main, after_connect, after_config, program,
}

length-demo_vector :
    (F : Type 0) ⦃f : Float F⦄ (left j i : ℕ) → length (demo_vector {F = F} left j i) ≡ left
unfolding demo_vector
length-demo_vector F zero j i = refl
length-demo_vector F (suc left) j i = ap suc (length-demo_vector F left (j + 1) i)

module _ {F : Type 0} ⦃f : Float F⦄ where
  -- A firewall passes the vectors of the program.
  abbrev pub Passes : NeuralFirewall F → (hidden_size : ℕ) → Type 0
  Passes firewall hidden_size =
      (i : ℕ) → i < 100 → validate firewall (hidden_state (demo_vector hidden_size 0 i)) ≡ ok tt

module _ {F H Chan : Type 0} ⦃f : Float F⦄ (link : Link) (c : Capnp F) (faithful : IsFaithful c)
    (s : Sha256 H) (m : Mpsc (TaggedPrimitive F) Chan) (read : IsRead m) (clock : ℕ → Option ℕ)
    (cfg : AptpConfig F) (fits : cfg.agent.hidden_size < max_elements) where
  send_all-completes :
      (id : String) (left i : ℕ) (client : AptpClient F) (host : Host F Chan)
      (firewall : NeuralFirewall F)
      → Passes firewall cfg.agent.hidden_size
      → host.server.firewall ≡ firewall
      → i + left ≡ 100
      → client.session_id ≡ some id
      → count_of host.server.shared.sessions id ≡ some i
      → (send_all (remote link c s m) clock cfg id left i client host).0 ≡ ok 100
  unfolding send_all demo_packet aptp.Primitives.new_now
  send_all-completes id zero i client host firewall passes same all in_session counted =
      finalize-counts link c faithful s m client host id 100 in_session
        (ground (arith, counted, all))
  send_all-completes id (suc left) i client host firewall passes same all in_session counted =
      let packet = demo_packet (clock i) cfg id i in
      let payload : length (demo_vector {F = F} cfg.agent.hidden_size 0 i) < max_elements =
        rw (length-demo_vector F cfg.agent.hidden_size 0 i) fits in
      let (client', host', sent, in_session', same', counted', taken) =
        send-accepts link c faithful s m read packet client host id i
          (payload, omega arith, omega arith) (rw same (passes i (omega arith))) refl in_session
          counted in
      let small : (i + 1) % word ≡ i + 1 = omega arith in
      rw sent (
        send_all-completes id left (i + 1) client' host' firewall passes (same' ∙ same)
          (omega arith) in_session' (rw small at counted'))

  -- Over a sink that is read: the demo program, given a configuration file that is read and parsed and
  -- whose address takes the connection, shakes hands, has its 100 packets acknowledged, and prints 100.
  -- Its configuration has the server's protocol version and a hidden size below 2^29, and the
  -- server's firewall passes the program's vectors.
  pub program-completes :
      {Addr Stream : Type 0} (dial : Dial Addr Stream) (fresh : String)
      (read_to_string : String → Result String String)
      (parse_config : String → Result String (AptpConfig F)) (args : List String)
      (host : Host F Chan)
      → from_toml_file read_to_string parse_config (config_path args) ≡ ok cfg
      → connect dial cfg ≡ ok (connected cfg)
      → cfg.agent.aptp_version ≡ version_number
      → Passes host.server.firewall cfg.agent.hidden_size
      → (program dial (remote link c s m) clock fresh read_to_string parse_config args host).0
        ≡ ok 100
  unfolding program after_config after_connect main after_handshake new_from_config
  program-completes dial fresh read_to_string parse_config args host parsed reached version passes =
      let (greeted, opened) =
        handshake-opens link c faithful s m (new_from_config fresh cfg.agent) (connected cfg) host
          (omega arith) version in
      let id = (host.ambient host.greeted).fresh in
      rw (parsed, reached, greeted)
        (send_all-completes id 100 0 _ _ host.server.firewall passes refl refl refl opened)
