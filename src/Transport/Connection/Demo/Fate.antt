-- ===== src/Transport/Connection/Demo/Fate.antt =====
-- How the demo program ends against a server that a connection made.
use aptp.Prelude.{ℕ, suc, ◌≡◌, refl, ◌≢◌, String, Bool, true, false, Option, none, some, List}
use aptp.Float.{Float, Double}
use aptp.Error.{Result, ok, err, panic, AptpError}
use aptp.Config.{AptpConfig}
use aptp.Primitives.{TaggedPrimitive, PrimitivePacket}
use aptp.Primitives.Card.{new_from_config}
use aptp.Primitives.Provenance.{Sha256}
use aptp.Wire.{Capnp, Getter, AgentCardMessage, PacketMessage}
use aptp.Rpc.Params.{read_card, read_packet}
use aptp.Rpc.Sink.{Mpsc, ClosesOnDrop}
use aptp.Rpc.Server.{AptpRpcServer, Ambient}
use aptp.Rpc.Server
use aptp.Rpc.Server.ClosedSink.{IsDeaf, handshake-IsDeaf, packet-IsDeaf, new-IsDeaf}
use aptp.Transport.Client.{
  AptpClient, connected, await, send_card, handshake, send_packet, send_in, send_primitive,
}
use aptp.Transport.Client.Request.{write_card}
use aptp.Transport.Connection.{Link, Host, promise, remote, handle_connection}
use aptp.Transport.Connection.Demo.{demo_packet, proceed, send_all, after_handshake, main}

module _ {F H Chan : Type 0} ⦃f : Float F⦄ (link : Link) (c : Capnp F) (s : Sha256 H)
    (m : Mpsc (TaggedPrimitive F) Chan) where
  await-promise :
      (r : Getter Bool)
      → r ≢ ok true
      → await {F = F} (promise link (λ (ack : Bool). ack) r) ≢ ok true
  unfolding await
  await-promise (ok ack) h e = h cc
  await-promise (err e) h e' = cc
  await-promise panic h e = cc

  greet-IsDeaf :
      (r : Result (AptpError F) AgentCardMessage) (client : AptpClient F) (host : Host F Chan)
      → IsDeaf c s m host.server.shared
      → IsDeaf c s m (send_card (remote link c s m) r client host).2.server.shared
  unfolding send_card Server.handshake
  greet-IsDeaf (err e) client host deaf = deaf
  greet-IsDeaf panic client host deaf = deaf
  greet-IsDeaf (ok message) client host deaf =
      handshake-IsDeaf c s m (read_card c (ok (record { get_card = ok (c.read_card message) })))
        (host.ambient host.greeted) host.server deaf

  send_packet-IsDeaf :
      (r : Result (AptpError F) (PacketMessage F)) (client : AptpClient F) (host : Host F Chan)
      → IsDeaf c s m host.server.shared
      → (send_packet (remote link c s m) r client host).0 ≢ ok true
  unfolding send_packet Server.stream_primitive
  send_packet-IsDeaf (err e) client host deaf = λ e'. cc
  send_packet-IsDeaf panic client host deaf = λ e. cc
  send_packet-IsDeaf (ok message) client host deaf =
      await-promise _
        (packet-IsDeaf c s m
          (read_packet c (ok (record { get_packet = ok (c.read_packet message) }))) host.server
          deaf).0

  send_in-IsDeaf :
      (session_id : Option String) (packet : PrimitivePacket F) (client : AptpClient F)
      (host : Host F Chan)
      → IsDeaf c s m host.server.shared
      → (send_in (remote link c s m) session_id packet client host).0 ≢ ok true
  unfolding send_in
  send_in-IsDeaf none packet client host deaf = λ e. cc
  send_in-IsDeaf (some id) packet client host deaf = send_packet-IsDeaf _ _ host deaf

  proceed-not-true :
      (sent : Result (AptpError F) Bool) (rest : Result (AptpError F) ℕ × Host F Chan)
      (host : Host F Chan) (n : ℕ)
      → sent ≢ ok true
      → (proceed sent rest host).0 ≢ ok n
  unfolding proceed
  proceed-not-true (err e) rest host n h = λ e'. cc
  proceed-not-true panic rest host n h = λ e. cc
  proceed-not-true (ok false) rest host n h = λ e. cc
  proceed-not-true (ok true) rest host n h = absurd (h refl)

  module _ (clock : ℕ → Option ℕ) (cfg : AptpConfig F) where
    send_all-fails :
        (session_id : String) (left i : ℕ) (client : AptpClient F) (host : Host F Chan) (n : ℕ)
        → IsDeaf c s m host.server.shared
        → (send_all (remote link c s m) clock cfg session_id (suc left) i client host).0 ≢ ok n
    unfolding send_all send_primitive
    send_all-fails session_id left i client host n deaf =
        proceed-not-true _ _ _ n (
          send_in-IsDeaf client.session_id (demo_packet (clock i) cfg session_id i) client host
            deaf)

    after_handshake-fails :
        (r : Result (AptpError F) String) (client : AptpClient F) (host : Host F Chan)
        (fresh : String) (n : ℕ)
        → IsDeaf c s m host.server.shared
        → (after_handshake (remote link c s m) clock fresh cfg r client host).0 ≢ ok n
    unfolding after_handshake
    after_handshake-fails (err e) client host fresh n deaf = λ e'. cc
    after_handshake-fails panic client host fresh n deaf = λ e. cc
    after_handshake-fails (ok session_id) client host fresh n deaf =
        send_all-fails session_id 99 0 client host n deaf

module _ {F H Chan : Type 0} (D : Type 0) ⦃f : Float F⦄ ⦃d : Double F D⦄ (link : Link) (c : Capnp F)
    (s : Sha256 H) (m : Mpsc (TaggedPrimitive F) Chan) (closes : ClosesOnDrop m) where
  -- The demo program never completes against a server that a connection makes, over a channel that
  -- is closed with its receiver: whatever the two configurations, the clocks and the link, it ends
  -- with an error or a panic, and prints no count.
  pub demo_never_completes :
      (read_to_string : String → Result String String) (from_str : String → Result String (List F))
      (server_cfg : AptpConfig F) (counter : ℕ) {srv : AptpRpcServer F Chan}
      → handle_connection D m read_to_string from_str server_cfg counter ≡ ok srv
      → (ambient : ℕ → Ambient) (clock : ℕ → Option ℕ) (fresh : String) (cfg : AptpConfig F) (n : ℕ)
      → (main
          (remote link c s m)
          clock
          fresh
          cfg
          (connected cfg)
          (record { server = srv; ambient = ambient; greeted = 0 })).0
        ≢ ok n
  unfolding handle_connection main handshake
  demo_never_completes read_to_string from_str server_cfg counter {srv} made ambient clock fresh cfg
        n =
      let host : Host F Chan = record { server = srv; ambient = ambient; greeted = 0 } in
      let deaf = new-IsDeaf D c s m closes read_to_string from_str server_cfg 1024 counter made in
      let card = write_card {F = F} (new_from_config fresh cfg.agent) in
      after_handshake-fails link c s m clock cfg _ _ _ fresh n
        (greet-IsDeaf link c s m card (connected cfg) host deaf)
