-- ===== src/Rpc/Server.antt =====
-- `AptpRpcServer` of src/rpc/mod.rs: its construction and the four methods of the interface. A call's
-- parameters arrive as readers. An error is sent to the peer as `capnp::Error::failed` of its text.
pub mod Calls
pub mod Entries
pub mod Ledger
pub mod ClosedSink
pub mod Accepts
pub mod Negotiates
pub mod Tasks
pub mod Sessions
use aptp.Prelude.{ℕ, String, Bool, Option, List}
use aptp.Float.{Float, Double}
use aptp.Error.{Result, ok, err, panic, AptpError, ◌>>=◌}
use aptp.Config.{AptpConfig}
use aptp.Primitives.{TaggedPrimitive, AgentCard}
use aptp.Primitives.Provenance.{Sha256}
use aptp.Wire.{Capnp, Getter, PacketReader}
use aptp.Validation.Gate.{NeuralFirewall, validate}
use aptp.Validation.Gate
use aptp.Rpc.Messages.{
  adapter_type, HandshakeResultMessage, AlignmentSpecMessage, HandshakeParams,
  StreamPrimitiveParams, NegotiateAlignmentParams, FinalizeParams,
}
use aptp.Rpc.Params.{
  fail, server_card, read_card, read_packet, read_negotiation, read_session, write_spec,
}
use aptp.Rpc.Registry.{SessionRegistry, default, drain}
use aptp.Rpc.Sink.{Mpsc}
use aptp.Rpc.Sink
use aptp.Rpc.Handshake
use aptp.Rpc.Negotiate
use aptp.Rpc.Stream.{Shared}
use aptp.Rpc.Stream

-- The registry and the sink are shared with the handlers; `counter` is the static `KAIMING_COUNTER`.
pub record AptpRpcServer (F Chan : Type 0) : Type 0 where
  pub cfg : AptpConfig F
  pub firewall : NeuralFirewall F
  pub shared : Shared Chan
  pub counter : ℕ

-- What the clock and the generator of UUIDs give a call.
pub record Ambient : Type 0 where
  pub fresh : String
  pub clock : Option ℕ

module _ {F Chan : Type 0} (D : Type 0) ⦃f : Float F⦄ ⦃d : Double F D⦄
    (m : Mpsc (TaggedPrimitive F) Chan) where
  -- The receiver that `PacketSink::new` returns is bound to `_rx` and dropped when `new` returns.
  unfoldable pub new :
      (read_to_string : String → Result String String) (from_str : String → Result String (List F))
      (cfg : AptpConfig F) (sink_buffer counter : ℕ)
      → Result (AptpError F) (AptpRpcServer F Chan)
  new read_to_string from_str cfg sink_buffer counter = do
    firewall ← Gate.new D read_to_string from_str cfg.validation
    let sink = Sink.new m sink_buffer
    ok (record {
      cfg = cfg;
      firewall = firewall;
      shared = record { sessions = default; sink = m.drop_receiver sink };
      counter = counter;
    })

module _ {F H Chan : Type 0} ⦃f : Float F⦄ (c : Capnp F) (s : Sha256 H)
    (m : Mpsc (TaggedPrimitive F) Chan) where
  -- A handler's way out on an error of the parameters is the error; the rest of each method follows.
  unfoldable pub after_card :
      Getter AgentCard
      → Ambient
      → AptpRpcServer F Chan
      → Getter HandshakeResultMessage × AptpRpcServer F Chan
  unfolding server_card adapter_type
  after_card (err e) ambient srv = (err e, srv)
  after_card panic ambient srv = (panic, srv)
  after_card (ok card) ambient srv =
      let (answer, reg) =
        Handshake.handle ambient.fresh ambient.clock card srv.cfg srv.shared.sessions in
      (
        ok (record {
          status = answer.status;
          assigned_session = answer.session_id;
          server_card = server_card c srv.cfg;
          adapter_required = adapter_type answer.adapter;
          rejection_reason = answer.reason;
        }),
        record srv { shared = record srv.shared { sessions = reg } },
      )

  unfoldable pub handshake :
      Ambient
      → Getter HandshakeParams
      → AptpRpcServer F Chan
      → Getter HandshakeResultMessage × AptpRpcServer F Chan
  unfolding after_card
  handshake ambient params srv = after_card (read_card c params) ambient srv

  unfoldable pub after_packet :
      Getter (PacketReader F) → AptpRpcServer F Chan → Getter Bool × AptpRpcServer F Chan
  after_packet (err e) srv = (err e, srv)
  after_packet panic srv = (panic, srv)
  after_packet (ok packet_reader) srv =
      let (result, shared) = Stream.handle s m packet_reader (validate srv.firewall) srv.shared in
      (fail c result, record srv { shared = shared })

  unfoldable pub stream_primitive :
      Getter (StreamPrimitiveParams F) → AptpRpcServer F Chan → Getter Bool × AptpRpcServer F Chan
  unfolding after_packet
  stream_primitive params srv = after_packet (read_packet c params) srv

  unfoldable pub after_negotiation :
      Getter (ℕ × ℕ × String × String)
      → Ambient
      → AptpRpcServer F Chan
      → Getter (AlignmentSpecMessage F) × AptpRpcServer F Chan
  after_negotiation (err e) ambient srv = (err e, srv)
  after_negotiation panic ambient srv = (panic, srv)
  after_negotiation (ok (source_dim, target_dim, source_family, target_family)) ambient srv =
      let (result, counter) =
        Negotiate.handle ambient.clock srv.counter source_dim target_dim source_family
          target_family in
      (fail c result >>= write_spec c source_dim target_dim, record srv { counter = counter })

  unfoldable pub negotiate_alignment :
      Ambient
      → Getter NegotiateAlignmentParams
      → AptpRpcServer F Chan
      → Getter (AlignmentSpecMessage F) × AptpRpcServer F Chan
  unfolding after_negotiation
  negotiate_alignment ambient params srv = after_negotiation (read_negotiation c params) ambient srv

  unfoldable pub after_drain :
      Getter (ℕ × SessionRegistry) → AptpRpcServer F Chan → Getter ℕ × AptpRpcServer F Chan
  after_drain (err e) srv = (err e, srv)
  after_drain panic srv = (panic, srv)
  after_drain (ok (count, reg)) srv =
      (ok count, record srv { shared = record srv.shared { sessions = reg } })

  unfoldable pub after_session :
      Getter String → AptpRpcServer F Chan → Getter ℕ × AptpRpcServer F Chan
  unfolding after_drain
  after_session (err e) srv = (err e, srv)
  after_session panic srv = (panic, srv)
  after_session (ok sid) srv = after_drain (fail c (drain srv.shared.sessions sid)) srv

  unfoldable pub finalize :
      Getter FinalizeParams → AptpRpcServer F Chan → Getter ℕ × AptpRpcServer F Chan
  unfolding after_session
  finalize params srv = after_session (read_session c params) srv
