-- ===== src/Rpc/Stream.antt =====
-- src/rpc/stream.rs, in two parts: up to the `await` of the sink, and the count of the packet.
use aptp.Prelude.{String, Bool, true, false, Option, none, some, if◌then◌else◌}
use aptp.Float.{Float, one_f32}
use aptp.Error.{Result, ok, err, panic, AptpError, provenance_mismatch, ◌>>=◌}
use aptp.Primitives.{PrimitivePacket, TaggedPrimitive}
use aptp.Primitives.Provenance.{Sha256, verify_provenance}
use aptp.Primitives.Provenance
use aptp.Wire.{PacketReader}
use aptp.Wire.Decode.{packet_from_capnp}
use aptp.Validation.Gate.{ValidationGate}
use aptp.Rpc.Registry.{SessionRegistry, increment}
use aptp.Rpc.Sink.{Mpsc}
use aptp.Rpc.Sink

-- The shared state that the handler is given.
pub record Shared (Chan : Type 0) : Type 0 where
  pub sessions : SessionRegistry
  pub sink : Chan

module _ {F H Chan : Type 0} ⦃f : Float F⦄ (s : Sha256 H) (m : Mpsc (TaggedPrimitive F) Chan) where
  -- Tagging, the check of the tag, and the sink.
  unfoldable pub deliver : PrimitivePacket F → Chan → Result (AptpError F) Chan
  deliver packet sink =
      let tagged = Provenance.new s packet one_f32 in
      if verify_provenance s tagged then Sink.send m sink tagged else err provenance_mismatch

  -- What follows the firewall's answer. `none` is the return of `Ok(false)`; else there are the session
  -- to count for and the sink after the send.
  unfoldable pub admit :
      Result (AptpError F) (Unit {0})
      → PrimitivePacket F
      → Chan
      → Result (AptpError F) (Option (String × Chan))
  admit (err e) packet sink = ok none
  admit panic packet sink = panic
  admit (ok u) packet sink = do
    sink' ← deliver packet sink
    ok (some (packet.metadata.session_id, sink'))

  unfoldable pub receive_packet :
      Result (AptpError F) (PrimitivePacket F)
      → ValidationGate F
      → Chan
      → Result (AptpError F) (Option (String × Chan))
  receive_packet (err e) firewall sink = ok none
  receive_packet panic firewall sink = panic
  receive_packet (ok packet) firewall sink = admit (firewall packet.payload) packet sink

  unfoldable pub receive :
      PacketReader F → ValidationGate F → Chan → Result (AptpError F) (Option (String × Chan))
  unfolding receive_packet admit deliver
  receive reader firewall sink = receive_packet (packet_from_capnp reader) firewall sink

-- `reg.increment(&session_id)?; Ok(true)`, under the lock.
unfoldable pub count :
    {F Chan : Type 0} → String → Shared Chan → Result (AptpError F) Bool × Shared Chan
count session_id st = elim (increment st.sessions session_id) [
  | ok reg ↦ (ok true, record st { sessions = reg })
  | err e ↦ (err e, st)
  | panic ↦ (panic, st)
]

-- The rest of the handler, after the sink. The state comes back beside an error too: what was sent
-- stays sent.
unfoldable pub settle :
    {F Chan : Type 0}
    → Result (AptpError F) (Option (String × Chan))
    → Shared Chan
    → Result (AptpError F) Bool × Shared Chan
settle (err e) st = (err e, st)
settle panic st = (panic, st)
settle (ok none) st = (ok false, st)
settle (ok (some (session_id, sink'))) st = count session_id (record st { sink = sink' })

module _ {F H Chan : Type 0} ⦃f : Float F⦄ (s : Sha256 H) (m : Mpsc (TaggedPrimitive F) Chan) where
  unfoldable pub handle :
      PacketReader F → ValidationGate F → Shared Chan → Result (AptpError F) Bool × Shared Chan
  unfolding settle
  handle reader firewall st = settle (receive s m reader firewall st.sink) st
