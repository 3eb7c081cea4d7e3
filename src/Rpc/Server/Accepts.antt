-- ===== src/Rpc/Server/Accepts.antt =====
-- What a server does with a packet that it accepts, over a channel that takes it.
use aptp.Prelude.{ℕ, ◌≡◌, refl, String, ◌<>◌, true, none, some, str_eq, if◌then◌else◌}
use aptp.Float.{Float, one_f32}
use aptp.Error.{ok, err, internal, to_string}
use aptp.Primitives.{TaggedPrimitive, PrimitivePacket}
use aptp.Primitives.Provenance.{Sha256}
use aptp.Primitives.Provenance
use aptp.Primitives.Provenance.Coverage.{verify_provenance-new}
use aptp.Wire.{Capnp, PacketReader}
use aptp.Wire.Decode.{packet_from_capnp}
use aptp.Validation.Gate.{validate}
use aptp.Rpc.Params.{fail}
use aptp.Rpc.Registry.Counts.{count_of, bump, increment_known, unknown_session}
use aptp.Rpc.Sink.{Mpsc, sent}
use aptp.Rpc.Sink
use aptp.Rpc.Stream.{Shared, deliver, admit, receive_packet, receive, count, settle, handle}
use aptp.Rpc.Server.{AptpRpcServer, after_packet}

-- The receiver is there and reads, so that every send ends with the value in the channel.
pub record IsRead {T Chan : Type 0} (m : Mpsc T Chan) : Type 0 where
  pub send_lem : (chan : Chan) (t : T) → (chan' : Chan) × (m.send chan t ≡ sent chan')

module _ {F H Chan : Type 0} ⦃f : Float F⦄ (c : Capnp F) (s : Sha256 H)
    (m : Mpsc (TaggedPrimitive F) Chan) (read : IsRead m) where
  -- The packet goes to the sink, tagged.
  pub deliver-IsRead :
      (packet : PrimitivePacket F) (sink : Chan)
      → (sink' : Chan) × (m.send sink (Provenance.new s packet one_f32) ≡ sent sink')
        × (deliver s m packet sink ≡ ok sink')
  unfolding deliver Sink.send
  deliver-IsRead packet sink =
      let (sink', taken) = read.send_lem sink (Provenance.new s packet one_f32) in
      (sink', taken, rw (verify_provenance-new s packet one_f32, taken, Sink.send) refl)

  -- A packet that decodes, passes the firewall and names an open session is acknowledged; its tag is
  -- put in the sink; and its session's count, and no other, is one more.
  pub after_packet-accepts :
      (reader : PacketReader F) (packet : PrimitivePacket F) (srv : AptpRpcServer F Chan) (n : ℕ)
      → packet_from_capnp reader ≡ ok packet
      → validate srv.firewall packet.payload ≡ ok tt
      → count_of srv.shared.sessions packet.metadata.session_id ≡ some n
      → (shared : Shared Chan) × (after_packet c s m (ok reader) srv
          ≡ (ok true, record srv { shared = shared }))
        × ((k : String)
            → count_of shared.sessions k ≡ (
                if str_eq packet.metadata.session_id k
                then bump (count_of srv.shared.sessions k)
                else count_of srv.shared.sessions k))
        × (m.send srv.shared.sink (Provenance.new s packet one_f32) ≡ sent shared.sink)
  unfolding after_packet fail handle receive receive_packet admit settle count
  after_packet-accepts reader packet srv n decoded valid open_count =
      let (sink', taken, delivered) = deliver-IsRead packet srv.shared.sink in
      let (reg, incremented, counts) =
        increment_known {F = F} srv.shared.sessions packet.metadata.session_id n open_count in
      (
        record { sessions = reg; sink = sink' },
        rw (decoded, valid, delivered, incremented, count, settle) refl,
        counts,
        taken,
      )

  -- Over a sink that is read, a packet that decodes and passes the firewall is in the sink
  -- before its session is looked up. If the session is not open, the peer gets the error, no count
  -- changes, and the packet stays in the sink.
  pub after_packet-unknown :
      (reader : PacketReader F) (packet : PrimitivePacket F) (srv : AptpRpcServer F Chan)
      → packet_from_capnp reader ≡ ok packet
      → validate srv.firewall packet.payload ≡ ok tt
      → count_of srv.shared.sessions packet.metadata.session_id ≡ none
      → (sink : Chan) × (m.send srv.shared.sink (Provenance.new s packet one_f32) ≡ sent sink)
        × (after_packet c s m (ok reader) srv ≡ (
          err (
              c.failed
                (to_string {F = F} (internal ("unknown session: " <> packet.metadata.session_id)))),
          record srv { shared = record srv.shared { sink = sink } },
        ))
  unfolding after_packet fail handle receive receive_packet admit deliver settle count Sink.send
      Provenance.new
  after_packet-unknown reader packet srv decoded valid closed_session =
      let (sink, taken) = read.send_lem srv.shared.sink (Provenance.new s packet one_f32) in
      let unknown =
        (unknown_session {F = F} srv.shared.sessions packet.metadata.session_id closed_session).0 in
      let verified = verify_provenance-new s packet one_f32 in
      let delivered : deliver s m packet srv.shared.sink ≡ ok sink =
        rw (verified, deliver) (rw (taken, Sink.send) refl) in
      (sink, taken, rw (decoded, valid, delivered, unknown, count, settle) refl)
