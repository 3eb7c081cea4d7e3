-- ===== src/Rpc/Server/Tasks/Guarded.antt =====
-- What a turn of a handler puts into the sink: a packet that the firewall passes, tagged.
use aptp.Prelude.{ℕ, ◌≡◌, refl, String, Option, none, some, Bool-cases, ◌⊎◌, inl, inr, arith}
use aptp.Float.{Float, one_f32}
use aptp.Error.{Result, ok, err, panic, AptpError, ◌>>=◌}
use aptp.Primitives.{TaggedPrimitive, PrimitivePacket, AgentCard}
use aptp.Primitives.Provenance.{Sha256, verify_provenance}
use aptp.Primitives.Provenance
use aptp.Wire.{Capnp, Getter, PacketReader}
use aptp.Wire.Decode.{packet_from_capnp}
use aptp.Validation.Gate.{ValidationGate, NeuralFirewall, validate}
use aptp.Rpc.Messages.{StreamPrimitiveParams}
use aptp.Rpc.Params.{fail, read_packet, read_card, read_negotiation, read_session}
use aptp.Rpc.Registry.{SessionRegistry, drain}
use aptp.Rpc.Sink.{Mpsc, Sent, sent, closed}
use aptp.Rpc.Sink
use aptp.Rpc.Stream.{Shared, deliver, admit, receive_packet, receive, count}
use aptp.Rpc.Server.{
  AptpRpcServer, Ambient, after_card, after_negotiation, after_drain, after_session, handshake,
  negotiate_alignment, finalize,
}
use aptp.Rpc.Server.Calls.{handshakes, streams, negotiates, finalizes, step}
use aptp.Rpc.Server.Tasks.{Task, waiting, counting, suspend, begin_stream, whole, poll}

-- The channel `end` is `start` after some packets, each of which the firewall passes, with the tags that
-- `TaggedPrimitive::new` makes, and nothing else.
pub data Guarded {F H Chan : Type 0} ⦃f : Float F⦄ (s : Sha256 H)
    (m : Mpsc (TaggedPrimitive F) Chan) (firewall : NeuralFirewall F) (start : Chan)
    : Chan → Type 0 where
  untouched : Guarded s m firewall start start
  passed :
      {chan chan' : Chan} (packet : PrimitivePacket F)
      → Guarded s m firewall start chan
      → validate firewall packet.payload ≡ ok tt
      → m.send chan (Provenance.new s packet one_f32) ≡ sent chan'
      → Guarded s m firewall start chan'

Sent-cases : {Chan : Type 0} (r : Sent Chan) → (r ≡ closed) ⊎ ((chan' : Chan) × (r ≡ sent chan'))
Sent-cases closed = inl refl
Sent-cases (sent chan') = inr (chan', refl)

count-sink_same :
    (F : Type 0) {Chan : Type 0} (id : String) (st : Shared Chan)
    → (count {F = F} id st).1.sink ≡ st.sink
unfolding count
count-sink_same F id st = ground arith

module _ {F H Chan : Type 0} ⦃f : Float F⦄ (c : Capnp F) (s : Sha256 H)
    (m : Mpsc (TaggedPrimitive F) Chan) where
  -- What was sent, where something was.
  abbrev Sends : PrimitivePacket F → Chan → Result (AptpError F) Chan → Type 0
  Sends packet sink (ok sink') = m.send sink (Provenance.new s packet one_f32) ≡ sent sink'
  Sends packet sink (err e) = Unit
  Sends packet sink panic = Unit

  send-Sends :
      (packet : PrimitivePacket F) (sink : Chan)
      → Sends packet sink (Sink.send m sink (Provenance.new s packet one_f32))
  unfolding Sink.send
  send-Sends packet sink = elim (Sent-cases (m.send sink (Provenance.new s packet one_f32))) [
    | inl gone ↦ rw (gone, Sink.send) tt
    | inr (sink', taken) ↦ rw (taken, Sink.send) taken
  ]

  deliver-Sends :
      (packet : PrimitivePacket F) (sink : Chan) → Sends packet sink (deliver s m packet sink)
  unfolding deliver
  deliver-Sends packet sink =
      let tagged = Provenance.new s packet one_f32 in
      elim (Bool-cases (verify_provenance s tagged)) [
        | inl good ↦ rw good (send-Sends packet sink)
        | inr bad ↦ rw bad tt
      ]

  abbrev Enters : ValidationGate F → Chan → Result (AptpError F) (Option (String × Chan)) → Type 0
  Enters gate sink (ok (some (id, sink'))) =
      (packet : PrimitivePacket F) × (gate packet.payload ≡ ok tt)
      × (m.send sink (Provenance.new s packet one_f32) ≡ sent sink')
  Enters gate sink _ = Unit

  admit-Enters :
      (answer : Result (AptpError F) (Unit {0})) (gate : ValidationGate F)
      (packet : PrimitivePacket F) (sink : Chan)
      → gate packet.payload ≡ answer
      → Enters gate sink (admit s m answer packet sink)
  unfolding admit
  admit-Enters (err e) gate packet sink same = tt
  admit-Enters panic gate packet sink same = tt
  admit-Enters (ok u) gate packet sink same =
      elim (deliver s m packet sink)
          as (λ r.
            Sends packet sink r
            → Enters gate sink (r >>= λ sink'. ok (some (packet.metadata.session_id, sink')))) [
              | err e ↦ λ h. tt
              | panic ↦ λ h. tt
              | ok sink' ↦ λ h. (packet, same, h)
            ]
        (deliver-Sends packet sink)

  receive-Enters :
      (reader : PacketReader F) (gate : ValidationGate F) (sink : Chan)
      → Enters gate sink (receive s m reader gate sink)
  unfolding receive receive_packet
  receive-Enters reader gate sink =
      elim (packet_from_capnp reader) as (λ p. Enters gate sink (receive_packet s m p gate sink)) [
        | err e ↦ tt
        | panic ↦ tt
        | ok packet ↦ admit-Enters (gate packet.payload) gate packet sink refl
      ]

  module _ (start : Chan) (srv : AptpRpcServer F Chan) where
    -- A turn keeps the firewall, and the sink guarded.
    abbrev pub KeepsGuard : {A : Type 0} → A × AptpRpcServer F Chan → Type 0
    KeepsGuard (result, srv') =
        (srv'.firewall ≡ srv.firewall)
        × (Guarded s m srv.firewall start srv.shared.sink
            → Guarded s m srv.firewall start srv'.shared.sink)

    suspend-KeepsGuard :
        (params : Getter (StreamPrimitiveParams F))
        (r : Result (AptpError F) (Option (String × Chan)))
        → Enters (validate srv.firewall) srv.shared.sink r
        → KeepsGuard (suspend c s m params r srv)
    unfolding suspend
    suspend-KeepsGuard params (err e) enters = (refl, λ g. g)
    suspend-KeepsGuard params panic enters = (refl, λ g. g)
    suspend-KeepsGuard params (ok none) enters = (refl, λ g. g)
    suspend-KeepsGuard params (ok (some (id, sink))) (packet, valid, taken) =
        (refl, λ g. passed packet g valid taken)

    begin_stream-KeepsGuard :
        (params : Getter (StreamPrimitiveParams F)) (r : Getter (PacketReader F))
        → KeepsGuard (begin_stream c s m params r srv)
    unfolding begin_stream
    begin_stream-KeepsGuard params (err e) = (refl, λ g. g)
    begin_stream-KeepsGuard params panic = (refl, λ g. g)
    begin_stream-KeepsGuard params (ok reader) =
        suspend-KeepsGuard params _ (receive-Enters reader (validate srv.firewall) srv.shared.sink)

    card-KeepsGuard :
        (r : Getter AgentCard) (ambient : Ambient) → KeepsGuard (after_card c s m r ambient srv)
    unfolding after_card
    card-KeepsGuard (err e) ambient = (refl, λ g. g)
    card-KeepsGuard panic ambient = (refl, λ g. g)
    card-KeepsGuard (ok card) ambient = (refl, λ g. g)

    negotiation-KeepsGuard :
        (r : Getter (ℕ × ℕ × String × String)) (ambient : Ambient)
        → KeepsGuard (after_negotiation c s m r ambient srv)
    unfolding after_negotiation
    negotiation-KeepsGuard (err e) ambient = (refl, λ g. g)
    negotiation-KeepsGuard panic ambient = (refl, λ g. g)
    negotiation-KeepsGuard (ok request) ambient = (refl, λ g. g)

    drain-KeepsGuard : (r : Getter (ℕ × SessionRegistry)) → KeepsGuard (after_drain c s m r srv)
    unfolding after_drain
    drain-KeepsGuard (err e) = (refl, λ g. g)
    drain-KeepsGuard panic = (refl, λ g. g)
    drain-KeepsGuard (ok drained) = (refl, λ g. g)

    session-KeepsGuard : (r : Getter String) → KeepsGuard (after_session c s m r srv)
    unfolding after_session
    session-KeepsGuard (err e) = (refl, λ g. g)
    session-KeepsGuard panic = (refl, λ g. g)
    session-KeepsGuard (ok id) = drain-KeepsGuard (fail c (drain srv.shared.sessions id))

    pub poll-KeepsGuard : (t : Task F) → KeepsGuard (poll c s m t srv)
    unfolding poll whole step handshake negotiate_alignment finalize
    poll-KeepsGuard (counting params id) = (refl, λ g. rw (count-sink_same F id srv.shared) g)
    poll-KeepsGuard (waiting (streams params)) =
        begin_stream-KeepsGuard params (read_packet c params)
    poll-KeepsGuard (waiting (handshakes ambient params)) =
        card-KeepsGuard (read_card c params) ambient
    poll-KeepsGuard (waiting (negotiates ambient params)) =
        negotiation-KeepsGuard (read_negotiation c params) ambient
    poll-KeepsGuard (waiting (finalizes params)) = session-KeepsGuard (read_session c params)
