-- ===== src/Rpc/Server/ClosedSink.antt =====
-- A server that `new` makes: its sink has no receiver.
mod Tests
use mathlib.Core.Path.{subst}
use aptp.Prelude.{
  ℕ, ◌≡◌, refl, ◌≢◌, String, Bool, true, some, List, [], ◌∷◌, All, arith, sym, ◌∙◌, ◌⊎◌,
  Option-cases, inl, inr,
}
use aptp.Float.{Float, Double, one_f32}
use aptp.Error.{Result, ok, err, panic, AptpError, internal, map_err-eq-ok, >>=-eq-ok}
use aptp.Config.{AptpConfig}
use aptp.Primitives.{TaggedPrimitive, PrimitivePacket, AgentCard}
use aptp.Primitives.Provenance.{Sha256}
use aptp.Primitives.Provenance
use aptp.Primitives.Provenance.Coverage.{verify_provenance-new}
use aptp.Wire.Decode.{packet_from_capnp}
use aptp.Wire.{Capnp, Getter, PacketReader}
use aptp.Validation.Gate
use aptp.Validation.Gate.{ValidationGate, validate}
use aptp.Rpc.Params.{fail, read_card, read_packet, read_negotiation, read_session}
use aptp.Rpc.Registry.{SessionRegistry, default, find}
use aptp.Rpc.Registry.Counts.{count_of, unknown_session, drain_known}
use aptp.Rpc.Sink.{Mpsc, closed, ClosesOnDrop}
use aptp.Rpc.Sink
use aptp.Rpc.Handshake.Branches.{count_of-handle}
use aptp.Rpc.Stream.{Shared, deliver, admit, receive_packet, receive, settle, handle}
use aptp.Rpc.Server.{
  AptpRpcServer, Ambient, after_card, after_packet, after_negotiation, after_drain, after_session,
  handshake, stream_primitive, negotiate_alignment, finalize, new,
}
use aptp.Rpc.Server.Calls.{
  Call, Reply, handshakes, streams, negotiates, finalizes, handshaken, streamed, negotiated,
  finalized, step, run,
}

-- No packet is acknowledged, and no session is finalised with a count other than 0.
abbrev pub Refuses : {F : Type 0} → Call F × Reply F → Type 0
Refuses (call, streamed r) = r ≢ ok true
Refuses (call, finalized r) = (n : ℕ) → r ≡ ok n → n ≡ 0
Refuses (call, handshaken r) = Unit
Refuses (call, negotiated r) = Unit

module _ {F H Chan : Type 0} ⦃f : Float F⦄ (c : Capnp F) (s : Sha256 H)
    (m : Mpsc (TaggedPrimitive F) Chan) where
  -- No packet can be put in the sink, and every open session has the count 0.
  pub record IsDeaf (st : Shared Chan) : Type 0 where
    pub no_send : (t : TaggedPrimitive F) → m.send st.sink t ≡ closed
    pub nothing : (k : String) (n : ℕ) → count_of st.sessions k ≡ some n → n ≡ 0

  -- An answer that is no acknowledgement, and the state as it was.
  abbrev Unheard : Shared Chan → Result (AptpError F) Bool × Shared Chan → Type 0
  Unheard st (r, st') = (r ≢ ok true) × (st' ≡ st)

  pub deliver-IsDeaf :
      (packet : PrimitivePacket F) (sink : Chan)
      → ((t : TaggedPrimitive F) → m.send sink t ≡ closed)
      → deliver s m packet sink ≡ err (internal "PacketSink channel closed")
  unfolding deliver Sink.send
  deliver-IsDeaf packet sink no_send =
      rw (
        verify_provenance-new s packet one_f32,
        no_send (Provenance.new s packet one_f32),
        Sink.send,
      )

  admit-IsDeaf :
      (r : Result (AptpError F) (Unit {0})) (packet : PrimitivePacket F) (st : Shared Chan)
      → ((t : TaggedPrimitive F) → m.send st.sink t ≡ closed)
      → Unheard st (settle (admit s m r packet st.sink) st)
  unfolding admit settle
  admit-IsDeaf (err e) packet st no_send = (λ h. cc, refl)
  admit-IsDeaf panic packet st no_send = (λ h. cc, refl)
  admit-IsDeaf (ok u) packet st no_send = rw (deliver-IsDeaf packet st.sink no_send) (λ h. cc, refl)

  stream-IsDeaf :
      (reader : PacketReader F) (gate : ValidationGate F) (st : Shared Chan)
      → IsDeaf st
      → Unheard st (handle s m reader gate st)
  unfolding handle receive settle receive_packet
  stream-IsDeaf reader gate st deaf =
      elim (packet_from_capnp reader)
        as (λ r. Unheard st (settle (receive_packet s m r gate st.sink) st)) [
          | err e ↦ (λ h. cc, refl)
          | panic ↦ (λ h. cc, refl)
          | ok packet ↦ admit-IsDeaf (gate packet.payload) packet st deaf.no_send
        ]

  -- A state whose sink is the same and whose sessions have the count 0 or an old one.
  IsDeaf-sessions :
      (st : Shared Chan) (reg : SessionRegistry)
      → ((k : String) → (count_of reg k ≡ count_of st.sessions k) ⊎ (count_of reg k ≡ some 0))
      → IsDeaf st
      → IsDeaf (record st { sessions = reg })
  IsDeaf-sessions st reg old deaf = record {
    no_send = deaf.no_send;
    nothing = λ k n e. elim (old k) [
      | inl same ↦ deaf.nothing k n (sym same ∙ e)
      | inr zero_count ↦ ground arith
    ];
  }

  pub handshake-IsDeaf :
      (r : Getter AgentCard) (ambient : Ambient) (srv : AptpRpcServer F Chan)
      → IsDeaf srv.shared
      → IsDeaf (after_card c s m r ambient srv).1.shared
  unfolding after_card
  handshake-IsDeaf (err e) ambient srv deaf = deaf
  handshake-IsDeaf panic ambient srv deaf = deaf
  handshake-IsDeaf (ok card) ambient srv deaf =
      IsDeaf-sessions srv.shared _
        (count_of-handle ambient.fresh ambient.clock card srv.cfg srv.shared.sessions) deaf

  fail-ne-true : (r : Result (AptpError F) Bool) → r ≢ ok true → fail c r ≢ ok true
  unfolding fail
  fail-ne-true r h e = h (map_err-eq-ok _ r e)

  pub packet-IsDeaf :
      (r : Getter (PacketReader F)) (srv : AptpRpcServer F Chan)
      → IsDeaf srv.shared
      → ((after_packet c s m r srv).0 ≢ ok true) × IsDeaf (after_packet c s m r srv).1.shared
  unfolding after_packet
  packet-IsDeaf (err e) srv deaf = (λ h. cc, deaf)
  packet-IsDeaf panic srv deaf = (λ h. cc, deaf)
  packet-IsDeaf (ok reader) srv deaf =
      let (refused, same) = stream-IsDeaf reader (validate srv.firewall) srv.shared deaf in
      (fail-ne-true _ refused, subst IsDeaf (sym same) deaf)

  negotiation-IsDeaf :
      (r : Getter (ℕ × ℕ × String × String)) (ambient : Ambient) (srv : AptpRpcServer F Chan)
      → IsDeaf srv.shared
      → IsDeaf (after_negotiation c s m r ambient srv).1.shared
  unfolding after_negotiation
  negotiation-IsDeaf (err e) ambient srv deaf = deaf
  negotiation-IsDeaf panic ambient srv deaf = deaf
  negotiation-IsDeaf (ok request) ambient srv deaf = deaf

  -- What a drained session gives back.
  session-IsDeaf :
      (r : Getter String) (srv : AptpRpcServer F Chan)
      → IsDeaf srv.shared
      → ((n : ℕ) → (after_session c s m r srv).0 ≡ ok n → n ≡ 0)
        × IsDeaf (after_session c s m r srv).1.shared
  unfolding after_session after_drain fail
  session-IsDeaf (err e) srv deaf = (λ n h. cc, deaf)
  session-IsDeaf panic srv deaf = (λ n h. cc, deaf)
  session-IsDeaf (ok sid) srv deaf = elim (Option-cases (count_of srv.shared.sessions sid)) [
    | inl closed_session ↦
        rw (unknown_session srv.shared.sessions sid closed_session).1 (λ n h. cc, deaf)
    | inr (n, open_count) ↦
        let (reg, drained, counts) = drain_known {F = F} srv.shared.sessions sid n open_count in
        rw drained (
          λ k h. ground (arith, deaf.nothing sid n open_count),
          record {
            no_send = deaf.no_send;
            nothing = λ k j e. ground (arith, counts k, deaf.nothing k j);
          },
        )
  ]

  pub step-IsDeaf :
      (srv : AptpRpcServer F Chan) (call : Call F)
      → IsDeaf srv.shared
      → Refuses (call, (step c s m srv call).0) × IsDeaf (step c s m srv call).1.shared
  unfolding step handshake stream_primitive negotiate_alignment finalize
  step-IsDeaf srv (handshakes ambient params) deaf =
      (tt, handshake-IsDeaf (read_card c params) ambient srv deaf)
  step-IsDeaf srv (streams params) deaf = packet-IsDeaf (read_packet c params) srv deaf
  step-IsDeaf srv (negotiates ambient params) deaf =
      (tt, negotiation-IsDeaf (read_negotiation c params) ambient srv deaf)
  step-IsDeaf srv (finalizes params) deaf = session-IsDeaf (read_session c params) srv deaf

module _ {F H Chan : Type 0} (D : Type 0) ⦃f : Float F⦄ ⦃d : Double F D⦄ (c : Capnp F)
    (s : Sha256 H) (m : Mpsc (TaggedPrimitive F) Chan) (closes : ClosesOnDrop m) where
  pub new-IsDeaf :
      (read_to_string : String → Result String String) (from_str : String → Result String (List F))
      (cfg : AptpConfig F) (sink_buffer counter : ℕ) {srv : AptpRpcServer F Chan}
      → new D m read_to_string from_str cfg sink_buffer counter ≡ ok srv
      → IsDeaf c s m srv.shared
  unfolding new count_of find
  new-IsDeaf read_to_string from_str cfg sink_buffer counter {srv} made =
      let start : Shared Chan = record {
        sessions = default;
        sink = m.drop_receiver (Sink.new m sink_buffer);
      } in
      let (firewall, loaded, built) =
        >>=-eq-ok (Gate.new D read_to_string from_str cfg.validation) _ made in
      let deaf : IsDeaf c s m start = record {
        no_send = closes.send-drop_receiver (Sink.new m sink_buffer);
        nothing = λ k n e. cc;
      } in
      let same : start ≡ srv.shared = cc in subst (IsDeaf c s m) same deaf
