-- ===== src/Rpc/Server/Sessions.antt =====
-- The sessions of src/rpc/mod.rs in full, with the peer, the adapter and the time of each, told from
-- the calls and the replies alone.
pub mod Tell
mod Tests
use aptp.Prelude.{
  ℕ, ◌≡◌, refl, ap, sym, ◌∙◌, String, Bool, Bool-cases, true, false, Option, none, some, List, [],
  ◌∷◌, ◌==◌, not, str_eq, eq_iff, if◌then◌else◌, Option-cases, inl, inr, arith,
}
use aptp.Float.{Float}
use aptp.Error.{Result, ok, err, panic, AptpError, ◌>>=◌}
use aptp.Config.{AptpConfig}
use aptp.Primitives.{TaggedPrimitive, PrimitivePacket, AgentCard, version_number}
use aptp.Primitives.Provenance.{Sha256}
use aptp.Wire.{Capnp, Getter, PacketReader}
use aptp.Wire.Decode.{packet_from_capnp}
use aptp.Adapter.Spec.{AdapterVariant}
use aptp.Validation.Gate.{ValidationGate, validate}
use aptp.Rpc.Messages.{
  HandshakeStatus, accepted, rejected, needs_adapter, AdapterType, adapter_type,
  HandshakeResultMessage, HandshakeParams,
}
use aptp.Rpc.Params.{fail, read_card, read_packet, read_negotiation, read_session}
use aptp.Rpc.Registry.{SessionState, SessionRegistry, find, open_session}
use aptp.Rpc.Registry.Counts.{find-put}
use aptp.Rpc.Registry.Store.{opening, one_more, registry-StoreLaws}
use aptp.Rpc.Sink.{Mpsc}
use aptp.Rpc.Handshake.{choose, handle}
use aptp.Rpc.Stream.{Shared, deliver, admit, receive_packet, receive, count, settle}
use aptp.Rpc.Stream
use aptp.Rpc.Server.{
  AptpRpcServer, Ambient, after_card, after_packet, after_negotiation, after_drain, after_session,
  handshake, stream_primitive, negotiate_alignment, finalize,
}
use aptp.Rpc.Server.Calls.{
  Call, Reply, handshakes, streams, negotiates, finalizes, handshaken, streamed, finalized, step,
  run,
}
use aptp.Rpc.Server.Entries.{named, named_in, acked, after, fail-acked}
use aptp.Rpc.Server.Sessions.Tell.{
  variant_of, assigned, opened_as, greeted, grown, received, closed_by, tell, tell_all, entry,
}

module _ {F H Chan : Type 0} ⦃f : Float F⦄ (c : Capnp F) (s : Sha256 H)
    (m : Mpsc (TaggedPrimitive F) Chan) (k : String) where
  choose-assigned :
      (cfg : AptpConfig F) (card : AgentCard) (id : String) (clock : Option ℕ)
      (old : Option SessionState)
      → let (status, adapter) = choose cfg card in
        opened_as status id card.agent_id (adapter_type adapter) clock k old
        ≡ (if str_eq id k then some (opening id card.agent_id (some adapter) clock) else old)
  unfolding choose adapter_type
  choose-assigned cfg card id clock old =
      elim (Bool-cases (cfg.agent.hidden_size == card.hidden_size)) [
        | inl same ↦ rw same refl
        | inr differ ↦ elim (Bool-cases cfg.adapter.allow_dimension_mismatch_passthrough) [
          | inl passes ↦ rw (differ, passes) refl
          | inr stops ↦ rw (differ, stops) refl
        ]
      ]

  card-tell :
      (r : Getter AgentCard) (ambient : Ambient) (srv : AptpRpcServer F Chan)
      → let (reply, srv') = after_card c s m r ambient srv in
        entry k srv' ≡ greeted r reply ambient.clock k (entry k srv)
  unfolding after_card handle open_session
  card-tell (err e) ambient srv = refl
  card-tell panic ambient srv = refl
  card-tell (ok card) ambient srv = elim (Bool-cases (card.aptp_version == version_number)) [
    | inl same ↦
        rw (same, handle)
          (find-put ambient.fresh k _ srv.shared.sessions.sessions
            ∙ sym (choose-assigned srv.cfg card ambient.fresh ambient.clock (entry k srv)))
    | inr differ ↦ rw (differ, handle) refl
  ]

  pub count-received :
      (id : String) (st : Shared Chan)
      → let (r, st') = count {F = F} id st in
        find k st'.sessions.sessions ≡ received (some id) k (acked r) (find k st.sessions.sessions)
  unfolding count
  count-received id st =
      let laws = registry-StoreLaws F in
      elim (Option-cases (find id st.sessions.sessions)) [
        | inl missing ↦ rw ((laws.unknown_lem st.sessions id missing).0, count)
        | inr (held, open_entry) ↦
            let (reg, incremented, entries) = laws.increments_lem st.sessions id held open_entry in
            rw (incremented, count) (ground (arith, entries k, eq_iff id k))
      ]

  admit-received :
      (r : Result (AptpError F) (Unit {0})) (packet : PrimitivePacket F) (st : Shared Chan)
      → let (r', st') = settle (admit s m r packet st.sink) st in
        find k st'.sessions.sessions
        ≡ received (some packet.metadata.session_id) k (acked r') (find k st.sessions.sessions)
  unfolding admit settle
  admit-received (err e) packet st = refl
  admit-received panic packet st = refl
  admit-received (ok u) packet st =
      elim (deliver s m packet st.sink)
        as (λ d.
          let (r', st') =
            settle (d >>= λ sink'. ok (some (packet.metadata.session_id, sink'))) st in
          find k st'.sessions.sessions
          ≡ received (some packet.metadata.session_id) k (acked r') (find k st.sessions.sessions)) [
            | err e ↦ refl
            | panic ↦ refl
            | ok sink' ↦ count-received packet.metadata.session_id (record st { sink = sink' })
          ]

  handle-received :
      (reader : PacketReader F) (gate : ValidationGate F) (st : Shared Chan)
      → let (r, st') = Stream.handle s m reader gate st in
        find k st'.sessions.sessions
        ≡ received (named (packet_from_capnp reader)) k (acked r) (find k st.sessions.sessions)
  unfolding Stream.handle receive receive_packet settle
  handle-received reader gate st =
      elim (packet_from_capnp reader)
        as (λ p.
          let (r, st') = settle (receive_packet s m p gate st.sink) st in
          find k st'.sessions.sessions
          ≡ received (named p) k (acked r) (find k st.sessions.sessions)) [
            | err e ↦ refl
            | panic ↦ refl
            | ok packet ↦ admit-received (gate packet.payload) packet st
          ]

  pub packet-tell :
      (r : Getter (PacketReader F)) (srv : AptpRpcServer F Chan)
      → let (reply, srv') = after_packet c s m r srv in
        entry k srv' ≡ received (named_in r) k (acked reply) (entry k srv)
  unfolding after_packet
  packet-tell (err e) srv = refl
  packet-tell panic srv = refl
  packet-tell (ok reader) srv =
      handle-received reader (validate srv.firewall) srv.shared
      ∙ ap (λ b. received (named (packet_from_capnp reader)) k b (entry k srv))
          (sym (fail-acked c s m (Stream.handle s m reader (validate srv.firewall) srv.shared).0))

  negotiation-tell :
      (r : Getter (ℕ × ℕ × String × String)) (ambient : Ambient) (srv : AptpRpcServer F Chan)
      → entry k (after_negotiation c s m r ambient srv).1 ≡ entry k srv
  unfolding after_negotiation
  negotiation-tell (err e) ambient srv = refl
  negotiation-tell panic ambient srv = refl
  negotiation-tell (ok request) ambient srv = refl

  pub session-tell :
      (r : Getter String) (srv : AptpRpcServer F Chan)
      → let (reply, srv') = after_session c s m r srv in
        entry k srv' ≡ closed_by r reply k (entry k srv)
  unfolding after_session after_drain fail
  session-tell (err e) srv = refl
  session-tell panic srv = refl
  session-tell (ok id) srv =
      let laws = registry-StoreLaws F in
      elim (Option-cases (find id srv.shared.sessions.sessions)) [
        | inl missing ↦ rw (laws.unknown_lem srv.shared.sessions id missing).1
        | inr (held, open_entry) ↦
            let (reg, drained, entries) = laws.drains_lem srv.shared.sessions id held open_entry in
            rw drained (entries k)
      ]

  pub step-tell :
      (srv : AptpRpcServer F Chan) (call : Call F)
      → let (reply, srv') = step c s m srv call in
        entry k srv' ≡ tell c k (entry k srv) (call, reply)
  unfolding step handshake stream_primitive negotiate_alignment finalize
  step-tell srv (handshakes ambient params) = card-tell (read_card c params) ambient srv
  step-tell srv (streams params) = packet-tell (read_packet c params) srv
  step-tell srv (negotiates ambient params) =
      negotiation-tell (read_negotiation c params) ambient srv
  step-tell srv (finalizes params) = session-tell (read_session c params) srv

  -- After any calls, over any channel, what the registry holds of a session is what the calls and their
  -- replies tell: whether it is open, and then its id, its peer, the adapter that the reply to its
  -- handshake named, the time of that handshake, and the number, modulo 2^64, of the acknowledged
  -- packets that named it since then.
  pub session_told :
      (srv : AptpRpcServer F Chan) (calls : List (Call F))
      → entry k (after c s m srv calls) ≡ tell_all c k (entry k srv) (run c s m srv calls)
  unfolding run
  session_told srv [] = refl
  session_told srv (call ∷ calls) =
      session_told (step c s m srv call).1 calls
      ∙ ap (λ old. tell_all c k old (run c s m (step c s m srv call).1 calls)) (step-tell srv call)
