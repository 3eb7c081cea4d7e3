-- ===== src/Rpc/Server/Tasks/Told.antt =====
-- The registry behind calls in flight, told from the calls and the replies alone, over any channel.
use mathlib.Core.Path.{subst}
use aptp.Prelude.{
  ◌≡◌, refl, sym, ap, ◌∙◌, String, false, Option, none, some, List, [], ◌∷◌, map, All,
}
use aptp.Float.{Float}
use aptp.Error.{Result, ok, err, panic, AptpError, ◌>>=◌}
use aptp.Primitives.{TaggedPrimitive, PrimitivePacket}
use aptp.Primitives.Provenance.{Sha256}
use aptp.Wire.{Capnp, Getter, PacketReader}
use aptp.Wire.Decode.{packet_from_capnp}
use aptp.Validation.Gate.{ValidationGate, validate}
use aptp.Rpc.Messages.{StreamPrimitiveParams}
use aptp.Rpc.Params.{fail, read_packet}
use aptp.Rpc.Sink.{Mpsc}
use aptp.Rpc.Stream.{deliver, admit, receive_packet, receive, count}
use aptp.Rpc.Server.{AptpRpcServer}
use aptp.Rpc.Registry.{SessionState}
use aptp.Rpc.Server.Entries.{named, named_in, acked, fail-acked}
use aptp.Rpc.Server.Sessions.{count-received, step-tell}
use aptp.Rpc.Server.Sessions.Tell.{received, entry, tell, tell_all}
use aptp.Rpc.Server.Calls.{Call, Reply, handshakes, streams, negotiates, finalizes}
use aptp.Rpc.Server.Tasks.{
  Pick-All, Task, waiting, counting, Poll, pending, ready, call_of, suspend, begin_stream, whole,
  poll, Trace, stop, suspends, replies,
}

received-false :
    (session : Option String) (k : String) (old : Option SessionState)
    → received session k false old ≡ old
received-false none k old = refl
received-false (some id) k old = refl

module _ {F H Chan : Type 0} ⦃f : Float F⦄ (c : Capnp F) (s : Sha256 H)
    (m : Mpsc (TaggedPrimitive F) Chan) where
  -- A packet that is in the sink is to be counted for the session that it names.
  abbrev Names : Option String → Result (AptpError F) (Option (String × Chan)) → Type 0
  Names session (err e) = Unit
  Names session panic = Unit
  Names session (ok none) = Unit
  Names session (ok (some (id, sink))) = session ≡ some id

  admit-Names :
      (answer : Result (AptpError F) (Unit {0})) (packet : PrimitivePacket F) (sink : Chan)
      → Names (some packet.metadata.session_id) (admit s m answer packet sink)
  unfolding admit
  admit-Names (err e) packet sink = tt
  admit-Names panic packet sink = tt
  admit-Names (ok u) packet sink =
      elim (deliver s m packet sink)
        as (λ d.
          Names (some packet.metadata.session_id)
            (d >>= λ sink'. ok (some (packet.metadata.session_id, sink')))) [
              | err e ↦ tt
              | panic ↦ tt
              | ok sink' ↦ refl
            ]

  receive-Names :
      (reader : PacketReader F) (gate : ValidationGate F) (sink : Chan)
      → Names (named (packet_from_capnp reader)) (receive s m reader gate sink)
  unfolding receive receive_packet
  receive-Names reader gate sink =
      elim (packet_from_capnp reader) as (λ p. Names (named p) (receive_packet s m p gate sink)) [
        | err e ↦ tt
        | panic ↦ tt
        | ok packet ↦ admit-Names (gate packet.payload) packet sink
      ]

  abbrev pub IsNamed : Task F → Type 0
  IsNamed (waiting call) = Unit
  IsNamed (counting params id) = named_in (read_packet c params) ≡ some id

  module _ (k : String) (srv : AptpRpcServer F Chan) where
    -- What a turn does to session `k`.
    abbrev pub Tells : Call F → Poll F × AptpRpcServer F Chan → Type 0
    Tells call (ready r, srv') = entry k srv' ≡ tell c k (entry k srv) (call, r)
    Tells call (pending t, srv') = (entry k srv' ≡ entry k srv) × IsNamed t × (call_of t ≡ call)

    suspend-Tells :
        (params : Getter (StreamPrimitiveParams F))
        (r : Result (AptpError F) (Option (String × Chan)))
        → Names (named_in (read_packet c params)) r
        → Tells (streams params) (suspend c s m params r srv)
    unfolding suspend fail
    suspend-Tells params (err e) names = sym (received-false (named_in (read_packet c params)) k _)
    suspend-Tells params panic names = sym (received-false (named_in (read_packet c params)) k _)
    suspend-Tells params (ok none) names =
        sym (received-false (named_in (read_packet c params)) k _)
    suspend-Tells params (ok (some (id, sink))) names = (refl, names, refl)

    begin_stream-Tells :
        (params : Getter (StreamPrimitiveParams F)) (r : Getter (PacketReader F))
        → read_packet c params ≡ r
        → Tells (streams params) (begin_stream c s m params r srv)
    unfolding begin_stream
    begin_stream-Tells params (err e) read =
        sym (received-false (named_in (read_packet c params)) k _)
    begin_stream-Tells params panic read =
        sym (received-false (named_in (read_packet c params)) k _)
    begin_stream-Tells params (ok reader) read =
        suspend-Tells params (receive s m reader (validate srv.firewall) srv.shared.sink) (
          subst
            (λ r. Names (named_in r) (receive s m reader (validate srv.firewall) srv.shared.sink))
            (sym read) (receive-Names reader (validate srv.firewall) srv.shared.sink))

    pub poll-Tells : (t : Task F) → IsNamed t → Tells (call_of t) (poll c s m t srv)
    unfolding poll whole
    poll-Tells (counting params id) is_named =
        count-received c s m k id srv.shared
        ∙ ap (λ session. received session k (acked (count {F = F} id srv.shared).0) (entry k srv))
            (sym is_named)
        ∙ ap (λ b. received (named_in (read_packet c params)) k b (entry k srv))
            (sym (fail-acked c s m (count {F = F} id srv.shared).0))
    poll-Tells (waiting (streams params)) is_named =
        begin_stream-Tells params (read_packet c params) refl
    poll-Tells (waiting (handshakes ambient params)) is_named =
        step-tell c s m k srv (handshakes ambient params)
    poll-Tells (waiting (negotiates ambient params)) is_named =
        step-tell c s m k srv (negotiates ambient params)
    poll-Tells (waiting (finalizes params)) is_named = step-tell c s m k srv (finalizes params)

  module _ (k : String) where
    trace-told :
        {srv end : AptpRpcServer F Chan} {ts left : List (Task F)}
        {history : List (Call F × Reply F)}
        → Trace c s m srv ts history end left
        → All IsNamed ts
        → entry k end ≡ tell_all c k (entry k srv) history
    trace-told stop all_named = refl
    trace-told (suspends {srv} {srv'} {t = t} {t' = t'} {history = history} p turned tr) all_named =
        let (mine, others) = Pick-All IsNamed p all_named in
        let (kept, mine', same) : Tells k srv (call_of t) (pending t', srv') =
          subst (Tells k srv (call_of t)) turned (poll-Tells k srv t mine) in
        trace-told tr (mine', others) ∙ ap (λ old. tell_all c k old history) kept
    trace-told (replies {srv} {srv'} {t = t} {r = r} {history = history} p turned tr) all_named =
        let (mine, others) = Pick-All IsNamed p all_named in
        let told : Tells k srv (call_of t) (ready r, srv') =
          subst (Tells k srv (call_of t)) turned (poll-Tells k srv t mine) in
        trace-told tr others ∙ ap (λ old. tell_all c k old history) told

    All-waiting-IsNamed : (calls : List (Call F)) → All IsNamed (map waiting calls)
    All-waiting-IsNamed [] = tt
    All-waiting-IsNamed (call ∷ calls) = (tt, All-waiting-IsNamed calls)

    -- However calls in flight on a server take turns, over any channel, and also if it closes in
    -- between: at any moment, what the registry holds of a session is what the calls answered so far and
    -- their replies tell, in the order of the replies.
    pub trace-session_told :
        (srv end : AptpRpcServer F Chan) (calls : List (Call F)) (left : List (Task F))
        (history : List (Call F × Reply F))
        → Trace c s m srv (map waiting calls) history end left
        → entry k end ≡ tell_all c k (entry k srv) history
    trace-session_told srv end calls left history tr = trace-told tr (All-waiting-IsNamed calls)
