-- ===== src/Rpc/Server/Ledger.antt =====
-- The registry behind a connection, told from the calls and the replies alone.
mod Tests
use aptp.Prelude.{
  arith, ℕ, Bool, true, false, ◌≡◌, refl, ◌↔◌, ap, sym, ◌∙◌, String, Option, none, some, List, [],
  ◌∷◌, Option-cases, inl, inr,
}
use aptp.Float.{Float}
use aptp.Error.{ok, err, panic, ◌>>=◌}
use aptp.Primitives.{TaggedPrimitive, AgentCard}
use aptp.Primitives.Provenance.{Sha256}
use aptp.Wire.{Capnp, Getter, PacketReader}
use aptp.Wire.Decode.{packet_from_capnp}
use aptp.Validation.Gate.{validate}
use aptp.Rpc.Params.{fail, read_card, read_packet, read_negotiation, read_session}
use aptp.Rpc.Messages.{HandshakeParams, FinalizeParams}
use aptp.Rpc.Registry.{SessionState, default, find}
use aptp.Rpc.Registry.Counts.{count_in, count_of, count_of-default, unknown_session, drain_known}
use aptp.Rpc.Sink.{Mpsc}
use aptp.Rpc.Handshake.Branches.{count_of-handle-opened}
use aptp.Rpc.Stream.{Shared, count}
use aptp.Rpc.Server.{
  AptpRpcServer, Ambient, after_card, after_packet, after_negotiation, after_drain, after_session,
  handshake, stream_primitive, negotiate_alignment, finalize,
}
use aptp.Rpc.Server.Entries.{counted, named_in, acked, closes, enter, ledger, after}
use aptp.Rpc.Server.Sessions.{packet-tell, session-tell}
use aptp.Rpc.Server.Sessions.Tell.{received, closed_by, entry}
use aptp.Rpc.Server.Calls.{Call, handshakes, streams, negotiates, finalizes, handshaken, step, run}

count_in-received :
    (session : Option String) (k : String) (ack : Bool) (old : Option SessionState)
    → count_in (received session k ack old) ≡ counted session k ack (count_in old)
count_in-received none k ack old = refl
count_in-received (some id) k false old = refl
count_in-received (some id) k true none = ground arith
count_in-received (some id) k true (some s) = ground arith

count_in-closed_by :
    (r : Getter String) (reply : Getter ℕ) (k : String) (old : Option SessionState)
    → count_in (closed_by r reply k old) ≡ closes r reply (count_in old) k
count_in-closed_by (ok id) (ok n) k old = ground arith
count_in-closed_by (ok id) (err e) k old = refl
count_in-closed_by (ok id) panic k old = refl
count_in-closed_by (err e) (ok n) k old = refl
count_in-closed_by (err e) (err e') k old = refl
count_in-closed_by (err e) panic k old = refl
count_in-closed_by panic (ok n) k old = refl
count_in-closed_by panic (err e) k old = refl
count_in-closed_by panic panic k old = refl

module _ {F H Chan : Type 0} ⦃f : Float F⦄ (c : Capnp F) (s : Sha256 H)
    (m : Mpsc (TaggedPrimitive F) Chan) where
  module _ (k : String) where
    abbrev pub known : AptpRpcServer F Chan → Option ℕ
    known srv = count_of srv.shared.sessions k

    card-enter :
        (r : Getter AgentCard) (ambient : Ambient) (params : Getter HandshakeParams)
        (srv : AptpRpcServer F Chan)
        → let (reply, srv') = after_card c s m r ambient srv in
          known srv' ≡ enter c s m k (known srv) (handshakes ambient params, handshaken reply)
    unfolding after_card
    card-enter (err e) ambient params srv = refl
    card-enter panic ambient params srv = refl
    card-enter (ok card) ambient params srv =
        count_of-handle-opened ambient.fresh ambient.clock card srv.cfg srv.shared.sessions k

    packet-enter :
        (r : Getter (PacketReader F)) (srv : AptpRpcServer F Chan)
        → let (reply, srv') = after_packet c s m r srv in
          known srv' ≡ counted (named_in r) k (acked reply) (known srv)
    unfolding count_of
    packet-enter r srv =
        ap count_in (packet-tell c s m k r srv)
        ∙ count_in-received (named_in r) k (acked (after_packet c s m r srv).0) (entry k srv)

    negotiation-enter :
        (r : Getter (ℕ × ℕ × String × String)) (ambient : Ambient) (srv : AptpRpcServer F Chan)
        → known (after_negotiation c s m r ambient srv).1 ≡ known srv
    unfolding after_negotiation
    negotiation-enter (err e) ambient srv = refl
    negotiation-enter panic ambient srv = refl
    negotiation-enter (ok request) ambient srv = refl

    session-enter :
        (r : Getter String) (srv : AptpRpcServer F Chan)
        → let (reply, srv') = after_session c s m r srv in known srv' ≡ closes r reply (known srv) k
    unfolding count_of
    session-enter r srv =
        ap count_in (session-tell c s m k r srv)
        ∙ count_in-closed_by r (after_session c s m r srv).0 k (entry k srv)

    pub step-enter :
        (srv : AptpRpcServer F Chan) (call : Call F)
        → known (step c s m srv call).1 ≡ enter c s m k (known srv) (call, (step c s m srv call).0)
    unfolding step handshake stream_primitive negotiate_alignment finalize
    step-enter srv (handshakes ambient params) = card-enter (read_card c params) ambient params srv
    step-enter srv (streams params) = packet-enter (read_packet c params) srv
    step-enter srv (negotiates ambient params) =
        negotiation-enter (read_negotiation c params) ambient srv
    step-enter srv (finalizes params) = session-enter (read_session c params) srv

    -- After any calls, what the registry holds for a session is what the calls and their replies
    -- tell: the acknowledged packets that named it, since it was opened last.
    pub after-ledger :
        (srv : AptpRpcServer F Chan) (calls : List (Call F))
        → known (after c s m srv calls) ≡ ledger c s m k (known srv) (run c s m srv calls)
    unfolding run
    after-ledger srv [] = refl
    after-ledger srv (call ∷ calls) =
        after-ledger (step c s m srv call).1 calls
        ∙ ap (λ old. ledger c s m k old (run c s m (step c s m srv call).1 calls))
            (step-enter srv call)

  pub session-count :
      (srv : AptpRpcServer F Chan) (id : String) (n : ℕ)
      → ((after_session c s m (ok id) srv).0 ≡ ok n) ↔ (count_of srv.shared.sessions id ≡ some n)
  unfolding after_session after_drain fail
  session-count srv id n = elim (Option-cases (count_of srv.shared.sessions id)) [
    | inl closed_session ↦
        rw ((unknown_session {F = F} srv.shared.sessions id closed_session).1, closed_session)
          (λ h. cc, λ h. cc)
    | inr (held, open_count) ↦
        let (reg, drained, counts) = drain_known {F = F} srv.shared.sessions id held open_count in
        rw (drained, open_count) (λ h. cc, λ h. cc)
  ]

  -- On a server that starts with no session, `finalize` succeeds exactly for a session that an
  -- accepted handshake opened and no call has finalised since, and returns the number, modulo 2^64,
  -- of the acknowledged packets that named it since then.
  pub finalize_exact :
      (srv : AptpRpcServer F Chan)
      → srv.shared.sessions ≡ default
      → (calls : List (Call F)) (params : Getter FinalizeParams) (id : String)
      → read_session c params ≡ ok id
      → (n : ℕ)
      → ((finalize c s m params (after c s m srv calls)).0 ≡ ok n)
        ↔ (ledger c s m id none (run c s m srv calls) ≡ some n)
  unfolding finalize
  finalize_exact srv fresh calls params id named_id n =
      let nothing : count_of srv.shared.sessions id ≡ none =
        ap (λ reg. count_of reg id) fresh ∙ count_of-default id in
      let told : count_of (after c s m srv calls).shared.sessions id
          ≡ ledger c s m id none (run c s m srv calls) =
        after-ledger id srv calls ∙ ap (λ old. ledger c s m id old (run c s m srv calls)) nothing in
      rw (named_id, ← told) (session-count (after c s m srv calls) id n)
