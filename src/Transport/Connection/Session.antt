-- ===== src/Transport/Connection/Session.antt =====
-- A whole session, from the handshake to the count, against a server whose sink is read.
pub mod Steps
mod Tests
use Steps.{send-accepts, finalize-counts, handshake-opens}
use aptp.Prelude.{
  ℕ, suc, ◌+◌, ◌%◌, ◌<◌, ◌≡◌, refl, String, Bool, true, some, List, [], ◌∷◌, length, All, arith,
}
use aptp.Float.{Float, one_f32}
use aptp.Error.{Result, ok, AptpError}
use aptp.Primitives.{TaggedPrimitive, PrimitivePacket, AgentCard, version_number, word}
use aptp.Primitives.Provenance.{Sha256}
use aptp.Primitives.Provenance
use aptp.Wire.{Capnp, IsFaithful}
use aptp.Wire.Build.{max_elements}
use aptp.Wire.RoundTrip.{Fits}
use aptp.Validation.Gate.{NeuralFirewall, validate}
use aptp.Rpc.Registry.Counts.{count_of}
use aptp.Rpc.Sink.{Mpsc, sent}
use aptp.Rpc.Server.Accepts.{IsRead}
use aptp.Transport.Client.{AptpClient, Remote, handshake, send_primitive, finalize}
use aptp.Transport.Connection.{Link, Host, remote}

-- The packets sent one after the other: the answers, and the client and its peer after them.
abbrev pub send_each :
    {F P : Type 0} ⦃f : Float F⦄
    → Remote F P
    → List (PrimitivePacket F)
    → AptpClient F
    → P
    → List (Result (AptpError F) Bool) × AptpClient F × P
send_each server [] client peer = ([], client, peer)
send_each server (packet ∷ packets) client peer =
    let (ack, client', peer') = send_primitive server packet client peer in
    let (rest, client'', peer'') = send_each server packets client' peer' in
    (ack ∷ rest, client'', peer'')

-- A packet for session `id` that can be written and that a firewall passes.
pub record IsGood {F : Type 0} ⦃f : Float F⦄ (firewall : NeuralFirewall F) (id : String)
    (packet : PrimitivePacket F) : Type 0 where
  pub fits : Fits packet
  pub valid : validate firewall packet.payload ≡ ok tt
  pub named : packet.metadata.session_id ≡ id

-- `Queued chan packets end`: the channel `end` is `chan` after the packets' tags, in their order, and
-- nothing else.
pub data Queued {F H Chan : Type 0} ⦃f : Float F⦄ (s : Sha256 H) (m : Mpsc (TaggedPrimitive F) Chan)
    : Chan → List (PrimitivePacket F) → Chan → Type 0 where
  all_in : {chan : Chan} → Queued s m chan [] chan
  one_in :
      {chan chan' end : Chan} {packet : PrimitivePacket F} {packets : List (PrimitivePacket F)}
      → m.send chan (Provenance.new s packet one_f32) ≡ sent chan'
      → Queued s m chan' packets end
      → Queued s m chan (packet ∷ packets) end

module _ {F H Chan : Type 0} ⦃f : Float F⦄ (link : Link) (c : Capnp F) (faithful : IsFaithful c)
    (s : Sha256 H) (m : Mpsc (TaggedPrimitive F) Chan) (read : IsRead m) where
  abbrev peer : Remote F (Host F Chan)
  peer = remote link c s m

  send_each-counts :
      (packets : List (PrimitivePacket F)) (client : AptpClient F) (host : Host F Chan)
      (firewall : NeuralFirewall F) (id : String) (n : ℕ)
      → All (IsGood firewall id) packets
      → host.server.firewall ≡ firewall
      → client.session_id ≡ some id
      → count_of host.server.shared.sessions id ≡ some n
      → n + length packets < word
      → let (acks, client', host') = send_each peer packets client host in
        All (λ ack. ack ≡ ok true) acks
        × (client'.session_id ≡ some id)
        × (count_of host'.server.shared.sessions id ≡ some (n + length packets))
        × Queued s m host.server.shared.sink packets host'.server.shared.sink
  send_each-counts [] client host firewall id n good same in_session open_count few =
      (tt, in_session, ground (arith, open_count), all_in)
  send_each-counts (packet ∷ packets) client host firewall id n (first, good) same in_session
        open_count few =
      let (client', host', acked, in_session', same', counted, taken) =
        send-accepts link c faithful s m read packet client host id n first.fits
          (rw same first.valid) first.named in_session open_count in
      let small : (n + 1) % word ≡ n + 1 = omega arith in
      let (acks, session, counts, queued) =
        send_each-counts packets client' host' firewall id (n + 1) good (cc) in_session'
          (rw small at counted) (omega arith) in
      let total : n + 1 + length packets ≡ n + suc (length packets) = omega arith in
      rw acked ((refl, acks), session, rw total at counts, one_in taken queued)

  -- The promise of the protocol, over a faithful Cap'n Proto and a sink that is read. A client whose
  -- card has the server's version and fewer than 2^29 capabilities shakes hands, and gets the fresh
  -- session; it sends fewer than 2^64 packets for that session, each of which can be written and
  -- passes the server's firewall, and every one is acknowledged; their tags are put in the sink, in
  -- their order, and nothing else is; then it finalises, and gets their number.
  pub session_completes :
      (card : AgentCard) (client : AptpClient F) (host : Host F Chan)
      (packets : List (PrimitivePacket F))
      → length card.capabilities < max_elements
      → card.aptp_version ≡ version_number
      → All (IsGood host.server.firewall (host.ambient host.greeted).fresh) packets
      → length packets < word
      → let (greeted, client', host') = handshake peer card client host in
        let (acks, client'', host'') = send_each peer packets client' host' in
        (greeted ≡ ok (host.ambient host.greeted).fresh)
        × All (λ ack. ack ≡ ok true) acks
        × Queued s m host.server.shared.sink packets host''.server.shared.sink
        × ((finalize peer client'' host'').0 ≡ ok (length packets))
  session_completes card client host packets few same good short =
      let id = (host.ambient host.greeted).fresh in
      let none_before : 0 + length packets ≡ length packets = omega arith in
      let short : 0 + length packets < word = omega arith in
      let (greeted, opened) = handshake-opens link c faithful s m card client host few same in
      let (acks, in_session, counts, queued) =
        send_each-counts packets (record client { session_id = some id }) _ host.server.firewall id
          0 good refl refl opened short in
      rw greeted (
        refl,
        acks,
        queued,
        finalize-counts link c faithful s m _ _ id (length packets) in_session
            (rw none_before at counts),
      )
