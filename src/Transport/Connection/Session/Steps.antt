-- ===== src/Transport/Connection/Session/Steps.antt =====
-- The three calls of a session, each when it succeeds.
use aptp.Prelude.{
  ℕ, ◌+◌, ◌%◌, ◌<◌, ◌≡◌, refl, ◌≢◌, ap, ◌∙◌, String, Bool, true, some, length, eq_iff, ◌==◌, ==_iff,
  arith,
}
use aptp.Float.{Float, one_f32}
use aptp.Error.{Result, ok, AptpError, >>=-eq-ok}
use aptp.Primitives.{TaggedPrimitive, PrimitivePacket, AgentCard, version_number, word}
use aptp.Primitives.Provenance.{Sha256}
use aptp.Wire.{Capnp, IsFaithful, Getter, TextReader, PacketMessage, text}
use aptp.Wire.Build.{max_elements, write_packet}
use aptp.Wire.Decode.{packet_from_capnp, owned_text}
use aptp.Wire.RoundTrip.{Fits, packet_round_trip}
use aptp.Validation.Gate.{validate}
use aptp.Rpc.Messages.{HandshakeStatus, accepted, rejected, needs_adapter}
use aptp.Rpc.Params.{refail, fail, fail_text, read_card, read_packet, read_session}
use aptp.Rpc.Registry.Counts.{count_of}
use aptp.Rpc.Handshake
use aptp.Rpc.Handshake.Branches.{answer, handshake_branches}
use aptp.Primitives.Provenance
use aptp.Rpc.Sink.{Mpsc, sent}
use aptp.Rpc.Server.{AptpRpcServer, after_card, after_packet}
use aptp.Rpc.Server
use aptp.Rpc.Server.Accepts.{IsRead, after_packet-accepts}
use aptp.Rpc.Server.Ledger.{session-count}
use aptp.Transport.Client.{
  AptpClient, await, conclude, read_status, after_status, after_response, send_card, handshake,
  send_packet, send_in, send_primitive, finalize_in, finalize,
}
use aptp.Transport.Client.Request.{request_packet}
use aptp.Transport.Client.Request.Same.{request_packet-eq-write_packet}
use aptp.Transport.Client.Request.Card.{message_of, write_card-eq-ok, card_of-message_of}
use aptp.Transport.Connection.{Link, Host, promise, remote}

conclude-opened :
    {F : Type 0} (status : HandshakeStatus) (id : String) (reason : Getter TextReader)
    (client : AptpClient F)
    → status ≢ rejected
    → conclude status id reason client ≡ (ok id, record client { session_id = some id })
unfolding conclude
conclude-opened accepted id reason client h = refl
conclude-opened needs_adapter id reason client h = refl
conclude-opened rejected id reason client h = absurd (h refl)

module _ {F H Chan : Type 0} ⦃f : Float F⦄ (link : Link) (c : Capnp F) (faithful : IsFaithful c)
    (s : Sha256 H) (m : Mpsc (TaggedPrimitive F) Chan) where
  -- A packet that is written and read again.
  sent-packet :
      (packet : PrimitivePacket F)
      → Fits packet
      → (message : PacketMessage F) × (request_packet packet ≡ ok message)
        × (packet_from_capnp (c.read_packet message) ≡ ok packet)
  sent-packet packet fits =
      let (message, written, read) =
        >>=-eq-ok (write_packet packet) _ (packet_round_trip c faithful packet fits) in
      (message, request_packet-eq-write_packet packet ∙ written, read)

  stream-replied :
      (message : PacketMessage F) (host : Host F Chan) {srv : AptpRpcServer F Chan}
      → after_packet c s m (ok (c.read_packet message)) host.server ≡ (ok true, srv)
      → (remote link c s m).stream_primitive_request message host
        ≡ (ok (ok true), record host { server = srv })
  unfolding Server.stream_primitive read_packet refail
  stream-replied message host e =
      ap
        (λ (r : Getter Bool × AptpRpcServer F Chan).
          (promise link (λ (ack : Bool). ack) r.0, record host { server = r.1 }))
        e

  send_in-accepts :
      (packet : PrimitivePacket F) (client : AptpClient F) (host host' : Host F Chan) (id : String)
      (message : PacketMessage F)
      → request_packet packet ≡ ok message
      → (remote link c s m).stream_primitive_request message host ≡ (ok (ok true), host')
      → send_in (remote link c s m) (some id) packet client host ≡ (
        ok true,
        record client { sequence_counter = (client.sequence_counter + 1) % word },
        host',
      )
  unfolding send_in send_packet await
  send_in-accepts packet client host host' id message written replied = rw written (
      ap
        (λ (r : Getter (Getter Bool) × Host F Chan). (
          await r.0,
          record client { sequence_counter = (client.sequence_counter + 1) % word },
          r.1,
        ))
        replied)

  pub send-accepts :
      (read : IsRead m) (packet : PrimitivePacket F) (client : AptpClient F) (host : Host F Chan)
      (id : String) (n : ℕ)
      → Fits packet
      → validate host.server.firewall packet.payload ≡ ok tt
      → packet.metadata.session_id ≡ id
      → client.session_id ≡ some id
      → count_of host.server.shared.sessions id ≡ some n
      → (client' : AptpClient F) × (host' : Host F Chan) × (send_primitive
            (remote link c s m)
            packet
            client
            host
          ≡ (ok true, client', host'))
        × (client'.session_id ≡ some id)
        × (host'.server.firewall ≡ host.server.firewall)
        × (count_of host'.server.shared.sessions id ≡ some ((n + 1) % word))
        × (m.send host.server.shared.sink (Provenance.new s packet one_f32)
            ≡ sent host'.server.shared.sink)
  unfolding send_primitive
  send-accepts read packet client host id n fits valid named in_session open_count =
      let (message, written, decoded) = sent-packet packet fits in
      let (shared, replied, counts, taken) =
        after_packet-accepts c s m read (c.read_packet message) packet host.server n decoded valid
          (rw named open_count) in
      (
        record client { sequence_counter = (client.sequence_counter + 1) % word },
        record host { server = record host.server { shared = shared } },
        ap (λ o. send_in (remote link c s m) o packet client host) in_session
            ∙ send_in-accepts packet client host _ id message written
                (stream-replied message host replied),
        in_session,
        refl,
        ground (arith, counts id, eq_iff packet.metadata.session_id id),
        taken,
      )

  pub finalize-counts :
      (client : AptpClient F) (host : Host F Chan) (id : String) (n : ℕ)
      → client.session_id ≡ some id
      → count_of host.server.shared.sessions id ≡ some n
      → (finalize (remote link c s m) client host).0 ≡ ok n
  unfolding finalize finalize_in await Server.finalize read_session refail fail_text
  finalize-counts client host id n in_session open_count =
      let drained = (session-count c s m host.server id n).1 open_count in
      ap (λ o. (finalize_in (remote link c s m) o host).0) in_session
      ∙ ap (λ (r : Getter ℕ). await (promise link (λ (k : ℕ). k) r)) drained

  card-read :
      (card : AgentCard)
      → read_card c (ok (record { get_card = ok (c.read_card (message_of card)) })) ≡ ok card
  unfolding read_card refail fail
  card-read card =
      rw (faithful.read_card_lem (message_of card), card_of-message_of {F = F} card) refl

  -- The state after a handshake that opens a session.
  abbrev pub greeted_host : AgentCard → Host F Chan → Host F Chan
  greeted_host card host =
      let ambient = host.ambient host.greeted in
      let reg =
        (Handshake.handle ambient.fresh ambient.clock card host.server.cfg
          host.server.shared.sessions).1 in
      record host {
        server = record host.server { shared = record host.server.shared { sessions = reg } };
        greeted = host.greeted + 1;
      }

  pub handshake-opens :
      (card : AgentCard) (client : AptpClient F) (host : Host F Chan)
      → length card.capabilities < max_elements
      → card.aptp_version ≡ version_number
      → let id = (host.ambient host.greeted).fresh in
        (handshake (remote link c s m) card client host
          ≡ (ok id, record client { session_id = some id }, greeted_host card host))
        × (count_of (greeted_host card host).server.shared.sessions id ≡ some 0)
  unfolding handshake send_card await after_response read_status after_status owned_text
      Server.handshake after_card
  handshake-opens card client host few same =
      let ambient = host.ambient host.greeted in
      let reg = host.server.shared.sessions in
      let id = ambient.fresh in
      let (rejects, asks, projects, identifies, session, counts) =
        handshake_branches id ambient.clock card host.server.cfg reg id in
      let compatible : (card.aptp_version == version_number) ≡ true = (==_iff _ _).1 same in
      let session = rw compatible at session in
      let a = answer id ambient.clock card host.server.cfg reg in
      let session : a.session_id ≡ id = session in
      let open_status = λ (e : a.status ≡ rejected). rejects.0 e same in
      let assigned : String → Result (AptpError F) String × AptpClient F =
        λ i. (ok i, record client { session_id = some i }) in
      let concluded =
        conclude-opened a.status a.session_id (text a.reason) client open_status
        ∙ ap assigned session in
      (
        rw (write_card-eq-ok {F = F} card few, card-read card)
            (ap
              (λ (r : Result (AptpError F) String × AptpClient F).
                (r.0, r.1, greeted_host card host))
              concluded),
        ground (arith, counts, eq_iff id id),
      )
