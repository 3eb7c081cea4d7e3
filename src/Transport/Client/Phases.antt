-- ===== src/Transport/Client/Phases.antt =====
-- How a handshake leaves the client.
use aptp.Prelude.{String, some}
use aptp.Float.{Float}
use aptp.Error.{Result, ok, err, panic, AptpError, map_err, unwrap_or, internal, ◌>>=◌}
use aptp.Primitives.{AgentCard}
use aptp.Wire.{Getter, TextReader, AgentCardMessage}
use aptp.Rpc.Messages.{HandshakeStatus, accepted, rejected, needs_adapter, HandshakeResultReader}
use aptp.Transport.Client.{
  AptpClient, Remote, await, conclude, read_status, after_status, after_response, send_card,
  handshake,
}
use aptp.Transport.Client.Request.{write_card}

module _ {F : Type 0} where
  -- The result of a handshake, with the client before and after: with a session, that session is the
  -- client's; without one, the client is as it was.
  pub data Greeted (client : AptpClient F)
      : Result (AptpError F) String → AptpClient F → Type 0 where
    opened : (id : String) → Greeted client (ok id) (record client { session_id = some id })
    refused : (e : AptpError F) → Greeted client (err e) client
    crashed : Greeted client panic client

  rejection-Greeted :
      (reason : Getter TextReader) (client : AptpClient F)
      → let (r, client') = conclude rejected "" reason client in Greeted client r client'
  unfolding conclude
  rejection-Greeted (err e) client = refused _
  rejection-Greeted panic client = crashed
  rejection-Greeted (ok reader) client =
      elim reader.to_str
        as (λ t.
          Greeted client
            (unwrap_or "unknown" (map_err internal t) >>= λ text.
              err (AptpError.handshake_rejected text))
            client) [ ok text ↦ refused _ | err e ↦ refused _ | panic ↦ crashed ]

  conclude-Greeted :
      (status : HandshakeStatus) (id : String) (reason : Getter TextReader) (client : AptpClient F)
      → let (r, client') = conclude status id reason client in Greeted client r client'
  unfolding conclude
  conclude-Greeted accepted id reason client = opened id
  conclude-Greeted needs_adapter id reason client = opened id
  conclude-Greeted rejected id reason client = rejection-Greeted reason client

  status-Greeted :
      (r : Result (AptpError F) (HandshakeStatus × String)) (reason : Getter TextReader)
      (client : AptpClient F)
      → let (r', client') = after_status r reason client in Greeted client r' client'
  unfolding after_status
  status-Greeted (err e) reason client = refused e
  status-Greeted panic reason client = crashed
  status-Greeted (ok (status, id)) reason client = conclude-Greeted status id reason client

  response-Greeted :
      (r : Result (AptpError F) HandshakeResultReader) (client : AptpClient F)
      → let (r', client') = after_response r client in Greeted client r' client'
  unfolding after_response
  response-Greeted (err e) client = refused e
  response-Greeted panic client = crashed
  response-Greeted (ok result) client =
      status-Greeted (read_status result) result.get_rejection_reason client

module _ {F P : Type 0} ⦃f : Float F⦄ (remote : Remote F P) where
  send_card-Greeted :
      (r : Result (AptpError F) AgentCardMessage) (client : AptpClient F) (peer : P)
      → let (r', client', peer') = send_card remote r client peer in Greeted client r' client'
  unfolding send_card
  send_card-Greeted (err e) client peer = refused e
  send_card-Greeted panic client peer = crashed
  send_card-Greeted (ok message) client peer =
      response-Greeted (await (remote.handshake_request message peer).0) client

  -- Whatever the peer answers, and whatever of the answer cannot be read: a handshake that succeeds
  -- makes the session that it returns the client's, and any other leaves the client as it was.
  pub handshake-Greeted :
      (card : AgentCard) (client : AptpClient F) (peer : P)
      → let (r, client', peer') = handshake remote card client peer in Greeted client r client'
  unfolding handshake
  handshake-Greeted card client peer = send_card-Greeted (write_card card) client peer
