-- ===== src/Transport/Client.antt =====
-- src/transport/client.rs: `AptpClient`. The peer behind the connection is a state `P` and a
-- `Remote`: what the awaited promise of each request gives, and the peer after it. `connect_to` only
-- sets up sockets and the RPC system; the state that it returns is `connected`.
pub mod Request
pub mod Phases
pub mod Connect
mod Tests
use aptp.Prelude.{ℕ, ◌+◌, ◌%◌, String, Bool, Option, none, some}
use aptp.Float.{Float}
use aptp.Error.{
  Result, ok, err, panic, AptpError, internal, handshake_rejected, map_err, from_rpc, unwrap_or,
  ◌>>=◌,
}
use aptp.Config.{AptpConfig}
use aptp.Primitives.{AgentCard, PrimitivePacket, word}
use aptp.Wire.{Getter, TextReader, AgentCardMessage, PacketMessage}
use aptp.Wire.Decode.{owned_text}
use aptp.Rpc.Messages.{HandshakeStatus, accepted, rejected, needs_adapter, HandshakeResultReader}
use Request.{write_card, request_packet}

pub record AptpClient (F : Type 0) : Type 0 where
  pub cfg : AptpConfig F
  pub session_id : Option String
  pub sequence_counter : ℕ

-- The outer getter is the promise, the inner one `response.get()`.
pub record Remote (F P : Type 0) : Type 0 where
  pub handshake_request : AgentCardMessage → P → Getter (Getter HandshakeResultReader) × P
  pub stream_primitive_request : PacketMessage F → P → Getter (Getter Bool) × P
  pub finalize_request : String → P → Getter (Getter ℕ) × P

-- The value that `connect_to` returns.
unfoldable pub connected : {F : Type 0} → AptpConfig F → AptpClient F
connected cfg = record { cfg = cfg; session_id = none; sequence_counter = 0 }

module _ {F : Type 0} where
  -- `promise.await?` and `response.get()?`
  unfoldable pub await : {A : Type 0} → Getter (Getter A) → Result (AptpError F) A
  await promise = do response ← from_rpc promise; from_rpc response

  -- The `match` on the status, when the session's text has been read.
  unfoldable pub conclude :
      HandshakeStatus
      → String
      → Getter TextReader
      → AptpClient F
      → Result (AptpError F) String × AptpClient F
  conclude accepted session_id reason client =
      (ok session_id, record client { session_id = some session_id })
  conclude needs_adapter session_id reason client =
      (ok session_id, record client { session_id = some session_id })
  conclude rejected session_id reason client = (
    do
      reader ← from_rpc reason
      text ← unwrap_or "unknown" (map_err internal reader.to_str)
      err (handshake_rejected text),
    client,
  )

  unfoldable pub read_status :
      HandshakeResultReader → Result (AptpError F) (HandshakeStatus × String)
  read_status result = do
    status ← map_err internal result.get_status
    session_id ← owned_text result.get_assigned_session
    ok (status, session_id)

  unfoldable pub after_status :
      Result (AptpError F) (HandshakeStatus × String)
      → Getter TextReader
      → AptpClient F
      → Result (AptpError F) String × AptpClient F
  unfolding conclude
  after_status (err e) reason client = (err e, client)
  after_status panic reason client = (panic, client)
  after_status (ok (status, session_id)) reason client = conclude status session_id reason client

  unfoldable pub after_response :
      Result (AptpError F) HandshakeResultReader
      → AptpClient F
      → Result (AptpError F) String × AptpClient F
  unfolding after_status read_status
  after_response (err e) client = (err e, client)
  after_response panic client = (panic, client)
  after_response (ok result) client =
      after_status (read_status result) result.get_rejection_reason client

module _ {F P : Type 0} ⦃f : Float F⦄ (remote : Remote F P) where
  unfoldable pub send_card :
      Result (AptpError F) AgentCardMessage
      → AptpClient F
      → P
      → Result (AptpError F) String × AptpClient F × P
  unfolding after_response await
  send_card (err e) client peer = (err e, client, peer)
  send_card panic client peer = (panic, client, peer)
  send_card (ok message) client peer =
      let (promise, peer') = remote.handshake_request message peer in
      let (result, client') = after_response (await promise) client in (result, client', peer')

  unfoldable pub handshake :
      AgentCard → AptpClient F → P → Result (AptpError F) String × AptpClient F × P
  unfolding send_card
  handshake card client peer = send_card (write_card card) client peer

  unfoldable pub send_packet :
      Result (AptpError F) (PacketMessage F)
      → AptpClient F
      → P
      → Result (AptpError F) Bool × AptpClient F × P
  unfolding await
  send_packet (err e) client peer = (err e, client, peer)
  send_packet panic client peer = (panic, client, peer)
  send_packet (ok message) client peer =
      let (promise, peer') = remote.stream_primitive_request message peer in
      (await promise, client, peer')

  -- The counter wraps, as in a release build.
  unfoldable pub send_in :
      Option String
      → PrimitivePacket F
      → AptpClient F
      → P
      → Result (AptpError F) Bool × AptpClient F × P
  unfolding send_packet
  send_in none packet client peer = (err (internal "handshake not completed"), client, peer)
  send_in (some id) packet client peer =
      let counting = record client { sequence_counter = (client.sequence_counter + 1) % word } in
      send_packet (request_packet packet) counting peer

  unfoldable pub send_primitive :
      PrimitivePacket F → AptpClient F → P → Result (AptpError F) Bool × AptpClient F × P
  unfolding send_in
  send_primitive packet client peer = send_in client.session_id packet client peer

  unfoldable pub finalize_in : Option String → P → Result (AptpError F) ℕ × P
  unfolding await
  finalize_in none peer = (err (internal "no active session"), peer)
  finalize_in (some session_id) peer =
      let (promise, peer') = remote.finalize_request session_id peer in (await promise, peer')

  -- The client is consumed.
  unfoldable pub finalize : AptpClient F → P → Result (AptpError F) ℕ × P
  unfolding finalize_in
  finalize client peer = finalize_in client.session_id peer
