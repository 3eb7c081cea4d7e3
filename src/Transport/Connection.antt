-- ===== src/Transport/Connection.antt =====
-- A client's calls on the server at the other end of its connection, which `handle_connection` of
-- src/transport/server.rs made. `Link` is the RPC system between the two, a parameter.
pub mod Demo
pub mod Session
use aptp.Prelude.{ℕ, ◌+◌, String, Bool, List}
use aptp.Float.{Float, Double}
use aptp.Error.{CapnpError, Result, ok, err, panic, AptpError}
use aptp.Config.{AptpConfig}
use aptp.Primitives.{TaggedPrimitive}
use aptp.Primitives.Provenance.{Sha256}
use aptp.Wire.{Capnp, Getter, AgentCardMessage, PacketMessage, text}
use aptp.Rpc.Messages.{
  HandshakeResultMessage, HandshakeResultReader, HandshakeParams, StreamPrimitiveParams,
  FinalizeParams,
}
use aptp.Rpc.Sink.{Mpsc}
use aptp.Rpc.Server.{AptpRpcServer, Ambient, handshake, stream_primitive, finalize}
use aptp.Rpc.Server
use aptp.Transport.Client.{Remote}

-- What a client's promise gives for a call that ended with an error or a panic on the server.
pub record Link : Type 0 where
  pub exception : CapnpError → CapnpError
  pub disconnected : CapnpError

-- The server, and what its clock and its UUIDs give each handshake to come.
pub record Host (F Chan : Type 0) : Type 0 where
  pub server : AptpRpcServer F Chan
  pub ambient : ℕ → Ambient
  pub greeted : ℕ

abbrev pub promise {ℓ κ} : {A : Type ℓ} {B : Type κ} → Link → (A → B) → Getter A → Getter (Getter B)
promise link read (ok results) = ok (ok (read results))
promise link read (err e) = err (link.exception e)
promise link read panic = err link.disconnected

abbrev pub result_of : HandshakeResultMessage → HandshakeResultReader
result_of m = record {
  get_status = ok m.status;
  get_assigned_session = text m.assigned_session;
  get_rejection_reason = text m.rejection_reason;
}

module _ {F H Chan : Type 0} ⦃f : Float F⦄ (link : Link) (c : Capnp F) (s : Sha256 H)
    (m : Mpsc (TaggedPrimitive F) Chan) where
  abbrev greet_host :
      AgentCardMessage → Host F Chan → Getter (Getter HandshakeResultReader) × Host F Chan
  greet_host card host =
      let params : HandshakeParams = record { get_card = ok (c.read_card card) } in
      let (reply, server) = handshake c s m (host.ambient host.greeted) (ok params) host.server in
      (promise link result_of reply, record host { server = server; greeted = host.greeted + 1 })

  abbrev stream_host : PacketMessage F → Host F Chan → Getter (Getter Bool) × Host F Chan
  stream_host packet host =
      let params : StreamPrimitiveParams F = record { get_packet = ok (c.read_packet packet) } in
      let (reply, server) = stream_primitive c s m (ok params) host.server in
      (promise link (λ ack. ack) reply, record host { server = server })

  abbrev finalize_host : String → Host F Chan → Getter (Getter ℕ) × Host F Chan
  finalize_host session_id host =
      let params : FinalizeParams = record { get_session_id = text session_id } in
      let (reply, server) = finalize c s m (ok params) host.server in
      (promise link (λ n. n) reply, record host { server = server })

  abbrev pub remote : Remote F (Host F Chan)
  remote = record {
    handshake_request = greet_host;
    stream_primitive_request = stream_host;
    finalize_request = finalize_host;
  }

-- `handle_connection`: every connection has a server of its own, with a sink of 1024 packets.
unfoldable pub handle_connection :
    {F Chan : Type 0} (D : Type 0) ⦃f : Float F⦄ ⦃d : Double F D⦄
    (m : Mpsc (TaggedPrimitive F) Chan) (read_to_string : String → Result String String)
    (from_str : String → Result String (List F)) (cfg : AptpConfig F) (counter : ℕ)
    → Result (AptpError F) (AptpRpcServer F Chan)
handle_connection D m read_to_string from_str cfg counter =
    Server.new D m read_to_string from_str cfg 1024 counter
