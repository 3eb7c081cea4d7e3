-- ===== src/Rpc.antt =====
-- src/rpc: the server side of the protocol.
pub mod Messages
pub mod Params
pub mod Registry
pub mod Sink
pub mod Handshake
pub mod Negotiate
pub mod Stream
pub mod Server
