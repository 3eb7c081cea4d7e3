-- ===== src/Transport.antt =====
-- src/transport: the client of a connection and the server's side of it.
pub mod Args
pub mod Client
pub mod Connection
pub mod Listener
