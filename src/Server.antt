-- ===== src/Server.antt =====
-- nbd/server: a read-only NBD server.
pub mod Const
pub mod Conn
pub mod Discard
pub mod Calm
pub mod Handshake
pub mod Negotiate
pub mod Transmit
pub mod Dispatch
pub mod Session
mod Examples
