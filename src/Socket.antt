-- ===== src/Socket.antt =====
-- pkg/Socket: the wire format, the reader and the client.
pub mod Pack
pub mod Reader
pub mod Client
