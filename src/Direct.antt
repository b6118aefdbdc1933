-- ===== src/Direct.antt =====
-- pkg/direct: calls from a client straight to a service.
pub mod Proto
pub mod Exchange
pub mod Conn
pub mod PoolClient
