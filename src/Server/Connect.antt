-- ===== src/Server/Connect.antt =====
-- pkg/server/connect.go: the connections of clients and workers.
pub mod Frame
pub mod WriteQueue
pub mod Close
