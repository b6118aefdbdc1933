-- ===== src/Server.antt =====
-- pkg/server: the message broker between clients and workers.
pub mod Io
pub mod Connect
pub mod Function
pub mod Dispatch
pub mod Session
pub mod Gateway
pub mod JobDataList
pub mod JobList
