-- ===== src/Protocol.antt =====
-- The wire protocol between clients, the server and workers, from one end to the other: each
-- theorem runs the sender's code, puts what it wrote on a stream, and runs the receiver's code.
pub mod Registration
pub mod Call
pub mod JobRequest
pub mod JobDispatch
pub mod JobResult
pub mod JobReply
mod Samples
