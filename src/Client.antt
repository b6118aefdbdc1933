-- ===== src/Client.antt =====
-- pkg/client: the side that asks the server to run a function.
pub mod Request
pub mod Response
pub mod Frame
pub mod Calls
pub mod Pool
