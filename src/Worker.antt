-- ===== src/Worker.antt =====
-- pkg/worker: the side that runs functions for the server.
pub mod Request
pub mod Response
pub mod Frame
pub mod Agent
pub mod Functions
