-- ===== src/Registry.antt =====
-- pkg/registry: the registries of servers and workers.
pub mod Discovery
pub mod Nmidr
pub mod Scheduler
