-- ===== src/Providers.antt =====
-- enoslib/infra/providers.py: a common slot for several testbeds, and the reservation loop.
pub mod Slot
pub mod Start
pub mod Reserve
pub mod Combined
