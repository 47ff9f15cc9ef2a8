-- ===== src/G5k.antt =====
-- enoslib/infra/enos_g5k: the Grid'5000 provider.
pub mod Configuration
pub mod Concretize
pub mod Networks
pub mod Launch
pub mod Names
pub mod Retries
pub mod Reservation
pub mod Jobs
pub mod Deploy
