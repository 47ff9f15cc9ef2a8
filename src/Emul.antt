-- ===== src/Emul.antt =====
-- enoslib/service/emul: the network emulation services.
pub mod Constraints
pub mod Htb
pub mod Netem
pub mod Batch
