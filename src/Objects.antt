-- ===== src/Objects.antt =====
-- The library-level objects of enoslib/objects.py.
pub mod Network
pub mod Host
pub mod Facts
