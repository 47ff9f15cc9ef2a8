-- ===== src/Collections.antt =====
-- enoslib/collections.py: sets of resources, and sets of resources by role.
pub mod ResourcesSet
pub mod RolesDict
