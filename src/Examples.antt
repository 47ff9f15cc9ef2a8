-- ===== src/Examples.antt =====
-- Runs of the theorems at concrete inputs.
mod Grid
mod Jobs
mod Objects
mod Tasks
mod Infra
mod Slots
mod Shaping
mod Timelines
mod Clusters
mod Ansible
mod Machines
mod Reserve
mod Redeploy
