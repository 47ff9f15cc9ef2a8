-- ===== src/Api.antt =====
-- enoslib/api.py: commands on remote hosts. Ansible is a parameter: it runs a playbook in a world and
-- calls the callback of the code for each task on each host.
pub mod Results
pub mod Run
pub mod Commands
pub mod Tasks
