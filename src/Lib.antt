-- ===== src/Lib.antt =====
-- A verification development for EnOSlib, which reserves resources on testbeds, gathers them by role,
-- shapes the network between them and runs experiments on them.
--
-- The parts and the files that model them (paths from the repository's root):
--
-- Base: lists, numbers, equality tests, dictionaries and the stable sort, as Python has them. A
-- dictionary is an association list in the order of insertion.
--
-- Collections/ResourcesSet, Collections/RolesDict: enoslib/collections.py. A set is the list of its
-- elements; a method gives the new value of `self.data`.
--
-- Pools: `mk_pools` and `pick_things`, MergeDict: `merge_dict`, both of enoslib/infra/utils.py.
--
-- Walltime: the `offset_walltime` methods of enoslib/infra/enos_g5k/provider.py and of
-- enoslib/infra/enos_iotlab/provider.py, and `offset_from_format` of enoslib/infra/utils.py. A walltime
-- is the numbers of its text.
--
-- Cluster: `can_start_on_cluster` and `_test_slot` of enoslib/infra/enos_g5k/g5k_api_utils.py.
--
-- Provider: the interface of a provider (enoslib/infra/provider.py, enoslib/errors.py), a record of
-- operations on a provider object and on the world behind it. What a testbed does is a parameter;
-- Providers/Start/Contract says what one theorem relies on, with the rounding that walltimes have on
-- some testbeds; Examples/Slots has a testbed of it whose walltimes are those of Grid'5000.
--
-- Providers: enoslib/infra/providers.py. Providers/Slot has `find_slot`, Providers/Start has
-- `start_provider_within_bounds`, and Providers/Reserve has `find_slot_and_start` and `_reserve`, which
-- call the two before; Providers/Combined has the methods of `Providers` that ask each provider.
-- `find_slot` runs on one unit of fuel for each 300 seconds of the window and two
-- more, `_reserve` on one for each second of the window and two more; both are proved to be enough,
-- whatever the testbeds answer.
--
-- Emul: enoslib/service/emul. Emul/Constraints is the loop that HTBSource and NetemInOutSource share to
-- add constraints, Emul/Htb and Emul/Netem the commands of the two as data and the services
-- that fill them (Emul/Htb/Service, Emul/Netem), Emul/Batch the cutting of the commands
-- into lines (`_chunks`, `_combine`).
--
-- Objects: enoslib/objects.py. Objects/Network has networks with their pools of free addresses,
-- Objects/Host the devices, the hosts and the roles, Objects/Facts how the devices of a host are read
-- from the facts of Ansible.
--
-- Api: enoslib/api.py. Api/Results has the records of tasks and the results made of them, Api/Run
-- `run_ansible`, `run_play` and `wait_for` with their errors, Api/Tasks the tasks that `actions` and
-- `run_command` make of keyword arguments, Api/Commands the command lines for namespaces, control
-- groups and sessions. Ansible is a parameter: it takes a playbook and a world to a world and the
-- calls of the callback.
--
-- Task: enoslib/task.py. A disk keeps the environments that are saved; a call of a task's function
-- gives its outcome and the disk after it.
--
-- G5k: the Grid'5000 provider, enoslib/infra/enos_g5k. G5k/Configuration has the groups and
-- networks of configuration.py, their dictionaries and `finalize`. G5k/Concretize and G5k/Networks
-- have `_concretize_nodes`, `_concretize_networks` and `_join` of provider.py, which use Pools, and
-- G5k/Launch composes the three as `launch` does. G5k/Jobs has the jobs of g5k_api_utils.py, on an
-- API that is a parameter, G5k/Jobs/Wait the loop that waits for them, G5k/Jobs/Resources what they
-- reserved, G5k/Jobs/Listing what a look for jobs by name
-- finds, and G5k/Deploy the loop of `grid_deploy`. The two loops run on fuel: `wait_for_jobs` on
-- one unit for each second until the jobs run and one more, as each round takes five seconds at
-- least; `grid_deploy` on one for each poll until all deployments have ended and one more. Both are
-- proved to be enough. G5k/Reservation goes from a configuration to the texts of the jobs and
-- gets or creates them, G5k/Jobs/Kill deletes them and waits until they have left the states of a
-- live job, on one unit of fuel for each second and one more. G5k/Retries has the three attempts of
-- `deploy_with_retries`, which check the hosts by a play of Api/Run and deploy the rest by
-- `grid_deploy`, and G5k/Names the names of nodes in networks. The objects that `_join` shares between
-- hosts are values, told apart by their ids.
--
-- VirtualMachines: `_distribute` of enoslib/infra/enos_vmong5k/provider.py, with `mac_range` in
-- VirtualMachines/Macs and `_find_nodes_number` in VirtualMachines/Demand, where the quotients of
-- floats are taken exact.
--
-- Planning: enoslib/service/planning/planning.py, the check of a timeline, its dates, the events of
-- a host and, in Planning/Cron, the commands that cron gets.
--
-- Registry: enoslib/registry/process.py, the bookkeeping of process groups, and in
-- Registry/Kill the killing of some of them, with the random draws as a parameter. The processes are values,
-- so that a process set dead by `refresh` is dead in the registry that is returned; the one before is
-- not followed further. What runs on the hosts is a parameter.
--
-- Examples: each theorem at a concrete input.
--
-- Not modelled: what runs commands on hosts or calls the interface of a testbed (Ansible itself,
-- IoT-LAB, OpenStack, Vagrant, Docker), printing, and the parsing of dates and of command output. Of
-- api.py: the inventory and the gathering of facts. Of the Grid'5000 provider: the setting of vlans and
-- the drivers.
pub mod Api
pub mod Base
pub mod Cluster
pub mod Collections
pub mod Emul
pub mod Examples
pub mod G5k
pub mod MergeDict
pub mod Objects
pub mod Planning
pub mod Pools
pub mod Provider
pub mod Providers
pub mod Registry
pub mod Task
pub mod VirtualMachines
pub mod Walltime
