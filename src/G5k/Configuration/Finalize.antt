-- ===== src/G5k/Configuration/Finalize.antt =====
-- `Configuration` (enoslib/infra/enos_g5k/configuration.py): how machines are added, and `finalize`. The
-- settings that neither reads nor writes are left out; warnings are too. `valid` is the validation
-- against the schema, and `is_exotic` the Grid'5000 API's answer for a group.
pub mod Defaults
pub mod Complete
use Prim.Native.String.{◌++◌ as ◌<>◌}
use text.Mathlib.Text.{starts_with}
use enoslib.Base.{
  String, Bool, true, false, ◌&&◌, ◌||◌, not, Option, none, some, List, [], ◌∷◌, ◌++◌, map, filterb,
  any, if◌then◌else◌,
}
use enoslib.Base.Eq.{Eq, String_eq, ◌==◌}
use enoslib.Collections.ResourcesSet.{contains, of_iterable}
use enoslib.G5k.Configuration.{NetworkConfiguration, GroupConfiguration}

abbrev pub Networks : Type 0
Networks = List NetworkConfiguration

pub record Configuration : Type 0 where
  pub env_name : Option String
  pub job_type : List String
  pub machines : List GroupConfiguration
  pub networks : Networks

pub data FinalizeError : Type 0 where
  value_error validation_error : FinalizeError

pub data Final : Type 0 where
  final : Configuration → Final
  err : FinalizeError → Final

is_prod : String → NetworkConfiguration → Bool
is_prod site net = net.site == site && net.type == "prod"

-- `NetworkConfiguration(id=f"prod-{machine.site}", ...)`
unfoldable pub default_network : String → NetworkConfiguration
default_network site = record {
  id = "prod-" <> site;
  roles = "prod" ∷ [];
  type = "prod";
  site = site;
}

-- The production networks of the site, and the networks: what is added to them, and the machine.
choose_network : Networks → GroupConfiguration → Networks × GroupConfiguration
unfolding default_network
choose_network [] machine =
    let net = default_network machine.site in
    (net ∷ [], record machine { primary_network = some net })
choose_network (net ∷ prod_nets) machine = ([], record machine { primary_network = some net })

-- `_set_default_primary_network`: the networks that are added, and the machine.
default_unless :
    Option NetworkConfiguration → Networks → GroupConfiguration → Networks × GroupConfiguration
unfolding choose_network is_prod
default_unless (some net) networks machine = ([], machine)
default_unless none networks machine =
    choose_network (filterb (is_prod machine.site) networks) machine

unfoldable pub set_default_primary_network :
    Networks → GroupConfiguration → Networks × GroupConfiguration
unfolding default_unless
set_default_primary_network networks machine =
    default_unless machine.primary_network networks machine

-- The loop over the machines: the networks after it, and the machines.
unfoldable pub set_defaults :
    Networks → List GroupConfiguration → Networks × List GroupConfiguration
unfolding set_default_primary_network
set_defaults networks [] = (networks, [])
set_defaults networks (m ∷ machines) =
    let (added, m') = set_default_primary_network networks m in
    let (networks', machines') = set_defaults (networks ++ added) machines in
    (networks', m' ∷ machines')

-- `_add_exotic_jobtype` and `add_machine_conf`
unfoldable pub add_exotic_jobtype : Bool → List String → List String
unfolding contains
add_exotic_jobtype exotic job_type =
    if not (contains job_type "exotic") && exotic then job_type ++ "exotic" ∷ [] else job_type

unfoldable pub add_machine_conf :
    (GroupConfiguration → Bool) → Configuration → GroupConfiguration → Configuration
unfolding set_default_primary_network add_exotic_jobtype
add_machine_conf is_exotic c machine =
    let (added, m) = set_default_primary_network c.networks machine in
    record c {
      networks = c.networks ++ added;
      job_type = add_exotic_jobtype (is_exotic m) c.job_type;
      machines = c.machines ++ m ∷ [];
    }

abbrev pub is_origin : String → Bool
is_origin jobtype = starts_with jobtype "origin="

-- `net.type in KAVLAN_TYPE`
abbrev pub is_kavlan : NetworkConfiguration → Bool
is_kavlan net = net.type == "kavlan" || (net.type == "kavlan-local" || net.type == "kavlan-global")

-- `self.env_name` as a condition
abbrev pub is_set : Option String → Bool
is_set none = false
is_set (some name) = not (name == "")

with_origin : List String → List String
with_origin job_type =
    if any is_origin job_type then job_type else job_type ++ "origin=enoslib_g5k" ∷ []

with_deploy : Bool → List String → List String
unfolding contains
with_deploy needed job_type =
    if needed && not (contains job_type "deploy") then job_type ++ "deploy" ∷ [] else job_type

with_env : Bool → Option String → Option String
with_env has_kavlan env_name =
    if has_kavlan && not (is_set env_name) then some "debian11-nfs" else env_name

module _ (valid : Configuration → Bool) where
  validated : Configuration → Final
  validated c = if valid c then final c else err validation_error

  -- From the check of the parameters on.
  check_parameters : Option String → List String → Networks → List GroupConfiguration → Final
  unfolding contains with_deploy validated
  check_parameters env_name job_type networks machines =
      if contains job_type "deploy" && not (is_set env_name)
      then err value_error
      else validated (record {
        env_name = env_name;
        job_type = with_deploy (is_set env_name) job_type;
        machines = machines;
        networks = networks;
      })

  unfoldable pub finalize : Configuration → Final
  unfolding set_defaults with_origin with_deploy with_env check_parameters
  finalize c =
      let (networks, machines) = set_defaults c.networks c.machines in
      let has_kavlan = any is_kavlan networks in
      check_parameters (with_env has_kavlan c.env_name)
        (with_deploy has_kavlan (with_origin c.job_type)) networks machines

-- `sites` and `restrict_to`
unfoldable pub sites : Configuration → List String
unfolding of_iterable
sites c = of_iterable (map (λ m. m.site) c.machines ++ map (λ n. n.site) c.networks)

unfoldable pub restrict_to : Configuration → String → Configuration
restrict_to c site = record c {
  machines = filterb (λ m. m.site == site) c.machines;
  networks = filterb (λ n. n.site == site) c.networks;
}
