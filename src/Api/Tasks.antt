-- ===== src/Api/Tasks.antt =====
-- `_split_args`, `_Phantom.__call__`, `actions` and `run_command` of enoslib/api.py: from keyword
-- arguments to the tasks of a play. The inventory and the variables of a play are left out.
pub mod Split
pub mod Keywords
pub mod Context
use enoslib.Base.{
  ℕ, String, Bool, true, false, Option, none, some, List, [], ◌∷◌, ◌++◌, map, ◌*◌, if◌then◌else◌,
}
use enoslib.Base.Eq.{String_eq, ℕ_eq, ◌==◌}
use enoslib.Base.Dict.{Dict, get, put}
use enoslib.Api.Commands.{in_ns, cg_start}

-- The values of keyword arguments.
pub data Arg : Type 0 where
  null : Arg
  flag : Bool → Arg
  number : ℕ → Arg
  text : String → Arg
  texts : List String → Arg

abbrev pub Args : Type 0
Args = Dict String Arg

-- A task maps keywords to values, and the module's name to the module's arguments.
pub data TaskValue : Type 0 where
  plain : Arg → TaskValue
  fields : Args → TaskValue

abbrev pub Task : Type 0
Task = Dict String TaskValue

abbrev pub one_year_seconds : ℕ
one_year_seconds = 3600 * 24 * 365

pub data Replacement : Type 0 where
  renamed : String → Replacement
  expanded : Args → Replacement

abbrev pub ansible_top_level : Dict String Replacement
ansible_top_level =
    ("asynch", renamed "async")
    ∷ ("become", renamed "become")
    ∷ ("become_user", renamed "become_user")
    ∷ ("become_method", renamed "become_method")
    ∷ ("environment", renamed "environment")
    ∷ ("ignore_errors", renamed "ignore_errors")
    ∷ ("loop", renamed "loop")
    ∷ ("poll", renamed "poll")
    ∷ ("when", renamed "when")
    ∷ ("run_once", renamed "run_once")
    ∷ ("delegate_to", renamed "delegate_to")
    ∷ ("background", expanded (("async", number one_year_seconds) ∷ ("poll", number 0) ∷ []))
    ∷ ("vars", renamed "vars")
    ∷ []

-- `d.update(e)`
unfoldable pub update : {A : Type 0} → Dict String A → Dict String A → Dict String A
unfolding put
update d [] = d
update d ((k, v) ∷ e) = update (put k v d) e

-- One round of `_split_args`
unfoldable pub split_one : Option Replacement → String → Arg → Args × Args → Args × Args
unfolding put update
split_one none k v (top_args, module_args) = (top_args, put k v module_args)
split_one (some (renamed name)) k v (top_args, module_args) = (put name v top_args, module_args)
split_one (some (expanded args)) k v (top_args, module_args) = (update top_args args, module_args)

unfoldable pub split_from : Args → Args × Args → Args × Args
unfolding split_one get
split_from [] split = split
split_from ((k, v) ∷ kwargs) split =
    split_from kwargs (split_one (get k ansible_top_level) k v split)

-- The arguments for Ansible's top level, and those for the module.
unfoldable pub split_args : Args → Args × Args
unfolding split_from
split_args kwargs = split_from kwargs ([], [])

-- `d.pop(k)`: what is left
unfoldable pub removed : {A : Type 0} → String → Dict String A → Dict String A
removed k [] = []
removed k ((j, v) ∷ d) = if j == k then d else (j, v) ∷ removed k d

-- `d.get(k, default)`
unfoldable pub get_or : {A : Type 0} → String → A → Dict String A → A
unfolding get
get_or k default d = elim (get k d) [ none ↦ default | some v ↦ v ]

unfoldable pub truth : Arg → Bool
truth null = false
truth (flag b) = b
truth (number n) = if n == 0 then false else true
truth (text s) = if s == "" then false else true
truth (texts []) = false
truth (texts (s ∷ ss)) = true

abbrev pub plain_args : Args → Task
plain_args args = map (λ e. (e.0, plain e.1)) args

-- The keywords of a call: those of the context, then its own, without a false `background`.
unfoldable pub call_args : Args → Args → Args
unfolding update removed get_or truth
call_args kwds own =
    let all = update kwds own in
    if truth (get_or "background" (flag false) all) then all else removed "background" all

unfoldable pub with_register : Arg → Task → Task
with_register null task = task
with_register register task = put "register" (plain register) task

-- `task.update({self.prefix: ...})`, with a positional argument or without
unfoldable pub with_module : String → List Arg → Args → Task → Task
unfolding update
with_module prefix [] module_args task = update task ((prefix, fields module_args) ∷ [])
with_module prefix (arg ∷ args) module_args task =
    update task ((prefix, plain arg) ∷ ("args", fields module_args) ∷ [])

-- `_Phantom.__call__`: the task that it adds
unfoldable pub call : Args → String → List Arg → Args → Task
unfolding with_register with_module call_args split_args update removed get_or
call kwds prefix args own =
    let task_name = get_or "task_name" (text prefix) own in
    let register = get_or "register" null (removed "task_name" own) in
    let (top_args, module_args) =
      split_args (call_args kwds (removed "register" (removed "task_name" own))) in
    let task = with_register register (("name", plain task_name) ∷ []) in
    with_module prefix args module_args (update task (plain_args top_args))

-- `actions.__init__`: the keywords that each task gets
unfoldable pub context_args : Option String → Bool → Args
context_args run_as true = ("background", flag true) ∷ []
context_args none false = []
context_args (some user) false = ("become", flag true) ∷ ("become_user", text user) ∷ []

facts_task : Bool → List Task
facts_task gather_facts =
    if gather_facts
    then (("name", plain (text "Gather facts")) ∷ ("setup", plain (text "")) ∷ []) ∷ []
    else []

concat : List (List Task) → List Task
concat [] = []
concat (tasks ∷ more) = tasks ++ concat more

-- The tasks of a context: the facts, those of the priors, and those that the block adds.
unfoldable pub play_tasks : Bool → List (List Task) → List Task → List Task
unfolding facts_task concat
play_tasks gather_facts priors tasks = (facts_task gather_facts ++ concat priors) ++ tasks

-- What `run_command` is given.
pub record CommandOptions : Type 0 where
  pub run_as : Option String
  pub background : Bool
  pub task_name : Option String
  pub raw : Bool
  pub ns : Option String
  pub cgroup : Option String
  pub cgroup_prefix : String

unfoldable pub as_user : Option String → Args → Args
unfolding put
as_user none kwargs = kwargs
as_user (some user) kwargs = put "become_user" (text user) (put "become" (flag true) kwargs)

unfoldable pub detached : Bool → Args → Args
unfolding put
detached background kwargs = if background then put "background" (flag true) kwargs else kwargs

-- The command in its namespace, and then in its control group.
unfoldable pub in_namespace : Option String → String → String
in_namespace none command = command
in_namespace (some ns) command = in_ns command ns

unfoldable pub in_cgroup : Option String → String → String → String
in_cgroup none cgroup_prefix command = command
in_cgroup (some cgroup) cgroup_prefix command = cg_start command cgroup cgroup_prefix

unfoldable pub named : Option String → Task → Task
unfolding put
named none task = task
named (some task_name) task = put "name" (plain (text task_name)) task

-- `run_command`: the only task of its play
unfoldable pub command_task : CommandOptions → String → Args → Task
unfolding as_user detached in_namespace in_cgroup named split_args update put
command_task o cmd kwargs =
    let command = in_cgroup o.cgroup o.cgroup_prefix (in_namespace o.ns cmd) in
    let task = named o.task_name (("name", plain (text command)) ∷ []) in
    let task = put (if o.raw then "raw" else "shell") (plain (text command)) task in
    let (top_args, module_args) = split_args (detached o.background (as_user o.run_as kwargs)) in
    put "args" (fields module_args) (update task (plain_args top_args))
