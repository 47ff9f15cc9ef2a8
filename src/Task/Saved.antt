-- ===== src/Task/Saved.antt =====
-- A task finds what the task before it left.
use enoslib.Base.{
  String, ◌≡◌, refl, ap, ◌∙◌, sym, Bool, false, Option, none, some, List, [], ◌∷◌, if◌then◌else◌,
}
use enoslib.Base.Eq.{String_eq, ◌==◌, ==_refl}
use enoslib.Base.Dict.{Dict, get, get-put}
use enoslib.Task.{
  Environment, Disk, EnvName, named, Loaded, loaded, file_path_error, Outcome, Called, called,
  not_called, dump, load_from_file, load_found, get_or_create_env, reload_config, decorated,
  run_saved, updated, reload_from,
}

module _ {V : Type 0} where
  -- An environment is saved under its name.
  abbrev pub IsSaved : Environment V → Disk V → Type 0
  IsSaved env disk = load_from_file env.env_name disk ≡ loaded env disk

  dump-IsSaved : (env : Environment V) (disk : Disk V) → IsSaved env (dump env disk)
  unfolding load_from_file load_found dump
  dump-IsSaved env disk = rw (get-put, ==_refl) refl

  updated-env_name :
      (read : Option (Dict String V)) (env : Environment V)
      → (updated read env).env_name ≡ env.env_name
  unfolding updated
  updated-env_name none env = refl
  updated-env_name (some items) env = refl

  reload_from-env_name :
      (file : Option String) (read_config : String → Option (Dict String V)) (env : Environment V)
      → (reload_from file read_config env).env_name ≡ env.env_name
  unfolding reload_from
  reload_from-env_name none read_config env = refl
  reload_from-env_name (some path) read_config env = updated-env_name (read_config path) env

  found-env_name :
      (path : String) (found : Option (Environment V)) (disk : Disk V) (env : Environment V)
      → load_found path found disk ≡ loaded env disk
      → env.env_name ≡ path
  unfolding load_found
  found-env_name path none disk env h = cc
  found-env_name path (some e) disk env h = ap name_of (sym h)
    where
      name_of : Loaded V → String
      name_of (loaded e d) = e.env_name
      name_of (file_path_error d) = path

-- A task's function, which does not rename its environment.
abbrev pub TaskOf : Type 0 → Type 0 → Type 0
TaskOf V R = Environment V → Outcome R × Environment V

abbrev pub KeepsName : {V R : Type 0} → TaskOf V R → Type 0
KeepsName {V} fn = (env : Environment V) → (fn env).1.env_name ≡ env.env_name

module _ {V R : Type 0} (today : String) (read_config : String → Option (Dict String V))
    (fn : TaskOf V R) (keeps : KeepsName fn) where
  -- The function with the configuration reloaded before it.
  abbrev pub reloaded : Environment V → Outcome R × Environment V
  reloaded env = fn (reload_config read_config env)

  reloaded-env_name : (env : Environment V) → (reloaded env).1.env_name ≡ env.env_name
  unfolding reload_config
  reloaded-env_name env =
      keeps (reload_config read_config env) ∙ reload_from-env_name env.config_file read_config env

  -- The outcome is the function's; its environment, saved under its name, is what a next task loads;
  -- and no other saved environment changes.
  pub record IsCheckpoint (env : Environment V) (disk : Disk V) (out : Called V R) : Type 0 where
    pub after : Disk V
    pub outcome : out ≡ called (reloaded env).0 after
    pub next :
        (symlink : Bool)
        → get_or_create_env today false (named env.env_name) symlink after
          ≡ loaded (reloaded env).1 after
    pub others :
        (path : String)
        → (env.env_name == path) ≡ false
        → get path after.saved ≡ get path disk.saved

  run_saved-IsCheckpoint :
      (env : Environment V) (disk : Disk V)
      → IsCheckpoint env disk (run_saved today read_config fn (loaded env disk))
  unfolding run_saved get_or_create_env dump
  run_saved-IsCheckpoint env disk =
      let env' = (reloaded env).1 in
      let name = reloaded-env_name env in
      record {
        after = dump env' disk;
        outcome = refl;
        next = λ symlink.
            ap (λ path. load_from_file path (dump env' disk)) (sym name) ∙ dump-IsSaved env' disk;
        others = λ path other.
            get-put env'.env_name path env' disk.saved
            ∙ ap (λ b. if b then some env' else get path disk.saved)
                (ap (λ n. n == path) name ∙ other);
      }

  -- A task is a checkpoint. If the environment is loaded or created, the function runs on it with its
  -- configuration reloaded; then, whether the function returns or raises, a task that is given the
  -- environment's name loads exactly the environment that the function left, and the environments
  -- saved under other names are as they were when it started.
  pub decorated-IsCheckpoint :
      (new symlink : Bool) (env_name : EnvName V) (before disk : Disk V) (env : Environment V)
      → get_or_create_env today new env_name symlink before ≡ loaded env disk
      → IsCheckpoint env disk (decorated today read_config new symlink fn env_name before)
  unfolding decorated
  decorated-IsCheckpoint new symlink env_name before disk env h =
      rw h (run_saved-IsCheckpoint env disk)

-- The disk after a call.
abbrev pub disk_of : {V R : Type 0} → Called V R → Disk V
disk_of (called outcome disk) = disk
disk_of (not_called disk) = disk

module _ {V R : Type 0} (today : String) (read_config : String → Option (Dict String V))
    (path : String) where
  -- A workflow: each task is called with the path of the environment.
  abbrev pub run_tasks : List (TaskOf V R) → Disk V → Disk V
  run_tasks [] disk = disk
  run_tasks (fn ∷ fns) disk =
      run_tasks fns (disk_of (decorated today read_config false false fn (named path) disk))

  -- The same functions, one after the other on one environment in memory.
  abbrev pub run_in_memory : List (TaskOf V R) → Environment V → Environment V
  run_in_memory [] env = env
  run_in_memory (fn ∷ fns) env = run_in_memory fns (fn (reload_config read_config env)).1

  abbrev pub AllKeepName : List (TaskOf V R) → Type 0
  AllKeepName [] = Unit
  AllKeepName (fn ∷ fns) = KeepsName fn × AllKeepName fns

  step :
      (fn : TaskOf V R) (disk : Disk V) (env : Environment V)
      → KeepsName fn
      → env.env_name ≡ path
      → load_from_file path disk ≡ loaded env disk
      → load_from_file path (disk_of (decorated today read_config false false fn (named path) disk))
        ≡ loaded
            (fn (reload_config read_config env)).1
            (disk_of (decorated today read_config false false fn (named path) disk))
  unfolding get_or_create_env
  step fn disk env keeps name h =
      let check =
        decorated-IsCheckpoint today read_config fn keeps false false (named path) disk disk env
          h in
      rw (check.outcome) (ap (λ n. load_from_file n check.after) (sym name) ∙ check.next false)

  -- A workflow of tasks refines the same functions on one environment in memory: from an environment
  -- that is saved at the path, what is saved there at the end is what the functions leave when they
  -- run one after the other, each with the configuration reloaded, whichever of them raise.
  pub run_tasks-run_in_memory :
      (fns : List (TaskOf V R)) (disk : Disk V) (env : Environment V)
      → AllKeepName fns
      → load_from_file path disk ≡ loaded env disk
      → load_from_file path (run_tasks fns disk)
        ≡ loaded (run_in_memory fns env) (run_tasks fns disk)
  unfolding load_from_file
  run_tasks-run_in_memory [] disk env keep h = h
  run_tasks-run_in_memory (fn ∷ fns) disk env keep h =
      run_tasks-run_in_memory fns
        (disk_of (decorated today read_config false false fn (named path) disk))
        (fn (reload_config read_config env)).1 keep.1
        (step fn disk env keep.0 (found-env_name path (get path disk.saved) disk env h) h)
