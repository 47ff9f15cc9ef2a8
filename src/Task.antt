-- ===== src/Task.antt =====
-- enoslib/task.py: environments that are saved after each task and loaded before the next. Directories
-- are named by resolved paths, and an environment's file is named by its directory; what pickle writes
-- is the environment. `read_config` is the YAML file at a path, if there is one, and `today` the name
-- of the directory for the date.
pub mod Saved
use enoslib.Base.{String, Bool, true, false, Option, none, some, List, [], ◌∷◌, if◌then◌else◌}
use enoslib.Base.Eq.{Eq, String_eq}
use enoslib.Collections.ResourcesSet.{contains}
use enoslib.Base.Dict.{Dict, get, put}

-- `Environment`: the entries "config_file" and "config", and those that tasks add. The entries
-- "resultdir" and "config_type", which nothing reads, are left out.
pub record Environment (V : Type 0) : Type 0 where
  pub env_name : String
  pub config_file : Option String
  pub config : Dict String V
  pub entries : Dict String V

-- The saved environments by directory, the directories' names that are taken by files, and where the
-- symbolic link points.
pub record Disk (V : Type 0) : Type 0 where
  pub saved : Dict String (Environment V)
  pub files : List String
  pub link : Option String

-- What `--env` or `env` may be.
pub data EnvName (V : Type 0) : Type 0 where
  crafted : Environment V → EnvName V
  named : (path : String) → EnvName V
  unnamed : EnvName V

-- A result with the disk after it, or `EnosFilePathError`.
pub data Loaded (V : Type 0) : Type 0 where
  loaded : Environment V → Disk V → Loaded V
  file_path_error : Disk V → Loaded V

-- What the task's function returns or raises, and the environment that it leaves.
pub data Outcome (R : Type 0) : Type 0 where
  returned : R → Outcome R
  raised : Outcome R

-- What calling the decorated function gives.
pub data Called (V R : Type 0) : Type 0 where
  called : Outcome R → Disk V → Called V R
  not_called : Disk V → Called V R

module _ {V : Type 0} where
  -- `Environment(env_name)`
  unfoldable pub new_environment : String → Environment V
  new_environment path = record { env_name = path; config_file = none; config = []; entries = [] }

  -- `dump`
  unfoldable pub dump : Environment V → Disk V → Disk V
  unfolding put
  dump env disk = record disk { saved = put env.env_name env disk.saved }

  -- `load_from_file`: the path of the environment is fixed.
  load_found : String → Option (Environment V) → Disk V → Loaded V
  load_found path none disk = file_path_error disk
  load_found path (some env) disk = loaded (record env { env_name = path }) disk

  unfoldable pub load_from_file : String → Disk V → Loaded V
  unfolding load_found get
  load_from_file path disk = load_found path (get path disk.saved) disk

  load_link : Option String → Disk V → Loaded V
  unfolding load_from_file
  load_link none disk = file_path_error disk
  load_link (some path) disk = load_from_file path disk

  symlink_to : Bool → String → Disk V → Disk V
  symlink_to symlink path disk = if symlink then record disk { link = some path } else disk

  -- `_create_new_env`
  unfoldable pub create_new_env : Bool → String → Disk V → Loaded V
  unfolding new_environment dump symlink_to contains
  create_new_env symlink path disk =
      let env = new_environment path in
      if contains disk.files path
      then file_path_error disk
      else loaded env (symlink_to symlink path (dump env disk))

  unfoldable pub get_or_create_env : String → Bool → EnvName V → Bool → Disk V → Loaded V
  unfolding create_new_env load_from_file load_link
  get_or_create_env today new (crafted env) symlink disk = loaded env disk
  get_or_create_env today true (named path) symlink disk = create_new_env symlink path disk
  get_or_create_env today false (named path) symlink disk = load_from_file path disk
  get_or_create_env today true unnamed symlink disk = create_new_env symlink today disk
  get_or_create_env today false unnamed symlink disk = load_link disk.link disk

  -- `self["config"].update(...)`
  unfoldable pub update : Dict String V → Dict String V → Dict String V
  unfolding put
  update d [] = d
  update d ((k, v) ∷ items) = update (put k v d) items

  updated : Option (Dict String V) → Environment V → Environment V
  unfolding update
  updated none env = env
  updated (some items) env = record env { config = update env.config items }

  reload_from : Option String → (String → Option (Dict String V)) → Environment V → Environment V
  unfolding updated
  reload_from none read_config env = env
  reload_from (some path) read_config env = updated (read_config path) env

  unfoldable pub reload_config : (String → Option (Dict String V)) → Environment V → Environment V
  unfolding reload_from
  reload_config read_config env = reload_from env.config_file read_config env

  module _ {R : Type 0} (today : String) (read_config : String → Option (Dict String V)) where
    -- The function's part, with the environment saved whether it returns or raises.
    run_saved : (Environment V → Outcome R × Environment V) → Loaded V → Called V R
    unfolding reload_config dump
    run_saved fn (loaded env disk) =
        let (outcome, env') = fn (reload_config read_config env) in called outcome (dump env' disk)
    run_saved fn (file_path_error disk) = not_called disk

    -- A call of a function that `enostask(new, symlink)` decorates.
    unfoldable pub decorated :
        Bool → Bool → (Environment V → Outcome R × Environment V) → EnvName V → Disk V → Called V R
    unfolding run_saved get_or_create_env
    decorated new symlink fn env_name disk =
        run_saved fn (get_or_create_env today new env_name symlink disk)
