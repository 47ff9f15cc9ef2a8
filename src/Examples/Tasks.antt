-- ===== src/Examples/Tasks.antt =====
-- Tasks at concrete inputs.
use enoslib.Base.{ℕ, ◌≡◌, refl, String, true, Option, none, some, [], ◌∷◌}
use enoslib.Base.Dict.{Dict, get}
use enoslib.Task.{
  Environment, Disk, named, unnamed, loaded, load_from_file, Outcome, returned, raised, decorated,
  get_or_create_env, new_environment,
}
use enoslib.Task.Saved.{
  TaskOf, IsCheckpoint, run_tasks, run_in_memory, decorated-IsCheckpoint, run_tasks-run_in_memory,
}

abbrev no_config : String → Option (Dict String ℕ)
no_config path = none

-- One task stores a number and returns; one stores another and raises.
abbrev first : TaskOf ℕ ℕ
first env = (returned 1, record env { entries = ("jobs", 3) ∷ env.entries })

abbrev second : TaskOf ℕ ℕ
second env = (raised, record env { entries = ("hosts", 2) ∷ env.entries })

abbrev empty : Disk ℕ
empty = record { saved = []; files = []; link = none }

abbrev env : Environment ℕ
env = record { env_name = "exp"; config_file = none; config = []; entries = [] }

abbrev disk : Disk ℕ
disk = record { saved = ("exp", env) ∷ []; files = []; link = some "exp" }

decorated-IsCheckpoint_example :
    IsCheckpoint "today" no_config second
      (λ e. refl)
      env
      disk
      (decorated "today" no_config true true second (named "exp") empty)
unfolding get_or_create_env enoslib.Task.create_new_env
decorated-IsCheckpoint_example =
    decorated-IsCheckpoint "today" no_config second (λ e. refl) true true (named "exp") empty disk
      env refl

run_tasks-run_in_memory_example :
    load_from_file "exp" (run_tasks "today" no_config "exp" (first ∷ second ∷ []) disk)
    ≡ loaded
        (run_in_memory "today" no_config "exp" (first ∷ second ∷ []) env)
        (run_tasks "today" no_config "exp" (first ∷ second ∷ []) disk)
unfolding load_from_file get
run_tasks-run_in_memory_example =
    run_tasks-run_in_memory "today" no_config "exp" (first ∷ second ∷ []) disk env
      ((λ e. refl), ((λ e. refl), tt)) refl
