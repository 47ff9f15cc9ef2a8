-- ===== src/Examples/Ansible.antt =====
-- Commands, playbooks and their results at concrete inputs.
use enoslib.Base.{
  ℕ, suc, ◌≡◌, refl, String, true, false, none, some, List, [], ◌∷◌, if◌then◌else◌, ltb,
}
use enoslib.Base.Eq.{String_eq, ℕ_eq, ◌==◌}
use enoslib.Base.Dict.{get}
use enoslib.Api.Results.{Event, failed, passed, unreachable, CommandResult, command, status_failed}
use enoslib.Api.Run.{run_ansible, wait_for, connected}
use enoslib.Api.Run.Reported.{IsReported, run_ansible-IsReported}
use enoslib.Api.Run.Waited.{IsWaited, wait_for-IsWaited}
use enoslib.Api.Tasks.{
  flag, number, text, plain, one_year_seconds, CommandOptions, command_task, call, context_args,
}
use enoslib.Api.Tasks.Keywords.{command_task-IsDetached}
use enoslib.Api.Tasks.Context.{call-context_args}

abbrev event : String → Event ℕ
event host = record { ended = passed; host = host; task = "deploy"; result = [] }

-- A playbook that fails on one host, and does not reach another.
abbrev execute : ℕ → String → ℕ × List (Event ℕ)
execute w path =
    if path == "bad"
    then (
      suc w,
      event "a"
          ∷ record (event "b") { ended = failed false }
          ∷ record (event "c") { ended = unreachable }
          ∷ [],
    )
    else (suc w, event "a" ∷ event "b" ∷ [])

run_ansible-IsReported_example :
    IsReported execute false
      ("good" ∷ "bad" ∷ "good" ∷ [])
      0
      (run_ansible execute false ("good" ∷ "bad" ∷ "good" ∷ []) 0)
run_ansible-IsReported_example =
    run_ansible-IsReported execute false ("good" ∷ "bad" ∷ "good" ∷ []) 0

-- Hosts that are reached from the third second on.
abbrev booting : ℕ → String → ℕ × List (Event ℕ)
booting w play =
    if ltb w 3 then (w, record (event "a") { ended = unreachable } ∷ []) else (w, event "a" ∷ [])

wait_for-IsWaited_example : IsWaited booting suc "hostname" 5 0 (connected 3)
unfolding wait_for
wait_for-IsWaited_example = wait_for-IsWaited booting suc "hostname" 5 0

abbrev background_as : CommandOptions
background_as = record {
  run_as = some "root";
  background = true;
  task_name = none;
  raw = false;
  ns = none;
  cgroup = some "g";
  cgroup_prefix = "/sys/fs/cgroup";
}

command_task-IsDetached_example :
    ((get "async" (command_task background_as "top" (("poll", number 10) ∷ []))
        ≡ some (plain (number one_year_seconds)))
      × (get "poll" (command_task background_as "top" (("poll", number 10) ∷ []))
          ≡ some (plain (number 0))))
    × (get "become" (command_task background_as "top" (("poll", number 10) ∷ []))
        ≡ some (plain (flag true)))
    × (get "become_user" (command_task background_as "top" (("poll", number 10) ∷ []))
        ≡ some (plain (text "root")))
command_task-IsDetached_example =
    command_task-IsDetached background_as "top" (("poll", number 10) ∷ []) "root" (refl, tt) refl
      refl refl

call-context_args_example :
    (get "become" (call (context_args (some "root") false) "shell" (text "top" ∷ []) [])
      ≡ some (plain (flag true)))
    × (get "become_user" (call (context_args (some "root") false) "shell" (text "top" ∷ []) [])
        ≡ some (plain (text "root")))
call-context_args_example =
    call-context_args false "root" "shell" (text "top" ∷ []) [] refl refl refl refl

abbrev result : String → String → CommandResult String
result host rc = record {
  kind = command;
  host = host;
  task = "deploy";
  status = status_failed;
  payload = ("rc", rc) ∷ [];
}
