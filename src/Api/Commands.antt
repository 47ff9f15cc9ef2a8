-- ===== src/Api/Commands.antt =====
-- The command lines that enoslib/api.py makes: namespaces, control groups and detached sessions.
-- `str` prints a number.
use Prim.Native.String.{◌++◌ as ◌<>◌}
use enoslib.Base.{ℕ, String, Option, none, some, List, [], ◌∷◌, if◌then◌else◌}
use enoslib.Base.Eq.{ℕ_eq, ◌==◌}
use enoslib.Base.Text.{occurs}

-- `" ".join(words)`
unfoldable pub join_words : List String → String
join_words [] = ""
join_words (w ∷ []) = w
join_words (w ∷ v ∷ ws) = w <> " " <> join_words (v ∷ ws)

unfoldable pub wrap_ns : String → String
wrap_ns ns = "__" <> ns <> "__"

unfoldable pub in_ns : String → String → String
unfolding wrap_ns join_words
in_ns cmd ns = join_words (
    ("if ( lsns -t pid | grep " <> wrap_ns ns <> " );")
    ∷ ("then ( pidns=$(lsns -t pid | grep "
        <> wrap_ns ns
        <> " | awk '{print $4}') ;nsenter -t $pidns -p "
        <> cmd
        <> " );")
    ∷ ("else ( unshare --pid --fork --mount-proc bash -c '"
        <> cmd
        <> " && echo "
        <> wrap_ns ns
        <> "' );")
    ∷ "fi"
    ∷ [])

unfoldable pub enoslib_cgroup : String → String
enoslib_cgroup cgroup = "__enoslib__" <> cgroup

unfoldable pub cgroup_path : String → String → String
unfolding enoslib_cgroup
cgroup_path cgroup cgroup_prefix = cgroup_prefix <> "/" <> enoslib_cgroup cgroup

unfoldable pub cg_start : String → String → String → String
unfolding cgroup_path join_words
cg_start cmd cgroup cgroup_prefix =
    let cg_path = cgroup_path cgroup cgroup_prefix in
    join_words (
      ("mkdir -p " <> cgroup_prefix <> " && mount -t cgroup2 none " <> cgroup_prefix <> " || true;")
      ∷ ("mkdir -p " <> cg_path <> " && echo $$ >> " <> cg_path <> "/cgroup.procs && exec " <> cmd)
      ∷ [])

unfoldable pub cg_stop : String → String → String
unfolding cgroup_path
cg_stop cgroup cgroup_prefix =
    let path = cgroup_path cgroup cgroup_prefix in
    "echo 1 > " <> path <> "/cgroup.freeze && cat " <> path
    <> "/cgroup.procs | xargs -r -n1 kill; echo 0 > " <> path <> "/cgroup.freeze"

unfoldable pub cg_status : String → String → String
unfolding cgroup_path
cg_status cgroup cgroup_prefix =
    "test $(wc -l " <> cgroup_path cgroup cgroup_prefix <> "/cgroup.procs | cut -d' ' -f1) -gt 0"

unfoldable pub cg_list : String → String → String
unfolding cgroup_path
cg_list cgroup cgroup_prefix =
    "for i in $(ls -d "
    <> cgroup_path cgroup cgroup_prefix
    <> "); do echo $i; echo '#'; cat $i/cgroup.procs; echo '##'; done"

-- The controller that a path belongs to; the name "cpu" is part of "cpuset".
unfoldable pub controller : String → Option String
unfolding occurs
controller cpath =
    if occurs "cpuset" cpath
    then some "cpuset"
    else if occurs "cpu" cpath
    then some "cpu"
    else if occurs "memory" cpath
    then some "memory"
    else if occurs "io" cpath
    then some "io"
    else if occurs "pids" cpath
    then some "pids"
    else if occurs "rdma" cpath
    then some "rdma"
    else if occurs "hugetlb" cpath
    then some "hugetlb"
    else none

activate : String → String → String
activate cgroup_prefix ctr =
    "echo '+" <> ctr <> "' > " <> cgroup_prefix <> "/cgroup.subtree_control"

write_value : Option String → String → String → String → String → Option String
unfolding activate cgroup_path
write_value none cgroup cpath value cgroup_prefix = none
write_value (some ctr) cgroup cpath value cgroup_prefix = some (
    activate cgroup_prefix ctr
    <> " && echo "
    <> value
    <> " > "
    <> cgroup_path cgroup cgroup_prefix
    <> "/"
    <> cpath)

-- `cg_write`: none is the ValueError.
unfoldable pub cg_write : String → String → String → String → Option String
unfolding controller write_value
cg_write cgroup cpath value cgroup_prefix =
    write_value (controller cpath) cgroup cpath value cgroup_prefix

unfoldable pub bg_start : String → String → String
bg_start key cmd =
    "(tmux ls | grep " <> key <> ") ||tmux new-session -s " <> key <> " -d '" <> cmd <> "'"

-- `bg_stop`: SIGHUP is 1.
unfoldable pub bg_stop : (ℕ → String) → String → ℕ → String
bg_stop str key num =
    if num == 1
    then "tmux kill-session -t " <> key <> " || true"
    else "(tmux list-panes -t "
      <> key
      <> " -F '#{pane_pid}' | xargs -n1 kill -"
      <> str num
      <> ") || true"
