-- ===== src/Api/Tasks/Keywords.antt =====
-- The keywords at the top level of a task: detached commands, and commands run as another user.
use enoslib.Base.{
  ◌≡◌, refl, ◌∙◌, ap, String, Bool, true, false, Option, none, some, [], ◌∷◌, arith, if◌then◌else◌,
  Bool-cases, inl, inr, All,
}
use enoslib.Base.Eq.{String_eq, ◌==◌, ==→≡}
use enoslib.Base.Dict.{Dict, get, put, get-put, has_key, has_key-put, IsMapping, put-IsMapping}
use enoslib.Api.Tasks.{
  Arg, flag, number, text, Args, TaskValue, Replacement, plain, fields, one_year_seconds,
  ansible_top_level, update, split_args, plain_args, CommandOptions, as_user, detached, named,
  command_task, in_cgroup, in_namespace,
}
use enoslib.Api.Tasks.Split.{
  or_else-none, get_last, get-update, get_last-get, writes, last_write, plain_option,
  get_last-plain_args, last_write-put,
}

get-named :
    (n : String) (raw : Bool) (v w : TaskValue) (task_name : Option String)
    → ("name" == n) ≡ false
    → ("raw" == n) ≡ false
    → ("shell" == n) ≡ false
    → get n (put (if raw then "raw" else "shell") v (named task_name (("name", w) ∷ []))) ≡ none
unfolding named get put
get-named n true v w none h r s = ground (arith, h, r, s)
get-named n false v w none h r s = ground (arith, h, r, s)
get-named n true v w (some t) h r s = ground (arith, h, r, s)
get-named n false v w (some t) h r s = ground (arith, h, r, s)

-- A name of the top level that is none of the task's own.
get-command_task :
    (n : String) (o : CommandOptions) (cmd : String) (kwargs : Args)
    → ("args" == n) ≡ false
    → ("name" == n) ≡ false
    → ("raw" == n) ≡ false
    → ("shell" == n) ≡ false
    → get n (command_task o cmd kwargs)
      ≡ plain_option (last_write n (detached o.background (as_user o.run_as kwargs)))
unfolding command_task
get-command_task n o cmd kwargs a h r s =
    let all = detached o.background (as_user o.run_as kwargs) in
    let command = in_cgroup o.cgroup o.cgroup_prefix (in_namespace o.ns cmd) in
    let task =
      put (if o.raw then "raw" else "shell") (plain (text command))
        (named o.task_name (("name", plain (text command)) ∷ [])) in
    get-put "args" n (fields (split_args all).1) (update task (plain_args (split_args all).0))
    ∙ rw a (
        get-update n task (plain_args (split_args all).0)
        ∙ rw
            (
              get_last-plain_args n all,
              get-named n o.raw (plain (text command)) (plain (text command)) o.task_name h r s,
            )
            (or_else-none (plain_option (last_write n all))))

-- A name of the top level that only the keyword of that name writes.
abbrev pub IsPlain : String → Dict String Replacement → Type 0
IsPlain n table =
    All (λ e. (v : Arg) → writes n (some e.1) v ≡ (if e.0 == n then some v else none)) table

writes-get :
    (n k : String) (v : Arg) (table : Dict String Replacement)
    → IsPlain n table
    → (k == n) ≡ true
    → has_key k table ≡ true
    → writes n (get k table) v ≡ some v
unfolding get
writes-get n k v [] p e h = cc
writes-get n k v ((j, r) ∷ table) p e h = elim (Bool-cases (j == k)) [
  | inl same ↦
      rw same
        (p.0 v ∙ (let t : (j == n) ≡ true = ap (λ i. i == n) (==→≡ j k same) ∙ e in rw t refl))
  | inr other ↦ rw other (writes-get n k v table p.1 e (ground (arith, h, other)))
]

writes-other :
    (n k : String) (v : Arg) (table : Dict String Replacement)
    → IsPlain n table
    → (k == n) ≡ false
    → writes n (get k table) v ≡ none
unfolding get
writes-other n k v [] p e = refl
writes-other n k v ((j, r) ∷ table) p e = elim (Bool-cases (j == k)) [
  | inl same ↦
      rw same
        (p.0 v ∙ (let t : (j == n) ≡ false = ap (λ i. i == n) (==→≡ j k same) ∙ e in rw t refl))
  | inr other ↦ rw other (writes-other n k v table p.1 e)
]

pub last_write-get_last :
    (n : String) (kwargs : Args)
    → IsPlain n ansible_top_level
    → has_key n ansible_top_level ≡ true
    → last_write n kwargs ≡ get_last n kwargs
unfolding last_write get_last
last_write-get_last n [] p h = refl
last_write-get_last n ((k, v) ∷ kwargs) p h = elim (Bool-cases (k == n)) [
  | inl same ↦
      rw
        (
          same,
          last_write-get_last n kwargs p h,
          writes-get n k v ansible_top_level p same
              (ap (λ j. has_key j ansible_top_level) (==→≡ k n same) ∙ h),
        )
        refl
  | inr other ↦
      rw (other, last_write-get_last n kwargs p h, writes-other n k v ansible_top_level p other)
        refl
]

pub become-IsPlain : IsPlain "become" ansible_top_level
unfolding get_last
become-IsPlain = ground arith

pub become_user-IsPlain : IsPlain "become_user" ansible_top_level
unfolding get_last
become_user-IsPlain = ground arith

-- `get` of a plain name of the top level, from the keywords.
get-plain :
    (n : String) (kwargs : Args)
    → IsPlain n ansible_top_level
    → has_key n ansible_top_level ≡ true
    → IsMapping kwargs
    → last_write n kwargs ≡ get n kwargs
get-plain n kwargs p h m = last_write-get_last n kwargs p h ∙ get_last-get n kwargs m

detached-IsMapping : (b : Bool) (kwargs : Args) → IsMapping kwargs → IsMapping (detached b kwargs)
unfolding detached
detached-IsMapping true kwargs m = put-IsMapping "background" (flag true) kwargs m
detached-IsMapping false kwargs m = m

as_user-IsMapping :
    (user : String) (kwargs : Args) → IsMapping kwargs → IsMapping (as_user (some user) kwargs)
unfolding as_user
as_user-IsMapping user kwargs m =
    put-IsMapping "become_user" (text user) (put "become" (flag true) kwargs)
      (put-IsMapping "become" (flag true) kwargs m)

get-as_user :
    (b : Bool) (user : String) (kwargs : Args)
    → (get "become" (detached b (as_user (some user) kwargs)) ≡ some (flag true))
      × (get "become_user" (detached b (as_user (some user) kwargs)) ≡ some (text user))
unfolding detached as_user
get-as_user true user kwargs = (simp get-put, simp get-put)
get-as_user false user kwargs = (simp get-put, simp get-put)

as_user-has_background :
    (run_as : Option String) (kwargs : Args)
    → has_key "background" kwargs ≡ false
    → has_key "background" (as_user run_as kwargs) ≡ false
unfolding as_user
as_user-has_background none kwargs h = h
as_user-has_background (some user) kwargs h =
    rw
      (
        has_key-put "become_user" "background" (text user) (put "become" (flag true) kwargs),
        has_key-put "become" "background" (flag true) kwargs,
      )
      h

last_write-detached :
    (kwargs : Args)
    → has_key "background" kwargs ≡ false
    → (last_write "async" (detached true kwargs) ≡ some (number one_year_seconds))
      × (last_write "poll" (detached true kwargs) ≡ some (number 0))
unfolding detached get get_last
last_write-detached kwargs h = (
  last_write-put "async" "background" (flag true) kwargs h,
  last_write-put "poll" "background" (flag true) kwargs h,
)

-- What the user's keywords come to at the top level of the task.
last_write-as_user :
    (b : Bool) (user : String) (kwargs : Args)
    → IsMapping kwargs
    → (last_write "become" (detached b (as_user (some user) kwargs)) ≡ some (flag true))
      × (last_write "become_user" (detached b (as_user (some user) kwargs)) ≡ some (text user))
last_write-as_user b user kwargs m =
    let all = detached b (as_user (some user) kwargs) in
    let mapping =
      detached-IsMapping b (as_user (some user) kwargs) (as_user-IsMapping user kwargs m) in
    let here = get-as_user b user kwargs in
    (
      get-plain "become" all become-IsPlain refl mapping ∙ here.0,
      get-plain "become_user" all become_user-IsPlain refl mapping ∙ here.1,
    )

-- A command that `run_command` puts in the background is detached for a year, whatever keywords are
-- given beside.
command_task-detached :
    (o : CommandOptions) (cmd : String) (kwargs : Args)
    → has_key "background" kwargs ≡ false
    → o.background ≡ true
    → (get "async" (command_task o cmd kwargs) ≡ some (plain (number one_year_seconds)))
      × (get "poll" (command_task o cmd kwargs) ≡ some (plain (number 0)))
command_task-detached o cmd kwargs h b =
    let all =
      last_write-detached (as_user o.run_as kwargs) (as_user-has_background o.run_as kwargs h) in
    (
      get-command_task "async" o cmd kwargs refl refl refl refl
          ∙ unfold plain_option in rw (b, all.0) refl,
      get-command_task "poll" o cmd kwargs refl refl refl refl
          ∙ unfold plain_option in rw (b, all.1) refl,
    )

-- A command that it runs as a user has that user and becomes it, in the background or not.
command_task-as_user :
    (o : CommandOptions) (cmd : String) (kwargs : Args) (user : String)
    → IsMapping kwargs
    → o.run_as ≡ some user
    → (get "become" (command_task o cmd kwargs) ≡ some (plain (flag true)))
      × (get "become_user" (command_task o cmd kwargs) ≡ some (plain (text user)))
command_task-as_user o cmd kwargs user m u =
    let all = last_write-as_user o.background user kwargs m in
    (
      get-command_task "become" o cmd kwargs refl refl refl refl
          ∙ unfold plain_option in rw (u, all.0) refl,
      get-command_task "become_user" o cmd kwargs refl refl refl refl
          ∙ unfold plain_option in rw (u, all.1) refl,
    )

-- A command that `run_command` runs as a user and in the background is detached for a year, and has
-- that user and becomes it, whatever keywords but `background` are given beside.
pub command_task-IsDetached :
    (o : CommandOptions) (cmd : String) (kwargs : Args) (user : String)
    → IsMapping kwargs
    → has_key "background" kwargs ≡ false
    → o.background ≡ true
    → o.run_as ≡ some user
    → ((get "async" (command_task o cmd kwargs) ≡ some (plain (number one_year_seconds)))
        × (get "poll" (command_task o cmd kwargs) ≡ some (plain (number 0))))
      × (get "become" (command_task o cmd kwargs) ≡ some (plain (flag true)))
      × (get "become_user" (command_task o cmd kwargs) ≡ some (plain (text user)))
command_task-IsDetached o cmd kwargs user m h b u =
    let (become, become_user) = command_task-as_user o cmd kwargs user m u in
    (command_task-detached o cmd kwargs h b, become, become_user)
