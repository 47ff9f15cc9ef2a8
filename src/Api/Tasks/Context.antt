-- ===== src/Api/Tasks/Context.antt =====
-- The tasks of `actions`: what the context's keywords come to in each.
use enoslib.Base.{
  ◌≡◌, refl, ◌∙◌, String, Bool, true, false, none, some, List, [], ◌∷◌, if◌then◌else◌, Bool-cases,
  inl, inr,
}
use enoslib.Base.Eq.{String_eq, ◌==◌}
use enoslib.Base.Dict.{get, put, get-put, has_key, IsMapping}
use enoslib.Api.Tasks.{
  Arg, null, flag, number, text, texts, Args, plain, fields, Task, update, split_args, removed,
  get_or, truth, plain_args, call_args, with_register, with_module, call, context_args,
  ansible_top_level,
}
use enoslib.Api.Tasks.Split.{
  or_else, get_last, get-update, get_last-get, get_last-removed, get_last-absent, plain_option,
  get_last-plain_args, update-IsMapping,
}
use enoslib.Api.Tasks.Keywords.{IsPlain, become-IsPlain, become_user-IsPlain, last_write-get_last}

get-with_module :
    (n prefix : String) (args : List Arg) (module_args : Args) (task : Task)
    → (prefix == n) ≡ false
    → ("args" == n) ≡ false
    → get n (with_module prefix args module_args task) ≡ get n task
unfolding with_module update
get-with_module n prefix [] module_args task p a =
    get-put prefix n (fields module_args) task ∙ rw p refl
get-with_module n prefix (arg ∷ args) module_args task p a =
    get-put "args" n (fields module_args) (put prefix (plain arg) task)
    ∙ rw a (get-put prefix n (plain arg) task ∙ rw p refl)

get-with_register :
    (n : String) (register v : Arg)
    → ("register" == n) ≡ false
    → ("name" == n) ≡ false
    → get n (with_register register (("name", plain v) ∷ [])) ≡ none
unfolding with_register get put
get-with_register n null v r m = rw m refl
get-with_register n (flag b) v r m = rw (m, r) refl
get-with_register n (number k) v r m = rw (m, r) refl
get-with_register n (text s) v r m = rw (m, r) refl
get-with_register n (texts ss) v r m = rw (m, r) refl

get_last-call_args :
    (n : String) (kwds own : Args)
    → ("background" == n) ≡ false
    → IsMapping kwds
    → get_last n (call_args kwds own) ≡ or_else (get_last n own) (get n kwds)
unfolding call_args
get_last-call_args n kwds own b m =
    let all = update kwds own in
    let same = get_last-get n all (update-IsMapping kwds own m) ∙ get-update n kwds own in
    elim (Bool-cases (truth (get_or "background" (flag false) all))) [
      | inl h ↦ rw h same
      | inr h ↦ rw h (get_last-removed "background" n all b ∙ same)
    ]

context_args-IsMapping : (user : String) (b : Bool) → IsMapping (context_args (some user) b)
unfolding context_args
context_args-IsMapping user true = (refl, tt)
context_args-IsMapping user false = (refl, (refl, tt))

-- A keyword that is neither of the names that the code treats on their own.
record IsFree (n : String) : Type 0 where
  register : ("register" == n) ≡ false
  task_name : ("task_name" == n) ≡ false
  background : ("background" == n) ≡ false
  name : ("name" == n) ≡ false
  args : ("args" == n) ≡ false

-- A keyword of the context that the task does not set comes to the top level of the task.
get-call :
    (n prefix : String) (args : List Arg) (kwds own : Args)
    → IsFree n
    → IsPlain n ansible_top_level
    → has_key n ansible_top_level ≡ true
    → IsMapping kwds
    → has_key n own ≡ false
    → (prefix == n) ≡ false
    → get n (call kwds prefix args own) ≡ or_else (plain_option (get n kwds)) none
unfolding call
get-call n prefix args kwds own free plain_n top m h p =
    let register = get_or "register" null (removed "task_name" own) in
    let own' = removed "register" (removed "task_name" own) in
    let task =
      with_register register (("name", plain (get_or "task_name" (text prefix) own)) ∷ []) in
    let (top_args, module_args) = split_args (call_args kwds own') in
    let absent : get_last n own' ≡ none =
      get_last-removed "register" n (removed "task_name" own) free.register
      ∙ get_last-removed "task_name" n own free.task_name
      ∙ get_last-absent n own h in
    get-with_module n prefix args module_args (update task (plain_args top_args)) p free.args
    ∙ get-update n task (plain_args top_args)
    ∙ rw
        (
          get_last-plain_args n (call_args kwds own'),
          last_write-get_last n (call_args kwds own') plain_n top,
          get_last-call_args n kwds own' free.background m,
          absent,
          get-with_register n register (get_or "task_name" (text prefix) own) free.register
              free.name,
        )
        refl

-- In a context that runs as a user, a task that does not say otherwise becomes that user; but not if
-- the context runs in the background as well, which drops the user.
pub call-context_args :
    (background : Bool) (user prefix : String) (args : List Arg) (own : Args)
    → has_key "become" own ≡ false
    → has_key "become_user" own ≡ false
    → (prefix == "become") ≡ false
    → (prefix == "become_user") ≡ false
    → (get "become" (call (context_args (some user) background) prefix args own)
        ≡ (if background then none else some (plain (flag true))))
      × (get "become_user" (call (context_args (some user) background) prefix args own)
          ≡ (if background then none else some (plain (text user))))
call-context_args background user prefix args own h hu p pu = (
  get-call "become" prefix args (context_args (some user) background) own
        (record { register = refl; task_name = refl; background = refl; name = refl; args = refl })
        become-IsPlain refl (context_args-IsMapping user background) h p
      ∙ unfold context_args plain_option get in
        elim (Bool-cases background) [ inl b ↦ rw b refl | inr b ↦ rw b refl ],
  get-call "become_user" prefix args (context_args (some user) background) own
        (record { register = refl; task_name = refl; background = refl; name = refl; args = refl })
        become_user-IsPlain refl (context_args-IsMapping user background) hu pu
      ∙ unfold context_args plain_option get in
        elim (Bool-cases background) [ inl b ↦ rw b refl | inr b ↦ rw b refl ],
)
