-- ===== src/Api/Results.antt =====
-- `_AnsibleExecutionRecord`, `_MyCallback`, the classes of results and `Results`. `V` is the type of
-- Python's values; the attributes of a result are those of the dataclass and its payload's keys, so
-- that names of methods are left out of `match`.
pub mod Filter
use enoslib.Base.{String, Bool, true, false, Option, none, some, List, [], ◌∷◌, map, if◌then◌else◌}
use enoslib.Base.Eq.{Eq, String_eq, ◌==◌}
use enoslib.Base.Dict.{Dict, get, put, has_key}
use enoslib.Base.Options.{◌>>=◌}
use enoslib.Collections.ResourcesSet.{contains}

abbrev pub status_ok : String
status_ok = "OK"

abbrev pub status_failed : String
status_failed = "FAILED"

abbrev pub status_unreachable : String
status_unreachable = "UNREACHABLE"

abbrev pub status_skipped : String
status_skipped = "SKIPPED"

-- `_AnsibleExecutionRecord`
pub record ExecutionRecord (V : Type 0) : Type 0 where
  pub host : String
  pub status : String
  pub task : String
  pub payload : Dict String V

-- How a task ended on a host, as Ansible tells the callback.
pub data Ended : Type 0 where
  failed : (ignore_errors : Bool) → Ended
  passed skipped unreachable : Ended

pub record Event (V : Type 0) : Type 0 where
  pub ended : Ended
  pub host : String
  pub task : String
  pub result : Dict String V

unfoldable pub status_of : Ended → String
status_of (failed ignore_errors) = if ignore_errors then status_ok else status_failed
status_of passed = status_ok
status_of skipped = status_skipped
status_of unreachable = status_unreachable

-- `_store`
unfoldable pub store : {V : Type 0} → Event V → ExecutionRecord V
unfolding status_of
store e = record { host = e.host; status = status_of e.ended; task = e.task; payload = e.result }

pub data ResultKind : Type 0 where
  command async_command custom_command : ResultKind

pub record CommandResult (V : Type 0) : Type 0 where
  pub kind : ResultKind
  pub host : String
  pub task : String
  pub status : String
  pub payload : Dict String V

unfoldable pub payload_keys : ResultKind → List String
payload_keys command = "stdout" ∷ "stderr" ∷ "rc" ∷ []
payload_keys async_command = "results_file" ∷ "ansible_job_id" ∷ []
payload_keys custom_command = []

unfoldable pub kind_of : {V : Type 0} → Dict String V → ResultKind
kind_of payload =
    if has_key "ansible_job_id" payload
    then async_command
    else if has_key "rc" payload
    then command
    else custom_command

unfoldable pub from_play : {V : Type 0} → ExecutionRecord V → CommandResult V
unfolding kind_of
from_play r = record {
  kind = kind_of r.payload;
  host = r.host;
  task = r.task;
  status = r.status;
  payload = r.payload;
}

unfoldable pub from_ansible : {V : Type 0} → List (ExecutionRecord V) → List (CommandResult V)
unfolding from_play
from_ansible records = map from_play records

unfoldable pub is_ok : {V : Type 0} → CommandResult V → Bool
is_ok r = r.status == status_ok

-- Python's values: `None`, texts and dictionaries among them.
pub record Values (V : Type 0) : Type 0 where
  pub null : V
  pub text : String → V
  pub dict : Dict String V → V

unfoldable pub kept :
    {V : Type 0} → Bool → CommandResult V → List (CommandResult V) → List (CommandResult V)
kept matches r rs = if matches then r ∷ rs else rs

module _ {V : Type 0} (values : Values V) where
  unfoldable pub or_null : Option V → V
  or_null none = values.null
  or_null (some v) = v

  -- `getattr(self, k)`: none is an AttributeError
  unfoldable pub attribute : CommandResult V → String → Option V
  unfolding or_null payload_keys get contains
  attribute r k =
      if k == "host"
      then some (values.text r.host)
      else if k == "task"
      then some (values.text r.task)
      else if k == "status"
      then some (values.text r.status)
      else if k == "payload"
      then some (values.dict r.payload)
      else if contains (payload_keys r.kind) k
      then some (or_null (get k r.payload))
      else none

  -- `_payload_keys` with their values, in front of the payload if it is asked for
  shown : List String → Dict String V → Dict String V
  unfolding or_null get put
  shown [] payload = []
  shown (k ∷ keys) payload = (k, or_null (get k payload)) ∷ shown keys payload

  with_payload : Bool → Dict String V → Dict String V → Dict String V
  unfolding put
  with_payload include_payload payload d =
      if include_payload then put "payload" (values.dict payload) d else d

  unfoldable pub to_dict : Bool → CommandResult V → Dict String V
  unfolding shown with_payload payload_keys
  to_dict include_payload r =
      ("host", values.text r.host)
      ∷ ("task", values.text r.task)
      ∷ ("status", values.text r.status)
      ∷ with_payload include_payload r.payload (shown (payload_keys r.kind) r.payload)

  module _ ⦃eq : Eq V⦄ where
    -- `match`: it stops at the first keyword that differs; none is an AttributeError
    unfoldable pub match : CommandResult V → List (String × V) → Option Bool
    unfolding attribute
    match r [] = some true
    match r ((k, v) ∷ kwargs) = do
      attr_value ← attribute r k
      let rest = match r kwargs
      if attr_value == v then rest else some false

    -- `Results.filter`
    unfoldable pub filter :
        List (String × V) → List (CommandResult V) → Option (List (CommandResult V))
    unfolding match kept
    filter kwargs [] = some []
    filter kwargs (r ∷ results) = do
      matches ← match r kwargs
      rest ← filter kwargs results
      some (kept matches r rest)

-- `Results.ok`
unfoldable pub ok_results : {V : Type 0} → List (CommandResult V) → List (CommandResult V)
unfolding is_ok
ok_results [] = []
ok_results (r ∷ results) = if is_ok r then r ∷ ok_results results else ok_results results
