-- ===== src/Rpc/Server.antt =====
-- How the RPC server takes a request apart and answers it (supervice/rpc.py, `handle_client` and
-- `process_request`). How json.loads ends on a body is a parameter.
pub mod Serves
pub mod Groups
use supervice.Prelude.Dict.{Dict, lookup}
use supervice.Prelude.{
  ℕ, ◌-◌, ◌/◌, Bool, true, false, Option, none, some, List, [], ◌∷◌, ◌++◌, Text, codes, text_eq,
  if◌then◌else◌,
}
use supervice.Core.Reload.{mem, filter}
use supervice.Core.Reload.Stages.{is_some}
use supervice.Process.State.{State, Process, live_pid}
use supervice.Rpc.Frame.{Received, message, incomplete, too_large, read_message}
use supervice.Rpc.Replies.{Reply, Status, ok, error, status}

abbrev pub valid_commands : List Text
valid_commands =
    codes "status"
    ∷ codes "start"
    ∷ codes "stop"
    ∷ codes "restart"
    ∷ codes "startgroup"
    ∷ codes "stopgroup"
    ∷ codes "reload"
    ∷ []

-- The value of "command" in a request: none, a text, another value that can be hashed, or a list or
-- an object, for which `in` raises TypeError.
pub data CommandValue : Type 0 where
  no_command : CommandValue
  command : Text → CommandValue
  other_value unhashable : CommandValue

-- How decoding a body ends: UnicodeDecodeError, JSONDecodeError, a value that is no object, or one.
pub data Decoded : Type 0 where
  bad_text bad_json not_object : Decoded
  object : CommandValue → Decoded

-- What the client is sent: nothing, an error by its code, or what `process_request` makes of a
-- command.
pub data Answered : Type 0 where
  nothing empty_request invalid_json invalid_request unknown_command internal_error : Answered
  processed : Text → Answered

answer_command : CommandValue → Answered
unfolding mem
answer_command no_command = unknown_command
answer_command (command c) = if mem c valid_commands then processed c else unknown_command
answer_command other_value = unknown_command
answer_command unhashable = internal_error

answer_decoded : Decoded → Answered
unfolding answer_command
answer_decoded bad_text = internal_error
answer_decoded bad_json = invalid_json
answer_decoded not_object = invalid_request
answer_decoded (object v) = answer_command v

answer_body : (List ℕ → Decoded) → List ℕ → Answered
unfolding answer_decoded
answer_body decode [] = empty_request
answer_body decode (b ∷ bs) = answer_decoded (decode (b ∷ bs))

answer_received : (List ℕ → Decoded) → Received → Answered
unfolding answer_body
answer_received decode (message body rest) = answer_body decode body
answer_received decode incomplete = nothing
answer_received decode (too_large n rest) = internal_error

-- `handle_client`, up to the call of `process_request`
unfoldable pub handle_client : (List ℕ → Decoded) → List ℕ → Answered
unfolding answer_received read_message
handle_client decode stream = answer_received decode (read_message stream)

-- What `process_request` goes on to do: the branches of its conditions, with the processes that a
-- group's command is for.
pub data Action : Type 0 where
  report_status reload_config : Action
  stop_program start_program : Text → Action
  restart_program : Text → Bool → Action
  stop_group start_group : Text → List Text → Action
  process_missing group_missing not_a_command : Action

has {ℓ} : {V : Type ℓ} → Dict V → Text → Bool
unfolding lookup
has d k = is_some (lookup k d)

-- `name and name in d`: the name, if so
known : (Text → Bool) → Option Text → Option Text
known test none = none
known test (some []) = none
known test (some (c ∷ cs)) = if test (c ∷ cs) then some (c ∷ cs) else none

on_process : (Text → Action) → Option Text → Action
on_process f none = process_missing
on_process f (some name) = f name

members_there : Dict Process → Option (List Text) → List Text
unfolding filter has
members_there procs none = []
members_there procs (some names) = filter (has procs) names

on_group : (Text → List Text → Action) → Dict Process → Dict (List Text) → Option Text → Action
unfolding members_there lookup
on_group f procs groups none = group_missing
on_group f procs groups (some g) = f g (members_there procs (lookup g groups))

-- `process_request`, on the command, the name and the force flag of a request
unfoldable pub process_request :
    Dict Process → Dict (List Text) → Text → Option Text → Bool → Action
unfolding on_process on_group known has
process_request procs groups c name force =
    if text_eq c (codes "status")
    then report_status
    else (if text_eq c (codes "stop")
        then on_process stop_program (known (has procs) name)
        else (if text_eq c (codes "start")
            then on_process start_program (known (has procs) name)
            else (if text_eq c (codes "restart")
                then on_process (λ n. restart_program n force) (known (has procs) name)
                else (if text_eq c (codes "stopgroup")
                    then on_group stop_group procs groups (known (has groups) name)
                    else (if text_eq c (codes "startgroup")
                        then on_group start_group procs groups (known (has groups) name)
                        else (if text_eq c (codes "reload")
                            then reload_config
                            else not_a_command))))))

-- What the members of a group came to, in the order of their names: `none` for an exception.
is_ok : Option Reply → Bool
is_ok none = false
is_ok (some r) = elim (status r) [ ok ↦ true | error ↦ false ]

with_name : Text → Option (List Text) → Option (List Text)
with_name n none = none
with_name n (some ns) = some (n ∷ ns)

-- `zip(names, results, strict=True)`: `none` is its ValueError.
unfoldable pub failed_names : List Text → List (Option Reply) → Option (List Text)
unfolding is_ok with_name
failed_names [] [] = some []
failed_names [] (r ∷ rs) = none
failed_names (n ∷ ns) [] = none
failed_names (n ∷ ns) (r ∷ rs) =
    let rest = failed_names ns rs in if is_ok r then rest else with_name n rest

-- The reply to `stopgroup` or `startgroup`.
pub data GroupReply : Type 0 where
  group_done : GroupReply
  group_failed : List Text → GroupReply
  group_error : GroupReply

group_reply_of : Option (List Text) → GroupReply
group_reply_of none = group_error
group_reply_of (some []) = group_done
group_reply_of (some (n ∷ ns)) = group_failed (n ∷ ns)

unfoldable pub group_reply : List Text → List (Option Reply) → GroupReply
unfolding group_reply_of
group_reply names results = group_reply_of (failed_names names results)

-- A process in the report of `status`: its name, state, pid if it is alive, seconds of running if
-- it is alive and has reached RUNNING, and health if it has been checked.
pub record Info : Type 0 where
  pub name : Text
  pub state : State
  pub pid : Option ℕ
  pub uptime : Option ℕ
  pub healthy : Option Bool

uptime_of : ℕ → Option ℕ → Option ℕ → Option ℕ
uptime_of now none pid = none
uptime_of now (some t) none = none
uptime_of now (some t) (some pid) = some ((now - t) / 1000)

unfoldable pub info : ℕ → Text → Process → Info
unfolding uptime_of
info now name p = record {
  name = name;
  state = p.state;
  pid = live_pid p.child;
  uptime = uptime_of now p.started_at (live_pid p.child);
  healthy = p.is_healthy;
}

unfoldable pub report : ℕ → Dict Process → List Info
unfolding info
report now [] = []
report now ((name, p) ∷ procs) = info now name p ∷ report now procs
