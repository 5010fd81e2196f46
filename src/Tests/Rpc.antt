-- ===== src/Tests/Rpc.antt =====
-- The RPC server's framing and replies on small inputs.
use supervice.Prelude.{
  ℕ, ◌+◌, ◌≡◌, ◌≢◌, refl, true, Option, Text, text_eq, some, none, List, [], ◌∷◌, ◌++◌, arith,
  false, length, take, codes,
}
use supervice.Models.{default_program}
use supervice.Process.Kill.{Signals}
use supervice.Process.Requests.Deadline.{at_once, start_process-ends}
use supervice.Process.Requests.Outcomes.{Any, MayRaise}
use supervice.Process.Requests.{start_process}
use supervice.Process.State.{new}
use supervice.Rpc.Frame.RoundTrip.{read_message-write_message, read_message-take}
use supervice.Rpc.Frame.{header_size, message, incomplete, read_message, write_message}
use supervice.Rpc.Server.Serves.{handle_client-processed, handle_client-nothing}
use supervice.Core.Reload.{mem}
use supervice.Rpc.Frame.RoundTrip.{IsFramed}
use supervice.Rpc.Server.Groups.{Reports, group_reply-Reports}
use supervice.Rpc.Server.{
  valid_commands, Decoded, object, command, processed, nothing, handle_client, process_request,
  not_a_command, group_reply, failed_names, group_failed,
}
use supervice.Rpc.Replies.Truth.{SaysOfStart, start_one-Says}
use supervice.Rpc.Replies.{start_one, Reply, stopped, status}
use supervice.Task.Ensures.{Ensures}
use supervice.Task.{out_of_rounds}

abbrev hello : List ℕ
hello = 104 ∷ 105 ∷ []

abbrev hello_frame : List ℕ
hello_frame = 0 ∷ 0 ∷ 0 ∷ 2 ∷ 104 ∷ 105 ∷ []

frames_hello : write_message hello ≡ some hello_frame
unfolding write_message
frames_hello = refl

reads_two : read_message (hello_frame ++ hello_frame) ≡ message hello hello_frame
unfolding read_message
reads_two = refl

read_message-write_message_example :
    (frame : List ℕ) × (write_message hello ≡ some frame)
    × (length frame ≡ header_size + length hello)
    × (read_message (frame ++ hello_frame) ≡ message hello hello_frame)
read_message-write_message_example = read_message-write_message hello hello_frame (omega arith)

read_message-take_example : read_message (take 5 hello_frame) ≡ incomplete
read_message-take_example =
    read_message-take hello hello_frame 5 (omega arith) frames_hello (omega arith)

abbrev no_signals : Signals
no_signals = record { number = λ name. none }

start_one-Says_example : Ensures Any SaysOfStart MayRaise (start_one (codes "web") 3)
start_one-Says_example = start_one-Says (codes "web") 3

start_process-ends_example :
    start_process 6001 (new (default_program (codes "web") (codes "serve")))
    ≢ out_of_rounds (new (default_program (codes "web") (codes "serve")))
start_process-ends_example =
    start_process-ends 6001 (new (default_program (codes "web") (codes "serve")))
      (unfold new in omega arith) at_once (new (default_program (codes "web") (codes "serve")))

-- Every body is read as a request for a reload.
abbrev as_reload : List ℕ → Decoded
as_reload body = object (command (codes "reload"))

reloads : handle_client as_reload hello_frame ≡ processed (codes "reload")
unfolding handle_client text_eq
reloads = refl

handle_client-processed_example :
    (body : List ℕ) × (rest : List ℕ) × (IsFramed hello_frame body rest)
    × (as_reload body ≡ object (command (codes "reload")))
    × (mem (codes "reload") valid_commands ≡ true)
    × (process_request [] [] (codes "reload") none false ≢ not_a_command)
handle_client-processed_example =
    handle_client-processed as_reload hello_frame (codes "reload") reloads [] [] none false

says_nothing : handle_client as_reload (take 5 hello_frame) ≡ nothing
unfolding read_message
says_nothing = (handle_client-nothing as_reload (take 5 hello_frame)).1 refl

abbrev pair : List Text
pair = codes "a" ∷ codes "b" ∷ []

abbrev one_failed : List (Option Reply)
one_failed = some (stopped (codes "a")) ∷ none ∷ []

tells_failed : group_reply pair one_failed ≡ group_failed (codes "b" ∷ [])
unfolding group_reply failed_names status
tells_failed = refl

group_reply-Reports_example : Reports (group_reply pair one_failed) pair one_failed
group_reply-Reports_example = group_reply-Reports pair one_failed refl
