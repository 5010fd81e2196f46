-- ===== src/Client/Commands.antt =====
-- The client (supervice/client.py): a command's request and reply, what it prints and how it exits.
-- json.dumps and json.loads, the socket and argparse are parameters.
pub mod Exits
pub mod Answers
use supervice.Attempt.{Ended, returned, raised}
use supervice.Client.Table.{Row, table}
use supervice.Prelude.{
  ℕ, Bool, true, false, Option, none, some, List, [], ◌∷◌, ◌++◌, String, Text, codes, text_eq,
  if◌then◌else◌,
}
use supervice.Rpc.Frame.{Received, message, incomplete, too_large, read_message, write_message}

-- What `main` calls, with the arguments of the command line.
pub data Command : Type 0 where
  status reload : Command
  start_process stop_process start_group stop_group : Text → Command
  restart_process : Text → Bool → Command

-- The object that is sent: "command", and "name" and "force" where the command has them.
pub record Request : Type 0 where
  pub command : Text
  pub name : Option Text
  pub force : Option Bool

named_request : Text → Text → Request
named_request c n = record { command = c; name = some n; force = none }

unfoldable pub request_of : Command → Request
unfolding named_request
request_of status = record { command = codes "status"; name = none; force = none }
request_of reload = record { command = codes "reload"; name = none; force = none }
request_of (start_process n) = named_request (codes "start") n
request_of (stop_process n) = named_request (codes "stop") n
request_of (start_group n) = named_request (codes "startgroup") n
request_of (stop_group n) = named_request (codes "stopgroup") n
request_of (restart_process n force) = record {
  command = codes "restart";
  name = some n;
  force = some force;
}

-- The object that is received: `get` finds `none` where it has no such key, and the empty list for a
-- list that it lacks.
pub record Response : Type 0 where
  pub status : Option Text
  pub message : Option Text
  pub processes : List Row
  pub added : List Text
  pub removed : List Text
  pub changed : List Text

-- What a command raises: FileNotFoundError, another OSError, struct.error, TimeoutError,
-- IncompleteReadError, the ValueError on a long reply, or what json.loads raises.
pub data ClientError : Type 0 where
  no_socket not_connected unsendable timed_out cut_short bad_reply : ClientError
  reply_too_large : ℕ → ClientError

-- How open_unix_connection ends: where it succeeds, the bytes that the other side sends before it
-- closes, from those that it is sent, or `none` if the time-out is reached first.
pub data Connection : Type 0 where
  not_there not_accepted : Connection
  accepted : (List ℕ → Option (List ℕ)) → Connection

pub record Json : Type 0 where
  pub dumps : Request → List ℕ
  pub loads : List ℕ → Option Response

decoded_reply : Option Response → Ended ClientError Response
decoded_reply none = raised bad_reply
decoded_reply (some r) = returned r

receive : Json → Received → Ended ClientError Response
unfolding decoded_reply
receive json (message body rest) = decoded_reply (json.loads body)
receive json incomplete = raised cut_short
receive json (too_large n rest) = raised (reply_too_large n)

wait_for : Json → Option (List ℕ) → Ended ClientError Response
unfolding receive read_message
wait_for json none = raised timed_out
wait_for json (some stream) = receive json (read_message stream)

exchange_frame : Json → (List ℕ → Option (List ℕ)) → Option (List ℕ) → Ended ClientError Response
unfolding wait_for
exchange_frame json answer none = raised unsendable
exchange_frame json answer (some frame) = wait_for json (answer frame)

-- `send_command` and `_exchange`
unfoldable pub send_command : Json → Connection → Request → Ended ClientError Response
unfolding exchange_frame write_message
send_command json not_there request = raised no_socket
send_command json not_accepted request = raised not_connected
send_command json (accepted answer) request =
    exchange_frame json answer (write_message (json.dumps request))

-- What is printed: a line, a message of the server's, one after "Error:", that no socket was found,
-- or an exception.
pub data Printed : Type 0 where
  line : Text → Printed
  message_line error_line : Option Text → Printed
  not_running : Printed
  exception_line connecting_line : ClientError → Printed

pub record Shown : Type 0 where
  pub output : List Printed
  pub success : Bool

unfoldable pub says_ok : Option Text → Bool
says_ok none = false
says_ok (some s) = text_eq s (codes "ok")

lines : List Text → List Printed
lines [] = []
lines (t ∷ ts) = line t ∷ lines ts

-- `start_process` to `stop_group`: the five have the same body.
show_message : Ended ClientError Response → Shown
unfolding says_ok
show_message (returned r) = record {
  output = message_line r.message ∷ [];
  success = says_ok r.status;
}
show_message (raised e) = record { output = exception_line e ∷ []; success = false }

refused : Response → Shown
refused r = record { output = error_line r.message ∷ []; success = false }

show_status : Ended ClientError Response → Shown
unfolding says_ok lines refused table
show_status (returned r) =
    if says_ok r.status
    then record { output = lines (table r.processes); success = true }
    else refused r
show_status (raised no_socket) = record { output = not_running ∷ []; success = false }
show_status (raised e) = record { output = connecting_line e ∷ []; success = false }

joined : List Text → Text
joined [] = []
joined (t ∷ []) = t
joined (t ∷ ts) = t ++ codes ", " ++ joined ts

listed : String → List Text → List Text
unfolding joined
listed title [] = []
listed title (t ∷ ts) = (codes title ++ joined (t ∷ ts)) ∷ []

or_no_changes : List Text → List Text
or_no_changes [] = codes "No changes detected" ∷ []
or_no_changes (t ∷ ts) = t ∷ ts

changes_of : Response → List Text
unfolding listed or_no_changes
changes_of r = or_no_changes (
    listed "Added: " r.added
    ++ listed "Removed: " r.removed
    ++ listed "Changed (restart to apply): " r.changed)

show_reload : Ended ClientError Response → Shown
unfolding says_ok lines refused changes_of
show_reload (returned r) =
    if says_ok r.status then record { output = lines (changes_of r); success = true } else refused r
show_reload (raised no_socket) = record { output = not_running ∷ []; success = false }
show_reload (raised e) = record { output = exception_line e ∷ []; success = false }

unfoldable pub show : Command → Ended ClientError Response → Shown
unfolding show_message show_status show_reload
show status = show_status
show reload = show_reload
show (start_process n) = show_message
show (stop_process n) = show_message
show (start_group n) = show_message
show (stop_group n) = show_message
show (restart_process n force) = show_message

exit_of : Bool → ℕ
exit_of true = 0
exit_of false = 1

-- `main`, from the command that argparse found: the exit status
unfoldable pub main : Json → Connection → Option Command → ℕ
unfolding exit_of show send_command request_of
main json connection none = 1
main json connection (some c) =
    exit_of (show c (send_command json connection (request_of c))).success
