-- ===== src/Rpc/Socket.antt =====
-- The server's socket (supervice/rpc.py, `_probe_socket`, `start` and `stop`). What the operating
-- system answers is the record `Os`; nobody else touches the path while a method runs.
pub mod Starts
use supervice.Attempt.{
  Ended, returned, raised, Attempt, ◌>>=◌, ◌>>◌, pure, raise, ensure, modify, require,
}
use supervice.Prelude.{ℕ, zero, suc, Bool, true, false, Option, none, some, List, [], ◌∷◌, Text}
use supervice.Rpc.Frame.{Received, message, incomplete, too_large, read_message}

pub data Errno : Type 0 where
  econnrefused enoent enotsock other_errno : Errno

-- What a client that asks for the status meets: an error when it writes, no answer in two seconds,
-- or the bytes that come until the other side closes.
pub data Exchange : Type 0 where
  write_failed no_answer : Exchange
  answers : List ℕ → Exchange

-- How open_unix_connection ends.
pub data Connection : Type 0 where
  connect_timeout : Connection
  connect_failed : Errno → Connection
  connected : Exchange → Connection

-- The answers of one start or stop: of the connection, and whether os.unlink and
-- asyncio.start_unix_server succeed.
pub record Os : Type 0 where
  pub connection : Connection
  pub unlinks : Bool
  pub listens : Bool

-- What the docstring of `_probe_socket` classifies.
pub data Probe : Type 0 where
  alive stale unknown : Probe

pub data SocketError : Type 0 where
  already_listening not_verified cannot_remove cannot_listen unlink_failed : SocketError
  message_too_large : ℕ → SocketError

-- The path, the process's umask, and the server: whether `self.server` is set, whether it accepts
-- connections, and the umask under which its socket was made.
pub record Socket : Type 0 where
  pub at_path : Bool
  pub umask : ℕ
  pub server : Bool
  pub listening : Bool
  pub made_under : Option ℕ

-- 0o177
abbrev pub private_umask : ℕ
private_umask = 127

judge_error : Errno → Probe
judge_error econnrefused = stale
judge_error enoent = stale
judge_error enotsock = stale
judge_error other_errno = unknown

judge_answer : Received → Ended ℕ Probe
judge_answer (message body rest) = returned alive
judge_answer incomplete = returned unknown
judge_answer (too_large n rest) = raised n

judge_exchange : Exchange → Ended ℕ Probe
unfolding judge_answer read_message
judge_exchange write_failed = returned unknown
judge_exchange no_answer = returned unknown
judge_exchange (answers bytes) = judge_answer (read_message bytes)

-- `_probe_socket`: the ValueError of a frame that is too large, here its length, is not handled.
unfoldable pub probe_socket : Connection → Ended ℕ Probe
unfolding judge_error judge_exchange
probe_socket connect_timeout = returned unknown
probe_socket (connect_failed e) = returned (judge_error e)
probe_socket (connected x) = judge_exchange x

-- What `start` does about a path that exists.
clear_probed : Os → Probe → Attempt Socket SocketError (Unit {0})
clear_probed os alive = raise already_listening
clear_probed os unknown = raise not_verified
clear_probed os stale = do
  require os.unlinks cannot_remove
  modify (λ (s : Socket). record s { at_path = false })

passed_on : Ended ℕ Probe → Ended SocketError Probe
passed_on (returned probe) = returned probe
passed_on (raised n) = raised (message_too_large n)

probed : Connection → Attempt Socket SocketError Probe
unfolding probe_socket passed_on
probed c s = (passed_on (probe_socket c), s)

clear_if : Bool → Os → Attempt Socket SocketError (Unit {0})
unfolding clear_probed probed
clear_if false os = pure tt
clear_if true os = do probe ← probed os.connection; clear_probed os probe

clear_path : Os → Attempt Socket SocketError (Unit {0})
unfolding clear_if
clear_path os s = clear_if s.at_path os s

listen : Os → Attempt Socket SocketError (Unit {0})
listen os = do
  require os.listens cannot_listen
  modify (λ (s : Socket). record s {
    at_path = true;
    server = true;
    listening = true;
    made_under = some s.umask;
  })

set_umask : ℕ → Socket → Socket
set_umask n s = record s { umask = n }

-- os.umask(0o177), the server, and the old umask again
bind : Os → Attempt Socket SocketError (Unit {0})
unfolding listen set_umask
bind os s = ensure (listen os) (modify (set_umask s.umask)) (set_umask private_umask s)

-- `start`, but for its warning about a directory that is writable by all
unfoldable pub start_server : Os → Attempt Socket SocketError (Unit {0})
unfolding clear_path bind
start_server os = do clear_path os; bind os

unlink_if : Bool → Os → Attempt Socket SocketError (Unit {0})
unlink_if false os = pure tt
unlink_if true os = do
  require os.unlinks unlink_failed
  modify (λ (s : Socket). record s { at_path = false })

unlink_path : Os → Attempt Socket SocketError (Unit {0})
unfolding unlink_if
unlink_path os s = unlink_if s.at_path os s

close_if : Bool → Os → Attempt Socket SocketError (Unit {0})
unfolding unlink_path
close_if false os = pure tt
close_if true os = do modify (λ (s : Socket). record s { listening = false }); unlink_path os

-- `stop`
unfoldable pub stop_server : Os → Attempt Socket SocketError (Unit {0})
unfolding close_if
stop_server os s = close_if s.server os s
