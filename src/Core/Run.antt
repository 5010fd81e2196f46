-- ===== src/Core/Run.antt =====
-- The life of the daemon (supervice/core.py, `run`, `shutdown`, `_acquire_pidfile_lock` and
-- `_release_pidfile_lock`): what it does in which order, whatever fails. Its effects are kept as a
-- journal; what the operating system answers is the record `Host`.
pub mod Cycle
pub mod Begins
use supervice.Attempt.{
  Ended, returned, raised, Attempt, ◌>>=◌, ◌>>◌, pure, raise, ensure, suppress, modify, require,
}
use supervice.Prelude.{Bool, true, false, not, List, [], ◌∷◌, ◌++◌, Text, if◌then◌else◌}
use supervice.Rpc.Socket.{Os, Socket, SocketError, start_server, stop_server}

pub data Effect : Type 0 where
  took_lock bus_started socket_bound signalled : Effect
  socket_closed bus_stopped all_ended gave_up dropped_lock : Effect
  began asked : Text → Effect

-- What `run` raises: the OSError of os.open or of writing the process id, the RuntimeError of a lock
-- that another daemon holds, what the server's start or stop raises, or CancelledError.
pub data Failure : Type 0 where
  pidfile_error already_running cancelled : Failure
  socket_error : SocketError → Failure

-- Whether os.open, fcntl.flock and the write of the process id succeed; what the server meets when it
-- starts and when it stops; whether the wait for a signal is cancelled; and whether every process has
-- stopped in `shutdown_timeout`.
pub record Host : Type 0 where
  pub opens : Bool
  pub locks : Bool
  pub writes : Bool
  pub at_start : Os
  pub at_stop : Os
  pub is_cancelled : Bool
  pub stops_in_time : Bool

-- What `run` looks at, in a run without a reload: whether `config.pidfile` is not empty, whether
-- `rpc_server` is set, the names of the processes; and `_pidfile_fd`, the server's socket and what was
-- done.
pub record Daemon : Type 0 where
  pub has_pidfile : Bool
  pub has_server : Bool
  pub processes : List Text
  pub holds_lock : Bool
  pub socket : Socket
  pub journal : List Effect

did : Effect → Attempt Daemon Failure (Unit {0})
did e = modify (λ (d : Daemon). record d { journal = d.journal ++ e ∷ [] })

set_lock : Bool → Attempt Daemon Failure (Unit {0})
set_lock b = modify (λ (d : Daemon). record d { holds_lock = b })

-- `_acquire_pidfile_lock`: the lock is taken before the process id is written, and `_pidfile_fd` is
-- set after it.
acquire_pidfile_lock : Host → Attempt Daemon Failure (Unit {0})
unfolding did set_lock
acquire_pidfile_lock host = do
  require host.opens pidfile_error
  require host.locks already_running
  did took_lock
  require host.writes pidfile_error
  set_lock true

release_if : Bool → Attempt Daemon Failure (Unit {0})
unfolding did set_lock
release_if false = pure tt
release_if true = do did dropped_lock; set_lock false

-- `_release_pidfile_lock`, up to the pid file's removal
release_pidfile_lock : Attempt Daemon Failure (Unit {0})
unfolding release_if
release_pidfile_lock d = release_if d.holds_lock d

lifted : Ended SocketError (Unit {0}) → Ended Failure (Unit {0})
lifted (returned u) = returned u
lifted (raised x) = raised (socket_error x)

bound_effect : Ended SocketError (Unit {0}) → List Effect
bound_effect (returned u) = socket_bound ∷ []
bound_effect (raised x) = []

bind_server : Bool → Host → Attempt Daemon Failure (Unit {0})
unfolding lifted bound_effect start_server
bind_server false host = pure tt
bind_server true host = λ d.
    let (r, socket) = start_server host.at_start d.socket in
    (lifted r, record d { socket = socket; journal = d.journal ++ bound_effect r })

closed_effect : Bool → List Effect
closed_effect false = []
closed_effect true = socket_closed ∷ []

close_server : Bool → Host → Attempt Daemon Failure (Unit {0})
unfolding lifted closed_effect stop_server
close_server false host = pure tt
close_server true host = λ d.
    let (r, socket) = stop_server host.at_stop d.socket in
    (lifted r, record d { socket = socket; journal = d.journal ++ closed_effect d.socket.server })

-- The loop over the processes, and the gathering of the coroutines it makes.
unfoldable pub each : (Text → Effect) → List Text → Attempt Daemon Failure (Unit {0})
unfolding did
each f [] = pure tt
each f (n ∷ ns) = do did (f n); each f ns

acquire_if : Bool → Host → Attempt Daemon Failure (Unit {0})
unfolding acquire_pidfile_lock
acquire_if false host = pure tt
acquire_if true host = acquire_pidfile_lock host

-- What `run` tries: each process is started only after the server is.
run_body : Host → Bool → Bool → List Text → Attempt Daemon Failure (Unit {0})
unfolding acquire_if did bind_server each
run_body host has_pidfile has_server names = do
  acquire_if has_pidfile host
  did bus_started
  bind_server has_server host
  each began names
  require (not host.is_cancelled) cancelled
  did signalled

-- asyncio.wait_for, if there is a process to stop
wait_for_stops : Host → List Text → Attempt Daemon Failure (Unit {0})
unfolding did
wait_for_stops host [] = pure tt
wait_for_stops host (n ∷ ns) = did (if host.stops_in_time then all_ended else gave_up)

-- `shutdown`
unfoldable pub shutdown : Host → Bool → List Text → Attempt Daemon Failure (Unit {0})
unfolding close_server did each wait_for_stops release_pidfile_lock
shutdown host has_server names = do
  close_server has_server host
  did bus_stopped
  each asked names
  wait_for_stops host names
  release_pidfile_lock

-- `run`
unfoldable pub run : Host → Attempt Daemon Failure (Unit {0})
unfolding run_body shutdown
run host d =
    ensure (run_body host d.has_pidfile d.has_server d.processes)
      (suppress (shutdown host d.has_server d.processes)) d

-- A daemon that has its configuration and has not done anything yet.
abbrev pub fresh : Bool → Bool → List Text → Socket → Daemon
fresh has_pidfile has_server names socket = record {
  has_pidfile = has_pidfile;
  has_server = has_server;
  processes = names;
  holds_lock = false;
  socket = record socket { server = false; listening = false };
  journal = [];
}
