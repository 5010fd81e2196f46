-- ===== src/Tests/Daemon.antt =====
-- Starts and stops of the server's socket, runs of the daemon, and daemons that share a pid file.
use supervice.Attempt.{returned, raised}
use supervice.Core.PidFile.Excludes.{Reach-Excludes}
use supervice.Core.PidFile.Locks.{held}
use supervice.Core.PidFile.{Daemons, no_daemons, advance, Reach, initially, advanced}
use supervice.Core.Run.Cycle.Follows.{run-Ends}
use supervice.Core.Run.Cycle.Shutdown.{Ends}
use supervice.Core.Run.{
  took_lock, bus_started, socket_bound, signalled, socket_closed, bus_stopped, all_ended,
  dropped_lock, began, asked, Host, Daemon, run, fresh,
}
use supervice.Prelude.{
  ℕ, ◌≡◌, ◌≢◌, ◌<◌, ◌⊎◌, refl, true, false, none, some, List, [], ◌∷◌, Text, codes,
}
use supervice.Rpc.Frame.{read_message}
use supervice.Rpc.Socket.Starts.{
  IsStarted, IsStopped, start_server-IsStarted, stop_server-IsStopped,
}
use supervice.Rpc.Socket.{
  Os, Socket, connect_failed, connected, answers, econnrefused, message_too_large, start_server,
  stop_server,
}

-- Nobody answers at the path.
abbrev quiet_os : Os
quiet_os = record { connection = connect_failed econnrefused; unlinks = true; listens = true }

-- At the path is a server that answers "HTTP".
abbrev http_os : Os
http_os = record { connection = connected (answers (codes "HTTP")); unlinks = true; listens = true }

abbrev pub left_over : Socket
left_over = record {
  at_path = true;
  umask = 18;
  server = false;
  listening = false;
  made_under = none;
}

abbrev served : Socket
served = record {
  at_path = true;
  umask = 18;
  server = true;
  listening = true;
  made_under = some 127;
}

takes_stale : start_server quiet_os left_over ≡ (returned tt, served)
unfolding start_server
takes_stale = refl

http_raises : start_server http_os left_over ≡ (raised (message_too_large 1213486160), left_over)
unfolding start_server read_message
http_raises = refl

start_server-IsStarted_example : IsStarted quiet_os left_over (start_server quiet_os left_over)
start_server-IsStarted_example = start_server-IsStarted quiet_os left_over

stop_server-IsStopped_example : IsStopped quiet_os served true (stop_server quiet_os served)
stop_server-IsStopped_example = stop_server-IsStopped quiet_os served

abbrev pub host : Host
host = record {
  opens = true;
  locks = true;
  writes = true;
  at_start = quiet_os;
  at_stop = quiet_os;
  is_cancelled = false;
  stops_in_time = true;
}

abbrev names : List Text
names = codes "a" ∷ codes "b" ∷ []

abbrev daemon : Daemon
daemon = fresh true true names left_over

runs :
    (run host daemon).1.journal
    ≡ took_lock
      ∷ bus_started
      ∷ socket_bound
      ∷ began (codes "a")
      ∷ began (codes "b")
      ∷ signalled
      ∷ socket_closed
      ∷ bus_stopped
      ∷ asked (codes "a")
      ∷ asked (codes "b")
      ∷ all_ended
      ∷ dropped_lock
      ∷ []
unfolding run
runs = refl

-- If the socket cannot be removed, no process is asked to stop and the lock is kept.
stuck :
    (run (record host { at_stop = record quiet_os { unlinks = false } }) daemon).1.journal
    ≡ took_lock
      ∷ bus_started
      ∷ socket_bound
      ∷ began (codes "a")
      ∷ began (codes "b")
      ∷ signalled
      ∷ socket_closed
      ∷ []
unfolding run
stuck = refl

run-Ends_example : Ends true true host (run host daemon).1
run-Ends_example = run-Ends true true host names left_over

-- Daemon 7 takes the lock, drops it and finds its process id in the file; 8 takes the lock before 7
-- removes the file; 9 makes a new one.
abbrev half : Daemons
half = advance 8 (
    advance 8 (
      advance 8 (
        advance 8 (
          advance 7
            (advance 7 (advance 7 (advance 7 (advance 7 (advance 7 (advance 7 no_daemons))))))))))

abbrev both : Daemons
both = advance 9 (advance 9 (advance 9 (advance 9 (advance 7 half))))

two_daemons : (held (both.phase 8) ≡ some 0) × (held (both.phase 9) ≡ some 1)
unfolding advance held
two_daemons = (refl, refl)

both-Reach : Reach both
both-Reach = advanced 9 (
    advanced 9 (
      advanced 9 (
        advanced 9 (
          advanced 7 (
            advanced 8 (
              advanced 8 (
                advanced 8 (
                  advanced 8 (
                    advanced 7 (
                      advanced 7 (
                        advanced 7
                          (advanced 7 (advanced 7 (advanced 7 (advanced 7 initially)))))))))))))))

Reach-Excludes_example : (◌≡◌ {A = ℕ} 8 9) ⊎ ((◌≢◌ {A = ℕ} 0 1) × (0 < both.removals))
Reach-Excludes_example = Reach-Excludes both 8 9 0 1 both-Reach two_daemons.0 two_daemons.1
