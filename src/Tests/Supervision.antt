-- ===== src/Tests/Supervision.antt =====
-- The process's tasks on a small program.
use supervice.Prelude.{◌≡◌, refl, true, false, some, none, [], ◌∷◌, ◌++◌, codes}
use supervice.Models.{ProgramConfig, default_program}
use supervice.Process.EventLog.Interleaving.{replay-published}
use supervice.Process.EventLog.{replay}
use supervice.Process.Health.Restarts.{Restarted, health_restart-Restarted}
use supervice.Process.Health.{health_restart}
use supervice.Process.Kill.Outcome.{
  with_child, watched_by, retrying, told, state_after, signals_of, kill-ends,
}
use supervice.Process.Kill.{kill, stop_signal, wait_exit, reap_timed}
use supervice.Process.Ownership.{
  SameChildren, body-SameChildren, StaysForbidden, body-StaysForbidden,
}
use supervice.Process.Requests.Outcomes.{Any, IsTrue, BlamesFatal, start_process-honest}
use supervice.Process.Requests.Stops.{came_to, stop_process-Stopped}
use supervice.Process.Requests.{start_process, stop_process}
use supervice.Process.Spawn.{
  Host, startup_gate, reach_running, reset_failures, wait, start_health_checks, note_start,
  begin_spawn,
}
use supervice.Process.State.{
  stopped, exited, starting, running, stopping, set_state, change_state, Process, new,
}
use supervice.Process.System.{
  supervise_task, start_request, stop_request, body, System, absorb, initial, at_first, then, begin,
}
use supervice.Task.Alone.{World, alone}
use supervice.Task.Ensures.{Ensures}
use supervice.Task.Guarantee.{Guarantees}
use supervice.Task.Waits.{
  os_error, exit_code, timed_out, fork_failed, check_result, child_exit, child_exit_within,
  stop_event_within, state_change_within, spawn_child, health_check, sleep, join_task,
  join_supervise, join_supervise_within, drain_logs_within,
}
use supervice.Task.{
  Run, done, raised, suspended, out_of_rounds, got, gets, modify, await, branch, ◌>>=◌,
}

-- A host on which no command is found.
abbrev bare_host : Host
bare_host = record {
  signals = record { number = λ name. none };
  split = λ command. some (command ∷ []);
  is_abs = λ path. false;
  which = λ name. none;
  getpwnam = λ user. none;
  is_root = false;
  getgrouplist = λ user gid. [];
  open_log = λ path. none;
  environ = [];
  has_libc = true;
}

abbrev web : ProgramConfig
web = default_program (codes "web") (codes "serve")

-- A world in which every wait with a timeout times out.
quiet_world : World Process
quiet_world (child_exit pid) p = got (exit_code 1)
quiet_world (child_exit_within pid ms) p = got timed_out
quiet_world (stop_event_within ms) p = got timed_out
quiet_world (state_change_within ms) p = got timed_out
quiet_world (spawn_child l) p = got (fork_failed os_error)
quiet_world health_check p = got (check_result true [])
quiet_world (sleep ms) p = got tt
quiet_world (join_task id) p = got tt
quiet_world join_supervise p = got tt
quiet_world (join_supervise_within ms) p = got timed_out
quiet_world (drain_logs_within ms) p = got tt

-- What an attempt leaves on that host.
not_found : Process → Process
unfolding begin_spawn set_state
not_found p =
    let q = set_state exited (begin_spawn (set_state starting p)) in
    record q { closed = q.closed ++ []; writers = [] }

abbrev asked : System
asked = absorb (body bare_host none (start_request 2) (initial web).process) (initial web).pending

abbrev tried : System
tried = absorb (body bare_host none (supervise_task 2) asked.process) asked.pending

replay-published_example : replay stopped tried.process.published ≡ some tried.process.state
replay-published_example =
    replay-published bare_host web {s = tried}
      (then (then at_first (begin none (start_request 2))) (begin none (supervise_task 2)))

start_process-honest_example : Ensures Any IsTrue BlamesFatal (start_process 3)
start_process-honest_example = start_process-honest 3

-- A child that no signal ends, and a process that has none.
stop_process-Stopped_example :
    ((q : Process) × (alone quiet_world
          (stop_process bare_host.signals none 3)
          (with_child 7 (new web))
        ≡ came_to false timed_out timed_out q)
      × (q.state ≡ stopping)
      × (q.should_run ≡ false)
      × (q.signals
          ≡ (new web).signals ++ signals_of timed_out 7 (stop_signal bare_host.signals (new web))))
    × ((q : Process) × (alone quiet_world
            (stop_process bare_host.signals none 3)
            (retrying (new web))
          ≡ done stopped q)
        × (q.state ≡ stopped)
        × (q.should_run ≡ false)
        × (q.signals ≡ (new web).signals))
unfolding quiet_world
stop_process-Stopped_example =
    stop_process-Stopped quiet_world bare_host.signals none 7 2 (new web) timed_out timed_out
      (λ s. refl) (λ s. refl) false (λ ms s. refl)

body-SameChildren_example : Guarantees SameChildren (body bare_host none (stop_request 3))
body-SameChildren_example = body-SameChildren bare_host none (stop_request 3) refl

body-StaysForbidden_example : Guarantees StaysForbidden (body bare_host none (supervise_task 3))
body-StaysForbidden_example = body-StaysForbidden bare_host none (supervise_task 3) refl

-- A child that no signal ends.
kill-ends_example :
    (q : Process) × (alone quiet_world (kill bare_host.signals none) (with_child 7 (new web))
      ≡ done tt q)
    × (q.state ≡ state_after timed_out timed_out)
    × (q.signals
        ≡ (new web).signals ++ signals_of timed_out 7 (stop_signal bare_host.signals (new web)))
unfolding quiet_world
kill-ends_example =
    kill-ends quiet_world bare_host.signals none 7 (new web) timed_out timed_out refl refl

-- A process that was restarted three times already because it was unhealthy.
abbrev worn : Process
worn = record (new web) { health_restarts = 3 }

health_restart-Restarted_example :
    (q : Process) × (alone quiet_world
        (health_restart bare_host.signals (some 4))
        (watched_by (record { id = 4; finished = false }) 7 worn)
      ≡ done tt q)
    × Restarted true worn q
unfolding quiet_world new
health_restart-Restarted_example =
    health_restart-Restarted quiet_world bare_host.signals (record { id = 4; finished = false }) 7
      worn timed_out timed_out (λ s. refl) (λ s. refl)

process_of : Run Process (Unit {0}) → Process
process_of (done u p) = p
process_of (raised e p) = p
process_of (suspended w p k) = p
process_of (out_of_rounds p) = p

-- The wait for the child is over, after other tasks have made `f` of the process.
gate_over : (Process → Process) → Run Process (Unit {0}) → Run Process (Unit {0})
gate_over f (suspended (child_exit_within pid ms) p k) = k (got timed_out) (f p)
gate_over f r = r

-- A process in its startsecs window, and the same once a kill has sent it the stop signal.
abbrev in_gate : Process
in_gate = set_state starting (with_child 7 (new web))

abbrev being_stopped : Process
being_stopped = told bare_host.signals 7 in_gate

stops_in_gate : being_stopped.state ≡ stopping
unfolding told set_state
stops_in_gate = refl

-- When the window is over and the child has not exited yet, the process is RUNNING again.
runs_after_stop :
    (process_of (gate_over (λ p. being_stopped) (startup_gate in_gate))).state ≡ running
unfolding process_of gate_over startup_gate told new set_state with_child wait_exit await gets
    modify ◌>>=◌ branch reach_running change_state wait start_health_checks note_start
    reset_failures reap_timed
runs_after_stop = refl
