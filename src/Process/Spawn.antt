-- ===== src/Process/Spawn.antt =====
-- Starting a child (supervice/process.py, `spawn`, `wait` and `_start_health_checks`).
pub mod Stretches
use supervice.Prelude.Dict.{merge}
use supervice.Prelude.{
  ℕ, ◌+◌, ◌*◌, Bool, true, false, not, ◌&&◌, ◌||◌, Option, none, some, List, [], ◌∷◌, ◌++◌, Text,
  ltb, if◌then◌else◌,
}
use supervice.Models.{HealthCheckType, no_check, given}
use supervice.Process.Kill.{Signals, reap, wait_exit, kill}
use supervice.Process.State.{
  State, stopped, starting, running, stopping, exited, fatal, Child, HealthTask, HealthChecker,
  Stream, stdout, stderr, Process, set_state, change_state,
}
use supervice.Task.Waits.{
  Exn, cancelled, value_error, permission_error, os_error, process_start_error, ReturnCode, Timed,
  in_time, timed_out, Launch, Forked, forked, fork_failed, spawn_child, child_exit,
  drain_logs_within,
}
use supervice.Task.{Task, pure, raise, gets, modify, await, ◌>>=◌, ◌>>◌, catch, finally, branch}

-- What the host decides: shlex.split (`none` is its ValueError), os.path.isabs, shutil.which,
-- pwd.getpwnam (the user's and the group's number), os.geteuid() == 0, os.getgrouplist, opening a
-- log file for appending (`none` is success), os.environ, and whether libc could be loaded.
pub record Host : Type 0 where
  pub signals : Signals
  pub split : Text → Option (List Text)
  pub is_abs : Text → Bool
  pub which : Text → Option Text
  pub getpwnam : Text → Option (ℕ × ℕ)
  pub is_root : Bool
  pub getgrouplist : Text → ℕ → List ℕ
  pub open_log : Text → Option Exn
  pub environ : List (Text × Text)
  pub has_libc : Bool

record_exit_in : State → Process → Process
record_exit_in stopping p = set_state stopped p
record_exit_in stopped p = set_state stopped p
record_exit_in _ p = set_state exited p

-- The end of `wait`: an expected exit completes STOPPING to STOPPED, any other is EXITED.
unfoldable pub record_exit : Process → Process
unfolding record_exit_in
record_exit p = record_exit_in p.state p

wait_child : Option Child → Task Process (Unit {0})
wait_child none = pure tt
wait_child (some c) = do r ← await (child_exit c.pid); modify (reap c.pid r); modify record_exit

unfoldable pub wait : Task Process (Unit {0})
unfolding wait_child
wait = do c ← gets (λ p. p.child); wait_child c

is_checked : HealthCheckType → Bool
is_checked no_check = false
is_checked _ = true

begin_checks : Bool → Option HealthChecker → Process → Process
begin_checks checked none p = p
begin_checks false (some c) p = p
begin_checks true (some c) p = record p {
  health_failures = 0;
  is_healthy = none;
  health_task = some (record { id = p.health_tasks; finished = false });
  health_tasks = p.health_tasks + 1;
}

-- `_start_health_checks`
unfoldable pub start_health_checks : Process → Process
unfolding begin_checks is_checked
start_health_checks p = begin_checks (is_checked p.config.healthcheck.type) p.health_checker p

unfoldable pub reset_failures : Process → Process
reset_failures p = record p { backoff = 0; reached_running = true }

unfoldable pub note_start : Process → Process
note_start p = record p { started_at = some p.clock }

-- The child survived its startup window.
unfoldable pub reach_running : Task Process (Unit {0})
reach_running = do
  modify reset_failures
  change_state running
  modify note_start
  modify start_health_checks
  wait

leave_gate : Timed ReturnCode → Task Process (Unit {0})
leave_gate (in_time r) = wait
leave_gate timed_out = reach_running

-- The startsecs gate.
unfoldable pub startup_gate : Task Process (Unit {0})
unfolding leave_gate
startup_gate = do
  secs ← gets (λ p. p.config.startsecs)
  branch (ltb 0 secs) (do r ← wait_exit (secs * 1000); leave_gate r) reach_running

-- `self.process = ...`, for the child that was started
unfoldable pub adopt : ℕ → Process → Process
adopt pid p = record p {
  child = some (record { pid = pid; returncode = none });
  children = p.children ++ pid ∷ [];
}

-- The pumps take over the writers that are open: each has a pipe of the child.
unfoldable pub start_pumps : Process → Process
start_pumps p = record p { log_tasks = p.log_tasks ++ p.writers; writers = [] }

unfoldable pub is_unwanted : Process → Bool
is_unwanted p = not p.should_run || p.stop_event

after_fork : Host → Option ℕ → Forked → Task Process (Unit {0})
after_fork host me (fork_failed e) = raise e
after_fork host me (forked pid) = do
  modify (adopt pid)
  modify start_pumps
  unwanted ← gets is_unwanted
  branch unwanted (kill host.signals me) startup_gate

-- The user to run as, and the supplementary groups if the supervisor is root.
pub record Identity : Type 0 where
  pub ids : Option (ℕ × ℕ)
  pub groups : Option (List ℕ)

no_identity : Identity
no_identity = record { ids = none; groups = none }

identity : Host → Text → ℕ × ℕ → Identity
identity host user (uid, gid) = record {
  ids = some (uid, gid);
  groups = if host.is_root then some (host.getgrouplist user gid) else none;
}

is_given : Option Text → Bool
is_given none = false
is_given (some t) = true

launch_of : Host → Text → List Text → Identity → Process → Launch
unfolding is_given given
launch_of host executable args who p = record {
  executable = executable;
  args = args;
  user = who.ids;
  extra_groups = who.groups;
  environment = merge host.environ p.config.environment;
  directory = p.config.directory;
  pipe_stdout = is_given (given p.config.stdout_logfile);
  pipe_stderr = is_given (given p.config.stderr_logfile);
  pdeathsig = p.config.pdeathsig && host.has_libc;
}

hold_writer : Stream → Process → Process
hold_writer s p = record p { writers = p.writers ++ s ∷ [] }

open_result : Stream → Option Exn → Task Process (Unit {0})
open_result s none = modify (hold_writer s)
open_result s (some e) = raise e

open_writer : Host → Stream → Option Text → Task Process (Unit {0})
unfolding open_result hold_writer
open_writer host s none = pure tt
open_writer host s (some path) = open_result s (host.open_log path)

launch : Host → Option ℕ → Text → List Text → Identity → Task Process (Unit {0})
unfolding open_writer launch_of after_fork given
launch host me executable args who = do
  out ← gets (λ p. given p.config.stdout_logfile)
  open_writer host stdout out
  err ← gets (λ p. given p.config.stderr_logfile)
  open_writer host stderr err
  l ← gets (launch_of host executable args who)
  r ← await (spawn_child l)
  after_fork host me r

launch_as : Host → Option ℕ → Text → List Text → Text → Option (ℕ × ℕ) → Task Process (Unit {0})
unfolding launch identity
launch_as host me executable args user none = change_state fatal
launch_as host me executable args user (some ids) =
    launch host me executable args (identity host user ids)

launch_for : Host → Option ℕ → Text → List Text → Option Text → Task Process (Unit {0})
unfolding launch launch_as no_identity
launch_for host me executable args none = launch host me executable args no_identity
launch_for host me executable args (some user) =
    launch_as host me executable args user (host.getpwnam user)

resolved : Host → Option ℕ → List Text → Option Text → Task Process (Unit {0})
unfolding launch_for given
resolved host me args none = raise os_error
resolved host me args (some executable) = do
  user ← gets (λ p. given p.config.user)
  launch_for host me executable args user

-- The executable: the program itself if its path is absolute, else what the search path has.
find_executable : Host → Text → Option Text
unfolding given
find_executable host program =
    if host.is_abs program then some program else given (host.which program)

with_args : Host → Option ℕ → Option (List Text) → Task Process (Unit {0})
unfolding resolved find_executable
with_args host me none = raise value_error
with_args host me (some []) = raise value_error
with_args host me (some (program ∷ args)) = resolved host me args (find_executable host program)

-- The body of the `try` in `spawn`.
unfoldable pub spawn_body : Host → Option ℕ → Task Process (Unit {0})
unfolding with_args
spawn_body host me = do args ← gets (λ p. host.split p.config.command); with_args host me args

-- `except Exception`: ValueError and PermissionError are permanent, the rest is retried.
unfoldable pub spawn_failed : Exn → Task Process (Unit {0})
spawn_failed cancelled = raise cancelled
spawn_failed value_error = change_state fatal
spawn_failed permission_error = change_state fatal
spawn_failed os_error = change_state exited
spawn_failed process_start_error = change_state exited

close_writers : Process → Process
close_writers p = record p { closed = p.closed ++ p.writers; writers = [] }

drain : List Stream → Task Process (Unit {0})
drain [] = pure tt
drain (s ∷ ss) = await (drain_logs_within 2000)

-- The `finally` of `spawn`.
unfoldable pub close_logs : Task Process (Unit {0})
unfolding close_writers drain
close_logs = do modify close_writers; pumps ← gets (λ p. p.log_tasks); drain pumps

unfoldable pub begin_spawn : Process → Process
begin_spawn p = record p { reached_running = false; log_tasks = []; writers = [] }

unfoldable pub spawn : Host → Option ℕ → Task Process (Unit {0})
spawn host me = do
  change_state starting
  modify begin_spawn
  finally (catch (spawn_body host me) spawn_failed) close_logs
