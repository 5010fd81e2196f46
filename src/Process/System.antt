-- ===== src/Process/System.antt =====
-- All the tasks of one process at once, in every order in which the event loop can run them. A task
-- begins at any time, and runs to its first suspension; a suspended task is resumed at any time,
-- with any answer; between stretches the world changes what it may, and a reload may swap the
-- configuration.
pub mod Guarantee
use supervice.Prelude.{ℕ, ◌≡◌, Option, none, some, List, [], ◌∷◌, ◌++◌, Bool}
use supervice.Models.{ProgramConfig}
use supervice.Process.Health.{run_health_checks}
use supervice.Process.Kill.{force_kill}
use supervice.Process.Requests.{start, start_process, stop_process, stop}
use supervice.Process.Respects.{Frame}
use supervice.Process.Spawn.{Host}
use supervice.Process.State.{State, Process, new, update_config}
use supervice.Process.Supervise.{supervise}
use supervice.Task.Waits.{Await, Answer}
use supervice.Task.{Run, done, raised, suspended, out_of_rounds, Reply, Task, pure, ◌>>=◌}

-- The coroutines that the rest of the program calls or makes tasks of, each with its rounds.
pub data Method : Type 0 where
  supervise_task health_task start_request stop_request : ℕ → Method
  force_kill_request stop_call : Method

unfoldable pub discard : State → Task Process (Unit {0})
discard s = pure tt

unfoldable pub body : Host → Option ℕ → Method → Task Process (Unit {0})
unfolding discard
body host me (supervise_task n) = supervise host me n
body host me (health_task n) = run_health_checks host.signals me n
body host me (start_request n) = do s ← start_process n; discard s
body host me (stop_request n) = do s ← stop_process host.signals me n; discard s
body host me force_kill_request = force_kill me
body host me stop_call = stop host.signals me

pub record Pending : Type 0 where
  pub waits_for : Await
  pub resume : Reply (Answer waits_for) → Process → Run Process (Unit {0})

pub record System : Type 0 where
  pub process : Process
  pub pending : List Pending

-- What a stretch leaves behind.
unfoldable pub absorb : Run Process (Unit {0}) → List Pending → System
absorb (done u p) ps = record { process = p; pending = ps }
absorb (raised e p) ps = record { process = p; pending = ps }
absorb (suspended w p k) ps = record {
  process = p;
  pending = record { waits_for = w; resume = k } ∷ ps;
}
absorb (out_of_rounds p) ps = record { process = p; pending = ps }

unfoldable pub initial : ProgramConfig → System
initial config = record { process = new config; pending = [] }

pub data Step (host : Host) (s : System) : System → Type 0 where
  begin : (me : Option ℕ) (m : Method) → Step host s (absorb (body host me m s.process) s.pending)
  resumed :
      (before after : List Pending) (c : Pending) (r : Reply (Answer c.waits_for))
      → s.pending ≡ before ++ (c ∷ after)
      → Step host s (absorb (c.resume r s.process) (before ++ after))
  started : Step host s (record s { process = start s.process })
  configured :
      (config : ProgramConfig) → Step host s (record s { process = update_config config s.process })
  world : (q : Process) → Frame s.process q → Step host s (record s { process = q })

pub data Reach (host : Host) (config : ProgramConfig) : System → Type 0 where
  at_first : Reach host config (initial config)
  then : {s t : System} → Reach host config s → Step host s t → Reach host config t
