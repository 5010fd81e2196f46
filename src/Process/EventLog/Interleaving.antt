-- ===== src/Process/EventLog/Interleaving.antt =====
-- The event log under every interleaving of the tasks.
use supervice.Prelude.{ℕ, ◌≡◌, refl, Option, some}
use supervice.Models.{ProgramConfig}
use supervice.Process.EventLog.{
  Tells, Tells-quiet, Tells-guarantee, Tells-respected, Tells-reports, Tells-adopt, replay,
}
use supervice.Process.Health.Stretches.{run_health_checks-Guarantees}
use supervice.Process.Kill.Stretches.{force_kill-Guarantees, stretch_rules}
use supervice.Process.Requests.Stretches.{
  stop-Guarantees, stop_process-Guarantees, start_process-Guarantees, start-kept,
}
use supervice.Process.Requests.{clear_counts}
use supervice.Process.Spawn.{Host}
use supervice.Process.State.{State, stopped, Process, new, update_config}
use supervice.Process.Supervise.Stretches.{supervise-Guarantees}
use supervice.Process.System.Guarantee.{IsKeptByAll, Reach-kept}
use supervice.Process.System.{
  Method, supervise_task, health_task, start_request, stop_request, force_kill_request, stop_call,
  body, System, Reach,
}
use supervice.Task.Guarantee.{Guarantees}

all : State → Unit {0}
all s = tt

Tells-clear_counts : (p : Process) → Tells p (clear_counts p)
unfolding clear_counts
Tells-clear_counts p = Tells-quiet p _ refl refl

body-Tells : (host : Host) (me : Option ℕ) (m : Method) → Guarantees Tells (body host me m)
unfolding body
body-Tells host me (supervise_task n) =
    supervise-Guarantees Tells-respected all Tells-adopt host me n
body-Tells host me (health_task n) =
    run_health_checks-Guarantees Tells-respected Tells-reports all host.signals me n
body-Tells host me (start_request n) = search (
  stretch_rules,
  Tells-guarantee,
  start_process-Guarantees Tells-respected all Tells-clear_counts,
)
body-Tells host me (stop_request n) =
    search (stretch_rules, Tells-guarantee, stop_process-Guarantees Tells-respected all)
body-Tells host me force_kill_request = force_kill-Guarantees Tells-respected tt tt me
body-Tells host me stop_call = stop-Guarantees Tells-respected all host.signals me

Tells-update_config : (config : ProgramConfig) (p : Process) → Tells p (update_config config p)
unfolding update_config
Tells-update_config config p = Tells-quiet p _ refl refl

Tells-kept_by_all : (host : Host) → IsKeptByAll host Tells
Tells-kept_by_all host = record {
  guarantee = Tells-guarantee;
  bodies = body-Tells host;
  starts = start-kept Tells-respected all;
  configures = Tells-update_config;
  frames = Tells-respected.frame;
}

-- Whatever tasks run on a process, in whatever order and with whatever answers, and however the
-- world and reloads interfere: replaying the events that it published, from STOPPED on, meets no
-- contradiction and gives the state that it is in.
pub replay-published :
    (host : Host) (config : ProgramConfig) {s : System}
    → Reach host config s
    → replay stopped s.process.published ≡ some s.process.state
unfolding new
replay-published host config r =
    let told = Reach-kept host Tells (Tells-kept_by_all host) config r in
    rw told.appended told.replayed
