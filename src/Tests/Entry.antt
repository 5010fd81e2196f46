-- ===== src/Tests/Entry.antt =====
-- Set-ups of the logger, runs from the command line, and health checks.
use supervice.Attempt.{returned, raised}
use supervice.Core.Instances.{instance_config}
use supervice.Core.Reload.{mem, all_names}
use supervice.Core.Run.Begins.{begun}
use supervice.Core.Run.Cycle.Shutdown.{Ends}
use supervice.Core.Run.{Daemon}
use supervice.Rpc.Socket.{start_server}
use supervice.Entry.Runs.{IsRun, main_entry-IsRun}
use supervice.Entry.Starts.{main_entry-run}
use supervice.Entry.{Arguments, Surroundings, is_set, main_entry}
use supervice.Health.Verdicts.{Says, check-Says}
use supervice.Health.{Probes, cancelled, connects, interrupted, exits, check}
use supervice.Logging.{Logger, invalid_level, to_stdout, rotating, setup_logger}
use supervice.Models.{default_healthcheck}
use supervice.Prelude.{◌≡◌, refl, true, false, none, some, [], ◌∷◌, Text, codes, text_eq}
use supervice.Process.State.{HealthChecker, script_checker}
use supervice.Task.Waits.{exit_code}
use supervice.Tests.Daemon.{host, left_over}
use supervice.Tests.File.{machine, socket, file, expected, parses}

abbrev logger : Logger
logger = record { level = 0; handlers = to_stdout ∷ [] }

abbrev around : Surroundings
around = record {
  machine = machine;
  default_socket = socket;
  file = file;
  opens = λ p. true;
  host = host;
  socket = left_over;
}

abbrev no_options : Arguments
no_options = record { nodaemon = false; logfile = none; loglevel = none }

logs_to_default :
    (main_entry around no_options logger).logger
    ≡ record { level = 20; handlers = rotating (codes "supervice.log") 52428800 10 ∷ [] }
unfolding main_entry text_eq instance_config
logs_to_default = refl

main_entry-IsRun_example :
    let q = main_entry around no_options logger in IsRun no_options q q.daemon
main_entry-IsRun_example = main_entry-IsRun around no_options logger

main_entry-run_example :
    (d : Daemon) × ((main_entry around no_options logger).daemon ≡ some d)
    × ((k : Text) → mem k (begun d.journal) ≡ mem k (all_names expected.programs))
    × Ends (is_set expected.pidfile) true host d
unfolding start_server
main_entry-run_example =
    main_entry-run around no_options logger expected parses (λ p. refl) refl refl
      record { opens = refl; locks = refl; writes = refl; serves = refl }

keeps_handlers :
    setup_logger (λ p. true) (λ t. t) (codes "LOUD") [] 0 0 logger ≡ (raised invalid_level, logger)
unfolding setup_logger text_eq
keeps_handlers = refl

abbrev ready_script : HealthChecker
ready_script =
    script_checker (record default_healthcheck { command = some (codes "ready") })
      (some (codes "app"))

abbrev no_probes : Probes
no_probes = record { open_sockets = 0; running_scripts = 0; scripts = [] }

reports_exit : check ready_script connects (exits (exit_code 3) (codes " no\n")) no_probes ≡ (
  returned
      (record { healthy = false; message = codes "Health check script exited with code 3: no" }),
  record no_probes { scripts = (codes "ready", some (codes "app")) ∷ [] },
)
unfolding check
reports_exit = refl

-- A check that is cancelled leaves its script running.
leaves_script : check ready_script connects interrupted no_probes ≡ (
  raised cancelled,
  record no_probes { running_scripts = 1; scripts = (codes "ready", some (codes "app")) ∷ [] },
)
unfolding check
leaves_script = refl

check-Says_example :
    Says ready_script connects interrupted no_probes
      (check ready_script connects interrupted no_probes)
check-Says_example = check-Says ready_script connects interrupted no_probes
