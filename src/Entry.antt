-- ===== src/Entry.antt =====
-- The daemon's command line (supervice/main.py, `main`), from the arguments that argparse found: the
-- logger, the configuration, and the supervisor's run.
pub mod Runs
pub mod Starts
use supervice.Attempt.{Ended, returned, raised}
use supervice.Config.File.{File}
use supervice.Config.Parse.{ConfigError}
use supervice.Config.Validation.{Machine}
use supervice.Core.Loading.{Supervisor, new_supervisor, load_config}
use supervice.Core.Run.{Host, Daemon, Failure, run, fresh}
use supervice.Logging.{Logger, LogError, setup_logger}
use supervice.Models.{
  SupervisorConfig, default_child_log_maxbytes, default_child_log_backups, or_text,
}
use supervice.Prelude.Dict.{keys}
use supervice.Prelude.{
  ℕ, Bool, true, false, not, ◌&&◌, Option, none, some, List, [], ◌∷◌, Text, codes, if◌then◌else◌,
}
use supervice.Rpc.Socket.{Socket}

pub record Arguments : Type 0 where
  pub nodaemon : Bool
  pub logfile : Option Text
  pub loglevel : Option Text

-- What `main` finds: the configuration's file and what validates it, the default socket path, which
-- log files can be opened, and what a run meets.
pub record Surroundings : Type 0 where
  pub machine : Machine
  pub default_socket : Text
  pub file : File
  pub opens : Text → Bool
  pub host : Host
  pub socket : Socket

-- The exit status, the logger, whether the process is in the background, and the daemon, if it ran.
pub record Result : Type 0 where
  pub exit : ℕ
  pub logger : Logger
  pub daemonized : Bool
  pub daemon : Option Daemon

abbrev pub default_logfile : Text
default_logfile = codes "supervice.log"

unfoldable pub is_set : Text → Bool
is_set [] = false
is_set (c ∷ cs) = true

-- A daemon always has a log file.
unfoldable pub logfile_of : Bool → Text → Text
logfile_of true logfile = logfile
logfile_of false [] = default_logfile
logfile_of false (c ∷ cs) = c ∷ cs

unfoldable pub daemon_of : Supervisor → Socket → Daemon
unfolding is_set keys
daemon_of s socket = fresh (is_set s.config.pidfile) true (keys s.processes) socket

not_run : Logger → Result
not_run l = record { exit = 1; logger = l; daemonized = false; daemon = none }

ended : Bool → Logger → Ended Failure (Unit {0}) × Daemon → Result
ended daemonized l (returned u, d) = record {
  exit = 0;
  logger = l;
  daemonized = daemonized;
  daemon = some d;
}
ended daemonized l (raised e, d) = record {
  exit = 1;
  logger = l;
  daemonized = daemonized;
  daemon = some d;
}

-- asyncio.run, in the background unless there is the option
run_logged : Surroundings → Arguments → Supervisor → Ended LogError (Unit {0}) × Logger → Result
unfolding not_run ended daemon_of run
run_logged w args s (raised e, l) = not_run l
run_logged w args s (returned u, l) =
    ended (not args.nodaemon) l (run w.host (daemon_of s w.socket))

-- Options take precedence over the configuration.
log_configured :
    Surroundings → Arguments → SupervisorConfig → Logger → Ended LogError (Unit {0}) × Logger
unfolding setup_logger or_text logfile_of
log_configured w args config =
    setup_logger w.opens w.machine.upper (or_text args.loglevel config.loglevel)
      (logfile_of args.nodaemon (or_text args.logfile config.logfile)) config.log_maxbytes
      config.log_backups

run_loaded : Surroundings → Arguments → Logger → Supervisor × Option ConfigError → Result
unfolding not_run run_logged log_configured
run_loaded w args l (s, some e) = not_run l
run_loaded w args l (s, none) = run_logged w args s (log_configured w args s.config l)

run_boot : Surroundings → Arguments → Ended LogError (Unit {0}) × Logger → Result
unfolding not_run run_loaded load_config
run_boot w args (raised e, l) = not_run l
run_boot w args (returned u, l) =
    run_loaded w args l
      (load_config w.machine w.default_socket w.file (new_supervisor w.default_socket))

-- `main`
unfoldable pub main_entry : Surroundings → Arguments → Logger → Result
unfolding run_boot setup_logger or_text
main_entry w args l = run_boot w args (
    setup_logger w.opens w.machine.upper (or_text args.loglevel (codes "INFO"))
      (or_text args.logfile []) default_child_log_maxbytes default_child_log_backups l)
