-- ===== src/Models.antt =====
-- supervice/models.py: the configuration records. Numbers are natural, since supervice/config.py
-- refuses negative ones, apart from those of a health check, which it refuses only where a check is
-- configured. Texts are lists of code points; `None` is `none`.
use supervice.Prelude.Int.{ℤ, pos}
use supervice.Prelude.{
  ℕ, ◌*◌, Bool, true, ◌&&◌, if◌then◌else◌, Option, none, some, List, [], ◌∷◌, Text, codes,
}

pub data HealthCheckType : Type 0 where
  no_check tcp script : HealthCheckType

pub record HealthCheckConfig : Type 0 where
  pub type : HealthCheckType
  pub interval : ℤ
  pub timeout : ℤ
  pub retries : ℤ
  pub start_period : ℤ
  pub port : Option ℤ
  pub host : Text
  pub command : Option Text

abbrev pub default_healthcheck : HealthCheckConfig
default_healthcheck = record {
  type = no_check;
  interval = pos 30;
  timeout = pos 10;
  retries = pos 3;
  start_period = pos 10;
  port = none;
  host = codes "127.0.0.1";
  command = none;
}

abbrev pub default_child_log_maxbytes : ℕ
default_child_log_maxbytes = 50 * 1024 * 1024

abbrev pub default_child_log_backups : ℕ
default_child_log_backups = 10

pub record ProgramConfig : Type 0 where
  pub name : Text
  pub command : Text
  pub numprocs : ℕ
  pub autostart : Bool
  pub autorestart : Bool
  pub startsecs : ℕ
  pub startretries : ℕ
  pub stopsignal : Text
  pub stopwaitsecs : ℕ
  pub stdout_logfile : Option Text
  pub stderr_logfile : Option Text
  pub stdout_logfile_maxbytes : ℕ
  pub stdout_logfile_backups : ℕ
  pub stderr_logfile_maxbytes : ℕ
  pub stderr_logfile_backups : ℕ
  pub environment : List (Text × Text)
  pub directory : Option Text
  pub user : Option Text
  pub group : Option Text
  pub pdeathsig : Bool
  pub healthcheck : HealthCheckConfig

-- A program with every field but its name and its command at its default.
abbrev pub default_program : Text → Text → ProgramConfig
default_program n c = record {
  name = n;
  command = c;
  numprocs = 1;
  autostart = true;
  autorestart = true;
  startsecs = 1;
  startretries = 3;
  stopsignal = codes "TERM";
  stopwaitsecs = 10;
  stdout_logfile = none;
  stderr_logfile = none;
  stdout_logfile_maxbytes = default_child_log_maxbytes;
  stdout_logfile_backups = default_child_log_backups;
  stderr_logfile_maxbytes = default_child_log_maxbytes;
  stderr_logfile_backups = default_child_log_backups;
  environment = [];
  directory = none;
  user = none;
  group = none;
  pdeathsig = true;
  healthcheck = default_healthcheck;
}

-- The truth of an optional text: `None` and the empty text are false.
unfoldable pub given : Option Text → Option Text
given none = none
given (some []) = none
given (some (c ∷ cs)) = some (c ∷ cs)

-- `a or b` for an optional text and a text
unfoldable pub or_text : Option Text → Text → Text
or_text none b = b
or_text (some []) b = b
or_text (some (c ∷ cs)) b = c ∷ cs

-- What `default_socket_path` asks of the host: XDG_RUNTIME_DIR, os.path.isdir, os.geteuid() == 0,
-- os.path.join, and the home directory that "~" stands for.
pub record SocketHost : Type 0 where
  pub xdg_runtime_dir : Option Text
  pub is_directory : Text → Bool
  pub is_root : Bool
  pub join : Text → Text → Text
  pub home : Text

runtime_path : SocketHost → Option Text → Option Text
runtime_path h none = none
runtime_path h (some xdg) =
    if h.is_directory xdg then some (h.join xdg (codes "supervice.sock")) else none

fallback_path : SocketHost → Option Text → Text
fallback_path h (some path) = path
fallback_path h none =
    if h.is_root && h.is_directory (codes "/run")
    then codes "/run/supervice.sock"
    else h.join h.home (codes ".supervice.sock")

unfoldable pub default_socket_path : SocketHost → Text
unfolding given runtime_path fallback_path
default_socket_path h = fallback_path h (runtime_path h (given h.xdg_runtime_dir))

pub record SupervisorConfig : Type 0 where
  pub logfile : Text
  pub pidfile : Text
  pub loglevel : Text
  pub socket_path : Text
  pub shutdown_timeout : ℕ
  pub log_maxbytes : ℕ
  pub log_backups : ℕ
  pub programs : List ProgramConfig

-- A configuration with every field at its default.
abbrev pub default_supervisor : Text → SupervisorConfig
default_supervisor socket = record {
  logfile = [];
  pidfile = codes "supervice.pid";
  loglevel = codes "INFO";
  socket_path = socket;
  shutdown_timeout = 30;
  log_maxbytes = default_child_log_maxbytes;
  log_backups = default_child_log_backups;
  programs = [];
}
