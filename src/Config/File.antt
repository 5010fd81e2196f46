-- ===== src/Config/File.antt =====
-- The configuration that a file's sections make up (supervice/config.py, `parse_config`).
pub mod Accepted
use supervice.Prelude.Dict.{Dict, lookup}
use supervice.Prelude.{
  ℕ, Bool, true, false, not, ◌||◌, Option, none, some, List, [], ◌∷◌, ◌++◌, Text, codes, ◌==◌,
  if◌then◌else◌, text_eq, drop, length,
}
use supervice.Config.Environment.{strip}
use supervice.Config.Groups.{Section, read_groups}
use supervice.Config.Parse.{
  ConfigError, no_file, unreadable, invalid_loglevel, timeout_not_positive, maxbytes_negative,
  backups_negative, missing_command, invalid_program, unknown_programs, Checked, ok, err, ◌>>=◌,
  ◌>>◌, guard, get_or, getint, Program, read_program,
}
use supervice.Config.Validation.{
  ℤ, pos, negsuc, is_negative, is_zero, Machine, CheckSection, ProgramSection, Problem,
  validate_program,
}
pub use supervice.Prelude.Int.{natural}
use supervice.Core.Instances.{is_prefix}
use supervice.Core.Reload.{mem, filter}
use supervice.Models.{HealthCheckConfig, ProgramConfig, SupervisorConfig, default_supervisor}

-- What there is at the path: os.path.exists, then `open` and configparser's `read_file`.
pub data File : Type 0 where
  missing broken : File
  sections : List Section → File

check_config : Text → CheckSection → HealthCheckConfig
check_config host c = record {
  type = c.type;
  interval = c.interval;
  timeout = c.timeout;
  retries = c.retries;
  start_period = c.start_period;
  port = c.port;
  host = host;
  command = c.command;
}

-- An accepted program, whose numbers are natural, apart from those of its health check; no group is
-- set yet.
unfoldable pub program_config : Program → ProgramConfig
unfolding check_config
program_config p =
    let s = p.section in
    record {
      name = p.name;
      command = s.command;
      numprocs = natural s.numprocs;
      autostart = p.autostart;
      autorestart = p.autorestart;
      startsecs = natural s.startsecs;
      startretries = natural s.startretries;
      stopsignal = s.stopsignal;
      stopwaitsecs = natural s.stopwaitsecs;
      stdout_logfile = s.stdout_logfile;
      stderr_logfile = s.stderr_logfile;
      stdout_logfile_maxbytes = natural s.stdout_logfile_maxbytes;
      stdout_logfile_backups = natural s.stdout_logfile_backups;
      stderr_logfile_maxbytes = natural s.stderr_logfile_maxbytes;
      stderr_logfile_backups = natural s.stderr_logfile_backups;
      environment = p.environment;
      directory = s.directory;
      user = s.user;
      group = none;
      pdeathsig = p.pdeathsig;
      healthcheck = check_config p.check_host s.healthcheck;
    }

has_text : Text → Bool
has_text [] = false
has_text (c ∷ cs) = true

accept : Program → Option Problem → Checked ProgramConfig
unfolding program_config
accept p none = ok (program_config p)
accept p (some problem) = err (invalid_program p.name problem)

unfoldable pub accept_program : Machine → Program → Checked ProgramConfig
unfolding has_text accept validate_program
accept_program m p = do
  guard (has_text p.section.command) (missing_command p.name)
  accept p (validate_program m p.section)

abbrev program_prefix : Text
program_prefix = codes "program:"

-- A section that names no program is passed over.
read_one : Bool → Machine → Section → Checked (List ProgramConfig) → Checked (List ProgramConfig)
unfolding read_program accept_program
read_one false m s rest = rest
read_one true m s rest = do
  p ← read_program (drop 8 s.title) s.options
  c ← accept_program m p
  cs ← rest
  ok (c ∷ cs)

-- The loop over the sections of programs.
unfoldable pub read_programs : Machine → List Section → Checked (List ProgramConfig)
unfolding is_prefix read_one
read_programs m [] = ok []
read_programs m (s ∷ ss) = read_one (is_prefix program_prefix s.title) m s (read_programs m ss)

section_named : Text → List Section → Option (Dict Text)
section_named name [] = none
section_named name (s ∷ ss) =
    let rest = section_named name ss in if text_eq s.title name then some s.options else rest

abbrev pub valid_levels : List Text
valid_levels =
    codes "DEBUG"
    ∷ codes "INFO"
    ∷ codes "WARNING"
    ∷ codes "WARN"
    ∷ codes "ERROR"
    ∷ codes "CRITICAL"
    ∷ []

-- The section `supervice`, over the defaults.
unfoldable pub read_supervisor :
    Machine → SupervisorConfig → Option (Dict Text) → Checked SupervisorConfig
unfolding get_or getint mem
read_supervisor m base none = ok base
read_supervisor m base (some sect) = do
  timeout ← getint sect (codes "shutdown_timeout") (pos base.shutdown_timeout)
  maxbytes ← getint sect (codes "log_maxbytes") (pos base.log_maxbytes)
  backups ← getint sect (codes "log_backups") (pos base.log_backups)
  let level = get_or sect (codes "loglevel") base.loglevel
  guard (mem (m.upper level) valid_levels) invalid_loglevel
  guard (not (is_negative timeout || is_zero timeout)) timeout_not_positive
  guard (not (is_negative maxbytes)) maxbytes_negative
  guard (not (is_negative backups)) backups_negative
  ok (record base {
    logfile = get_or sect (codes "logfile") base.logfile;
    pidfile = get_or sect (codes "pidfile") base.pidfile;
    loglevel = level;
    socket_path = get_or sect (codes "socket") base.socket_path;
    shutdown_timeout = natural timeout;
    log_maxbytes = natural maxbytes;
    log_backups = natural backups;
  })

parse_sections : Machine → Text → List Section → Checked SupervisorConfig
unfolding read_supervisor section_named read_programs read_groups
parse_sections m socket ss = do
  config ← read_supervisor m (default_supervisor socket) (section_named (codes "supervice") ss)
  programs ← read_programs m ss
  grouped ← read_groups ss programs
  ok (record config { programs = grouped })

-- `parse_config`; `socket` is the default path of the socket.
unfoldable pub parse_config : Machine → Text → File → Checked SupervisorConfig
unfolding parse_sections
parse_config m socket missing = err no_file
parse_config m socket broken = err unreadable
parse_config m socket (sections ss) = parse_sections m socket ss
