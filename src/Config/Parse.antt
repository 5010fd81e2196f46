-- ===== src/Config/Parse.antt =====
-- Reading the sections of the configuration file (supervice/config.py, `parse_config`). What
-- configparser makes of the file is a parameter: its sections in order, each with the options that
-- `get` finds in it.
pub mod Inversion
use supervice.Prelude.Dict.{Dict, lookup}
use supervice.Prelude.{
  ℕ, Bool, true, false, not, ◌||◌, Option, none, some, List, [], ◌∷◌, ◌++◌, Text, codes, ◌==◌,
  if◌then◌else◌, text_eq, drop, length,
}
use supervice.Config.Environment.{parse_env, strip}
use supervice.Config.Numbers.{parse_int, parse_bool, lower}
use supervice.Config.Validation.{
  ℤ, pos, negsuc, is_negative, is_zero, Machine, CheckSection, ProgramSection, Problem,
  validate_program,
}
use supervice.Core.Instances.{is_prefix}
use supervice.Core.Reload.{mem, filter}
use supervice.Models.{
  HealthCheckType, no_check, tcp, script, HealthCheckConfig, ProgramConfig, SupervisorConfig,
  default_child_log_maxbytes, default_child_log_backups, default_supervisor, given,
}

-- What `parse_config` raises: FileNotFoundError, what `open` or configparser raises, the ValueError
-- of an `int`, or a ConfigValidationError.
pub data ConfigError : Type 0 where
  no_file unreadable not_a_number invalid_loglevel timeout_not_positive : ConfigError
  maxbytes_negative backups_negative no_rounds_left : ConfigError
  missing_command : Text → ConfigError
  invalid_program : Text → Problem → ConfigError
  unknown_programs : Text → List Text → ConfigError

pub data Checked {ℓ} (A : Type ℓ) : Type ℓ where
  ok : A → Checked A
  err : ConfigError → Checked A

infixl 10 ◌>>=◌ ◌>>◌
abbrev pub ◌>>=◌ {ℓ κ} : {A : Type ℓ} {B : Type κ} → Checked A → (A → Checked B) → Checked B
ok a >>= f = f a
err e >>= f = err e

abbrev pub ◌>>◌ {ℓ κ} : {A : Type ℓ} {B : Type κ} → Checked A → Checked B → Checked B
m >> k = m >>= λ _. k

abbrev pub guard : Bool → ConfigError → Checked (Unit {0})
guard true e = ok tt
guard false e = err e

int_of : Option ℤ → Checked ℤ
int_of none = err not_a_number
int_of (some n) = ok n

text_or : Text → Option Text → Text
text_or fallback none = fallback
text_or fallback (some t) = t

-- sect.get(option, fallback)
unfoldable pub get_or : Dict Text → Text → Text → Text
unfolding lookup text_or
get_or sect option fallback = text_or fallback (lookup option sect)

int_or : ℤ → Option Text → Checked ℤ
unfolding int_of parse_int
int_or fallback none = ok fallback
int_or fallback (some t) = int_of (parse_int t)

-- sect.getint(option, fallback)
unfoldable pub getint : Dict Text → Text → ℤ → Checked ℤ
unfolding lookup int_or
getint sect option fallback = int_or fallback (lookup option sect)

port_or_none : Option Text → Checked (Option ℤ)
unfolding int_of parse_int
port_or_none none = ok none
port_or_none (some t) = do n ← int_of (parse_int t); ok (some n)

-- sect.getint("healthcheck_port") if sect.get("healthcheck_port") else None
get_port : Dict Text → Checked (Option ℤ)
unfolding port_or_none given lookup
get_port sect = port_or_none (given (lookup (codes "healthcheck_port") sect))

check_type : Text → HealthCheckType
check_type t =
    if text_eq t (codes "tcp")
    then tcp
    else (if text_eq t (codes "script") then script else no_check)

-- A program of the file, before its numbers are known to be natural.
pub record Program : Type 0 where
  pub name : Text
  pub section : ProgramSection
  pub check_host : Text
  pub autostart : Bool
  pub autorestart : Bool
  pub environment : Dict Text
  pub pdeathsig : Bool

unfoldable pub read_check : Dict Text → Checked CheckSection
unfolding getint get_port check_type lower get_or lookup
read_check sect = do
  interval ← getint sect (codes "healthcheck_interval") (pos 30)
  timeout ← getint sect (codes "healthcheck_timeout") (pos 10)
  retries ← getint sect (codes "healthcheck_retries") (pos 3)
  start_period ← getint sect (codes "healthcheck_start_period") (pos 10)
  port ← get_port sect
  ok (record {
    type = check_type (lower (get_or sect (codes "healthcheck_type") (codes "none")));
    interval = interval;
    timeout = timeout;
    retries = retries;
    start_period = start_period;
    port = port;
    command = lookup (codes "healthcheck_command") sect;
  })

-- `_parse_env` always comes to an end: its rounds are enough.
environment_of : Option (Dict Text) → Checked (Dict Text)
environment_of none = err no_rounds_left
environment_of (some d) = ok d

unfoldable pub read_section : Dict Text → CheckSection → Checked ProgramSection
unfolding getint get_or lookup
read_section sect check = do
  numprocs ← getint sect (codes "numprocs") (pos 1)
  startsecs ← getint sect (codes "startsecs") (pos 1)
  startretries ← getint sect (codes "startretries") (pos 3)
  stopwaitsecs ← getint sect (codes "stopwaitsecs") (pos 10)
  out_maxbytes ← getint sect (codes "stdout_logfile_maxbytes") (pos default_child_log_maxbytes)
  out_backups ← getint sect (codes "stdout_logfile_backups") (pos default_child_log_backups)
  err_maxbytes ← getint sect (codes "stderr_logfile_maxbytes") (pos default_child_log_maxbytes)
  err_backups ← getint sect (codes "stderr_logfile_backups") (pos default_child_log_backups)
  ok (record {
    command = get_or sect (codes "command") [];
    numprocs = numprocs;
    startsecs = startsecs;
    startretries = startretries;
    stopsignal = get_or sect (codes "stopsignal") (codes "TERM");
    stopwaitsecs = stopwaitsecs;
    stdout_logfile = lookup (codes "stdout_logfile") sect;
    stderr_logfile = lookup (codes "stderr_logfile") sect;
    stdout_logfile_maxbytes = out_maxbytes;
    stdout_logfile_backups = out_backups;
    stderr_logfile_maxbytes = err_maxbytes;
    stderr_logfile_backups = err_backups;
    directory = lookup (codes "directory") sect;
    user = lookup (codes "user") sect;
    healthcheck = check;
  })

unfoldable pub read_program : Text → Dict Text → Checked Program
unfolding read_check read_section environment_of parse_env parse_bool get_or
read_program name sect = do
  check ← read_check sect
  section ← read_section sect check
  environment ← environment_of (parse_env (get_or sect (codes "environment") []))
  ok (record {
    name = name;
    section = section;
    check_host = get_or sect (codes "healthcheck_host") (codes "127.0.0.1");
    autostart = parse_bool (get_or sect (codes "autostart") (codes "true"));
    autorestart = parse_bool (get_or sect (codes "autorestart") (codes "true"));
    environment = environment;
    pdeathsig = parse_bool (get_or sect (codes "pdeathsig") (codes "true"));
  })
