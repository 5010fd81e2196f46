-- ===== src/Config/Validation.antt =====
-- The validation of a program's section (supervice/config.py, `_validate_signal` to
-- `_validate_program`). What the file system and the user database say is a parameter.
pub mod Promises
use supervice.Prelude.{
  ℕ, zero, suc, Bool, true, false, not, ◌&&◌, ◌||◌, Option, none, some, List, [], ◌∷◌, Text, codes,
  leb, drop, if◌then◌else◌,
}
pub use supervice.Prelude.Int.{ℤ, pos, negsuc, is_negative, is_zero}
use supervice.Core.Instances.{is_prefix}
use supervice.Core.Reload.{mem}
use supervice.Models.{HealthCheckType, no_check, tcp, script, given}

-- shlex.split, str.upper, pwd.getpwnam, os.path and os.access. For a log file, os.path.dirname is
-- part of what is asked.
pub record Machine : Type 0 where
  pub split : Text → Option (List Text)
  pub upper : Text → Text
  pub has_user : Text → Bool
  pub exists : Text → Bool
  pub is_directory : Text → Bool
  pub can_enter : Text → Bool
  pub can_write : Text → Bool
  pub dirname : Text → Text

-- A health check and a program as the file has them.
pub record CheckSection : Type 0 where
  pub type : HealthCheckType
  pub interval : ℤ
  pub timeout : ℤ
  pub retries : ℤ
  pub start_period : ℤ
  pub port : Option ℤ
  pub command : Option Text

pub record ProgramSection : Type 0 where
  pub command : Text
  pub numprocs : ℤ
  pub startsecs : ℤ
  pub startretries : ℤ
  pub stopsignal : Text
  pub stopwaitsecs : ℤ
  pub stdout_logfile : Option Text
  pub stderr_logfile : Option Text
  pub stdout_logfile_maxbytes : ℤ
  pub stdout_logfile_backups : ℤ
  pub stderr_logfile_maxbytes : ℤ
  pub stderr_logfile_backups : ℤ
  pub directory : Option Text
  pub user : Option Text
  pub healthcheck : CheckSection

-- The messages of ConfigValidationError.
pub data Problem : Type 0 where
  negative no_instances command_unparsable command_empty signal_invalid : Problem
  user_unknown directory_missing directory_no_directory directory_closed : Problem
  log_directory_missing log_directory_closed interval_zero port_missing : Problem
  port_out_of_range check_command_missing : Problem

-- Checks in order: the first that raises ends the validation.
unfoldable pub first : List (Option Problem) → Option Problem
first [] = none
first (none ∷ ps) = first ps
first (some p ∷ ps) = some p

refuse : Bool → Problem → Option Problem
refuse true p = some p
refuse false p = none

abbrev pub valid_signals : List Text
valid_signals =
    codes "HUP"
    ∷ codes "INT"
    ∷ codes "QUIT"
    ∷ codes "ILL"
    ∷ codes "TRAP"
    ∷ codes "ABRT"
    ∷ codes "BUS"
    ∷ codes "FPE"
    ∷ codes "KILL"
    ∷ codes "USR1"
    ∷ codes "SEGV"
    ∷ codes "USR2"
    ∷ codes "PIPE"
    ∷ codes "ALRM"
    ∷ codes "TERM"
    ∷ codes "STKFLT"
    ∷ codes "CHLD"
    ∷ codes "CONT"
    ∷ codes "STOP"
    ∷ codes "TSTP"
    ∷ codes "TTIN"
    ∷ codes "TTOU"
    ∷ codes "URG"
    ∷ codes "XCPU"
    ∷ codes "XFSZ"
    ∷ codes "VTALRM"
    ∷ codes "PROF"
    ∷ codes "WINCH"
    ∷ codes "IO"
    ∷ codes "PWR"
    ∷ codes "SYS"
    ∷ []

unfoldable pub without_sig : Text → Text
unfolding is_prefix
without_sig s = if is_prefix (codes "SIG") s then drop 3 s else s

-- `_validate_signal`
unfoldable pub validate_signal : Machine → Text → Option Problem
unfolding mem without_sig refuse
validate_signal m name =
    let s = m.upper name in
    refuse (not (mem s valid_signals || mem (without_sig s) valid_signals)) signal_invalid

-- `_validate_user`
validate_user : Machine → Option Text → Option Problem
unfolding refuse
validate_user m none = none
validate_user m (some user) = refuse (not (m.has_user user)) user_unknown

-- `_validate_directory`
validate_directory : Machine → Option Text → Option Problem
unfolding refuse first
validate_directory m none = none
validate_directory m (some d) = first (
    refuse (not (m.exists d)) directory_missing
    ∷ refuse (not (m.is_directory d)) directory_no_directory
    ∷ refuse (not (m.can_enter d)) directory_closed
    ∷ [])

parent_of : Text → Text
parent_of [] = codes "."
parent_of (c ∷ cs) = c ∷ cs

-- `_validate_logfile_path`
validate_logfile_path : Machine → Option Text → Option Problem
unfolding refuse first parent_of
validate_logfile_path m none = none
validate_logfile_path m (some path) =
    let d = parent_of (m.dirname path) in
    first (
      refuse (not (m.exists d)) log_directory_missing
      ∷ refuse (not (m.can_write d)) log_directory_closed
      ∷ [])

-- `_validate_positive_int`
unfoldable pub validate_positive_int : ℤ → Option Problem
unfolding refuse
validate_positive_int n = refuse (is_negative n) negative

is_port : ℤ → Bool
is_port (pos n) = leb 1 n && leb n 65535
is_port (negsuc n) = false

validate_port : Option ℤ → Option Problem
unfolding refuse is_port
validate_port none = some port_missing
validate_port (some n) = refuse (not (is_port n)) port_out_of_range

validate_check_command : Option Text → Option Problem
validate_check_command none = some check_command_missing
validate_check_command (some c) = none

validate_target : CheckSection → HealthCheckType → Option Problem
unfolding validate_port validate_check_command given
validate_target hc tcp = validate_port hc.port
validate_target hc script = validate_check_command (given hc.command)
validate_target hc no_check = none

unfoldable pub check_list : CheckSection → List (Option Problem)
unfolding validate_positive_int refuse validate_target
check_list hc =
    (validate_positive_int hc.interval
      ∷ validate_positive_int hc.timeout
      ∷ validate_positive_int hc.retries
      ∷ validate_positive_int hc.start_period
      ∷ refuse (is_zero hc.interval) interval_zero
      ∷ validate_target hc hc.type
      ∷ [])

-- `_validate_healthcheck`
unfoldable pub validate_healthcheck : CheckSection → Option Problem
unfolding first check_list
validate_healthcheck hc = first (check_list hc)

validate_configured : CheckSection → HealthCheckType → Option Problem
unfolding validate_healthcheck
validate_configured hc no_check = none
validate_configured hc tcp = validate_healthcheck hc
validate_configured hc script = validate_healthcheck hc

words_of : Option (List Text) → Option Problem
words_of none = some command_unparsable
words_of (some []) = some command_empty
words_of (some (w ∷ ws)) = none

-- `_validate_command`
validate_command : Machine → Text → Option Problem
unfolding words_of
validate_command m command = words_of (m.split command)

unfoldable pub program_list : Machine → ProgramSection → List (Option Problem)
unfolding validate_positive_int refuse validate_command validate_signal validate_user
    validate_directory validate_logfile_path validate_configured given
program_list m p =
    (validate_positive_int p.numprocs
      ∷ validate_positive_int p.startsecs
      ∷ validate_positive_int p.startretries
      ∷ validate_positive_int p.stopwaitsecs
      ∷ validate_positive_int p.stdout_logfile_maxbytes
      ∷ validate_positive_int p.stdout_logfile_backups
      ∷ validate_positive_int p.stderr_logfile_maxbytes
      ∷ validate_positive_int p.stderr_logfile_backups
      ∷ refuse (is_zero p.numprocs) no_instances
      ∷ validate_command m p.command
      ∷ validate_signal m p.stopsignal
      ∷ validate_user m (given p.user)
      ∷ validate_directory m (given p.directory)
      ∷ validate_logfile_path m (given p.stdout_logfile)
      ∷ validate_logfile_path m (given p.stderr_logfile)
      ∷ validate_configured p.healthcheck p.healthcheck.type
      ∷ [])

-- `_validate_program`
unfoldable pub validate_program : Machine → ProgramSection → Option Problem
unfolding first program_list
validate_program m p = first (program_list m p)
