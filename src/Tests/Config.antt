-- ===== src/Tests/Config.antt =====
-- Environments and sections of programs on small inputs.
use supervice.Config.Validation.Promises.{IsAccepted, validate_program-IsAccepted}
use supervice.Config.Validation.{
  pos, Machine, CheckSection, ProgramSection, no_instances, port_out_of_range, validate_program,
}
use supervice.Models.{tcp, default_program}
use supervice.Process.Kill.{Signals, stop_signal}
use supervice.Process.State.{new}
use supervice.Prelude.Dict.{Dict, merge}
use supervice.Prelude.{◌≡◌, refl, some, [], ◌∷◌, Text, text_eq, codes, none, true, if◌then◌else◌}
use supervice.Config.Environment.Ends.{parse_env-ends}
use supervice.Config.Environment.RoundTrip.{
  IsWritable, lacks, starts_plain, write_env, parse_env-write_env,
}
use supervice.Config.Environment.{strip, is_separator, parse_env}

abbrev two : Dict Text
two = (codes "A", codes "1") ∷ (codes "B", codes "x, y") ∷ []

reads_unquoted :
    parse_env (codes " A = 1, B='x, y' ,C=")
    ≡ some ((codes "A", codes "1") ∷ (codes "B", codes "x, y") ∷ (codes "C", []) ∷ [])
unfolding parse_env text_eq
reads_unquoted = refl

A-IsWritable : IsWritable (codes "A") (codes "1")
unfolding lacks strip starts_plain is_separator
A-IsWritable = record { no_equals = refl; stripped = refl; plain = refl; no_quote = refl }

B-IsWritable : IsWritable (codes "B") (codes "x, y")
unfolding lacks strip starts_plain is_separator
B-IsWritable = record { no_equals = refl; stripped = refl; plain = refl; no_quote = refl }

parse_env-write_env_example : parse_env (write_env two) ≡ some (merge [] two)
parse_env-write_env_example = parse_env-write_env two (A-IsWritable, (B-IsWritable, tt))

parse_env-ends_example : (d : Dict Text) × (parse_env (codes "A=1,=") ≡ some d)
parse_env-ends_example = parse_env-ends (codes "A=1,=")

-- A machine on which everything is there, and where no letter is in lower case.
abbrev machine : Machine
machine = record {
  split = λ command. some (command ∷ []);
  upper = λ s. s;
  has_user = λ user. true;
  exists = λ path. true;
  is_directory = λ path. true;
  can_enter = λ path. true;
  can_write = λ path. true;
  dirname = λ path. [];
}

abbrev web_check : CheckSection
web_check = record {
  type = tcp;
  interval = pos 30;
  timeout = pos 10;
  retries = pos 3;
  start_period = pos 10;
  port = some (pos 8080);
  command = none;
}

abbrev web_section : ProgramSection
web_section = record {
  command = codes "serve";
  numprocs = pos 2;
  startsecs = pos 1;
  startretries = pos 3;
  stopsignal = codes "SIGINT";
  stopwaitsecs = pos 10;
  stdout_logfile = none;
  stderr_logfile = none;
  stdout_logfile_maxbytes = pos 0;
  stdout_logfile_backups = pos 0;
  stderr_logfile_maxbytes = pos 0;
  stderr_logfile_backups = pos 0;
  directory = none;
  user = none;
  healthcheck = web_check;
}

accepts_web : validate_program machine web_section ≡ none
unfolding validate_program text_eq
accepts_web = refl

refuses_no_instances :
    validate_program machine (record web_section { numprocs = pos 0 }) ≡ some no_instances
unfolding validate_program
refuses_no_instances = refl

refuses_port :
    validate_program machine
      (record web_section { healthcheck = record web_check { port = some (pos 65536) } })
    ≡ some port_out_of_range
unfolding validate_program text_eq
refuses_port = refl

-- The signals that Python's signal module has, as far as they matter here.
abbrev signal_numbers : Signals
signal_numbers = record { number = λ name. if text_eq name (codes "INT") then some 2 else none }

-- A stop signal that is accepted with its prefix is not found when it is sent: the child is sent
-- SIGTERM.
sends_sigterm :
    stop_signal signal_numbers
      (new (record (default_program (codes "web") (codes "serve")) { stopsignal = codes "SIGINT" }))
    ≡ 15
unfolding stop_signal new text_eq
sends_sigterm = refl

validate_program-IsAccepted_example : IsAccepted machine web_section
validate_program-IsAccepted_example = validate_program-IsAccepted machine web_section accepts_web
