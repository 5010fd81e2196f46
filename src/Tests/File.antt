-- ===== src/Tests/File.antt =====
-- A configuration file of two programs and a group, and a reload of it.
use supervice.Config.File.Accepted.{IsSound, parse_config-IsSound}
use supervice.Config.Groups.Last.{last_group, with_group, read_groups-last}
use supervice.Config.File.{File, sections, parse_config}
use supervice.Config.Groups.{Section, read_groups}
use supervice.Config.Numbers.{parse_int, parse_bool}
use supervice.Config.Parse.Inversion.{ok-injective}
use supervice.Config.Parse.{ok, err, not_a_number, unknown_programs, missing_command}
use supervice.Config.Validation.{Machine, negsuc}
use supervice.Core.Instances.Names.{names_of}
use supervice.Core.Instances.{instances, instance_config}
use supervice.Core.Loading.{
  Supervisor, new_supervisor, IsReloaded, load_config, reload_config, reload_config-IsReloaded,
}
use supervice.Core.Reload.Stages.{distinct}
use supervice.Models.{ProgramConfig, SupervisorConfig, default_program, default_supervisor}
use supervice.Prelude.{
  ◌≡◌, refl, sym, ap, ◌∙◌, true, false, none, some, [], ◌∷◌, Text, text_eq, codes, map,
}

abbrev pub machine : Machine
machine = record {
  split = λ command. some (command ∷ []);
  upper = λ s. s;
  has_user = λ user. true;
  exists = λ path. true;
  is_directory = λ path. true;
  can_enter = λ path. true;
  can_write = λ path. true;
  dirname = λ path. [];
}

abbrev pub socket : Text
socket = codes "s.sock"

abbrev main_section : Section
main_section = record {
  title = codes "supervice";
  options = (codes "shutdown_timeout", codes "5") ∷ [];
}

abbrev web_section : Section
web_section = record {
  title = codes "program:web";
  options =
      (codes "command", codes "serve")
      ∷ (codes "numprocs", codes "2")
      ∷ (codes "autostart", codes "no")
      ∷ [];
}

abbrev db_section : Section
db_section = record { title = codes "program:db"; options = (codes "command", codes "store") ∷ [] }

abbrev data_section : Section
data_section = record {
  title = codes "group:data";
  options = (codes "programs", codes "db, ") ∷ [];
}

abbrev db : ProgramConfig
db = record (default_program (codes "db") (codes "store")) { group = some (codes "data") }

abbrev web : ProgramConfig
web = record (default_program (codes "web") (codes "serve")) { numprocs = 2; autostart = false }

abbrev pub expected : SupervisorConfig
expected = record (default_supervisor socket) { shutdown_timeout = 5; programs = web ∷ db ∷ [] }

abbrev pub file : File
file = sections (main_section ∷ web_section ∷ db_section ∷ data_section ∷ [])

pub parses : parse_config machine socket file ≡ ok expected
unfolding parse_config text_eq
parses = refl

refuses_number :
    parse_config machine socket (
      sections (
        record { title = codes "supervice"; options = (codes "log_backups", codes "x") ∷ [] } ∷ []))
    ≡ err not_a_number
unfolding parse_config text_eq
refuses_number = refl

refuses_no_command :
    parse_config machine socket (sections (record { title = codes "program:a"; options = [] } ∷ []))
    ≡ err (missing_command (codes "a"))
unfolding parse_config text_eq
refuses_no_command = refl

refuses_unknown :
    parse_config machine socket (sections (data_section ∷ []))
    ≡ err (unknown_programs (codes "data") (codes "db" ∷ []))
unfolding parse_config text_eq
refuses_unknown = refl

reads_negative : parse_int (codes " -1_0 ") ≡ some (negsuc 9)
unfolding parse_int
reads_negative = refl

reads_on : parse_bool (codes "On") ≡ true
unfolding parse_bool text_eq
reads_on = refl

parse_config-IsSound_example : IsSound machine file expected
parse_config-IsSound_example = parse_config-IsSound machine socket file expected parses

grouped :
    read_groups (data_section ∷ []) (record db { group = none } ∷ web ∷ []) ≡ ok (db ∷ web ∷ [])
unfolding read_groups text_eq
grouped = refl

read_groups-last_example :
    (db ∷ web ∷ [])
    ≡ map
        (λ c. with_group (last_group (data_section ∷ []) c.name) c)
        (record db { group = none } ∷ web ∷ [])
read_groups-last_example =
    read_groups-last (data_section ∷ []) (record db { group = none } ∷ web ∷ []) (db ∷ web ∷ [])
      grouped

abbrev started : Supervisor
started = (load_config machine socket file (new_supervisor socket)).0

apart : distinct (names_of (instances (web ∷ db ∷ []))) ≡ true
unfolding distinct instances text_eq instance_config
apart = refl

named_apart :
    (config : SupervisorConfig)
    → parse_config machine socket file ≡ ok config
    → distinct (names_of (instances config.programs)) ≡ true
named_apart config h =
    ap (λ (c : SupervisorConfig). distinct (names_of (instances c.programs)))
      (sym (ok-injective (sym parses ∙ h)))
    ∙ apart

reload_config-IsReloaded_example :
    let (t, o) = reload_config machine socket (λ n p. p) file (new_supervisor socket) in
    IsReloaded machine socket file (new_supervisor socket) t o
reload_config-IsReloaded_example =
    reload_config-IsReloaded machine socket (λ n p. p) (λ n p. refl) file (new_supervisor socket)
      named_apart
