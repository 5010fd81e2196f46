-- ===== src/Core/Reload.antt =====
-- Creating processes and reloading the configuration (supervice/core.py, `_create_processes`,
-- `_rebuild_groups`, `_reload_config_locked` and `_program_changed`). Sets are lists.
pub mod Stages
pub mod Configs
pub mod Groups
use supervice.Prelude.Dict.{Dict, lookup, assign, remove, keys}
use supervice.Prelude.{
  ℕ, Bool, true, false, not, ◌&&◌, ◌||◌, Option, none, some, List, [], ◌∷◌, ◌++◌, Text, text_eq,
  ◌==◌, length, if◌then◌else◌,
}
use supervice.Prelude.Int.{int_eq}
use supervice.Core.Instances.{instances, instance_names}
use supervice.Models.{
  HealthCheckType, no_check, tcp, script, HealthCheckConfig, ProgramConfig, or_text,
}
use supervice.Process.Requests.{start}
use supervice.Process.State.{Process, new, update_config}

unfoldable pub mem : Text → List Text → Bool
mem k [] = false
mem k (n ∷ ns) = text_eq n k || mem k ns

bool_eq : Bool → Bool → Bool
bool_eq true b = b
bool_eq false b = not b

option_eq {ℓ} : {A : Type ℓ} → (A → A → Bool) → Option A → Option A → Bool
option_eq eq none none = true
option_eq eq (some a) (some b) = eq a b
option_eq eq _ _ = false

type_eq : HealthCheckType → HealthCheckType → Bool
type_eq no_check no_check = true
type_eq tcp tcp = true
type_eq script script = true
type_eq _ _ = false

has_items : Dict Text → Dict Text → Bool
unfolding lookup option_eq
has_items [] e = true
has_items ((k, v) ∷ d) e = option_eq text_eq (lookup k e) (some v) && has_items d e

-- `==` of dicts: the same items, in any order
dict_eq : Dict Text → Dict Text → Bool
unfolding has_items
dict_eq d e = length d == length e && has_items d e

-- `==` of the dataclasses: field by field
healthcheck_eq : HealthCheckConfig → HealthCheckConfig → Bool
unfolding option_eq type_eq int_eq
healthcheck_eq a b =
    type_eq a.type b.type
    && int_eq a.interval b.interval
    && int_eq a.timeout b.timeout
    && int_eq a.retries b.retries
    && int_eq a.start_period b.start_period
    && option_eq int_eq a.port b.port
    && text_eq a.host b.host
    && option_eq text_eq a.command b.command

logfiles_eq : ProgramConfig → ProgramConfig → Bool
unfolding option_eq
logfiles_eq a b =
    option_eq text_eq a.stdout_logfile b.stdout_logfile
    && option_eq text_eq a.stderr_logfile b.stderr_logfile
    && a.stdout_logfile_maxbytes == b.stdout_logfile_maxbytes
    && a.stdout_logfile_backups == b.stdout_logfile_backups
    && a.stderr_logfile_maxbytes == b.stderr_logfile_maxbytes
    && a.stderr_logfile_backups == b.stderr_logfile_backups

unfoldable pub config_eq : ProgramConfig → ProgramConfig → Bool
unfolding bool_eq option_eq dict_eq healthcheck_eq logfiles_eq
config_eq a b =
    text_eq a.name b.name
    && text_eq a.command b.command
    && a.numprocs == b.numprocs
    && bool_eq a.autostart b.autostart
    && bool_eq a.autorestart b.autorestart
    && a.startsecs == b.startsecs
    && a.startretries == b.startretries
    && text_eq a.stopsignal b.stopsignal
    && a.stopwaitsecs == b.stopwaitsecs
    && logfiles_eq a b
    && dict_eq a.environment b.environment
    && option_eq text_eq a.directory b.directory
    && option_eq text_eq a.user b.user
    && option_eq text_eq a.group b.group
    && bool_eq a.pdeathsig b.pdeathsig
    && healthcheck_eq a.healthcheck b.healthcheck

unfoldable pub create_process : ProgramConfig → Option Process → Dict Process → Dict Process
unfolding assign
create_process c none procs = assign c.name (new c) procs
create_process c (some p) procs = procs

unfoldable pub create_all : List ProgramConfig → Dict Process → Dict Process
unfolding create_process lookup
create_all [] procs = procs
create_all (c ∷ cs) procs = create_all cs (create_process c (lookup c.name procs) procs)

-- `_create_processes`
unfoldable pub create_processes : List ProgramConfig → Dict Process → Dict Process
unfolding create_all instances
create_processes programs procs = create_all (instances programs) procs

unfoldable pub find : Text → List ProgramConfig → Option ProgramConfig
find name [] = none
find name (c ∷ cs) = if text_eq c.name name then some c else find name cs

differs : Option Process → Option ProgramConfig → Bool
unfolding config_eq
differs none o = false
differs (some p) none = false
differs (some p) (some c) = not (config_eq p.config c)

-- `_program_changed`: the first instance of that name decides.
unfoldable pub program_changed : Dict Process → List ProgramConfig → Text → Bool
unfolding differs lookup find instances
program_changed procs programs name = differs (lookup name procs) (find name (instances programs))

unfoldable pub all_names : List ProgramConfig → List Text
unfolding instance_names
all_names [] = []
all_names (prog ∷ progs) = instance_names prog ++ all_names progs

unfoldable pub filter : (Text → Bool) → List Text → List Text
filter test [] = []
filter test (n ∷ ns) = let rest = filter test ns in if test n then n ∷ rest else rest

unfoldable pub remove_all : List Text → Dict Process → Dict Process
unfolding remove
remove_all [] procs = procs
remove_all (n ∷ ns) procs = remove_all ns (remove n procs)

unfoldable pub start_named : Text → Option Process → Dict Process → Dict Process
unfolding assign start
start_named n none procs = procs
start_named n (some p) procs = assign n (start p) procs

unfoldable pub start_all : List Text → Dict Process → Dict Process
unfolding start_named lookup
start_all [] procs = procs
start_all (n ∷ ns) procs = start_all ns (start_named n (lookup n procs) procs)

unfoldable pub update_named : ProgramConfig → Option Process → Dict Process → Dict Process
unfolding assign update_config
update_named c none procs = procs
update_named c (some p) procs = assign c.name (update_config c p) procs

unfoldable pub update_all : List Text → List ProgramConfig → Dict Process → Dict Process
unfolding update_named lookup mem
update_all changed [] procs = procs
update_all changed (c ∷ cs) procs =
    update_all changed cs
      (if mem c.name changed then update_named c (lookup c.name procs) procs else procs)

-- What the other tasks do to the processes while the reload waits for some to stop.
unfoldable pub carry : (Text → Process → Process) → Dict Process → Dict Process
carry meanwhile [] = []
carry meanwhile ((n, p) ∷ procs) = (n, meanwhile n p) ∷ carry meanwhile procs

unfoldable pub start_added : List ProgramConfig → List Text → Dict Process → Dict Process
unfolding create_processes start_all
start_added programs [] procs = procs
start_added programs (n ∷ ns) procs = start_all (n ∷ ns) (create_processes programs procs)

unfoldable pub add_members : List Text → List Text → List Text
unfolding mem
add_members [] members = members
add_members (n ∷ ns) members = add_members ns (if mem n members then members else members ++ n ∷ [])

unfoldable pub members_of : Option (List Text) → List Text
members_of none = []
members_of (some members) = members

unfoldable pub group_name : ProgramConfig → Text
unfolding or_text
group_name prog = or_text prog.group prog.name

unfoldable pub groups_from : List ProgramConfig → Dict (List Text) → Dict (List Text)
unfolding assign lookup add_members members_of group_name instance_names
groups_from [] groups = groups
groups_from (prog ∷ progs) groups = groups_from progs (
    assign (group_name prog)
      (add_members (instance_names prog) (members_of (lookup (group_name prog) groups))) groups)

-- `_rebuild_groups`
unfoldable pub rebuild_groups : List ProgramConfig → Dict (List Text)
unfolding groups_from
rebuild_groups programs = groups_from programs []

pub record Reloaded : Type 0 where
  pub processes : Dict Process
  pub groups : Dict (List Text)
  pub added : List Text
  pub removed : List Text
  pub changed : List Text

-- `_reload_config_locked`, on what `parse_config` returned
unfoldable pub reload : (Text → Process → Process) → List ProgramConfig → Dict Process → Reloaded
unfolding carry start_added remove_all update_all all_names filter mem keys program_changed
    rebuild_groups instances
reload meanwhile programs procs =
    let old_names = keys procs in
    let new_names = all_names programs in
    let added = filter (λ n. not (mem n old_names)) new_names in
    let removed = filter (λ n. not (mem n new_names)) old_names in
    let changed = filter (λ n. mem n new_names && program_changed procs programs n) old_names in
    record {
      processes =
          update_all changed (instances programs)
            (start_added programs added (remove_all removed (carry meanwhile procs)));
      groups = rebuild_groups programs;
      added = added;
      removed = removed;
      changed = changed;
    }
