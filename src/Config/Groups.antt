-- ===== src/Config/Groups.antt =====
-- The sections of groups (supervice/config.py, `parse_config`).
pub mod Last
use supervice.Prelude.Dict.{Dict, lookup}
use supervice.Prelude.{
  ℕ, Bool, true, false, not, ◌||◌, Option, none, some, List, [], ◌∷◌, ◌++◌, Text, codes, ◌==◌,
  if◌then◌else◌, text_eq, drop, length,
}
use supervice.Config.Environment.{strip}
use supervice.Config.Parse.{
  ConfigError, no_file, unreadable, invalid_loglevel, timeout_not_positive, maxbytes_negative,
  backups_negative, missing_command, invalid_program, unknown_programs, Checked, ok, err, ◌>>=◌,
  ◌>>◌, guard, get_or, getint, Program, read_program,
}
use supervice.Config.Validation.{
  ℤ, pos, negsuc, is_negative, is_zero, Machine, CheckSection, ProgramSection, Problem,
  validate_program,
}
use supervice.Core.Instances.{is_prefix}
use supervice.Core.Reload.{mem, filter}
use supervice.Models.{HealthCheckConfig, ProgramConfig, SupervisorConfig, default_supervisor}

pub record Section : Type 0 where
  pub title : Text
  pub options : Dict Text

abbrev group_prefix : Text
group_prefix = codes "group:"

push_char : ℕ → List Text → List Text
push_char c [] = (c ∷ []) ∷ []
push_char c (w ∷ ws) = (c ∷ w) ∷ ws

-- value.split(",")
unfoldable pub split_commas : Text → List Text
unfolding push_char
split_commas [] = [] ∷ []
split_commas (c ∷ cs) =
    let rest = split_commas cs in if c == 44 then [] ∷ rest else push_char c rest

keep_given : Text → List Text → List Text
keep_given [] ws = ws
keep_given (c ∷ cs) ws = (c ∷ cs) ∷ ws

strip_all : List Text → List Text
unfolding keep_given strip
strip_all [] = []
strip_all (w ∷ ws) = keep_given (strip w) (strip_all ws)

-- [p.strip() for p in programs.split(",") if p.strip()]
unfoldable pub program_names : Text → List Text
unfolding strip_all split_commas
program_names value = strip_all (split_commas value)

config_names : List ProgramConfig → List Text
config_names [] = []
config_names (c ∷ cs) = c.name ∷ config_names cs

set_group : Text → List Text → ProgramConfig → ProgramConfig
unfolding mem
set_group group names c = if mem c.name names then record c { group = some group } else c

unfoldable pub set_groups : Text → List Text → List ProgramConfig → List ProgramConfig
unfolding set_group
set_groups group names [] = []
set_groups group names (c ∷ cs) = set_group group names c ∷ set_groups group names cs

assign_known : Text → List Text → List Text → List ProgramConfig → Checked (List ProgramConfig)
unfolding set_groups
assign_known group names [] programs = ok (set_groups group names programs)
assign_known group names (n ∷ ns) programs = err (unknown_programs group (n ∷ ns))

assign_group : Text → Text → List ProgramConfig → Checked (List ProgramConfig)
unfolding assign_known program_names filter mem config_names
assign_group group [] programs = ok programs
assign_group group (c ∷ cs) programs =
    let names = program_names (c ∷ cs) in
    assign_known group names (filter (λ n. not (mem n (config_names programs))) names) programs

read_group : Bool → Section → List ProgramConfig → Checked (List ProgramConfig)
unfolding assign_group get_or
read_group false s programs = ok programs
read_group true s programs =
    assign_group (drop 6 s.title) (get_or s.options (codes "programs") []) programs

-- The loop over the sections of groups.
unfoldable pub read_groups : List Section → List ProgramConfig → Checked (List ProgramConfig)
unfolding is_prefix read_group
read_groups [] programs = ok programs
read_groups (s ∷ ss) programs = do
  named ← read_group (is_prefix group_prefix s.title) s programs
  read_groups ss named
