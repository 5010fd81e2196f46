-- ===== src/Core/Instances.antt =====
-- The instances of a program (supervice/core.py, `_expand` to `_instance_config`).
pub mod Names
use supervice.Prelude.{
  ℕ, zero, suc, ◌+◌, ◌-◌, ◌/◌, ◌%◌, Bool, true, false, ◌&&◌, Option, none, some, List, [], ◌∷◌,
  ◌++◌, Text, codes, ltb, ◌==◌, length, if◌then◌else◌,
}
use supervice.Models.{ProgramConfig}

unfoldable pub is_prefix : Text → Text → Bool
is_prefix [] s = true
is_prefix (c ∷ cs) [] = false
is_prefix (c ∷ cs) (d ∷ ds) = c == d && is_prefix cs ds

-- str.replace for a pattern that is not empty, with the number of characters still to pass over.
unfoldable pub replace_at : Text → Text → ℕ → Text → Text
replace_at pattern new n [] = []
replace_at pattern new (suc n) (c ∷ cs) = replace_at pattern new n cs
replace_at pattern new zero (c ∷ cs) = elim (is_prefix pattern (c ∷ cs)) [
  | true ↦ new ++ replace_at pattern new (length pattern - 1) cs
  | false ↦ c ∷ replace_at pattern new 0 cs
]

-- The decimal digits of a number, for at most as many digits as are given.
unfoldable pub digits : ℕ → ℕ → Text
digits zero n = []
digits (suc f) n = elim (ltb n 10) [
  | true ↦ (48 + n) ∷ []
  | false ↦ digits f (n / 10) ++ (48 + n % 10) ∷ []
]

-- "%02d" % n
unfoldable pub two_digits : ℕ → Text
unfolding digits
two_digits n = if ltb n 10 then 48 ∷ digits (suc n) n else digits (suc n) n

abbrev pub process_num : Text
process_num = codes "%(process_num)s"

-- `_expand`
unfoldable pub expand : ℕ → Text → Text
unfolding replace_at is_prefix two_digits
expand i value = replace_at process_num (two_digits i) 0 value

-- `_expand_opt`
unfoldable pub expand_opt : ℕ → Option Text → Option Text
unfolding expand
expand_opt i none = none
expand_opt i (some value) = some (expand i value)

unfoldable pub expand_values : ℕ → List (Text × Text) → List (Text × Text)
unfolding expand
expand_values i [] = []
expand_values i ((k, v) ∷ d) = (k, expand i v) ∷ expand_values i d

-- "%s:%02d" % (name, i), if there are several instances
unfoldable pub instance_name : ProgramConfig → ℕ → Text
unfolding two_digits
instance_name prog i = if ltb 1 prog.numprocs then prog.name ++ (58 ∷ two_digits i) else prog.name

names_from : ProgramConfig → ℕ → ℕ → List Text
unfolding instance_name
names_from prog i zero = []
names_from prog i (suc n) = instance_name prog i ∷ names_from prog (suc i) n

-- `_instance_names`
unfoldable pub instance_names : ProgramConfig → List Text
unfolding names_from
instance_names prog =
    if ltb 1 prog.numprocs then names_from prog 0 prog.numprocs else prog.name ∷ []

-- `_instance_config`
unfoldable pub instance_config : ProgramConfig → ℕ → ProgramConfig
unfolding instance_name expand expand_opt expand_values
instance_config prog i = record prog {
  name = instance_name prog i;
  command = expand i prog.command;
  environment = expand_values i prog.environment;
  stdout_logfile = expand_opt i prog.stdout_logfile;
  stderr_logfile = expand_opt i prog.stderr_logfile;
}

unfoldable pub instances_from : ProgramConfig → ℕ → ℕ → List ProgramConfig
instances_from prog i zero = []
instances_from prog i (suc n) = instance_config prog i ∷ instances_from prog (suc i) n

-- What `for prog in programs: for i in range(prog.numprocs)` runs through.
unfoldable pub instances : List ProgramConfig → List ProgramConfig
unfolding instances_from
instances [] = []
instances (prog ∷ progs) = instances_from prog 0 prog.numprocs ++ instances progs
