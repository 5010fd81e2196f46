-- ===== src/Config/File/Accepted.antt =====
-- What is true of a configuration that was read (supervice/config.py, `parse_config`).
use mathlib.Core.Path.{subst}
use supervice.Prelude.Dict.{Dict}
use supervice.Prelude.{
  map, zero, suc, ◌<◌, ◌≡◌, refl, sym, ap, ◌∙◌, Bool, true, false, not, ◌||◌, Option, none, some,
  List, [], ◌∷◌, Text, ◌++◌, ◌≢◌, length, drop, codes, ◌⊎◌, arith, inl, inr,
}
use supervice.Config.File.{
  File, missing, broken, sections, natural, program_config, has_text, read_one, accept,
  accept_program, read_programs, read_supervisor, parse_config, program_prefix, valid_levels,
  section_named,
}
use supervice.Config.Groups.Last.{with_group, last_group, read_groups-last}
use supervice.Config.Groups.{Section, read_groups}
use supervice.Config.Parse.Inversion.{
  >>=-eq-ok, ok-injective, guard-true, read_program-name_command,
}
use supervice.Config.Parse.{
  Checked, ok, getint, invalid_loglevel, timeout_not_positive, maxbytes_negative, backups_negative,
  guard, get_or, Program, read_program,
}
use supervice.Config.Validation.Promises.{IsAccepted, validate_program-IsAccepted}
use supervice.Config.Validation.{
  Machine, Problem, validate_program, ℤ, pos, negsuc, is_negative, is_zero,
}
use supervice.Core.Instances.{is_prefix}
use supervice.Core.Reload.Configs.{AllHaveInstances}
use supervice.Core.Reload.{mem}
use supervice.Models.{ProgramConfig, SupervisorConfig, default_supervisor}

abbrev IsMade : Program → ProgramConfig → Type 0
IsMade p c = (record c { group = none }) ≡ program_config p

-- A program of the configuration comes from a section of the file whose title is "program:" and its
-- name: it has the command of that section, which is not empty, and is made of what is read from the
-- section's options and the validation accepted; a group may have been set since.
pub record IsFrom (m : Machine) (s : Section) (c : ProgramConfig) : Type 0 where
  pub program : Program
  pub titled : s.title ≡ codes "program:" ++ c.name
  pub commanded : c.command ≡ get_or s.options (codes "command") []
  pub not_empty : c.command ≢ []
  pub reads : read_program (drop 8 s.title) s.options ≡ ok program
  pub accepted : IsAccepted m program.section
  pub made : IsMade program c

-- The programs come from the sections of programs, each from one and in their order; the other
-- sections are passed over.
pub data AllFrom (m : Machine) : List Section → List ProgramConfig → Type 0 where
  no_more : AllFrom m [] []
  passed_over :
      {s : Section} {ss : List Section} {cs : List ProgramConfig}
      → is_prefix (codes "program:") s.title ≡ false
      → AllFrom m ss cs
      → AllFrom m (s ∷ ss) cs
  taken :
      {s : Section} {c : ProgramConfig} {ss : List Section} {cs : List ProgramConfig}
      → IsFrom m s c
      → AllFrom m ss cs
      → AllFrom m (s ∷ ss) (c ∷ cs)

prefix-drop : (p t : Text) → is_prefix p t ≡ true → t ≡ p ++ drop (length p) t
unfolding is_prefix
prefix-drop [] t h = refl
prefix-drop (c ∷ cs) [] h = cc
prefix-drop (c ∷ cs) (d ∷ ds) h = ground (arith, prefix-drop cs ds)

has_text-ne : (t : Text) → has_text t ≡ true → t ≢ []
unfolding has_text
has_text-ne [] h = cc
has_text-ne (c ∷ cs) h = λ e. cc

accept-eq-ok :
    (p : Program) (o : Option Problem) {c : ProgramConfig}
    → accept p o ≡ ok c
    → (o ≡ none) × (program_config p ≡ c)
unfolding accept
accept-eq-ok p none h = (refl, cc)
accept-eq-ok p (some e) h = cc

ungrouped : (p : Program) {c : ProgramConfig} → program_config p ≡ c → IsMade p c
unfolding program_config
ungrouped p made = sym (ap (λ (c : ProgramConfig). record c { group = none }) made)

accept_program-IsFrom :
    (m : Machine) (s : Section) (p : Program) {c : ProgramConfig}
    → is_prefix (codes "program:") s.title ≡ true
    → read_program (drop 8 s.title) s.options ≡ ok p
    → accept_program m p ≡ ok c
    → IsFrom m s c
unfolding accept_program program_config
accept_program-IsFrom m s p title read h =
    let (u, g, k) = >>=-eq-ok (guard (has_text p.section.command) _) _ h in
    let (valid, made) = accept-eq-ok p (validate_program m p.section) k in
    let (name, command) = read_program-name_command (drop 8 s.title) s.options read in
    let same : p.section.command ≡ _ = ap (λ (c : ProgramConfig). c.command) made in
    record {
      program = p;
      titled =
          prefix-drop (codes "program:") s.title title
          ∙ ap (λ (n : Text). codes "program:" ++ n)
              (sym name ∙ ap (λ (c : ProgramConfig). c.name) made);
      commanded = sym same ∙ command;
      not_empty =
          subst (λ (t : Text). t ≢ []) same (has_text-ne p.section.command (guard-true _ _ g));
      reads = read;
      accepted = validate_program-IsAccepted m p.section valid;
      made = ungrouped p made;
    }

AllFrom-eq :
    (m : Machine) (ss : List Section) {cs ds : List ProgramConfig}
    → ok cs ≡ ok ds
    → AllFrom m ss cs
    → AllFrom m ss ds
AllFrom-eq m ss h all = subst (AllFrom m ss) (ok-injective h) all

read_one-AllFrom :
    (b : Bool) (m : Machine) (s : Section) (ss : List Section) (rest : Checked (List ProgramConfig))
    → is_prefix (codes "program:") s.title ≡ b
    → ((cs : List ProgramConfig) → rest ≡ ok cs → AllFrom m ss cs)
    → (cs : List ProgramConfig) → read_one b m s rest ≡ ok cs
    → AllFrom m (s ∷ ss) cs
unfolding read_one
read_one-AllFrom false m s ss rest title h ds k = passed_over title (h ds k)
read_one-AllFrom true m s ss rest title h ds k =
    let (p, read, k) = >>=-eq-ok (read_program (drop 8 s.title) s.options) _ k in
    let (c, accepted, k) = >>=-eq-ok (accept_program m p) _ k in
    let (cs, others, k) = >>=-eq-ok rest _ k in
    AllFrom-eq m (s ∷ ss) k (taken (accept_program-IsFrom m s p title read accepted) (h cs others))

read_programs-AllFrom :
    (m : Machine) (ss : List Section) (cs : List ProgramConfig)
    → read_programs m ss ≡ ok cs
    → AllFrom m ss cs
unfolding read_programs
read_programs-AllFrom m [] cs h = AllFrom-eq m [] h no_more
read_programs-AllFrom m (s ∷ ss) cs h =
    read_one-AllFrom (is_prefix program_prefix s.title) m s ss (read_programs m ss) refl
      (read_programs-AllFrom m ss) cs h

with_group-IsFrom :
    (m : Machine) (s : Section) (o : Option Text) (c : ProgramConfig)
    → IsFrom m s c
    → IsFrom m s (with_group o c)
unfolding with_group
with_group-IsFrom m s none c h = h
with_group-IsFrom m s (some g) c h = record {
  program = h.program;
  titled = h.titled;
  commanded = h.commanded;
  not_empty = h.not_empty;
  reads = h.reads;
  accepted = h.accepted;
  made = h.made;
}

with_groups-AllFrom :
    (m : Machine) (f : ProgramConfig → Option Text) (ss : List Section) (cs : List ProgramConfig)
    → AllFrom m ss cs
    → AllFrom m ss (map (λ c. with_group (f c) c) cs)
with_groups-AllFrom m f [] [] no_more = no_more
with_groups-AllFrom m f [] (c ∷ cs) h = elim h [ ]
with_groups-AllFrom m f (s ∷ ss) cs (passed_over title h) =
    passed_over title (with_groups-AllFrom m f ss cs h)
with_groups-AllFrom m f (s ∷ ss) (c ∷ cs) (taken h t) =
    taken (with_group-IsFrom m s (f c) c h) (with_groups-AllFrom m f ss cs t)

read_groups-AllFrom :
    (m : Machine) (ss : List Section) (cs ds : List ProgramConfig)
    → AllFrom m ss cs
    → read_groups ss cs ≡ ok ds
    → AllFrom m ss ds
read_groups-AllFrom m ss cs ds h k =
    subst (AllFrom m ss) (sym (read_groups-last ss cs ds k))
      (with_groups-AllFrom m (λ c. last_group ss c.name) ss cs h)

natural-positive : (x : ℤ) → not (is_negative x || is_zero x) ≡ true → 0 < natural x
natural-positive (pos zero) h = cc
natural-positive (pos (suc n)) h = omega arith
natural-positive (negsuc n) h = cc

unfoldable pub sections_of : File → List Section
sections_of missing = []
sections_of broken = []
sections_of (sections ss) = ss

-- What the rest of the program relies on in a configuration that is read from a file.
pub record IsSound (m : Machine) (file : File) (config : SupervisorConfig) : Type 0 where
  pub programs : AllFrom m (sections_of file) config.programs
  pub timeout : 0 < config.shutdown_timeout
  pub level : (config.loglevel ≡ codes "INFO") ⊎ (mem (m.upper config.loglevel) valid_levels ≡ true)

abbrev HasLimits : Machine → SupervisorConfig → Type 0
HasLimits m config =
    (0 < config.shutdown_timeout)
    × ((config.loglevel ≡ codes "INFO") ⊎ (mem (m.upper config.loglevel) valid_levels ≡ true))

HasLimits-eq : (m : Machine) {c d : SupervisorConfig} → ok c ≡ ok d → HasLimits m c → HasLimits m d
HasLimits-eq m h limits = subst (HasLimits m) (ok-injective h) limits

read_supervisor-HasLimits :
    (m : Machine) (socket : Text) (o : Option (Dict Text)) (config : SupervisorConfig)
    → read_supervisor m (default_supervisor socket) o ≡ ok config
    → HasLimits m config
unfolding read_supervisor
read_supervisor-HasLimits m socket none config h = HasLimits-eq m h (omega arith, inl refl)
read_supervisor-HasLimits m socket (some sect) config h =
    let (timeout, t, h) = >>=-eq-ok (getint sect (codes "shutdown_timeout") (pos 30)) _ h in
    let (maxbytes, t, h) = >>=-eq-ok (getint sect (codes "log_maxbytes") _) _ h in
    let (backups, t, h) = >>=-eq-ok (getint sect (codes "log_backups") _) _ h in
    let (u, level, h) = >>=-eq-ok (guard _ invalid_loglevel) _ h in
    let (u, positive, h) = >>=-eq-ok (guard _ timeout_not_positive) _ h in
    let (u, t, h) = >>=-eq-ok (guard (not (is_negative maxbytes)) maxbytes_negative) _ h in
    let (u, t, h) = >>=-eq-ok (guard (not (is_negative backups)) backups_negative) _ h in
    HasLimits-eq m h
      (natural-positive timeout (guard-true _ _ positive), inr (guard-true _ _ level))

IsSound-eq :
    (m : Machine) (file : File) {c d : SupervisorConfig}
    → ok c ≡ ok d
    → IsSound m file c
    → IsSound m file d
IsSound-eq m file h sound = subst (IsSound m file) (ok-injective h) sound

-- The programs of a configuration that is read are those of the file's sections whose titles begin
-- with "program:", one for each and in their order: each has the name of its section's title and the
-- section's command, which is not empty, and, apart from its group, is made of what is read from the
-- section's options, which the validation accepted. The time to shut down is positive; and the log
-- level is the default or a valid one.
pub parse_config-IsSound :
    (m : Machine) (socket : Text) (file : File) (config : SupervisorConfig)
    → parse_config m socket file ≡ ok config
    → IsSound m file config
unfolding parse_config sections_of
parse_config-IsSound m socket missing config h = cc
parse_config-IsSound m socket broken config h = cc
parse_config-IsSound m socket (sections ss) config h =
    let o = section_named (codes "supervice") ss in
    let (base, b, h) = >>=-eq-ok (read_supervisor m (default_supervisor socket) o) _ h in
    let (programs, p, h) = >>=-eq-ok (read_programs m ss) _ h in
    let (grouped, g, h) = >>=-eq-ok (read_groups ss programs) _ h in
    let (positive, level) = read_supervisor-HasLimits m socket o base b in
    IsSound-eq m (sections ss) h record {
      programs =
          read_groups-AllFrom m ss programs grouped (read_programs-AllFrom m ss programs p) g;
      timeout = positive;
      level = level;
    }

-- Every program of a configuration that was read has instances.
pub AllFrom-AllHaveInstances :
    (m : Machine) (ss : List Section) (cs : List ProgramConfig)
    → AllFrom m ss cs
    → AllHaveInstances cs
unfolding program_config
AllFrom-AllHaveInstances m [] [] no_more = tt
AllFrom-AllHaveInstances m [] (c ∷ cs) h = elim h [ ]
AllFrom-AllHaveInstances m (s ∷ ss) cs (passed_over title t) = AllFrom-AllHaveInstances m ss cs t
AllFrom-AllHaveInstances m (s ∷ ss) (c ∷ cs) (taken h t) =
    let (n, positive) = h.accepted.instances in
    let numprocs : c.numprocs ≡ suc n =
      ap (λ (d : ProgramConfig). d.numprocs) h.made ∙ ap natural positive in
    (omega (arith, numprocs), AllFrom-AllHaveInstances m ss cs t)
