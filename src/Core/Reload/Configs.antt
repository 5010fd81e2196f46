-- ===== src/Core/Reload/Configs.antt =====
-- After a reload the processes are the instances of the new configuration (supervice/core.py).
use mathlib.Core.Path.{subst}
use supervice.Prelude.Dict.{Dict, lookup, keys}
use supervice.Prelude.{
  ◌<◌, ◌≡◌, refl, sym, ap, ◌∙◌, ◌⊎◌, inl, inr, Bool, true, false, not, ◌&&◌, Option, none, some,
  List, [], ◌∷◌, Text, if◌then◌else◌, Bool-cases,
}
use supervice.Core.Instances.{instances}
use supervice.Core.Instances.Names.{names_of, instance_names-names_of, names_of-append}
use supervice.Core.Reload.Stages.{
  is_some, or_else, config_of, config_at, mem-filter, mem-keys, mem-names_of, config_at-carry,
  lookup-remove_all, config_at-create_all, config_at-start_all, latest, latest-find, distinct,
  config_at-update_all,
}
use supervice.Core.Reload.{
  mem, all_names, filter, find, reload, start_added, create_processes, program_changed, config_eq,
  remove_all, carry, create_all, differs,
}
use supervice.Models.{ProgramConfig}
use supervice.Process.State.{Process}

-- Every program has instances: supervice/config.py refuses numprocs 0.
abbrev pub AllHaveInstances : List ProgramConfig → Type 0
AllHaveInstances [] = Unit {0}
AllHaveInstances (prog ∷ progs) = (0 < prog.numprocs) × AllHaveInstances progs

all_names-names_of :
    (programs : List ProgramConfig)
    → AllHaveInstances programs
    → all_names programs ≡ names_of (instances programs)
unfolding all_names instances
all_names-names_of [] h = refl
all_names-names_of (prog ∷ progs) h =
    rw (instance_names-names_of prog h.0, all_names-names_of progs h.1)
      (sym (names_of-append _ (instances progs)))

pub mem-all_names :
    (programs : List ProgramConfig) (k : Text)
    → AllHaveInstances programs
    → mem k (all_names programs) ≡ is_some (find k (instances programs))
mem-all_names programs k h =
    ap (mem k) (all_names-names_of programs h) ∙ mem-names_of k (instances programs)

config_at-start_added :
    (programs : List ProgramConfig) (ns : List Text) (k : Text) (d : Dict Process)
    → (mem k ns ≡ false → or_else (config_at k d) (find k (instances programs)) ≡ config_at k d)
    → config_at k (start_added programs ns d)
      ≡ or_else (config_at k d) (find k (instances programs))
unfolding start_added create_processes mem
config_at-start_added programs [] k d h = sym (h refl)
config_at-start_added programs (n ∷ ns) k d h =
    config_at-start_all (n ∷ ns) k (create_all (instances programs) d)
    ∙ config_at-create_all (instances programs) k d

-- Whether the configuration of a process, if there is one, differs from its instance's.
changes : Option ProgramConfig → Option ProgramConfig → Bool
changes none f = false
changes (some d) none = false
changes (some d) (some c) = not (config_eq d c)

differs-config_of :
    (o : Option Process) (f : Option ProgramConfig) → differs o f ≡ changes (config_of o) f
unfolding differs changes
differs-config_of none f = refl
differs-config_of (some p) none = refl
differs-config_of (some p) (some c) = refl

pub is_some-config_of : (o : Option Process) → is_some o ≡ is_some (config_of o)
is_some-config_of none = refl
is_some-config_of (some p) = refl

config_of-if :
    (b : Bool) (o : Option Process)
    → config_of (if b then none else o) ≡ (if b then none else config_of o)
config_of-if true o = refl
config_of-if false o = refl

config_at-removed :
    (m : Text → Process → Process) (ns : List Text) (k : Text) (d : Dict Process)
    → ((n : Text) (p : Process) → (m n p).config ≡ p.config)
    → config_at k (remove_all ns (carry m d)) ≡ (if mem k ns then none else config_at k d)
unfolding config_at
config_at-removed m ns k d h =
    ap config_of (lookup-remove_all ns k (carry m d))
    ∙ config_of-if (mem k ns) (lookup k (carry m d))
    ∙ ap (λ (o : Option ProgramConfig). if mem k ns then none else o)
        (unfold config_at in config_at-carry m k d h)

-- What a reload makes of the process of a name, from the instance of that name in the new
-- configuration and the process's configuration before, if there are any.
abbrev pub Matches : Option ProgramConfig → Option ProgramConfig → Option ProgramConfig → Type 0
Matches none o r = r ≡ none
Matches (some c) none r = r ≡ some c
Matches (some c) (some d) r = (r ≡ some c) ⊎ ((r ≡ some d) × (config_eq d c ≡ true))

-- The process's configuration before the loop that updates, from whether it is to be removed.
before_update : Option ProgramConfig → Option ProgramConfig → Option ProgramConfig
before_update f o = or_else (if not (is_some f) && is_some o then none else o) f

Matches-by :
    (k : Text) (cs : List ProgramConfig) (f o : Option ProgramConfig)
    → distinct (names_of cs) ≡ true
    → find k cs ≡ f
    → Matches f o (
        if (is_some f && changes o f) && is_some o
        then latest k cs (before_update f o)
        else before_update f o)
unfolding before_update changes
Matches-by k cs none none u h = refl
Matches-by k cs none (some d) u h = refl
Matches-by k cs (some c) none u h = refl
Matches-by k cs (some c) (some d) u h = elim (Bool-cases (config_eq d c)) [
  | inl e ↦ inr (rw e refl, e)
  | inr e ↦ inl (rw e (latest-find k cs c d u h))
]

-- A name that is not added: creating instances leaves its process as it is.
or_else-kept :
    (f o : Option ProgramConfig)
    → (not (is_some o) && is_some f) ≡ false
    → or_else (if not (is_some f) && is_some o then none else o) f
      ≡ (if not (is_some f) && is_some o then none else o)
or_else-kept none none h = refl
or_else-kept none (some d) h = refl
or_else-kept (some c) none h = cc
or_else-kept (some c) (some d) h = refl

module _ (meanwhile : Text → Process → Process)
    (keeps : (n : Text) (p : Process) → (meanwhile n p).config ≡ p.config)
    (programs : List ProgramConfig) (procs : Dict Process) (k : Text)
    (all : AllHaveInstances programs) where
  mem-old : mem k (keys procs) ≡ is_some (config_at k procs)
  unfolding config_at
  mem-old = mem-keys k procs ∙ is_some-config_of (lookup k procs)

  mem-added :
      mem k (filter (λ n. not (mem n (keys procs))) (all_names programs))
      ≡ (not (is_some (config_at k procs)) && is_some (find k (instances programs)))
  mem-added =
      mem-filter (λ n. not (mem n (keys procs))) k (all_names programs)
      ∙ rw (mem-old, mem-all_names programs k all) refl

  mem-removed :
      mem k (filter (λ n. not (mem n (all_names programs))) (keys procs))
      ≡ (not (is_some (find k (instances programs))) && is_some (config_at k procs))
  mem-removed =
      mem-filter (λ n. not (mem n (all_names programs))) k (keys procs)
      ∙ rw (mem-old, mem-all_names programs k all) refl

  changed-changes :
      program_changed procs programs k ≡ changes (config_at k procs) (find k (instances programs))
  unfolding program_changed config_at
  changed-changes = differs-config_of (lookup k procs) (find k (instances programs))

  mem-changed :
      mem k
        (filter (λ n. mem n (all_names programs) && program_changed procs programs n) (keys procs))
      ≡ ((is_some (find k (instances programs))
            && changes (config_at k procs) (find k (instances programs)))
          && is_some (config_at k procs))
  mem-changed =
      mem-filter (λ n. mem n (all_names programs) && program_changed procs programs n) k
        (keys procs)
      ∙ rw (mem-old, mem-all_names programs k all, changed-changes) refl

  after_removal : Dict Process
  unfolding remove_all carry
  after_removal =
      remove_all (filter (λ n. not (mem n (all_names programs))) (keys procs))
        (carry meanwhile procs)

  config_at-after_removal : config_at k after_removal ≡ (
      let o = config_at k procs in
      if not (is_some (find k (instances programs))) && is_some o then none else o)
  unfolding after_removal
  config_at-after_removal =
      config_at-removed meanwhile (filter (λ n. not (mem n (all_names programs))) (keys procs)) k
        procs keeps
      ∙ rw mem-removed refl

  config_at-after_start :
      config_at k (
        start_added programs
          (filter (λ n. not (mem n (keys procs))) (all_names programs))
          after_removal)
      ≡ before_update (find k (instances programs)) (config_at k procs)
  unfolding before_update
  config_at-after_start =
      config_at-start_added programs (filter (λ n. not (mem n (keys procs))) (all_names programs)) k
        after_removal
        (λ h.
          rw config_at-after_removal
            (or_else-kept (find k (instances programs)) (config_at k procs) (sym mem-added ∙ h)))
      ∙ rw config_at-after_removal refl

  config_at-reload : config_at k (reload meanwhile programs procs).processes ≡ (
      let f = find k (instances programs) in
      let o = config_at k procs in
      if (is_some f && changes o f) && is_some o
      then latest k (instances programs) (before_update f o)
      else before_update f o)
  unfolding reload after_removal
  config_at-reload =
      config_at-update_all _ (instances programs) k _ ∙ rw (mem-changed, config_at-after_start) refl

  -- After a reload in which every program has instances, and all instances have different names: a
  -- name that is no instance's has no process; a new instance has a process with its configuration;
  -- and an instance that had a process has one with its new configuration, or with the old one if
  -- that is equal to it.
  pub reload-Matches :
      distinct (names_of (instances programs)) ≡ true
      → Matches
          (find k (instances programs))
          (config_at k procs)
          (config_at k (reload meanwhile programs procs).processes)
  reload-Matches u =
      subst (Matches (find k (instances programs)) (config_at k procs)) (sym config_at-reload)
        (Matches-by k (instances programs) (find k (instances programs)) (config_at k procs) u refl)
