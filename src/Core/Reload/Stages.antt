-- ===== src/Core/Reload/Stages.antt =====
-- What each stage of a reload does to the configuration of the process of a name
-- (supervice/core.py, `_reload_config_locked`).
use mathlib.Core.Path.{subst}
use supervice.Prelude.Dict.{Dict, lookup, assign, remove, keys, lookup-assign, lookup-remove}
use supervice.Prelude.{
  ◌≡◌, refl, sym, ◌∙◌, Bool, true, false, not, ◌&&◌, ◌||◌, Option, none, some, List, [], ◌∷◌, Text,
  text_eq, text_eq_iff, if◌then◌else◌, arith,
}
use supervice.Core.Reload.{
  mem, create_process, create_all, find, filter, remove_all, start_named, start_all, update_named,
  update_all, carry,
}
use supervice.Core.Instances.Names.{names_of}
use supervice.Models.{ProgramConfig}
use supervice.Process.Requests.{start}
use supervice.Process.State.{Process, new, update_config}

abbrev pub is_some {ℓ} : {A : Type ℓ} → Option A → Bool
is_some none = false
is_some (some a) = true

abbrev pub or_else {ℓ} : {A : Type ℓ} → Option A → Option A → Option A
or_else none o = o
or_else (some a) o = some a

abbrev pub config_of : Option Process → Option ProgramConfig
config_of none = none
config_of (some p) = some p.config

is_some-false : {A : Type 0} (o : Option A) → is_some o ≡ false → o ≡ none
is_some-false none h = refl
is_some-false (some a) h = cc

-- The configuration of the process of a name.
unfoldable pub config_at : Text → Dict Process → Option ProgramConfig
unfolding lookup
config_at k procs = config_of (lookup k procs)

pub mem-filter :
    (test : Text → Bool) (k : Text) (ns : List Text) → mem k (filter test ns) ≡ (test k && mem k ns)
unfolding mem filter
mem-filter test k [] = ground arith
mem-filter test k (n ∷ ns) = ground (arith, mem-filter test k ns, text_eq_iff n k)

pub mem-keys : {V : Type 0} (k : Text) (d : Dict V) → mem k (keys d) ≡ is_some (lookup k d)
unfolding mem keys lookup
mem-keys k [] = refl
mem-keys k ((j, v) ∷ d) = ground (arith, mem-keys k d)

pub mem-names_of : (k : Text) (cs : List ProgramConfig) → mem k (names_of cs) ≡ is_some (find k cs)
unfolding mem find
mem-names_of k [] = refl
mem-names_of k (c ∷ cs) = ground (arith, mem-names_of k cs)

pub config_at-carry :
    (meanwhile : Text → Process → Process) (k : Text) (d : Dict Process)
    → ((n : Text) (p : Process) → (meanwhile n p).config ≡ p.config)
    → config_at k (carry meanwhile d) ≡ config_at k d
unfolding config_at carry lookup
config_at-carry m k [] h = refl
config_at-carry m k ((n, p) ∷ d) h = ground (arith, config_at-carry m k d h, h n p)

pub lookup-remove_all :
    (ns : List Text) (k : Text) (d : Dict Process)
    → lookup k (remove_all ns d) ≡ (if mem k ns then none else lookup k d)
unfolding remove_all mem
lookup-remove_all [] k d = refl
lookup-remove_all (n ∷ ns) k d =
    ground (arith, lookup-remove_all ns k (remove n d), lookup-remove n k d)

config_at-assign :
    (n k : Text) (p : Process) (d : Dict Process)
    → config_at k (assign n p d) ≡ (if text_eq n k then some p.config else config_at k d)
unfolding config_at
config_at-assign n k p d = ground (arith, lookup-assign n k p d)

config_at-create_process :
    (c : ProgramConfig) (o : Option Process) (k : Text) (d : Dict Process)
    → lookup c.name d ≡ o
    → config_at k (create_process c o d)
      ≡ or_else (config_at k d) (if text_eq c.name k then some c else none)
unfolding create_process config_at new
config_at-create_process c none k d h =
    ground (arith, config_at-assign c.name k (new c) d, text_eq_iff c.name k)
config_at-create_process c (some p) k d h = ground (arith, text_eq_iff c.name k)

pub config_at-create_all :
    (cs : List ProgramConfig) (k : Text) (d : Dict Process)
    → config_at k (create_all cs d) ≡ or_else (config_at k d) (find k cs)
unfolding create_all find
config_at-create_all [] k d = ground arith
config_at-create_all (c ∷ cs) k d =
    let e = create_process c (lookup c.name d) d in
    ground
      (arith, config_at-create_all cs k e, config_at-create_process c (lookup c.name d) k d refl)

config-start : (p : Process) → (start p).config ≡ p.config
unfolding start
config-start p = ground arith

config_at-start_named :
    (n : Text) (o : Option Process) (k : Text) (d : Dict Process)
    → lookup n d ≡ o
    → config_at k (start_named n o d) ≡ config_at k d
unfolding start_named config_at
config_at-start_named n none k d h = refl
config_at-start_named n (some p) k d h =
    ground (arith, config_at-assign n k (start p) d, config-start p, text_eq_iff n k)

pub config_at-start_all :
    (ns : List Text) (k : Text) (d : Dict Process) → config_at k (start_all ns d) ≡ config_at k d
unfolding start_all
config_at-start_all [] k d = refl
config_at-start_all (n ∷ ns) k d =
    config_at-start_all ns k (start_named n (lookup n d) d)
    ∙ config_at-start_named n (lookup n d) k d refl

-- What an instance of the loop over them does to a configuration whose name is among the changed.
unfoldable pub step : ProgramConfig → Text → Option ProgramConfig → Option ProgramConfig
step c k none = none
step c k (some d) = some (if text_eq c.name k then c else d)

unfoldable pub latest : Text → List ProgramConfig → Option ProgramConfig → Option ProgramConfig
unfolding step
latest k [] o = o
latest k (c ∷ cs) o = latest k cs (step c k o)

config_at-update_named :
    (c : ProgramConfig) (o : Option Process) (k : Text) (d : Dict Process)
    → lookup c.name d ≡ o
    → config_at k (update_named c o d) ≡ step c k (config_at k d)
unfolding update_named config_at step update_config
config_at-update_named c none k d h = ground (arith, text_eq_iff c.name k)
config_at-update_named c (some p) k d h =
    ground (arith, config_at-assign c.name k (update_config c p) d, text_eq_iff c.name k)

pub config_at-update_all :
    (changed : List Text) (cs : List ProgramConfig) (k : Text) (d : Dict Process)
    → config_at k (update_all changed cs d)
      ≡ (if mem k changed then latest k cs (config_at k d) else config_at k d)
unfolding update_all latest
config_at-update_all changed [] k d = ground arith
config_at-update_all changed (c ∷ cs) k d =
    let u = update_named c (lookup c.name d) d in
    ground (
      arith,
      config_at-update_all changed cs k u,
      config_at-update_all changed cs k d,
      config_at-update_named c (lookup c.name d) k d refl,
      text_eq_iff c.name k,
    )

unfoldable pub distinct : List Text → Bool
unfolding mem
distinct [] = true
distinct (n ∷ ns) = not (mem n ns) && distinct ns

latest-absent_by :
    (b : Bool) (k : Text) (c d : ProgramConfig) (cs : List ProgramConfig)
    → (find k cs ≡ none → latest k cs (some d) ≡ some d)
    → (if b then some c else find k cs) ≡ none
    → latest k cs (some (if b then c else d)) ≡ some d
latest-absent_by true k c d cs ih h = cc
latest-absent_by false k c d cs ih h = ih h

latest-absent :
    (k : Text) (cs : List ProgramConfig) (d : ProgramConfig)
    → find k cs ≡ none
    → latest k cs (some d) ≡ some d
unfolding latest find step
latest-absent k [] d h = refl
latest-absent k (c ∷ cs) d h = latest-absent_by (text_eq c.name k) k c d cs (latest-absent k cs d) h

find-distinct :
    (k : Text) (e : ProgramConfig) (cs : List ProgramConfig)
    → distinct (names_of (e ∷ cs)) ≡ true
    → text_eq e.name k ≡ true
    → find k cs ≡ none
unfolding distinct
find-distinct k e cs u h =
    let m : mem k (names_of cs) ≡ false = ground (arith, text_eq_iff e.name k) in
    is_some-false (find k cs) (sym (mem-names_of k cs) ∙ m)

latest-find_by :
    (b : Bool) (k : Text) (e c d : ProgramConfig) (cs : List ProgramConfig)
    → (b ≡ true → find k cs ≡ none)
    → (find k cs ≡ some c → latest k cs (some d) ≡ some c)
    → (if b then some e else find k cs) ≡ some c
    → latest k cs (some (if b then e else d)) ≡ some c
latest-find_by true k e c d cs u ih h = latest-absent k cs e (u refl) ∙ h
latest-find_by false k e c d cs u ih h = ih h

pub latest-find :
    (k : Text) (cs : List ProgramConfig) (c d : ProgramConfig)
    → distinct (names_of cs) ≡ true
    → find k cs ≡ some c
    → latest k cs (some d) ≡ some c
unfolding latest find step
latest-find k [] c d u h = ground arith
latest-find k (e ∷ cs) c d u h =
    latest-find_by (text_eq e.name k) k e c d cs (find-distinct k e cs u)
      (latest-find k cs c d (unfold distinct in ground arith)) h

abbrev pub AllOf : (Text → Type 0) → List Text → Type 0
AllOf P [] = Unit {0}
AllOf P (n ∷ ns) = P n × AllOf P ns

mem-elim_by :
    (P : Text → Type 0) (c n : Text) (ns : List Text) (b : Bool)
    → text_eq n c ≡ b
    → P n × AllOf P ns
    → (mem c ns ≡ true → P c)
    → (b || mem c ns) ≡ true
    → P c
mem-elim_by P c n ns true e a ih h = subst P ((text_eq_iff n c).0 e) a.0
mem-elim_by P c n ns false e a ih h = ih h

-- What is true of each text of a list is true of one that is in it.
pub mem-elim : (P : Text → Type 0) (c : Text) (ns : List Text) → AllOf P ns → mem c ns ≡ true → P c
unfolding mem
mem-elim P c [] a h = cc
mem-elim P c (n ∷ ns) a h = mem-elim_by P c n ns (text_eq n c) refl a (mem-elim P c ns a.1) h
