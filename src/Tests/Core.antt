-- ===== src/Tests/Core.antt =====
-- Instances, groups and reloads of small configurations.
use supervice.Prelude.Dict.{Dict}
use supervice.Prelude.{◌≡◌, refl, true, some, [], ◌∷◌, arith, text_eq, codes}
use supervice.Core.Instances.Names.{number_in, number_in-instance_name}
use supervice.Core.Instances.{instance_config, expand, instance_name, instance_names, instances}
use supervice.Core.Reload.Configs.{Matches, reload-Matches}
use supervice.Core.Reload.Groups.{belongs, members, rebuild_groups-belongs}
use supervice.Core.Reload.Stages.{config_at, distinct}
use supervice.Core.Reload.{mem, find, rebuild_groups, reload, create_processes}
use supervice.Models.{ProgramConfig, default_program}
use supervice.Process.State.{Process}

abbrev web : ProgramConfig
web = record (default_program (codes "web") (codes "serve --port 80%(process_num)s")) {
  numprocs = 2;
}

abbrev db : ProgramConfig
db = record (default_program (codes "db") (codes "store")) { group = some (codes "data") }

abbrev cache : ProgramConfig
cache = record (default_program (codes "cache") (codes "cached")) { group = some (codes "data") }

expands : expand 7 (codes "--port 80%(process_num)s") ≡ codes "--port 8007"
unfolding expand
expands = refl

names_web : instance_names web ≡ codes "web:00" ∷ codes "web:01" ∷ []
unfolding instance_names
names_web = refl

abbrev before : Dict Process
before = create_processes (web ∷ cache ∷ []) []

reloads_added : (reload (λ n p. p) (web ∷ db ∷ []) before).added ≡ codes "db" ∷ []
unfolding reload create_processes text_eq instance_config
reloads_added = refl

reloads_removed : (reload (λ n p. p) (web ∷ db ∷ []) before).removed ≡ codes "cache" ∷ []
unfolding reload create_processes text_eq instance_config
reloads_removed = refl

reload-Matches_example :
    Matches
      (find (codes "db") (instances (web ∷ db ∷ [])))
      (config_at (codes "db") before)
      (config_at (codes "db") (reload (λ n p. p) (web ∷ db ∷ []) before).processes)
reload-Matches_example =
    reload-Matches (λ n p. p) (λ n p. refl) (web ∷ db ∷ []) before (codes "db")
      (omega arith, (omega arith, tt)) (unfold distinct instances text_eq instance_config in refl)

rebuild_groups-belongs_example :
    (mem (codes "db") (members (codes "data") (rebuild_groups (db ∷ cache ∷ [])))
      ≡ belongs (codes "db") (codes "data") (db ∷ cache ∷ []))
    × (distinct (members (codes "data") (rebuild_groups (db ∷ cache ∷ []))) ≡ true)
rebuild_groups-belongs_example =
    rebuild_groups-belongs (db ∷ cache ∷ []) (codes "data") (codes "db")

number_in-instance_name_example : number_in web (instance_name web 1) ≡ 1
number_in-instance_name_example = number_in-instance_name web 1 (omega arith)
