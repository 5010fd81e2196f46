-- ===== src/Core/Loading.antt =====
-- Loading and reloading the configuration's file (supervice/core.py, `load_config` and
-- `_reload_config_locked`), on what config.py makes of it.
use supervice.Config.File.Accepted.{
  IsSound, parse_config-IsSound, AllFrom-AllHaveInstances, sections_of,
}
use supervice.Config.File.{File, parse_config}
use supervice.Config.Parse.{ConfigError, Checked, ok, err}
use supervice.Config.Validation.{Machine}
use supervice.Core.Instances.Names.{names_of}
use supervice.Core.Instances.{instances}
use supervice.Core.Reload.Configs.{Matches, reload-Matches}
use supervice.Core.Reload.Stages.{config_at, distinct}
use supervice.Core.Reload.{find, create_processes, rebuild_groups, reload}
use supervice.Models.{SupervisorConfig, default_supervisor}
use supervice.Prelude.Dict.{Dict}
use supervice.Prelude.{◌≡◌, refl, true, Option, none, some, List, [], Text}
use supervice.Process.State.{Process}

-- The part of a `Supervisor` that a configuration makes.
pub record Supervisor : Type 0 where
  pub config : SupervisorConfig
  pub processes : Dict Process
  pub groups : Dict (List Text)
  pub rpc_socket : Option Text

-- `__init__`
abbrev pub new_supervisor : Text → Supervisor
new_supervisor socket = record {
  config = default_supervisor socket;
  processes = [];
  groups = [];
  rpc_socket = none;
}

unfoldable pub loaded : Supervisor → Checked SupervisorConfig → Supervisor × Option ConfigError
unfolding create_processes rebuild_groups
loaded s (err e) = (s, some e)
loaded s (ok config) = (
  record {
    config = config;
    processes = create_processes config.programs s.processes;
    groups = rebuild_groups config.programs;
    rpc_socket = some config.socket_path;
  },
  none,
)

-- `load_config`: the supervisor, and what is raised
unfoldable pub load_config : Machine → Text → File → Supervisor → Supervisor × Option ConfigError
unfolding loaded parse_config
load_config m socket file s = loaded s (parse_config m socket file)

-- The names returned to the client, or what is raised
pub data ReloadResult : Type 0 where
  names : List Text → List Text → List Text → ReloadResult
  raised : ConfigError → ReloadResult

reload_parsed :
    (Text → Process → Process) → Supervisor → Checked SupervisorConfig → Supervisor × ReloadResult
unfolding reload
reload_parsed meanwhile s (err e) = (s, raised e)
reload_parsed meanwhile s (ok config) =
    let r = reload meanwhile config.programs s.processes in
    (
      record s { config = config; processes = r.processes; groups = r.groups },
      names r.added r.removed r.changed,
    )

-- `_reload_config_locked`
unfoldable pub reload_config :
    Machine → Text → (Text → Process → Process) → File → Supervisor → Supervisor × ReloadResult
unfolding reload_parsed parse_config
reload_config m socket meanwhile file s = reload_parsed meanwhile s (parse_config m socket file)

-- What a reload of the supervisor `s` that came to `t` has done.
abbrev pub IsReloaded : Machine → Text → File → Supervisor → Supervisor → ReloadResult → Type 0
IsReloaded m socket file s t (raised e) = (t ≡ s) × (parse_config m socket file ≡ err e)
IsReloaded m socket file s t (names added removed changed) =
    (parse_config m socket file ≡ ok t.config)
    × IsSound m file t.config
    × (t.groups ≡ rebuild_groups t.config.programs)
    × (t.rpc_socket ≡ s.rpc_socket)
    × ((k : Text)
        → Matches (find k (instances t.config.programs)) (config_at k s.processes)
            (config_at k t.processes))

module _ (m : Machine) (socket : Text) (meanwhile : Text → Process → Process)
    (keeps : (n : Text) (p : Process) → (meanwhile n p).config ≡ p.config) (file : File)
    (s : Supervisor)
    (named_apart : (config : SupervisorConfig)
      → parse_config m socket file ≡ ok config
      → distinct (names_of (instances config.programs)) ≡ true) where
  reload_parsed-IsReloaded :
      (c : Checked SupervisorConfig)
      → parse_config m socket file ≡ c
      → (let (t, o) = reload_parsed meanwhile s c in IsReloaded m socket file s t o)
  unfolding reload_parsed reload
  reload_parsed-IsReloaded (err e) h = (refl, h)
  reload_parsed-IsReloaded (ok config) h =
      let sound = parse_config-IsSound m socket file config h in
      (
        h,
        sound,
        refl,
        refl,
        λ k.
            unfold reload in
            reload-Matches meanwhile keeps config.programs s.processes k
              (AllFrom-AllHaveInstances m (sections_of file) config.programs sound.programs)
              (named_apart config h),
      )

  -- If the instances of the file's configuration have different names, a reload during which no
  -- other task changes a configuration either raises the error that the file has and leaves the
  -- supervisor as it was, or leaves it with the file's configuration, which is sound, the groups of
  -- its programs, the socket it had, and exactly the processes of its instances, each with its new
  -- configuration or with its old one if that is equal.
  pub reload_config-IsReloaded :
      let (t, o) = reload_config m socket meanwhile file s in IsReloaded m socket file s t o
  unfolding reload_config
  reload_config-IsReloaded = reload_parsed-IsReloaded (parse_config m socket file) refl
