-- ===== src/Entry/Starts.antt =====
-- A configuration that can be read is run (supervice/main.py, with config.py, logger.py and core.py).
use mathlib.Core.Path.{subst}
use supervice.Attempt.{Ended, returned, raised}
use supervice.Config.File.Accepted.{sections_of, parse_config-IsSound, AllFrom-AllHaveInstances}
use supervice.Config.File.{valid_levels, parse_config}
use supervice.Config.Parse.{ConfigError, ok}
use supervice.Core.Loading.{loaded, Supervisor, new_supervisor, load_config}
use supervice.Core.Instances.{instances}
use supervice.Core.Reload.Configs.{AllHaveInstances, mem-all_names, is_some-config_of}
use supervice.Core.Reload.Stages.{mem-elim, is_some, config_at, mem-keys, config_at-create_all}
use supervice.Core.Reload.{mem, all_names, create_all, create_processes, rebuild_groups}
use supervice.Core.Run.Begins.{begun, CanStart, run-begun}
use supervice.Core.Run.Cycle.Follows.{run-Ends}
use supervice.Core.Run.Cycle.Shutdown.{Ends}
use supervice.Core.Run.{Daemon, Failure, run}
use supervice.Entry.{
  Arguments, Surroundings, is_set, logfile_of, daemon_of, ended, run_logged, log_configured,
  run_loaded, run_boot, main_entry,
}
use supervice.Logging.{Logger, LogError, setup_logger-returned, numeric_level}
use supervice.Models.{ProgramConfig, SupervisorConfig, or_text}
use supervice.Prelude.Dict.{keys, lookup}
use supervice.Prelude.{
  ℕ, ◌≡◌, ◌⊎◌, inl, inr, refl, sym, ap, ◌∙◌, Bool, true, not, Option, none, some, List, [], Text,
  codes, text_eq,
}

abbrev HasLevel : Text → Type 0
HasLevel t = (n : ℕ) × (numeric_level t ≡ some n)

valid-HasLevel : (t : Text) → mem t valid_levels ≡ true → HasLevel t
unfolding numeric_level text_eq
valid-HasLevel t =
    mem-elim HasLevel t valid_levels
      ((10, refl), ((20, refl), ((30, refl), ((30, refl), ((40, refl), ((50, refl), tt))))))

sound-HasLevel :
    (upper : Text → Text) (t : Text)
    → upper (codes "INFO") ≡ codes "INFO"
    → (t ≡ codes "INFO") ⊎ (mem (upper t) valid_levels ≡ true)
    → HasLevel (upper t)
unfolding numeric_level text_eq
sound-HasLevel upper t h (inl e) =
    subst HasLevel (sym (ap upper e ∙ h)) (valid-HasLevel (codes "INFO") (unfold mem in refl))
sound-HasLevel upper t h (inr e) = valid-HasLevel (upper t) e

ended-daemon :
    (b : Bool) (l : Logger) (r : Ended Failure (Unit {0})) (d : Daemon)
    → (ended b l (r, d)).daemon ≡ some d
unfolding ended
ended-daemon b l (returned u) d = refl
ended-daemon b l (raised e) d = refl

run_logged-daemon :
    (w : Surroundings) (args : Arguments) (s : Supervisor) (l : Logger)
    → (run_logged w args s (returned tt, l)).daemon ≡ some (run w.host (daemon_of s w.socket)).1
unfolding run_logged
run_logged-daemon w args s l =
    let (r, d) = run w.host (daemon_of s w.socket) in ended-daemon (not args.nodaemon) l r d

-- A level that is given by the configuration, if none is on the command line.
level-by :
    (upper : Text → Text) (o : Option Text) (t : Text)
    → o ≡ none
    → HasLevel (upper t)
    → HasLevel (upper (or_text o t))
unfolding or_text
level-by upper none t h l = l
level-by upper (some s) t h l = cc

run_loaded-daemon :
    (w : Surroundings) (args : Arguments) (s : Supervisor) (l : Logger)
    → ((p : Text) → w.opens p ≡ true)
    → HasLevel (w.machine.upper (or_text args.loglevel s.config.loglevel))
    → (run_loaded w args l (s, none)).daemon ≡ some (run w.host (daemon_of s w.socket)).1
unfolding run_loaded log_configured
run_loaded-daemon w args s l opens (n, level) =
    ap (λ (r : Ended LogError (Unit {0}) × Logger). (run_logged w args s r).daemon)
      (setup_logger-returned w.opens w.machine.upper (or_text args.loglevel s.config.loglevel)
        (logfile_of args.nodaemon (or_text args.logfile s.config.logfile)) s.config.log_maxbytes
        s.config.log_backups l n opens level)
    ∙ run_logged-daemon w args s _

-- The supervisor that a configuration makes.
made_by : SupervisorConfig → Supervisor
unfolding create_processes rebuild_groups
made_by config = record {
  config = config;
  processes = create_processes config.programs [];
  groups = rebuild_groups config.programs;
  rpc_socket = some config.socket_path;
}

load_config-made_by :
    (w : Surroundings) (config : SupervisorConfig)
    → parse_config w.machine w.default_socket w.file ≡ ok config
    → load_config w.machine w.default_socket w.file (new_supervisor w.default_socket)
      ≡ (made_by config, none)
unfolding load_config loaded made_by
load_config-made_by w config h = ap (loaded (new_supervisor w.default_socket)) h

run_boot-daemon :
    (w : Surroundings) (args : Arguments) (l : Logger) (config : SupervisorConfig)
    → parse_config w.machine w.default_socket w.file ≡ ok config
    → ((p : Text) → w.opens p ≡ true)
    → HasLevel (w.machine.upper (or_text args.loglevel config.loglevel))
    → (run_boot w args (returned tt, l)).daemon
      ≡ some (run w.host (daemon_of (made_by config) w.socket)).1
unfolding run_boot made_by
run_boot-daemon w args l config parsed opens level =
    ap (λ (x : Supervisor × Option ConfigError). (run_loaded w args l x).daemon)
      (load_config-made_by w config parsed)
    ∙ run_loaded-daemon w args (made_by config) l opens level

mem-created :
    (programs : List ProgramConfig) (k : Text)
    → AllHaveInstances programs
    → mem k (keys (create_processes programs [])) ≡ mem k (all_names programs)
unfolding create_processes config_at
mem-created programs k h =
    mem-keys k (create_all (instances programs) [])
    ∙ is_some-config_of (lookup k (create_all (instances programs) []))
    ∙ ap is_some (unfold config_at in config_at-create_all (instances programs) k [])
    ∙ sym (mem-all_names programs k h)

run_entry :
    (w : Surroundings) (args : Arguments) (l : Logger) (config : SupervisorConfig)
    → parse_config w.machine w.default_socket w.file ≡ ok config
    → ((p : Text) → w.opens p ≡ true)
    → args.loglevel ≡ none
    → w.machine.upper (codes "INFO") ≡ codes "INFO"
    → (main_entry w args l).daemon ≡ some (run w.host (daemon_of (made_by config) w.socket)).1
unfolding main_entry
run_entry w args l config parsed opens no_level info =
    let upper = w.machine.upper in
    let sound = parse_config-IsSound w.machine w.default_socket w.file config parsed in
    let (n, first) =
      level-by upper args.loglevel (codes "INFO") no_level
        (sound-HasLevel upper (codes "INFO") info (inl refl)) in
    ap (λ (r : Ended LogError (Unit {0}) × Logger). (run_boot w args r).daemon)
      (setup_logger-returned w.opens upper (or_text args.loglevel (codes "INFO"))
        (or_text args.logfile []) _ _ l n opens first)
    ∙ run_boot-daemon w args _ config parsed opens (
        level-by upper args.loglevel config.loglevel no_level
          (sound-HasLevel upper config.loglevel info sound.level))

-- If the configuration's file can be read, every log file can be opened, no level is given on the
-- command line, and the pid file's lock and the server's socket can be had, then the supervisor runs
-- and begins the processes of all instances of the configuration's programs, and none besides; the
-- order of what it does, and what it leaves at the end, are those of every run.
pub main_entry-run :
    (w : Surroundings) (args : Arguments) (l : Logger) (config : SupervisorConfig)
    → parse_config w.machine w.default_socket w.file ≡ ok config
    → ((p : Text) → w.opens p ≡ true)
    → args.loglevel ≡ none
    → w.machine.upper (codes "INFO") ≡ codes "INFO"
    → CanStart w.host w.socket
    → (d : Daemon) × ((main_entry w args l).daemon ≡ some d)
      × ((k : Text) → mem k (begun d.journal) ≡ mem k (all_names config.programs))
      × Ends (is_set config.pidfile) true w.host d
unfolding daemon_of made_by
main_entry-run w args l config parsed opens no_level info can =
    let programs = config.programs in
    let names = keys (create_processes programs []) in
    let sound = parse_config-IsSound w.machine w.default_socket w.file config parsed in
    (
      (run w.host (daemon_of (made_by config) w.socket)).1,
      run_entry w args l config parsed opens no_level info,
      λ k.
          ap (mem k) (run-begun (is_set config.pidfile) w.host names w.socket can)
          ∙ mem-created programs k
              (AllFrom-AllHaveInstances w.machine (sections_of w.file) programs sound.programs),
      run-Ends (is_set config.pidfile) true w.host names w.socket,
    )
