-- ===== src/Entry/Runs.antt =====
-- What the daemon's command line comes to (supervice/main.py).
use supervice.Attempt.{Ended, returned, raised}
use supervice.Config.Parse.{ConfigError}
use supervice.Core.Loading.{Supervisor, new_supervisor, load_config}
use supervice.Core.Run.{Daemon, Failure, run}
use supervice.Entry.{
  Arguments, Surroundings, Result, logfile_of, daemon_of, not_run, ended, run_logged,
  log_configured, run_loaded, run_boot, main_entry,
}
use supervice.Logging.{
  Logger, LogError, Handler, to_stdout, IsSetUp, setup_logger, setup_logger-IsSetUp, numeric_level,
  handler_for,
}
use supervice.Models.{or_text}
use supervice.Prelude.{
  ℕ, ◌≡◌, ◌≢◌, ◌⊎◌, inl, inr, refl, Bool, true, false, not, Option, none, some, [], ◌∷◌, Text,
  codes, ltb, Bool-cases,
}

-- What is true of a result: it has not run and has not_run; or it ran with one handler, that writes
-- to a file if it is in the background.
abbrev pub IsRun : Arguments → Result → Option Daemon → Type 0
IsRun args r none = (r.exit ≡ 1) × (r.daemonized ≡ false)
IsRun args r (some d) =
    (r.daemonized ≡ not args.nodaemon)
    × ((h : Handler) × (r.logger.handlers ≡ h ∷ []) × ((args.nodaemon ≡ true) ⊎ (h ≢ to_stdout)))

handler-file :
    (c : ℕ) (cs : Text) (maxbytes backups : ℕ) → handler_for (c ∷ cs) maxbytes backups ≢ to_stdout
unfolding handler_for
handler-file c cs maxbytes backups = elim (Bool-cases (ltb 0 maxbytes)) [
  | inl e ↦ rw e (λ h. cc)
  | inr e ↦ rw e (λ h. cc)
]

handler-logfile_of :
    (nodaemon : Bool) (logfile : Text) (maxbytes backups : ℕ)
    → (nodaemon ≡ true) ⊎ (handler_for (logfile_of nodaemon logfile) maxbytes backups ≢ to_stdout)
unfolding logfile_of
handler-logfile_of true logfile maxbytes backups = inl refl
handler-logfile_of false [] maxbytes backups =
    inr (handler-file 115 (codes "upervice.log") maxbytes backups)
handler-logfile_of false (c ∷ cs) maxbytes backups = inr (handler-file c cs maxbytes backups)

ended-IsRun :
    (args : Arguments) (l : Logger) (r : Ended Failure (Unit {0})) (d : Daemon) (h : Handler)
    → l.handlers ≡ h ∷ []
    → (args.nodaemon ≡ true) ⊎ (h ≢ to_stdout)
    → (let q = ended (not args.nodaemon) l (r, d) in IsRun args q q.daemon)
unfolding ended
ended-IsRun args l (returned u) d h e f = (refl, (h, e, f))
ended-IsRun args l (raised x) d h e f = (refl, (h, e, f))

logged-IsRun :
    (w : Surroundings) (args : Arguments) (s : Supervisor) (l : Logger) (h : Handler) (o : Option ℕ)
    (r : Ended LogError (Unit {0})) (m : Logger)
    → IsSetUp o h l (r, m)
    → (args.nodaemon ≡ true) ⊎ (h ≢ to_stdout)
    → (let q = run_logged w args s (r, m) in IsRun args q q.daemon)
unfolding run_logged not_run
logged-IsRun w args s l h o (raised e) m i f = (refl, refl)
logged-IsRun w args s l h o (returned u) m i f =
    let (r, d) = run w.host (daemon_of s w.socket) in ended-IsRun args m r d h i.1 f

loaded-IsRun :
    (w : Surroundings) (args : Arguments) (l : Logger) (s : Supervisor) (e : Option ConfigError)
    → (let q = run_loaded w args l (s, e) in IsRun args q q.daemon)
unfolding run_loaded not_run log_configured
loaded-IsRun w args l s (some e) = (refl, refl)
loaded-IsRun w args l s none =
    let c = s.config in
    let file = logfile_of args.nodaemon (or_text args.logfile c.logfile) in
    let level = or_text args.loglevel c.loglevel in
    let (r, m) = setup_logger w.opens w.machine.upper level file c.log_maxbytes c.log_backups l in
    logged-IsRun w args s l (handler_for file c.log_maxbytes c.log_backups)
      (numeric_level (w.machine.upper level)) r m
      (setup_logger-IsSetUp w.opens w.machine.upper level file c.log_maxbytes c.log_backups l)
      (handler-logfile_of args.nodaemon (or_text args.logfile c.logfile) c.log_maxbytes
        c.log_backups)

boot-IsRun :
    (w : Surroundings) (args : Arguments) (r : Ended LogError (Unit {0})) (l : Logger)
    → (let q = run_boot w args (r, l) in IsRun args q q.daemon)
unfolding run_boot not_run
boot-IsRun w args (raised e) l = (refl, refl)
boot-IsRun w args (returned u) l =
    let (s, e) = load_config w.machine w.default_socket w.file (new_supervisor w.default_socket) in
    loaded-IsRun w args l s e

-- Whatever the arguments, the configuration and the file system are: if the supervisor does not run,
-- the exit status is 1 and the process has not gone to the background; if it runs, the logger has
-- exactly one handler, and in the background that handler writes to a file.
pub main_entry-IsRun :
    (w : Surroundings) (args : Arguments) (l : Logger)
    → (let q = main_entry w args l in IsRun args q q.daemon)
unfolding main_entry
main_entry-IsRun w args l =
    let (r, m) =
      setup_logger w.opens w.machine.upper (or_text args.loglevel (codes "INFO"))
        (or_text args.logfile []) _ _ l in
    boot-IsRun w args r m
