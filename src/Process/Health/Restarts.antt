-- ===== src/Process/Health/Restarts.antt =====
-- Restarts for the sake of health are bounded (supervice/process.py, `_run_health_checks`).
use supervice.Prelude.{ℕ, ◌+◌, ◌*◌, ◌≡◌, refl, ◌∙◌, Bool, true, false, some, ltb}
use supervice.Process.Health.{
  count_restart, is_spent, pace_restart, restart_or_give_up, health_restart,
}
use supervice.Process.Kill.{Signals, forbid_run, kill}
use supervice.Process.Kill.Outcome.{watched_by, kill-watched, kill-keeping}
use supervice.Process.State.{
  HealthTask, State, fatal, backing_off, Process, set_state, change_state,
}
use supervice.Task.Alone.{World, alone, alone-bind, alone-modify-bind, alone-gets-bind}
use supervice.Task.Waits.{ReturnCode, Timed, child_exit_within}
use supervice.Task.{done, got, modify}

-- What a restart for the sake of health comes to, from the process before.
abbrev pub Restarted : Bool → Process → Process → Type 0
Restarted true p q =
    (q.state ≡ fatal)
    × (q.should_run ≡ false)
    × (q.health_restarts ≡ p.health_restarts + 1)
    × (q.cancels ≡ p.cancels)
Restarted false p q =
    (q.state ≡ backing_off)
    × (q.should_run ≡ p.should_run)
    × (q.backoff ≡ p.health_restarts + 1)
    × (q.health_restarts ≡ p.health_restarts + 1)
    × (q.cancels ≡ p.cancels)

changed :
    (world : World Process) (s : State) (p : Process)
    → alone world (change_state s) p ≡ done tt (set_state s p)
unfolding alone change_state modify
changed world s p = refl

module _ (world : World Process) (host : Signals) (t : HealthTask) (pid : ℕ) (p : Process)
    (a b : Timed ReturnCode)
    (first : (s : Process) → world (child_exit_within pid (p.config.stopwaitsecs * 1000)) s ≡ got a)
    (second : (s : Process) → world (child_exit_within pid 2000) s ≡ got b) where
  restart-by :
      (spent : Bool)
      → (q : Process) × (alone world
            (restart_or_give_up host (some t.id) spent)
            (watched_by t pid (count_restart p))
          ≡ done tt q)
        × Restarted spent p q
  unfolding restart_or_give_up set_state forbid_run pace_restart count_restart watched_by
  restart-by true =
      let p1 = forbid_run (count_restart p) in
      let (q, e, state, signals, (run, restarts, config, cancels)) =
        kill-keeping world host (some t.id) pid p1 a b (first _) (second _) in
      (
        set_state fatal q,
        alone-modify-bind world forbid_run _ (watched_by t pid (count_restart p))
            ∙ alone-bind world (kill host (some t.id)) _ (watched_by t pid p1) tt q
                (kill-watched world host t pid p1 ∙ e)
            ∙ changed world fatal q,
        (refl, run, restarts, cancels),
      )
  restart-by false =
      let p1 = count_restart p in
      let (q, e, state, signals, (run, restarts, config, cancels)) =
        kill-keeping world host (some t.id) pid p1 a b (first _) (second _) in
      (
        set_state backing_off (pace_restart q),
        alone-bind world (kill host (some t.id)) _ (watched_by t pid p1) tt q
              (kill-watched world host t pid p1 ∙ e)
            ∙ alone-modify-bind world pace_restart _ q
            ∙ changed world backing_off (pace_restart q),
        (refl, run, restarts, restarts, cancels),
      )

  -- When the health task of a process, with nothing else acting, restarts its live child: if this
  -- restart is beyond startretries the process is FATAL and is not to run, and else it is in BACKOFF,
  -- with as many steps of backoff as there were such restarts. The restart is counted either way, no
  -- task is cancelled, the health task itself included, and it comes to an end whatever the child
  -- does.
  pub health_restart-Restarted :
      (q : Process) × (alone world (health_restart host (some t.id)) (watched_by t pid p)
        ≡ done tt q)
      × Restarted (ltb p.config.startretries (p.health_restarts + 1)) p q
  unfolding health_restart is_spent count_restart watched_by
  health_restart-Restarted =
      let (q, e, r) = restart-by (ltb p.config.startretries (p.health_restarts + 1)) in
      (
        q,
        alone-modify-bind world count_restart _ (watched_by t pid p)
            ∙ alone-gets-bind world is_spent _ (watched_by t pid (count_restart p))
            ∙ e,
        r,
      )
