-- ===== src/Process/Supervise/Attempts.antt =====
-- A round of supervision whose attempt to start fails, or which has nothing to do (supervice/process.py,
-- `supervise`), with nothing else acting on the process.
use supervice.Prelude.{
  ℕ, zero, suc, ◌*◌, ◌≡◌, refl, ◌∙◌, ap, Bool, true, false, Option, arith, Bool-cases, inl, inr,
}
use supervice.Process.Kill.{forbid_run}
use supervice.Process.Spawn.{Host, spawn}
use supervice.Process.State.{exited, fatal, backing_off, Process, set_state, change_state}
use supervice.Process.Supervise.{
  supervise, supervise_round, round, supervise_once, supervision_failed, pause, start_due,
  attempt_unless, attempt, after_spawn, restart_or_rest, plan_restart, count_attempt, is_exhausted,
  is_due, may_spawn, is_cancelled_retry, is_backing_off, can_start, backoff_wait, wants_restart,
  backoff_delay,
}
use supervice.Models.{ProgramConfig}
use supervice.Task.Alone.{
  World, alone, alone-bind, alone-catch, alone-gets-bind, alone-gets-bind_eq, alone-pure,
  alone-await,
}
use supervice.Task.Waits.{stop_event_within, timed_out}
use supervice.Task.{done, out_of_rounds, got, pure, await, when, branch, catch, ◌>>=◌, no_rounds}

-- The stop event does not come.
pub record IsUndisturbed (world : World Process) : Type 0 where
  pub waits_out : (ms : ℕ) (p : Process) → world (stop_event_within ms) p ≡ got timed_out

-- A process that is to be started, and restarted.
pub record IsTrying (p : Process) : Type 0 where
  pub should_run : p.should_run ≡ true
  pub not_stopping : p.stop_event ≡ false
  pub autorestart : p.config.autorestart ≡ true
  pub startable : can_start p.state ≡ true

-- An attempt that ended in EXITED and never was RUNNING.
pub record IsFailedAttempt (p q : Process) : Type 0 where
  pub state : q.state ≡ exited
  pub not_reached : q.reached_running ≡ false
  pub backoff : q.backoff ≡ p.backoff
  pub should_run : q.should_run ≡ p.should_run
  pub stop_event : q.stop_event ≡ p.stop_event
  pub config : q.config ≡ p.config

pub record AttemptsFail (world : World Process) (host : Host) (me : Option ℕ) : Type 0 where
  pub result : Process → Process
  pub ends : (p : Process) → alone world (spawn host me) p ≡ done tt (result p)
  pub fails : (p : Process) → IsFailedAttempt p (result p)

-- A process that was given up.
pub record IsIdle (p : Process) : Type 0 where
  pub should_run : p.should_run ≡ false
  pub state : p.state ≡ fatal
  pub not_stopping : p.stop_event ≡ false

unfoldable pub plan_for : Bool → Process → Process
plan_for true c = forbid_run (set_state fatal c)
plan_for false c = set_state backing_off c

-- The process after a failed attempt was counted.
unfoldable pub planned : Process → Process
unfolding plan_for
planned q = plan_for (is_exhausted (count_attempt q)) (count_attempt q)

module _ (world : World Process) (host : Host) (me : Option ℕ) (calm : IsUndisturbed world)
    (failing : AttemptsFail world host me) where
  alone-plan : (q : Process) → alone world (plan_restart false) q ≡ done tt (planned q)
  unfolding alone plan_restart planned ◌>>=◌ change_state branch
  alone-plan q = elim (Bool-cases (is_exhausted (count_attempt q))) [ inl e ↦ rw e | inr e ↦ rw e ]

  wants_restart-true :
      (p : Process) → p.should_run ≡ true → p.config.autorestart ≡ true → wants_restart p ≡ true
  unfolding wants_restart
  wants_restart-true p h k = ground arith

  alone-after_spawn :
      (q : Process)
      → q.should_run ≡ true
      → q.config.autorestart ≡ true
      → q.reached_running ≡ false
      → alone world (after_spawn exited) q ≡ done tt (planned q)
  unfolding after_spawn
  alone-after_spawn q h k r =
      alone-gets-bind_eq world wants_restart restart_or_rest q true (wants_restart-true q h k)
      ∙ alone-gets-bind_eq world (λ p. p.reached_running) plan_restart q false r
      ∙ alone-plan q

  alone-attempt :
      (p : Process)
      → IsTrying p
      → alone world (attempt host me) p ≡ done tt (planned (failing.result p))
  unfolding attempt
  alone-attempt p t =
      let q = failing.result p in
      let f = failing.fails p in
      alone-bind world (spawn host me) _ p tt q (failing.ends p)
      ∙ alone-gets-bind_eq world (λ p. p.state) after_spawn q exited f.state
      ∙ alone-after_spawn q (f.should_run ∙ t.should_run)
          (ap (λ (c : ProgramConfig). c.autorestart) f.config ∙ t.autorestart) f.not_reached

  alone-backoff_wait : (b : Bool) (p : Process) → alone world (backoff_wait b) p ≡ done false p
  unfolding backoff_wait
  alone-backoff_wait false p = alone-pure world false p
  alone-backoff_wait true p =
      alone-gets-bind world backoff_delay _ p
      ∙ alone-bind world (await (stop_event_within (backoff_delay p * 1000))) _ p timed_out p (
          alone-await world (stop_event_within (backoff_delay p * 1000)) p timed_out
            (calm.waits_out (backoff_delay p * 1000) p))
      ∙ alone-pure world false p

  may_spawn-true : (p : Process) → p.should_run ≡ true → p.stop_event ≡ false → may_spawn p ≡ true
  unfolding may_spawn
  may_spawn-true p h k = ground arith

  alone-attempt_unless :
      (p : Process)
      → IsTrying p
      → alone world (attempt_unless host me false) p ≡ done false (planned (failing.result p))
  unfolding attempt_unless when
  alone-attempt_unless p t =
      alone-gets-bind_eq world may_spawn _ p true (may_spawn-true p t.should_run t.not_stopping)
      ∙ alone-bind world (attempt host me) _ p tt (planned (failing.result p)) (alone-attempt p t)
      ∙ alone-pure world false (planned (failing.result p))

  not_cancelled : (p : Process) → IsTrying p → is_cancelled_retry p ≡ false
  unfolding is_cancelled_retry
  not_cancelled p t = ground arith

  due : (p : Process) → IsTrying p → is_due p ≡ true
  unfolding is_due
  due p t = ground arith

  alone-supervise_once :
      (p : Process)
      → IsTrying p
      → alone world (supervise_once host me) p ≡ done false (planned (failing.result p))
  unfolding supervise_once when start_due
  alone-supervise_once p t =
      alone-gets-bind_eq world is_cancelled_retry _ p false (not_cancelled p t)
      ∙ alone-bind world (pure tt) _ p tt p (alone-pure world tt p)
      ∙ alone-gets-bind_eq world is_due _ p true (due p t)
      ∙ alone-gets-bind world (λ p. is_backing_off p.state) _ p
      ∙ alone-bind world (backoff_wait (is_backing_off p.state)) _ p false p
          (alone-backoff_wait (is_backing_off p.state) p)
      ∙ alone-attempt_unless p t

  alone-pause : (p : Process) → alone world pause p ≡ done tt p
  unfolding pause
  alone-pause p =
      alone-bind world (await (stop_event_within 100)) _ p timed_out p
        (alone-await world (stop_event_within 100) p timed_out (calm.waits_out 100 p))
      ∙ alone-pure world tt p

  alone-round :
      (p : Process)
      → IsTrying p
      → alone world (round host me) p ≡ done tt (planned (failing.result p))
  unfolding round when
  alone-round p t =
      alone-bind world (catch (supervise_once host me) supervision_failed) _ p false
        (planned (failing.result p))
        (alone-catch world (supervise_once host me) supervision_failed p false
          (planned (failing.result p)) (alone-supervise_once p t))
      ∙ alone-pause (planned (failing.result p))

  -- One round of a process that is trying.
  pub alone-supervise :
      (n : ℕ) (p : Process)
      → IsTrying p
      → alone world (supervise host me (suc n)) p
        ≡ alone world (supervise host me n) (planned (failing.result p))
  unfolding supervise supervise_round branch
  alone-supervise n p t =
      alone-gets-bind_eq world (λ p. p.stop_event) _ p false t.not_stopping
      ∙ alone-bind world (round host me) _ p tt (planned (failing.result p)) (alone-round p t)

  not_due : (p : Process) → IsIdle p → (is_due p ≡ false) × (is_cancelled_retry p ≡ false)
  unfolding is_due is_cancelled_retry
  not_due p i = (ground arith, ground arith)

  alone-idle_once : (p : Process) → IsIdle p → alone world (supervise_once host me) p ≡ done false p
  unfolding supervise_once when start_due
  alone-idle_once p i =
      alone-gets-bind_eq world is_cancelled_retry _ p false (not_due p i).1
      ∙ alone-bind world (pure tt) _ p tt p (alone-pure world tt p)
      ∙ alone-gets-bind_eq world is_due _ p false (not_due p i).0
      ∙ alone-pure world false p

  alone-idle_round : (p : Process) → IsIdle p → alone world (round host me) p ≡ done tt p
  unfolding round when
  alone-idle_round p i =
      alone-bind world (catch (supervise_once host me) supervision_failed) _ p false p (
        alone-catch world (supervise_once host me) supervision_failed p false p
          (alone-idle_once p i))
      ∙ alone-pause p

  -- A process that was given up stays as it is.
  pub alone-idle :
      (n : ℕ) (p : Process) → IsIdle p → alone world (supervise host me n) p ≡ out_of_rounds p
  unfolding supervise supervise_round branch no_rounds alone
  alone-idle zero p i = refl
  alone-idle (suc n) p i =
      alone-gets-bind_eq world (λ p. p.stop_event) _ p false i.not_stopping
      ∙ alone-bind world (round host me) _ p tt p (alone-idle_round p i)
      ∙ alone-idle n p i
