-- ===== src/Process/Kill/Outcome.antt =====
-- How killing a child ends (supervice/process.py, `kill`).
use supervice.Prelude.{
  ℕ, ◌*◌, ◌≡◌, refl, ap, ◌∙◌, Bool, false, not, ◌&&◌, Option, none, some, List, [], ◌∷◌, ◌++◌,
  append_assoc, arith,
}
use supervice.Process.Kill.{
  Signals, sigkill, stop_signal, is_current, kill, kill_child, stop_health_checks, cancel_health,
  forget_health_task, forget_start, signal_group, signal_child, wait_exit, wait_within, escalate,
  settle_kill, reap_timed, reap,
}
use supervice.Process.State.{
  HealthTask, State, stopped, stopping, backing_off, Process, set_state, change_state, live_pid,
  is_alive,
}
use supervice.Task.Alone.{World, alone, finish}
use supervice.Task.Waits.{ReturnCode, Timed, in_time, timed_out, child_exit_within}
use supervice.Task.{
  Run, Reply, Task, ◌>>◌, when, done, got, gets, modify, await, pure, ◌>>=◌, answered, continue,
}

-- A process with a live child and no health task.
unfoldable pub with_child : ℕ → Process → Process
with_child pid p = record p {
  child = some (record { pid = pid; returncode = none });
  health_task = none;
}

-- The process once it is STOPPING and its child has been sent the stop signal.
unfoldable pub told : Signals → ℕ → Process → Process
unfolding with_child forget_health_task forget_start set_state signal_group signal_child stop_signal
told host pid p =
    let q = set_state stopping (forget_start (forget_health_task (with_child pid p))) in
    signal_group (stop_signal host q) q

-- What the child did within the time that it has: it exited after the stop signal, or after SIGKILL,
-- or not at all.
abbrev pub state_after : Timed ReturnCode → Timed ReturnCode → State
state_after (in_time r) s = stopped
state_after timed_out (in_time r) = stopped
state_after timed_out timed_out = stopping

abbrev pub signals_of : Timed ReturnCode → ℕ → ℕ → List (ℕ × ℕ)
signals_of (in_time r) pid sig = (pid, sig) ∷ []
signals_of timed_out pid sig = (pid, sig) ∷ (pid, sigkill) ∷ []

-- What follows an answer to a wait for the child within `ms`, up to `after`.
from_wait :
    World Process
    → ℕ
    → ℕ
    → (Timed ReturnCode → Task Process (Unit {0}))
    → Process
    → Reply (Timed ReturnCode)
    → Run Process (Unit {0})
unfolding finish continue answered modify pure ◌>>=◌ reap_timed
from_wait world pid ms after q r = finish world (
    continue
      (continue (answered (child_exit_within pid ms) r q)
        (λ t. modify (reap_timed pid t) >> pure t))
      after)

waits_first :
    (world : World Process) (host : Signals) (me : Option ℕ) (pid : ℕ) (p : Process)
    → alone world (kill host me) (with_child pid p)
      ≡ from_wait world pid
          (p.config.stopwaitsecs * 1000)
          escalate
          (told host pid p)
          (world (child_exit_within pid (p.config.stopwaitsecs * 1000)) (told host pid p))
unfolding from_wait kill kill_child stop_health_checks cancel_health wait_exit wait_within
    change_state alone gets modify await pure ◌>>=◌ told live_pid is_alive with_child
waits_first world host me pid p = refl

waits_again :
    (world : World Process) (host : Signals) (pid ms : ℕ) (p : Process)
    → from_wait world pid ms escalate (told host pid p) (got timed_out)
      ≡ from_wait world pid 2000 settle_kill
          (signal_group sigkill (told host pid p))
          (world (child_exit_within pid 2000) (signal_group sigkill (told host pid p)))
unfolding from_wait escalate wait_exit wait_within gets modify await pure ◌>>=◌ reap_timed told
    with_child signal_group answered continue finish
waits_again world host pid ms p = refl

-- What a kill leaves as it is.
abbrev pub Keeps : Process → Process → Type 0
Keeps p q =
    (q.should_run ≡ p.should_run)
    × (q.health_restarts ≡ p.health_restarts)
    × (q.config ≡ p.config)
    × (q.cancels ≡ p.cancels)

kill-keeping_last :
    (world : World Process) (host : Signals) (me : Option ℕ) (pid : ℕ) (p : Process)
    (b : Timed ReturnCode)
    → alone world (kill host me) (with_child pid p)
      ≡ from_wait world pid 2000 settle_kill (signal_group sigkill (told host pid p)) (got b)
    → (q : Process) × (alone world (kill host me) (with_child pid p) ≡ done tt q)
      × (q.state ≡ state_after timed_out b)
      × (q.signals ≡ p.signals ++ signals_of timed_out pid (stop_signal host p))
      × Keeps p q
unfolding from_wait settle_kill change_state modify pure ◌>>=◌ told with_child signal_group answered
    continue finish reap_timed reap set_state
kill-keeping_last world host me pid p (in_time r) h = (
  set_state stopped (reap_timed pid (in_time r) (signal_group sigkill (told host pid p))),
  h,
  refl,
  append_assoc p.signals ((pid, stop_signal host p) ∷ []) ((pid, sigkill) ∷ []),
  (refl, refl, refl, refl),
)
kill-keeping_last world host me pid p timed_out h = (
  signal_group sigkill (told host pid p),
  h,
  refl,
  append_assoc p.signals ((pid, stop_signal host p) ∷ []) ((pid, sigkill) ∷ []),
  (refl, refl, refl, refl),
)

pub kill-keeping :
    (world : World Process) (host : Signals) (me : Option ℕ) (pid : ℕ) (p : Process)
    (a b : Timed ReturnCode)
    → world (child_exit_within pid (p.config.stopwaitsecs * 1000)) (told host pid p) ≡ got a
    → world (child_exit_within pid 2000) (signal_group sigkill (told host pid p)) ≡ got b
    → (q : Process) × (alone world (kill host me) (with_child pid p) ≡ done tt q)
      × (q.state ≡ state_after a b)
      × (q.signals ≡ p.signals ++ signals_of a pid (stop_signal host p))
      × Keeps p q
unfolding from_wait escalate settle_kill change_state modify pure ◌>>=◌ told with_child signal_group
    answered continue finish reap_timed reap set_state
kill-keeping world host me pid p (in_time r) b h k = (
  set_state stopped (reap_timed pid (in_time r) (told host pid p)),
  waits_first world host me pid p
      ∙ ap (from_wait world pid (p.config.stopwaitsecs * 1000) escalate (told host pid p)) h,
  refl,
  refl,
  (refl, refl, refl, refl),
)
kill-keeping world host me pid p timed_out b h k =
    let q = signal_group sigkill (told host pid p) in
    let w =
      waits_first world host me pid p
      ∙ ap (from_wait world pid (p.config.stopwaitsecs * 1000) escalate (told host pid p)) h
      ∙ waits_again world host pid (p.config.stopwaitsecs * 1000) p
      ∙ ap (from_wait world pid 2000 settle_kill q) k in
    kill-keeping_last world host me pid p b w

-- With a live child, no health task and nothing else acting, kill ends, and leaves the process
-- STOPPED if the child exits in its time after the stop signal, or else in two seconds after SIGKILL,
-- and STOPPING if it does neither; the child is sent the stop signal, and SIGKILL only in the last two
-- cases.
pub kill-ends :
    (world : World Process) (host : Signals) (me : Option ℕ) (pid : ℕ) (p : Process)
    (a b : Timed ReturnCode)
    → world (child_exit_within pid (p.config.stopwaitsecs * 1000)) (told host pid p) ≡ got a
    → world (child_exit_within pid 2000) (signal_group sigkill (told host pid p)) ≡ got b
    → (q : Process) × (alone world (kill host me) (with_child pid p) ≡ done tt q)
      × (q.state ≡ state_after a b)
      × (q.signals ≡ p.signals ++ signals_of a pid (stop_signal host p))
kill-ends world host me pid p a b h k =
    let (q, e, state, signals, keeps) = kill-keeping world host me pid p a b h k in
    (q, e, state, signals)

-- A process with a live child and the health task `t`.
unfoldable pub watched_by : HealthTask → ℕ → Process → Process
watched_by t pid p = record p {
  child = some (record { pid = pid; returncode = none });
  health_task = some t;
}

spares_itself : (n : ℕ) (b : Bool) → (not b && not (is_current (some n) n)) ≡ false
unfolding is_current
spares_itself n b = ground arith

-- A health task that kills the child of its process does not cancel itself.
pub kill-watched :
    (world : World Process) (host : Signals) (t : HealthTask) (pid : ℕ) (p : Process)
    → alone world (kill host (some t.id)) (watched_by t pid p)
      ≡ alone world (kill host (some t.id)) (with_child pid p)
unfolding kill stop_health_checks cancel_health forget_health_task alone gets modify ◌>>=◌
    watched_by with_child live_pid when
kill-watched world host t pid p = rw (spares_itself t.id t.finished) refl

-- A process that waits for its next attempt: it has no child and no health task.
unfoldable pub retrying : Process → Process
retrying p = record p { state = backing_off; child = none; health_task = none }

pub kill-retrying :
    (world : World Process) (host : Signals) (me : Option ℕ) (p : Process)
    → alone world (kill host me) (retrying p)
      ≡ done tt (forget_start (forget_health_task (retrying p)))
unfolding kill stop_health_checks cancel_health kill_child live_pid alone gets modify pure ◌>>=◌
    retrying forget_health_task forget_start
kill-retrying world host me p = refl
