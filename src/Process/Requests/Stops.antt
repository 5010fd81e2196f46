-- ===== src/Process/Requests/Stops.antt =====
-- How a stop request ends where nothing else acts (supervice/process.py, `stop_process`).
use supervice.Prelude.{
  ℕ, suc, ◌+◌, ◌*◌, ◌≡◌, refl, ap, ◌∙◌, Bool, true, false, Option, ◌++◌, leb, arith, if◌then◌else◌,
}
use supervice.Process.Kill.Outcome.{
  with_child, state_after, signals_of, kill-keeping, retrying, kill-retrying,
}
use supervice.Process.Kill.{
  Signals, forbid_run, kill, stop_signal, forget_health_task, forget_start,
}
use supervice.Process.Requests.{
  is_down, clear_change, stop_deadline, wait_or_settle, look_stopped, woken, act, settle_round,
  settle, cancel_retry, stop_process,
}
use supervice.Process.State.{State, stopped, stopping, Process, set_state}
use supervice.Process.Supervise.{is_backing_off}
use supervice.Task.Alone.{
  World, alone, alone-bind, alone-bind_raised, alone-modify-bind, alone-gets, alone-gets-bind,
  alone-await, alone-await_cancelled, alone-pure,
}
use supervice.Task.Waits.{
  cancelled, ReturnCode, Timed, in_time, timed_out, child_exit_within, state_change_within,
}
use supervice.Task.{Run, done, raised, Reply, got, cancel, gets, modify, await, ◌>>=◌, ◌>>◌}

is_after_kill : (a b : Timed ReturnCode) → is_backing_off (state_after a b) ≡ false
unfolding is_backing_off
is_after_kill (in_time r) b = refl
is_after_kill timed_out (in_time r) = refl
is_after_kill timed_out timed_out = refl

cancel_retry-keeps : (q : Process) → is_backing_off q.state ≡ false → cancel_retry q ≡ q
unfolding cancel_retry
cancel_retry-keeps q h = ground arith

not_due : (q : Process) → leb (q.clock + (q.config.stopwaitsecs * 1000 + 7000)) q.clock ≡ false
not_due q = ground arith

-- How the wait for a change of state ends: by its time-out, or because the request is cancelled.
abbrev pub waited : Bool → Reply (Timed (Unit {0}))
waited false = got timed_out
waited true = cancel

-- What a stop returns in the state `s`, or raises.
ends_in : Bool → State → Process → Run Process State
unfolding is_down
ends_in interrupted s q =
    if is_down s then done s q else (if interrupted then raised cancelled q else done s q)

-- The same, from what the child did: a wait for a change comes only if the child has not exited.
abbrev pub came_to : Bool → Timed ReturnCode → Timed ReturnCode → Process → Run Process State
came_to interrupted (in_time r) b q = done stopped q
came_to interrupted timed_out (in_time r) q = done stopped q
came_to false timed_out timed_out q = done stopping q
came_to true timed_out timed_out q = raised cancelled q

ends_in-came_to :
    (interrupted : Bool) (a b : Timed ReturnCode) (q : Process)
    → ends_in interrupted (state_after a b) q ≡ came_to interrupted a b q
unfolding ends_in
ends_in-came_to interrupted (in_time r) b q = refl
ends_in-came_to interrupted timed_out (in_time r) q = refl
ends_in-came_to false timed_out timed_out q = refl
ends_in-came_to true timed_out timed_out q = refl

module _ (world : World Process) (interrupted : Bool)
    (still : (ms : ℕ) (s : Process) → world (state_change_within ms) s ≡ waited interrupted) where
  look-still :
      (b i : Bool) (n : ℕ) (q : Process)
      → is_down q.state ≡ b
      → interrupted ≡ i
      → alone world
          (act
            (look_stopped (stop_deadline q) (clear_change q))
            (settle look_stopped (stop_deadline q) n))
          (clear_change q)
        ≡ ends_in i q.state (clear_change q)
  unfolding act look_stopped wait_or_settle stop_deadline woken clear_change ends_in
  look-still true i n q h k = rw h (alone-pure world q.state (clear_change q))
  look-still false false n q h k =
      rw (h, not_due q)
        (alone-bind world (await (state_change_within _)) _ (clear_change q) timed_out
            (clear_change q)
            (alone-await world (state_change_within _) (clear_change q) timed_out
              (still _ _ ∙ ap waited k))
          ∙ alone-gets world (λ p. p.state) (clear_change q))
  look-still false true n q h k =
      rw (h, not_due q)
        (alone-bind_raised world (await (state_change_within _)) _ (clear_change q) cancelled
          (clear_change q)
          (alone-await_cancelled world (state_change_within _) (clear_change q)
            (still _ _ ∙ ap waited k)))

  -- A process that is down is not waited for.
  settle-still :
      (n : ℕ) (q : Process)
      → alone world (settle look_stopped (stop_deadline q) (suc n)) q
        ≡ ends_in interrupted q.state (clear_change q)
  unfolding settle settle_round clear_change
  settle-still n q =
      alone-modify-bind world clear_change _ q
      ∙ alone-gets-bind world (look_stopped (stop_deadline q)) _ (clear_change q)
      ∙ look-still (is_down q.state) interrupted n q refl refl

  -- The last part of a stop, of a process that is not in BACKOFF.
  settle-kept :
      (n : ℕ) (q : Process)
      → is_backing_off q.state ≡ false
      → alone world
          (do
            modify cancel_retry
            deadline ← gets stop_deadline
            settle look_stopped deadline (suc n))
          q
        ≡ ends_in interrupted q.state (clear_change q)
  settle-kept n q h =
      alone-modify-bind world cancel_retry _ q
      ∙ ap (alone world (do deadline ← gets stop_deadline; settle look_stopped deadline (suc n)))
          (cancel_retry-keeps q h)
      ∙ alone-gets-bind world stop_deadline _ q
      ∙ settle-still n q

module _ (world : World Process) (host : Signals) (me : Option ℕ) (pid n : ℕ) (p : Process)
    (a b : Timed ReturnCode)
    (first : (s : Process) → world (child_exit_within pid (p.config.stopwaitsecs * 1000)) s ≡ got a)
    (second : (s : Process) → world (child_exit_within pid 2000) s ≡ got b) (interrupted : Bool)
    (still : (ms : ℕ) (s : Process) → world (state_change_within ms) s ≡ waited interrupted) where
  -- What a stop request comes to if nothing else changes the process. A process with a live child and
  -- no health task is not to run any more, and its child was sent the stop signal, and SIGKILL if it
  -- did not exit in its time. If the child exited in time after either signal, the process is STOPPED
  -- and the request returns that; else it is STOPPING, and the request waits for a change of state:
  -- it returns STOPPING if the wait times out, and raises CancelledError if it is cancelled. A process
  -- in BACKOFF, with no child and no health task, is STOPPED, is not to run, nothing is sent a signal,
  -- and the request returns without a wait.
  pub stop_process-Stopped :
      ((q : Process) × (alone world (stop_process host me (suc n)) (with_child pid p)
          ≡ came_to interrupted a b q)
        × (q.state ≡ state_after a b)
        × (q.should_run ≡ false)
        × (q.signals ≡ p.signals ++ signals_of a pid (stop_signal host p)))
      × ((q : Process) × (alone world (stop_process host me (suc n)) (retrying p) ≡ done stopped q)
          × (q.state ≡ stopped)
          × (q.should_run ≡ false)
          × (q.signals ≡ p.signals))
  unfolding stop_process forbid_run with_child retrying clear_change cancel_retry is_backing_off
      set_state forget_start forget_health_task stop_signal ends_in
  stop_process-Stopped =
      let (q, e, state, signals, (run, restarts, config, cancels)) =
        kill-keeping world host me pid (forbid_run p) a b (first _) (second _) in
      let r = forget_start (forget_health_task (retrying (forbid_run p))) in
      (
        (
          clear_change q,
          alone-modify-bind world forbid_run _ (with_child pid p)
              ∙ alone-bind world (kill host me) _ (with_child pid (forbid_run p)) tt q e
              ∙ settle-kept world interrupted still n q
                  (ap is_backing_off state ∙ is_after_kill a b)
              ∙ ap (λ s. ends_in interrupted s (clear_change q)) state
              ∙ ends_in-came_to interrupted a b (clear_change q),
          state,
          run,
          signals,
        ),
        (
          clear_change (set_state stopped r),
          alone-modify-bind world forbid_run _ (retrying p)
              ∙ alone-bind world (kill host me) _ (retrying (forbid_run p)) tt r
                  (kill-retrying world host me (forbid_run p))
              ∙ alone-modify-bind world cancel_retry _ r
              ∙ alone-gets-bind world stop_deadline _ (set_state stopped r)
              ∙ settle-still world interrupted still n (set_state stopped r),
          refl,
          refl,
          refl,
        ),
      )
