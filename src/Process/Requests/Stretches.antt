-- ===== src/Process/Requests/Stretches.antt =====
-- The stretches of the requests.
use supervice.Prelude.{ℕ, zero, suc, Bool, true, false, Option, none, some, arith, if◌then◌else◌}
use supervice.Process.Kill.Stretches.{stretch_rules, forbid_run-Frame, kill-Guarantees}
use supervice.Process.Kill.{Signals}
use supervice.Process.Requests.{
  set_stop, swallow, join_cancelled, join_task_of, stop, clear_counts, request_start, clear_change,
  Look, settled, failed, keep_waiting, woken, act, settle_round, settle, start_unless,
  start_process, cancel_retry, stop_process, start, begin_task,
}
use supervice.Process.Respects.{Frame, IsRespected}
use supervice.Process.State.{State, stopped, Process, set_state}
use supervice.Task.Guarantee.{Guarantees, Guarantees-await, Guarantees-catch, Guarantees-modify}
use supervice.Task.Waits.{Exn, cancelled, Timed, in_time, timed_out, join_supervise}
use supervice.Task.{Task, modify}

set_stop-Frame : (p : Process) → Frame p (set_stop p)
unfolding set_stop
set_stop-Frame p = ground arith

clear_change-Frame : (p : Process) → Frame p (clear_change p)
unfolding clear_change
clear_change-Frame p = ground arith

begin_task-Frame : (p : Process) → Frame p (begin_task p)
unfolding begin_task
begin_task-Frame p = ground arith

ruleset request_frames = (set_stop-Frame, clear_change-Frame, forbid_run-Frame)

module _ {G : Process → Process → Type 0} {Into : State → Type 0} (h : IsRespected G Into)
    (all : (s : State) → Into s) where
  swallow-Guarantees : (e : Exn) → Guarantees G (swallow e)
  unfolding swallow
  swallow-Guarantees cancelled = search (stretch_rules, h.guarantee)
  swallow-Guarantees _ = search (stretch_rules, h.guarantee)

  join_cancelled-Guarantees : (r : Timed (Unit {0})) → Guarantees G (join_cancelled r)
  unfolding join_cancelled
  join_cancelled-Guarantees (in_time u) = search (stretch_rules, h.guarantee)
  join_cancelled-Guarantees timed_out =
      Guarantees-catch h.guarantee _ _ (Guarantees-await h.guarantee join_supervise)
        swallow-Guarantees

  join_task_of-Guarantees : (t : Option Bool) → Guarantees G (join_task_of t)
  unfolding join_task_of
  join_task_of-Guarantees none = search (stretch_rules, h.guarantee)
  join_task_of-Guarantees (some finished) =
      search (stretch_rules, h.guarantee, join_cancelled-Guarantees) depth 8

  pub stop-Guarantees : (host : Signals) (me : Option ℕ) → Guarantees G (stop host me)
  unfolding stop
  stop-Guarantees host me =
      search
        (stretch_rules, request_frames, h.guarantee, kill-Guarantees, join_task_of-Guarantees, all)
        depth 10

  woken-Guarantees :
      (r : Timed (Unit {0})) (rest : Task Process State)
      → Guarantees G rest
      → Guarantees G (woken r rest)
  unfolding woken
  woken-Guarantees (in_time u) rest k = k
  woken-Guarantees timed_out rest k = search (stretch_rules, h.guarantee)

  act-Guarantees :
      (l : Look) (rest : Task Process State) → Guarantees G rest → Guarantees G (act l rest)
  unfolding act
  act-Guarantees (settled s) rest k = search (stretch_rules, h.guarantee)
  act-Guarantees failed rest k = search (stretch_rules, h.guarantee)
  act-Guarantees (keep_waiting ms) rest k =
      search (stretch_rules, h.guarantee, woken-Guarantees) depth 8

  settle_round-Guarantees :
      (look : ℕ → Process → Look) (d : ℕ) (rest : Task Process State)
      → Guarantees G rest
      → Guarantees G (settle_round look d rest)
  unfolding settle_round
  settle_round-Guarantees look d rest k =
      search (stretch_rules, request_frames, h.guarantee, act-Guarantees) depth 8

  settle-Guarantees : (look : ℕ → Process → Look) (d n : ℕ) → Guarantees G (settle look d n)
  unfolding settle
  settle-Guarantees look d zero = search (stretch_rules, h.guarantee)
  settle-Guarantees look d (suc n) =
      settle_round-Guarantees look d (settle look d n) (settle-Guarantees look d n)

  if-kept : (b : Bool) (p q r : Process) → G p q → G p r → G p (if b then q else r)
  if-kept true p q r x y = x
  if-kept false p q r x y = y

  cancel_retry-kept : (p : Process) → G p (cancel_retry p)
  unfolding cancel_retry
  cancel_retry-kept p =
      if-kept _ p (set_state stopped p) p (h.moves stopped p (all stopped)) (h.guarantee.refl_at p)

  cancel_retry-Guarantees : Guarantees G (modify cancel_retry)
  cancel_retry-Guarantees = Guarantees-modify h.guarantee cancel_retry cancel_retry-kept

  pub stop_process-Guarantees :
      (host : Signals) (me : Option ℕ) (n : ℕ) → Guarantees G (stop_process host me n)
  unfolding stop_process
  stop_process-Guarantees host me n =
      search
        (
          stretch_rules, request_frames, h.guarantee, kill-Guarantees, cancel_retry-Guarantees,
          settle-Guarantees, all,
        )
        depth 12

  pub start-kept : (p : Process) → G p (start p)
  unfolding start
  start-kept p =
      if-kept _ p p (begin_task p) (h.guarantee.refl_at p) (h.frame p _ (begin_task-Frame p))

  module _ (clears : (p : Process) → G p (clear_counts p)) where
    request_start-kept : (p : Process) → G p (request_start p)
    unfolding request_start
    request_start-kept p =
        let c = clear_counts p in
        h.guarantee.trans p c (request_start p) (clears p) (
          if-kept _ c (set_state stopped c) c (h.moves stopped c (all stopped))
            (h.guarantee.refl_at c))

    request_start-Guarantees : Guarantees G (modify request_start)
    request_start-Guarantees = Guarantees-modify h.guarantee request_start request_start-kept

    start_unless-Guarantees : (n : ℕ) (already : Bool) → Guarantees G (start_unless n already)
    unfolding start_unless
    start_unless-Guarantees n true = search (stretch_rules, h.guarantee)
    start_unless-Guarantees n false =
        search (stretch_rules, h.guarantee, request_start-Guarantees, settle-Guarantees) depth 8

    pub start_process-Guarantees : (n : ℕ) → Guarantees G (start_process n)
    unfolding start_process
    start_process-Guarantees n =
        search (stretch_rules, h.guarantee, start_unless-Guarantees) depth 8
