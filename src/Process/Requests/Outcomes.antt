-- ===== src/Process/Requests/Outcomes.antt =====
-- What the requests report is what they leave.
use supervice.Prelude.{ℕ, zero, suc, ◌≡◌, refl, Bool, true, false, Option, arith}
use supervice.Process.Health.{is_running}
use supervice.Process.Kill.{Signals, kill, forbid_run}
use supervice.Process.Requests.{
  Look, settled, failed, keep_waiting, look_started, look_stopped, woken, act, settle_round, settle,
  start_unless, start_process, is_fatal, stop_process, clear_change, start_deadline, stop_deadline,
  request_start, cancel_retry,
}
use supervice.Process.State.{State, Process}
use supervice.Task.Ensures.{
  Ends, Ensures, Ensures-await, Ensures-bind, Ensures-any, Ensures-gets, Ensures-modify,
  Ensures-weaken,
}
use supervice.Task.Waits.{Exn, process_start_error, Timed, in_time, timed_out, state_change_within}
use supervice.Task.{
  Run, done, raised, suspended, out_of_rounds, Task, pure, raise, gets, modify, no_rounds, await,
  ◌>>=◌,
}

-- The reported state is the state at the time of the report.
abbrev pub IsTrue : State → Process → Type 0
IsTrue s p = s ≡ p.state

-- ProcessStartError is raised in FATAL only.
abbrev pub BlamesFatal : Exn → Process → Type 0
BlamesFatal e p = e ≡ process_start_error → is_fatal p.state ≡ true

record IsHonest (look : ℕ → Process → Look) : Type 0 where
  settles : (d : ℕ) (p : Process) (s : State) → look d p ≡ settled s → s ≡ p.state
  fails : (d : ℕ) (p : Process) → look d p ≡ failed → is_fatal p.state ≡ true

look_started-IsHonest : IsHonest look_started
unfolding look_started is_running
look_started-IsHonest = record { settles = λ d p s h. ground arith; fails = λ d p h. ground arith }

look_stopped-IsHonest : IsHonest look_stopped
unfolding look_stopped
look_stopped-IsHonest = record { settles = λ d p s h. ground arith; fails = λ d p h. ground arith }

abbrev pub Any : Process → Type 0
Any p = Unit {0}

module _ (look : ℕ → Process → Look) (honest : IsHonest look) where
  woken-honest :
      (r : Timed (Unit {0})) (rest : Task Process State)
      → Ensures Any IsTrue BlamesFatal rest
      → Ensures Any IsTrue BlamesFatal (woken r rest)
  unfolding woken gets
  woken-honest (in_time u) rest k = k
  woken-honest timed_out rest k = record { at = λ p u. refl }

  act-honest :
      (d : ℕ) (l : Look) (rest : Task Process State)
      → Ensures Any IsTrue BlamesFatal rest
      → Ensures (λ p. Any p × (look d p ≡ l)) IsTrue BlamesFatal (act l rest)
  unfolding act pure raise
  act-honest d (settled s) rest k = record { at = λ p h. honest.settles d p s h.1 }
  act-honest d failed rest k = record { at = λ p h e. honest.fails d p h.1 }
  act-honest d (keep_waiting ms) rest k =
      Ensures-bind _ (λ r p. Unit {0}) _ (await (state_change_within ms)) (λ r. woken r rest)
        (Ensures-await _ (state_change_within ms) (λ p e. cc)) (λ r. woken-honest r rest k)

  settle_round-honest :
      (d : ℕ) (rest : Task Process State)
      → Ensures Any IsTrue BlamesFatal rest
      → Ensures Any IsTrue BlamesFatal (settle_round look d rest)
  unfolding settle_round
  settle_round-honest d rest k =
      Ensures-bind _ (λ u p. Any p) _ (modify clear_change) (λ u. gets (look d) >>= λ l. act l rest)
        (Ensures-modify _ clear_change)
        (λ u.
          Ensures-bind _ (λ l p. Any p × (look d p ≡ l)) _ (gets (look d)) (λ l. act l rest)
            (Ensures-gets _ (look d)) (λ l. act-honest d l rest k))

  settle-honest : (d n : ℕ) → Ensures Any IsTrue BlamesFatal (settle look d n)
  unfolding settle no_rounds
  settle-honest d zero = record { at = λ p u. tt }
  settle-honest d (suc n) = settle_round-honest d (settle look d n) (settle-honest d n)

start_unless-honest :
    (n : ℕ) (already : Bool)
    → Ensures
        (λ p. Any p × (is_running p.state ≡ already))
        IsTrue
        BlamesFatal
        (start_unless n already)
unfolding start_unless pure is_running
start_unless-honest n true = record { at = λ p h. ground arith }
start_unless-honest n false =
    Ensures-bind _ (λ u p. Any p) _ (modify request_start)
      (λ u. gets start_deadline >>= λ d. settle look_started d n) (Ensures-modify _ request_start)
      (λ u.
        Ensures-bind _ (λ d p. Any p × (start_deadline p ≡ d)) _ (gets start_deadline)
          (λ d. settle look_started d n) (Ensures-gets _ start_deadline)
          (λ d.
            Ensures-weaken _ Any _ (settle look_started d n) (λ p h. tt)
              (settle-honest look_started look_started-IsHonest d n)))

-- Whatever the other tasks do while a start request waits: the state that it returns is the state of
-- the process when it returns, and if it raises ProcessStartError the process is FATAL then.
pub start_process-honest : (n : ℕ) → Ensures Any IsTrue BlamesFatal (start_process n)
unfolding start_process
start_process-honest n =
    Ensures-bind _ (λ b p. Any p × (is_running p.state ≡ b)) _ (gets (λ p. is_running p.state))
      (start_unless n) (Ensures-gets _ (λ p. is_running p.state)) (start_unless-honest n)

-- Whatever a stop request raises.
abbrev pub MayRaise : Exn → Process → Type 0
MayRaise e p = Unit {0}

Ends-MayRaise : (r : Run Process State) → Ends IsTrue BlamesFatal r → Ends IsTrue MayRaise r
Ends-MayRaise (done s p) h = h
Ends-MayRaise (raised e p) h = tt
Ends-MayRaise (suspended w p k) h = λ r q. Ends-MayRaise (k r q) (h r q)
Ends-MayRaise (out_of_rounds p) h = tt

settle_stop-honest : (d n : ℕ) → Ensures Any IsTrue MayRaise (settle look_stopped d n)
settle_stop-honest d n = record {
  at = λ p u. Ends-MayRaise _ ((settle-honest look_stopped look_stopped-IsHonest d n).at p u);
}

-- Whatever the other tasks do while a stop request waits, the state that it returns is the state of
-- the process when it returns.
pub stop_process-honest :
    (host : Signals) (me : Option ℕ) (n : ℕ) → Ensures Any IsTrue MayRaise (stop_process host me n)
unfolding stop_process
stop_process-honest host me n =
    Ensures-bind _ (λ u p. Any p) _ (modify forbid_run) _ (Ensures-modify _ forbid_run)
      (λ u.
        Ensures-bind _ (λ u p. Any p) _ (kill host me) _ (Ensures-any (kill host me) (λ e p. tt))
          (λ u.
            Ensures-bind _ (λ u p. Any p) _ (modify cancel_retry) _ (Ensures-modify _ cancel_retry)
              (λ u.
                Ensures-bind _ (λ d p. Any p × (stop_deadline p ≡ d)) _ (gets stop_deadline)
                  (λ d. settle look_stopped d n) (Ensures-gets _ stop_deadline)
                  (λ d.
                    Ensures-weaken _ Any _ (settle look_stopped d n) (λ p h. tt)
                      (settle_stop-honest d n)))))
