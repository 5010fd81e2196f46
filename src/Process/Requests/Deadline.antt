-- ===== src/Process/Requests/Deadline.antt =====
-- A start request ends by its deadline (supervice/process.py, `start_process`).
use supervice.Prelude.{
  ℕ, zero, suc, ◌+◌, ◌-◌, ◌*◌, ◌<◌, ◌≡◌, ◌≢◌, refl, ap, max, Bool, true, false, arith,
}
use supervice.Process.Health.{is_running}
use supervice.Process.Requests.{
  Look, settled, failed, keep_waiting, look_started, wait_or_settle, act, woken, settle_round,
  settle, clear_change, start_unless, start_process, request_start, start_deadline, clear_counts,
  clear_left_over,
}
use supervice.Models.{ProgramConfig}
use supervice.Process.State.{State, Process, set_state}
use supervice.Task.Waits.{Await, Answer, Timed, in_time, timed_out, state_change_within}
use supervice.Task.{
  Run, done, raised, suspended, out_of_rounds, Reply, got, cancel, Task, pure, raise, gets, await,
  answered, continue, ◌>>=◌,
}

-- What a run comes to, if the clock goes on by a millisecond at least while it is suspended, with
-- any answer and any other change to the process.
pub data Later {A : Type 0} (first : Run Process A) : Run Process A → Type 0 where
  at_once : Later first first
  resumed :
      {w : Await} {p : Process} {k : Reply (Answer w) → Process → Run Process A}
      → Later first (suspended w p k)
      → (r : Reply (Answer w)) (q : Process) → p.clock < q.clock
      → Later first (k r q)

-- No run that comes of it uses up its rounds.
abbrev Ends : {A : Type 0} → Run Process A → Type 0
Ends (done a p) = Unit
Ends (raised e p) = Unit
Ends (out_of_rounds p) = ⊥
Ends (suspended w p k) = (r : Reply (Answer w)) (q : Process) → p.clock < q.clock → Ends (k r q)

Ends-Later : {A : Type 0} {first r : Run Process A} → Ends first → Later first r → Ends r
Ends-Later h at_once = h
Ends-Later h (resumed l r q c) = Ends-Later h l r q c

look_started-keep_waiting :
    (d : ℕ) (p : Process) (ms : ℕ) → look_started d p ≡ keep_waiting ms → p.clock < d
unfolding look_started wait_or_settle
look_started-keep_waiting d p ms h = ground arith

Ends-woken :
    (r : Reply (Timed (Unit {0}))) (rest : Task Process State) (q : Process)
    → Ends (rest q)
    → Ends ((continue (answered (state_change_within 0) r q)) (λ t. woken t rest))
unfolding woken gets answered continue
Ends-woken (got (in_time u)) rest q h = h
Ends-woken (got timed_out) rest q h = tt
Ends-woken cancel rest q h = tt

Ends-act :
    (l : Look) (rest : Task Process State) (p : Process)
    → ((ms : ℕ) → l ≡ keep_waiting ms → (q : Process) → p.clock < q.clock → Ends (rest q))
    → Ends (act l rest p)
unfolding act woken gets pure raise await ◌>>=◌
Ends-act (settled s) rest p h = tt
Ends-act failed rest p h = tt
Ends-act (keep_waiting ms) rest p h = λ r q c. Ends-woken r rest q (h ms refl q c)

Ends-out_of_rounds : {A : Type 0} (r : Run Process A) (q : Process) → Ends r → r ≢ out_of_rounds q
Ends-out_of_rounds (done a p) q h e = cc
Ends-out_of_rounds (raised x p) q h e = cc
Ends-out_of_rounds (suspended w p k) q h e = cc
Ends-out_of_rounds (out_of_rounds p) q h e = absurd h

-- A round for each millisecond to the deadline, and one more, are enough.
Ends-settle : (d n : ℕ) (p : Process) → d - p.clock < n → Ends (settle look_started d n p)
unfolding settle settle_round clear_change ◌>>=◌
Ends-settle d zero p h = absurd (omega arith)
Ends-settle d (suc n) p h =
    Ends-act (look_started d (clear_change p)) (settle look_started d n) (clear_change p)
      (λ ms e q c.
        let k = look_started-keep_waiting d (clear_change p) ms e in
        Ends-settle d n q (omega arith))

clock-request_start : (p : Process) → (request_start p).clock ≡ p.clock
unfolding request_start clear_counts clear_left_over set_state
clock-request_start p = ground arith

config-request_start : (p : Process) → (request_start p).config ≡ p.config
unfolding request_start clear_counts clear_left_over set_state
config-request_start p = ground arith

Ends-start_unless :
    (n : ℕ) (b : Bool) (p : Process)
    → max 5000 (p.config.startsecs * 1000 + 5000) < n
    → Ends (start_unless n b p)
unfolding start_unless start_deadline pure ◌>>=◌
Ends-start_unless n true p h = tt
Ends-start_unless n false p h =
    let q = request_start p in
    let c = clock-request_start p in
    let s = ap (λ (k : ProgramConfig). k.startsecs) (config-request_start p) in
    Ends-settle (start_deadline q) n q (omega (arith, s))

-- A start request returns or raises, whatever happens to the process meanwhile: if the clock goes on
-- by a millisecond at least in each of its waits, then as many rounds as its time-out has
-- milliseconds, and one more, are never used up.
pub start_process-ends :
    (n : ℕ) (p : Process) {r : Run Process State}
    → max 5000 (p.config.startsecs * 1000 + 5000) < n
    → Later (start_process n p) r
    → (q : Process) → r ≢ out_of_rounds q
unfolding start_process gets ◌>>=◌
start_process-ends n p h l q =
    Ends-out_of_rounds _ q (Ends-Later (Ends-start_unless n (is_running p.state) p h) l)
