-- ===== src/Rpc/Replies/Truth.antt =====
-- The RPC server's replies are true when they are made (supervice/rpc.py).
use supervice.Prelude.{ℕ, ◌≡◌, refl, sym, ap, ◌∙◌, Bool, true, false, Text, if◌then◌else◌}
use supervice.Process.Health.{is_running}
use supervice.Process.Requests.Outcomes.{Any, IsTrue, BlamesFatal, MayRaise, start_process-honest}
use supervice.Process.Requests.{start_process, is_down, is_fatal}
use supervice.Process.State.{State, Process}
use supervice.Rpc.Replies.{
  Reply, already_running, started, stopped, restarted, start_failed, not_running, not_stopped,
  start_reply, start_refused, request_start, start_one_unless, start_one,
}
use supervice.Task.Ensures.{
  Ensures, Ensures-bind, Ensures-gets, Ensures-catch, Ensures-pure, Ensures-weaken,
}
use supervice.Task.Waits.{
  Exn, cancelled, value_error, permission_error, os_error, process_start_error,
}
use supervice.Task.{raise, gets}

-- What a reply to a stop says of the process; no other replies are given to one.
abbrev pub SaysOfStop : Reply → Process → Type 0
SaysOfStop (stopped name) p = is_down p.state ≡ true
SaysOfStop (not_stopped name s) p = (s ≡ p.state) × (is_down p.state ≡ false)
SaysOfStop _ p = ⊥

-- What a reply to a restart of `name` says; no other replies are given to one.
abbrev pub SaysOfRestart : Text → Reply → Process → Type 0
SaysOfRestart name (restarted n) p = (n ≡ name) × (is_running p.state ≡ true)
SaysOfRestart name (start_failed n) p = is_fatal p.state ≡ true
SaysOfRestart name (not_running n s) p = (s ≡ p.state) × (is_running p.state ≡ false)
SaysOfRestart name (not_stopped n s) p = (s ≡ p.state) × (is_down p.state ≡ false)
SaysOfRestart name _ p = ⊥

-- What a reply to a start says; no other replies are given to one.
abbrev pub SaysOfStart : Reply → Process → Type 0
SaysOfStart (already_running name) p = is_running p.state ≡ true
SaysOfStart (started name) p = is_running p.state ≡ true
SaysOfStart (start_failed name) p = is_fatal p.state ≡ true
SaysOfStart (not_running name s) p = (s ≡ p.state) × (is_running p.state ≡ false)
SaysOfStart _ p = ⊥

started-Says :
    (b : Bool) (name : Text) (s : State) (p : Process)
    → s ≡ p.state
    → is_running s ≡ b
    → SaysOfStart (if b then started name else not_running name s) p
started-Says true name s p h e = sym (ap is_running h) ∙ e
started-Says false name s p h e = (h, sym (ap is_running h) ∙ e)

start_refused-Says : (e : Exn) → Ensures (BlamesFatal e) SaysOfStart MayRaise (start_refused e)
unfolding start_refused raise gets
start_refused-Says cancelled = record { at = λ p h. tt }
start_refused-Says value_error = record { at = λ p h. tt }
start_refused-Says permission_error = record { at = λ p h. tt }
start_refused-Says os_error = record { at = λ p h. tt }
start_refused-Says process_start_error = record { at = λ p h. h refl }

start_one_unless-Says :
    (name : Text) (n : ℕ) (b : Bool)
    → Ensures
        (λ p. Any p × (is_running p.state ≡ b))
        SaysOfStart
        MayRaise
        (start_one_unless name n b)
unfolding start_one_unless request_start start_reply
start_one_unless-Says name n true = Ensures-pure _ SaysOfStart (already_running name) (λ p h. h.1)
start_one_unless-Says name n false =
    Ensures-catch _ SaysOfStart _ start_refused
      (Ensures-bind _ IsTrue SaysOfStart (start_process n) _
        (Ensures-weaken _ Any IsTrue (start_process n) (λ p h. tt) (start_process-honest n))
        (λ s.
          Ensures-pure (IsTrue s) SaysOfStart _
            (λ p h. started-Says (is_running s) name s p h refl)))
      start_refused-Says

-- Whatever other tasks do while a start request waits, its reply is true when it is made: it says ok
-- only if the process is RUNNING, blames the start only if the process is FATAL, and otherwise names
-- the state that the process is in, which is not RUNNING.
pub start_one-Says : (name : Text) (n : ℕ) → Ensures Any SaysOfStart MayRaise (start_one name n)
unfolding start_one
start_one-Says name n =
    Ensures-bind _ (λ b p. Any p × (is_running p.state ≡ b)) SaysOfStart
      (gets (λ p. is_running p.state)) _ (Ensures-gets _ (λ p. is_running p.state))
      (start_one_unless-Says name n)
