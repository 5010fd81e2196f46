-- ===== src/Process/Respects.antt =====
-- What a relation between states must respect for each coroutine of a process to guarantee it, in
-- every stretch that it runs. The coroutines are taken apart once, in the modules `Stretches`.
use mathlib.Core.Path.{◌≡◌}
use supervice.Prelude.{true}
use supervice.Process.State.{State, Process, set_state, child_pid}
use supervice.Task.Guarantee.{IsGuarantee}

-- The writes that neither move the state nor tell anyone: the same configuration, state, events and
-- children, and no leave to run that was not there.
pub record Frame (p q : Process) : Type 0 where
  pub config : q.config ≡ p.config
  pub state : q.state ≡ p.state
  pub published : q.published ≡ p.published
  pub children : q.children ≡ p.children
  pub child : child_pid q.child ≡ child_pid p.child
  pub should_run : q.should_run ≡ true → p.should_run ≡ true

-- `G` is a guarantee that such writes keep, and so do transitions into the states of `Into`.
pub record IsRespected (G : Process → Process → Type 0) (Into : State → Type 0) : Type 0 where
  pub guarantee : IsGuarantee G
  pub frame : (p q : Process) → Frame p q → G p q
  pub moves : (s : State) (p : Process) → Into s → G p (set_state s p)
