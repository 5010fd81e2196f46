-- ===== src/Process/Supervise/GivesUp.antt =====
-- The retry policy of supervision (supervice/process.py), with nothing else acting on the process.
use supervice.Prelude.{ℕ, ◌+◌, ◌≤◌, ◌<◌, ◌≡◌, true, false}
use supervice.Process.State.{fatal, Process}

-- How a process stands after `n` rounds of failing attempts.
pub record Verdict (p : Process) (n : ℕ) (q : Process) : Type 0 where
  pub retrying :
      p.backoff + n ≤ p.config.startretries → (q.should_run ≡ true) × (q.backoff ≡ p.backoff + n)
  pub given_up :
      p.config.startretries < p.backoff + n
      → (q.state ≡ fatal) × (q.should_run ≡ false) × (q.backoff ≡ p.config.startretries + 1)
