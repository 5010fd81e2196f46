-- ===== src/Task/Waits.antt =====
-- What the supervisor's coroutines wait for, and what they are told when the wait ends.
use supervice.Prelude.{ℕ, Bool, Option, List, Text}

-- The exceptions that the code tells apart: `os_error` stands for every other Exception.
pub data Exn : Type 0 where
  cancelled value_error permission_error os_error process_start_error : Exn

-- How a child ended: its exit code, or the signal that killed it (a negative returncode).
pub data ReturnCode : Type 0 where
  exit_code : ℕ → ReturnCode
  killed_by : ℕ → ReturnCode

-- What `create_subprocess_exec` is given.
pub record Launch : Type 0 where
  pub executable : Text
  pub args : List Text
  pub user : Option (ℕ × ℕ)
  pub extra_groups : Option (List ℕ)
  pub environment : List (Text × Text)
  pub directory : Option Text
  pub pipe_stdout : Bool
  pub pipe_stderr : Bool
  pub pdeathsig : Bool

-- Times are in milliseconds; a child is named by its pid, a task by a number.
pub data Await : Type 0 where
  child_exit : ℕ → Await
  child_exit_within : ℕ → ℕ → Await
  stop_event_within : ℕ → Await
  state_change_within : ℕ → Await
  spawn_child : Launch → Await
  health_check : Await
  sleep : ℕ → Await
  join_task : ℕ → Await
  join_supervise : Await
  join_supervise_within : ℕ → Await
  drain_logs_within : ℕ → Await

-- The end of an `asyncio.wait_for`.
pub data Timed (A : Type 0) : Type 0 where
  in_time : A → Timed A
  timed_out : Timed A

pub data Forked : Type 0 where
  forked : ℕ → Forked
  fork_failed : Exn → Forked

pub data Checked : Type 0 where
  check_result : Bool → Text → Checked
  check_raised : Exn → Checked

abbrev pub Answer : Await → Type 0
Answer (child_exit pid) = ReturnCode
Answer (child_exit_within pid ms) = Timed ReturnCode
Answer (stop_event_within ms) = Timed (Unit {0})
Answer (state_change_within ms) = Timed (Unit {0})
Answer (spawn_child l) = Forked
Answer health_check = Checked
Answer (sleep ms) = Unit {0}
Answer (join_task id) = Unit {0}
Answer join_supervise = Unit {0}
Answer (join_supervise_within ms) = Timed (Unit {0})
Answer (drain_logs_within ms) = Unit {0}
