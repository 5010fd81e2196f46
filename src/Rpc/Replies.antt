-- ===== src/Rpc/Replies.antt =====
-- What the RPC server answers to a request for one process (supervice/rpc.py, `_start_one`,
-- `_stop_one` and the restart of `process_request`), as tasks on that process.
pub mod Truth
use supervice.Prelude.{ℕ, Bool, true, false, Option, none, some, List, Text, if◌then◌else◌}
use supervice.Process.Health.{is_running}
use supervice.Process.Kill.{Signals, force_kill}
use supervice.Process.Requests.{start_process, stop_process, is_down}
use supervice.Process.State.{State, Process}
use supervice.Task.Waits.{Exn, cancelled, process_start_error}
use supervice.Task.{Task, pure, raise, gets, ◌>>=◌, ◌>>◌, catch}

pub data Status : Type 0 where
  ok error : Status

-- The replies, by their messages.
pub data Reply : Type 0 where
  already_running started stopped restarted start_failed : Text → Reply
  not_running not_stopped : Text → State → Reply
  process_not_found : Reply

unfoldable pub status : Reply → Status
status (already_running name) = ok
status (started name) = ok
status (stopped name) = ok
status (restarted name) = ok
status (start_failed name) = error
status (not_running name s) = error
status (not_stopped name s) = error
status process_not_found = error

start_reply : Text → State → Reply
start_reply name s = if is_running s then started name else not_running name s

-- `except ProcessStartError`
start_refused : Exn → Task Process Reply
start_refused process_start_error = gets (λ p. start_failed p.config.name)
start_refused e = raise e

request_start : Text → ℕ → Task Process Reply
unfolding start_reply
request_start name rounds = do s ← start_process rounds; pure (start_reply name s)

start_one_unless : Text → ℕ → Bool → Task Process Reply
unfolding request_start start_refused
start_one_unless name rounds true = pure (already_running name)
start_one_unless name rounds false = catch (request_start name rounds) start_refused

-- `_start_one`
unfoldable pub start_one : Text → ℕ → Task Process Reply
unfolding start_one_unless
start_one name rounds = do
  already ← gets (λ p. is_running p.state)
  start_one_unless name rounds already

stop_reply : Text → State → Reply
stop_reply name s = if is_down s then stopped name else not_stopped name s

-- `_stop_one`
unfoldable pub stop_one : Signals → Option ℕ → Text → ℕ → Task Process Reply
unfolding stop_reply
stop_one host me name rounds = do s ← stop_process host me rounds; pure (stop_reply name s)

restart_reply : Text → Reply → Reply
unfolding status
restart_reply name r = elim (status r) [ ok ↦ restarted name | error ↦ r ]

start_again : Text → ℕ → Task Process Reply
unfolding restart_reply
start_again name rounds = do r ← start_one name rounds; pure (restart_reply name r)

start_if_stopped : Text → ℕ → Reply → Status → Task Process Reply
unfolding start_again
start_if_stopped name rounds r ok = start_again name rounds
start_if_stopped name rounds r error = pure r

-- The command `restart`: by force, or through a stop that must succeed.
unfoldable pub restart : Signals → Option ℕ → Text → Bool → ℕ → Task Process Reply
unfolding start_again start_if_stopped status
restart host me name true rounds = do force_kill me; start_again name rounds
restart host me name false rounds = do
  r ← stop_one host me name rounds
  start_if_stopped name rounds r (status r)
