-- ===== src/Health.antt =====
-- The health checkers (supervice/health.py, `check` of TCPHealthChecker and ScriptHealthChecker). What
-- the network and the script do is a parameter; the sockets that are open and the scripts that run
-- are the state.
pub mod Verdicts
use supervice.Attempt.{Ended, returned, raised, Attempt, ◌>>=◌, ◌>>◌, pure, raise, ensure, modify}
use supervice.Client.Uptime.{decimal}
use supervice.Config.Environment.{strip}
use supervice.Models.{HealthCheckConfig, given}
use supervice.Prelude.Int.{ℤ, pos, negsuc}
use supervice.Prelude.{
  ℕ, zero, suc, ◌+◌, ◌-◌, Bool, true, false, Option, none, some, List, [], ◌∷◌, ◌++◌, Text, codes,
}
use supervice.Process.State.{HealthChecker, tcp_checker, script_checker}
use supervice.Task.Waits.{ReturnCode, exit_code, killed_by}

pub record HealthCheckResult : Type 0 where
  pub healthy : Bool
  pub message : Text

-- What is raised inside a check: asyncio.TimeoutError, ConnectionRefusedError, another OSError or
-- Exception with its text, or CancelledError.
pub data Raised : Type 0 where
  timeout refused cancelled : Raised
  os_error other_error : Text → Raised

-- The command and the user of each script that was run are kept as well.
pub record Probes : Type 0 where
  pub open_sockets : ℕ
  pub running_scripts : ℕ
  pub scripts : List (Text × Option Text)

-- How `asyncio.wait_for` of the connection ends, or socket.socket before it.
pub data Connected : Type 0 where
  no_socket : Text → Connected
  connects : Connected
  fails : Raised → Connected

-- How the wait for a script that was killed ends.
pub data Waited : Type 0 where
  waits wait_fails wait_cancelled : Waited

-- How the script ends: it is not started, it exits and has written something, `communicate` raises an
-- Exception or CancelledError, or the time is over; then proc.kill raises an error or not, and the
-- script is waited for.
pub data ScriptEnd : Type 0 where
  spawn_fails : Text → ScriptEnd
  spawn_cancelled : ScriptEnd
  exits : ReturnCode → Text → ScriptEnd
  breaks : Text → ScriptEnd
  interrupted : ScriptEnd
  times_out : Option Text → Waited → ScriptEnd

unhealthy : Text → Attempt Probes Raised HealthCheckResult
unhealthy message = pure (record { healthy = false; message = message })

-- "%d"
int_text : ℤ → Text
unfolding decimal
int_text (pos n) = decimal n
int_text (negsuc n) = 45 ∷ decimal (suc n)

-- "%s:%d" % (host, port)
target : HealthCheckConfig → ℤ → Text
unfolding int_text
target c port = c.host ++ (58 ∷ int_text port)

-- The handlers of `check`: CancelledError is no Exception.
tcp_error : HealthCheckConfig → ℤ → Raised → Attempt Probes Raised HealthCheckResult
unfolding unhealthy target int_text
tcp_error c port timeout = unhealthy (
    codes "TCP connection to "
    ++ target c port
    ++ codes " timed out after "
    ++ int_text c.timeout
    ++ codes "s")
tcp_error c port refused =
    unhealthy (codes "TCP connection to " ++ target c port ++ codes " refused")
tcp_error c port (os_error e) =
    unhealthy (codes "TCP connection to " ++ target c port ++ codes " failed: " ++ e)
tcp_error c port (other_error e) = unhealthy (codes "TCP health check error: " ++ e)
tcp_error c port cancelled = raise cancelled

open_socket : Attempt Probes Raised (Unit {0})
open_socket = modify (λ (p : Probes). record p { open_sockets = suc p.open_sockets })

close_socket : Attempt Probes Raised (Unit {0})
close_socket = modify (λ (p : Probes). record p { open_sockets = p.open_sockets - 1 })

end_connecting : Connected → Attempt Probes Raised (Unit {0})
end_connecting (no_socket e) = pure tt
end_connecting connects = pure tt
end_connecting (fails e) = raise e

-- The `with` statement
connect : Connected → Attempt Probes Raised (Unit {0})
unfolding open_socket close_socket end_connecting
connect (no_socket e) = raise (os_error e)
connect x = do open_socket; ensure (end_connecting x) close_socket

tcp_ended :
    HealthCheckConfig → ℤ → Ended Raised (Unit {0}) → Attempt Probes Raised HealthCheckResult
unfolding tcp_error target
tcp_ended c port (returned u) = pure (record {
  healthy = true;
  message = codes "TCP connection to " ++ target c port ++ codes " succeeded";
})
tcp_ended c port (raised e) = tcp_error c port e

-- TCPHealthChecker.check
tcp_check : HealthCheckConfig → Option ℤ → Connected → Attempt Probes Raised HealthCheckResult
unfolding unhealthy connect tcp_ended
tcp_check c none x = unhealthy (codes "No port configured for TCP health check")
tcp_check c (some port) x = λ p. let (r, q) = connect x p in tcp_ended c port r q

script_error : Text → Attempt Probes Raised HealthCheckResult
unfolding unhealthy
script_error e = unhealthy (codes "Health check script error: " ++ e)

spawn_script : Text → Option Text → Attempt Probes Raised (Unit {0})
spawn_script command user = modify (λ (p : Probes). record p {
  running_scripts = suc p.running_scripts;
  scripts = p.scripts ++ (command, user) ∷ [];
})

script_gone : Attempt Probes Raised (Unit {0})
script_gone = modify (λ (p : Probes). record p { running_scripts = p.running_scripts - 1 })

code_text : ReturnCode → Text
unfolding decimal
code_text (exit_code n) = decimal n
code_text (killed_by n) = 45 ∷ decimal n

with_stderr : Text → Text
with_stderr [] = []
with_stderr (c ∷ cs) = codes ": " ++ (c ∷ cs)

judge_code : ReturnCode → Text → Attempt Probes Raised HealthCheckResult
unfolding unhealthy code_text with_stderr strip
judge_code (exit_code zero) stderr =
    pure (record { healthy = true; message = codes "Health check script exited with code 0" })
judge_code code stderr =
    unhealthy (
      codes "Health check script exited with code " ++ code_text code ++ with_stderr (strip stderr))

-- `try: await proc.wait() except Exception: pass`
wait_killed : HealthCheckConfig → Waited → Attempt Probes Raised HealthCheckResult
unfolding unhealthy int_text
wait_killed c wait_cancelled = raise cancelled
wait_killed c w =
    unhealthy (codes "Health check script timed out after " ++ int_text c.timeout ++ codes "s")

-- A kill that fails finds no process any more.
kill_script : HealthCheckConfig → Option Text → Waited → Attempt Probes Raised HealthCheckResult
unfolding script_gone script_error wait_killed
kill_script c (some e) w = do script_gone; script_error e
kill_script c none w = do script_gone; wait_killed c w

run_script :
    HealthCheckConfig → Option Text → Text → ScriptEnd → Attempt Probes Raised HealthCheckResult
unfolding script_error spawn_script script_gone judge_code kill_script
run_script c user command (spawn_fails e) = script_error e
run_script c user command spawn_cancelled = raise cancelled
run_script c user command (exits code stderr) = do
  spawn_script command user
  script_gone
  judge_code code stderr
run_script c user command (breaks e) = do spawn_script command user; script_error e
run_script c user command interrupted = do spawn_script command user; raise cancelled
run_script c user command (times_out killed waited) = do
  spawn_script command user
  kill_script c killed waited

-- ScriptHealthChecker.check
script_check :
    HealthCheckConfig
    → Option Text
    → Option Text
    → ScriptEnd
    → Attempt Probes Raised HealthCheckResult
unfolding unhealthy run_script
script_check c user none x = unhealthy (codes "No command configured for script health check")
script_check c user (some command) x = run_script c user command x

-- `check` of a checker, with what the network or the script does
unfoldable pub check :
    HealthChecker → Connected → ScriptEnd → Attempt Probes Raised HealthCheckResult
unfolding tcp_check script_check given
check (tcp_checker c user) x y = tcp_check c c.port x
check (script_checker c user) x y = script_check c (given user) (given c.command) y
