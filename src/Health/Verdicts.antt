-- ===== src/Health/Verdicts.antt =====
-- What a check says and what it leaves behind (supervice/health.py).
use supervice.Attempt.{Ended, returned, raised}
use supervice.Health.{
  HealthCheckResult, Raised, timeout, refused, cancelled, os_error, other_error, Probes, Connected,
  no_socket, connects, fails, waits, wait_fails, wait_cancelled, ScriptEnd, spawn_fails,
  spawn_cancelled, exits, breaks, interrupted, times_out, tcp_check, script_check, check,
}
use supervice.Models.{HealthCheckConfig, given}
use supervice.Prelude.Int.{ℤ}
use supervice.Prelude.{
  ℕ, zero, suc, ◌+◌, ◌≡◌, refl, Bool, true, false, Option, none, some, Text, arith,
}
use supervice.Process.State.{HealthChecker, tcp_checker, script_checker}
use supervice.Task.Waits.{exit_code, killed_by}

connected : Connected → Bool
connected (no_socket e) = false
connected connects = true
connected (fails e) = false

exit_zero : ScriptEnd → Bool
exit_zero (exits (exit_code zero) stderr) = true
exit_zero _ = false

there {ℓ} : {A : Type ℓ} → Option A → Bool → Bool
there none b = false
there (some a) b = b

-- Whether the thing that is checked is well.
unfoldable pub is_well : HealthChecker → Connected → ScriptEnd → Bool
unfolding connected exit_zero there
is_well (tcp_checker c user) x y = there c.port (connected x)
is_well (script_checker c user) x y = there (given c.command) (exit_zero y)

-- Whether the script is still there when its check has ended.
left_script : ScriptEnd → ℕ
left_script (breaks e) = 1
left_script interrupted = 1
left_script _ = 0

count : Option Text → ℕ → ℕ
count none n = 0
count (some t) n = n

unfoldable pub left_running : HealthChecker → ScriptEnd → ℕ
unfolding left_script count
left_running (tcp_checker c user) y = 0
left_running (script_checker c user) y = count (given c.command) (left_script y)

-- What a check has come to, from the sockets and scripts before.
abbrev pub Says :
    HealthChecker
    → Connected
    → ScriptEnd
    → Probes
    → Ended Raised HealthCheckResult × Probes
    → Type 0
Says h x y p (returned r, q) =
    (r.healthy ≡ is_well h x y)
    × (q.open_sockets ≡ p.open_sockets)
    × (q.running_scripts ≡ left_running h y + p.running_scripts)
Says h x y p (raised e, q) =
    (e ≡ cancelled)
    × (q.open_sockets ≡ p.open_sockets)
    × (q.running_scripts ≡ left_running h y + p.running_scripts)

tcp-Says :
    (c : HealthCheckConfig) (user : Option Text) (x : Connected) (y : ScriptEnd) (p : Probes)
    (o : Option ℤ)
    → c.port ≡ o
    → Says (tcp_checker c user) x y p (tcp_check c o x p)
unfolding tcp_check is_well left_running
tcp-Says c user x y p none h = (rw h refl, refl, omega arith)
tcp-Says c user connects y p (some n) h = (rw h refl, omega arith, omega arith)
tcp-Says c user (no_socket e) y p (some n) h = (rw h refl, refl, omega arith)
tcp-Says c user (fails timeout) y p (some n) h = (rw h refl, omega arith, omega arith)
tcp-Says c user (fails refused) y p (some n) h = (rw h refl, omega arith, omega arith)
tcp-Says c user (fails (os_error e)) y p (some n) h = (rw h refl, omega arith, omega arith)
tcp-Says c user (fails (other_error e)) y p (some n) h = (rw h refl, omega arith, omega arith)
tcp-Says c user (fails cancelled) y p (some n) h = (refl, omega arith, omega arith)

script-Says :
    (c : HealthCheckConfig) (user : Option Text) (x : Connected) (y : ScriptEnd) (p : Probes)
    (o : Option Text)
    → given c.command ≡ o
    → Says (script_checker c user) x y p (script_check c (given user) o y p)
unfolding script_check is_well left_running
script-Says c user x y p none h = (rw h refl, refl, rw h (omega arith))
script-Says c user x (spawn_fails e) p (some t) h = (rw h refl, refl, rw h (omega arith))
script-Says c user x spawn_cancelled p (some t) h = (refl, refl, rw h (omega arith))
script-Says c user x (exits (exit_code zero) e) p (some t) h = (rw h refl, refl, rw h (omega arith))
script-Says c user x (exits (exit_code (suc n)) e) p (some t) h =
    (rw h refl, refl, rw h (omega arith))
script-Says c user x (exits (killed_by n) e) p (some t) h = (rw h refl, refl, rw h (omega arith))
script-Says c user x (breaks e) p (some t) h = (rw h refl, refl, rw h (omega arith))
script-Says c user x interrupted p (some t) h = (refl, refl, rw h (omega arith))
script-Says c user x (times_out (some e) w) p (some t) h = (rw h refl, refl, rw h (omega arith))
script-Says c user x (times_out none waits) p (some t) h = (rw h refl, refl, rw h (omega arith))
script-Says c user x (times_out none wait_fails) p (some t) h =
    (rw h refl, refl, rw h (omega arith))
script-Says c user x (times_out none wait_cancelled) p (some t) h = (refl, refl, rw h (omega arith))

-- A check raises nothing but CancelledError, whatever the network or the script does, and closes its
-- socket in every case. It says healthy if and only if the port was given and the connection succeeded,
-- or the command was given and exited with 0. Its script is still there only if the check was
-- cancelled or failed while it waited for it.
pub check-Says :
    (h : HealthChecker) (x : Connected) (y : ScriptEnd) (p : Probes) → Says h x y p (check h x y p)
unfolding check
check-Says (tcp_checker c user) x y p = tcp-Says c user x y p c.port refl
check-Says (script_checker c user) x y p = script-Says c user x y p (given c.command) refl
