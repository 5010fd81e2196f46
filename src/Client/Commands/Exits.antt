-- ===== src/Client/Commands/Exits.antt =====
-- When the client exits with success (supervice/client.py, `main`).
use mathlib.Core.Path.{subst}
use supervice.Attempt.{Ended, returned, raised}
use supervice.Client.Commands.{
  Command, status, reload, start_process, stop_process, start_group, stop_group, restart_process,
  request_of, Response, ClientError, no_socket, not_connected, unsendable, timed_out, cut_short,
  bad_reply, reply_too_large, Connection, Json, send_command, says_ok, show_message, show_status,
  show_reload, show, exit_of, main,
}
use supervice.Prelude.{◌≡◌, refl, Bool, true, false, if◌then◌else◌, some, Bool-cases, inl, inr}

-- Whether a reply came that says ok.
unfoldable pub succeeded : Ended ClientError Response → Bool
unfolding says_ok
succeeded (returned r) = says_ok r.status
succeeded (raised e) = false

message-succeeded : (r : Ended ClientError Response) → (show_message r).success ≡ succeeded r
unfolding show_message succeeded
message-succeeded (returned r) = refl
message-succeeded (raised e) = refl

status-succeeded : (r : Ended ClientError Response) → (show_status r).success ≡ succeeded r
unfolding show_status succeeded
status-succeeded (returned r) = elim (Bool-cases (says_ok r.status)) [
  | inl e ↦ rw e refl
  | inr e ↦ rw e refl
]
status-succeeded (raised no_socket) = refl
status-succeeded (raised not_connected) = refl
status-succeeded (raised unsendable) = refl
status-succeeded (raised timed_out) = refl
status-succeeded (raised cut_short) = refl
status-succeeded (raised bad_reply) = refl
status-succeeded (raised (reply_too_large n)) = refl

reload-succeeded : (r : Ended ClientError Response) → (show_reload r).success ≡ succeeded r
unfolding show_reload succeeded
reload-succeeded (returned r) = elim (Bool-cases (says_ok r.status)) [
  | inl e ↦ rw e refl
  | inr e ↦ rw e refl
]
reload-succeeded (raised no_socket) = refl
reload-succeeded (raised not_connected) = refl
reload-succeeded (raised unsendable) = refl
reload-succeeded (raised timed_out) = refl
reload-succeeded (raised cut_short) = refl
reload-succeeded (raised bad_reply) = refl
reload-succeeded (raised (reply_too_large n)) = refl

show-succeeded : (c : Command) (r : Ended ClientError Response) → (show c r).success ≡ succeeded r
unfolding show
show-succeeded status r = status-succeeded r
show-succeeded reload r = reload-succeeded r
show-succeeded (start_process n) r = message-succeeded r
show-succeeded (stop_process n) r = message-succeeded r
show-succeeded (start_group n) r = message-succeeded r
show-succeeded (stop_group n) r = message-succeeded r
show-succeeded (restart_process n force) r = message-succeeded r

exits : (b c : Bool) → b ≡ c → exit_of b ≡ (if c then 0 else 1)
unfolding exit_of
exits true c h = subst (λ c. exit_of true ≡ (if c then 0 else 1)) h refl
exits false c h = subst (λ c. exit_of false ≡ (if c then 0 else 1)) h refl

-- The client exits with status 0 if its command was sent and a reply came that says ok, whichever
-- command it is, and with status 1 in every other case, a reply that is cut short or too large
-- included.
pub main-succeeded :
    (json : Json) (connection : Connection) (c : Command)
    → main json connection (some c)
      ≡ (if succeeded (send_command json connection (request_of c)) then 0 else 1)
unfolding main
main-succeeded json connection c =
    let r = send_command json connection (request_of c) in
    exits (show c r).success (succeeded r) (show-succeeded c r)
