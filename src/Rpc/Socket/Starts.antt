-- ===== src/Rpc/Socket/Starts.antt =====
-- What the start and the stop of the server do to the socket's path (supervice/rpc.py).
use mathlib.Core.Path.{subst}
use supervice.Attempt.{Ended, returned, raised, follow}
use supervice.Prelude.{
  ℕ, ◌≡◌, refl, sym, ap, ◌∙◌, ◌⊎◌, inl, inr, Bool, true, false, some, Bool-cases,
}
use supervice.Rpc.Socket.{
  Os, Probe, alive, stale, unknown, SocketError, already_listening, not_verified, cannot_remove,
  cannot_listen, unlink_failed, message_too_large, Socket, private_umask, probe_socket,
  start_server, stop_server, clear_if, clear_path, clear_probed, bind, close_if, unlink_if,
  unlink_path, probed, passed_on,
}

-- Whether the start may take the path: nothing is there, or only a socket that nobody serves.
abbrev pub IsFree : Os → Socket → Type 0
IsFree os s = (s.at_path ≡ false) ⊎ (probe_socket os.connection ≡ returned stale)

-- What a start has made of the socket `s`, by how it ended.
abbrev pub IsStarted : Os → Socket → Ended SocketError (Unit {0}) × Socket → Type 0
IsStarted os s (returned u, t) =
    IsFree os s
    × (t ≡ record s {
      at_path = true;
      server = true;
      listening = true;
      made_under = some private_umask;
    })
IsStarted os s (raised cannot_listen, t) = IsFree os s × (t ≡ record s { at_path = false })
IsStarted os s (raised already_listening, t) =
    (t ≡ s) × (probe_socket os.connection ≡ returned alive)
IsStarted os s (raised not_verified, t) = (t ≡ s) × (probe_socket os.connection ≡ returned unknown)
IsStarted os s (raised cannot_remove, t) = (t ≡ s) × (probe_socket os.connection ≡ returned stale)
IsStarted os s (raised unlink_failed, t) = ⊥
IsStarted os s (raised (message_too_large n), t) = (t ≡ s) × (probe_socket os.connection ≡ raised n)

bind-IsStarted :
    (os : Os) (s : Socket) → IsFree os s → IsStarted os s (bind os (record s { at_path = false }))
unfolding bind
bind-IsStarted os s free = elim (Bool-cases os.listens) [
  | inl e ↦ rw e (free, refl)
  | inr e ↦ rw e (free, refl)
]

cleared :
    Os → Socket → Ended SocketError (Unit {0}) × Socket → Ended SocketError (Unit {0}) × Socket
unfolding bind
cleared os s (r, t) = follow r t (λ u. bind os)

clear_probed-IsStarted :
    (os : Os) (s : Socket) (r : Ended ℕ Probe)
    → probe_socket os.connection ≡ r
    → IsStarted os s (cleared os s (follow (passed_on r) s (clear_probed os)))
unfolding clear_probed cleared passed_on
clear_probed-IsStarted os s (returned alive) h = (refl, h)
clear_probed-IsStarted os s (returned unknown) h = (refl, h)
clear_probed-IsStarted os s (returned stale) h = elim (Bool-cases os.unlinks) [
  | inl e ↦ rw e (bind-IsStarted os s (inr h))
  | inr e ↦ rw e (refl, h)
]
clear_probed-IsStarted os s (raised n) h = (refl, h)

clear_if-IsStarted :
    (b : Bool) (os : Os) (s : Socket)
    → s.at_path ≡ b
    → IsStarted os s (cleared os s (clear_if b os s))
unfolding clear_if cleared probed
clear_if-IsStarted false os s h =
    subst (λ (b : Bool). IsStarted os s (bind os (record s { at_path = b }))) (sym h)
      (bind-IsStarted os s (inl h))
clear_if-IsStarted true os s h = clear_probed-IsStarted os s (probe_socket os.connection) refl

-- A start takes the path only if nothing is there or its socket is stale; if it succeeds, the server
-- listens on a socket that was made under umask 0o177. If it raises, the server does not listen, and
-- only a stale socket may have been removed; which error tells what the probe found. Either way the
-- umask is as before.
pub start_server-IsStarted : (os : Os) (s : Socket) → IsStarted os s (start_server os s)
unfolding start_server clear_path cleared
start_server-IsStarted os s = clear_if-IsStarted s.at_path os s refl

-- What a stop has made of the socket `s`: it closes what the server has opened and nothing else.
abbrev pub IsStopped : Os → Socket → Bool → Ended SocketError (Unit {0}) × Socket → Type 0
IsStopped os s false (r, t) = (r ≡ returned tt) × (t ≡ s)
IsStopped os s true (returned u, t) = t ≡ record s { at_path = false; listening = false }
IsStopped os s true (raised e, t) =
    (e ≡ unlink_failed) × (os.unlinks ≡ false) × (t ≡ record s { listening = false })

unlink_if-IsStopped :
    (b : Bool) (os : Os) (s : Socket)
    → s.at_path ≡ b
    → IsStopped os s true (unlink_if b os (record s { listening = false }))
unfolding unlink_if
unlink_if-IsStopped false os s h = ap (λ (b : Bool). record s { at_path = b; listening = false }) h
unlink_if-IsStopped true os s h = elim (Bool-cases os.unlinks) [
  | inl e ↦ rw e refl
  | inr e ↦ rw e (refl, refl, refl)
]

close_if-IsStopped : (b : Bool) (os : Os) (s : Socket) → IsStopped os s b (close_if b os s)
unfolding close_if unlink_path
close_if-IsStopped false os s = (refl, refl)
close_if-IsStopped true os s = unlink_if-IsStopped s.at_path os s refl

-- A stop of a server that was not started leaves the path alone; a stop of one that was ends its
-- listening in any case, and its path is gone or os.unlink has failed.
pub stop_server-IsStopped : (os : Os) (s : Socket) → IsStopped os s s.server (stop_server os s)
unfolding stop_server
stop_server-IsStopped os s = close_if-IsStopped s.server os s

unfoldable pub is_returned : Ended SocketError (Unit {0}) → Bool
is_returned (returned u) = true
is_returned (raised e) = false

pub server-IsStarted :
    (os : Os) (s : Socket) (r : Ended SocketError (Unit {0})) (t : Socket)
    → IsStarted os s (r, t)
    → s.server ≡ false
    → t.server ≡ is_returned r
unfolding is_returned
server-IsStarted os s (returned u) t (free, e) h = ap (λ (x : Socket). x.server) e
server-IsStarted os s (raised cannot_listen) t (free, e) h = ap (λ (x : Socket). x.server) e ∙ h
server-IsStarted os s (raised already_listening) t (e, p) h = ap (λ (x : Socket). x.server) e ∙ h
server-IsStarted os s (raised not_verified) t (e, p) h = ap (λ (x : Socket). x.server) e ∙ h
server-IsStarted os s (raised cannot_remove) t (e, p) h = ap (λ (x : Socket). x.server) e ∙ h
server-IsStarted os s (raised unlink_failed) t u h = absurd u
server-IsStarted os s (raised (message_too_large n)) t (e, p) h =
    ap (λ (x : Socket). x.server) e ∙ h
