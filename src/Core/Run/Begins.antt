-- ===== src/Core/Run/Begins.antt =====
-- Which processes a run begins (supervice/core.py, `run`).
use supervice.Attempt.{Ended, returned, raised, follow, require, Attempt, ◌>>◌}
use supervice.Prelude.{
  ◌≡◌, refl, sym, ap, ◌∙◌, Bool, true, false, not, List, [], ◌∷◌, ◌++◌, Text, map, append-nil,
  append_assoc, if◌then◌else◌,
}
use supervice.Core.Run.Cycle.{each-map}
use supervice.Core.Run.{
  Effect, took_lock, bus_started, socket_bound, signalled, bus_stopped, all_ended, gave_up,
  dropped_lock, began, asked, Failure, pidfile_error, already_running, cancelled, Host, Daemon, did,
  set_lock, acquire_pidfile_lock, release_if, release_pidfile_lock, bind_server, bound_effect,
  closed_effect, close_server, lifted, each, acquire_if, wait_for_stops, run_body, shutdown, run,
  fresh,
}
use supervice.Rpc.Socket.{Socket, SocketError, start_server}

begins : Effect → List Text
begins (began n) = n ∷ []
begins _ = []

-- The processes that were begun, in order.
unfoldable pub begun : List Effect → List Text
unfolding begins
begun [] = []
begun (e ∷ es) = begins e ++ begun es

begun-append : (js es : List Effect) → begun (js ++ es) ≡ begun js ++ begun es
unfolding begun
begun-append [] es = refl
begun-append (e ∷ js) es =
    ap (λ (ns : List Text). begins e ++ ns) (begun-append js es)
    ∙ sym (append_assoc (begins e) (begun js) (begun es))

begun-append_quiet : (js es : List Effect) → begun es ≡ [] → begun (js ++ es) ≡ begun js
begun-append_quiet js es h = begun-append js es ∙ rw h (append-nil (begun js))

begun-map_began : (ns : List Text) → begun (map began ns) ≡ ns
unfolding begun
begun-map_began [] = refl
begun-map_began (n ∷ ns) = ap (λ (ms : List Text). n ∷ ms) (begun-map_began ns)

-- An attempt that begins no process.
abbrev Quiet : Attempt Daemon Failure (Unit {0}) → Type 0
Quiet m = (d : Daemon) → begun (m d).1.journal ≡ begun d.journal

follow-Quiet :
    (r : Ended Failure (Unit {0})) (d : Daemon) (k : Attempt Daemon Failure (Unit {0}))
    → Quiet k
    → begun (follow r d (λ u. k)).1.journal ≡ begun d.journal
follow-Quiet (returned u) d k h = h d
follow-Quiet (raised e) d k h = refl

then-Quiet : (m k : Attempt Daemon Failure (Unit {0})) → Quiet m → Quiet k → Quiet (m >> k)
then-Quiet m k h g d = follow-Quiet (m d).0 (m d).1 k g ∙ h d

did-Quiet : (e : Effect) → begun (e ∷ []) ≡ [] → Quiet (did e)
unfolding did
did-Quiet e h d = begun-append_quiet d.journal (e ∷ []) h

asked-Quiet : (ns : List Text) → Quiet (each asked ns)
unfolding each begun
asked-Quiet [] d = refl
asked-Quiet (n ∷ ns) d =
    then-Quiet (did (asked n)) (each asked ns) (did-Quiet (asked n) refl) (asked-Quiet ns) d

closed_quiet : (b : Bool) → begun (closed_effect b) ≡ []
unfolding closed_effect begun
closed_quiet false = refl
closed_quiet true = refl

close_server-Quiet : (b : Bool) (host : Host) → Quiet (close_server b host)
unfolding close_server
close_server-Quiet false host d = refl
close_server-Quiet true host d =
    begun-append_quiet d.journal (closed_effect d.socket.server) (closed_quiet d.socket.server)

waited-Quiet : (b : Bool) → Quiet (did (if b then all_ended else gave_up))
unfolding begun
waited-Quiet true = did-Quiet all_ended refl
waited-Quiet false = did-Quiet gave_up refl

wait_for_stops-Quiet : (host : Host) (ns : List Text) → Quiet (wait_for_stops host ns)
unfolding wait_for_stops
wait_for_stops-Quiet host [] d = refl
wait_for_stops-Quiet host (n ∷ ns) d = waited-Quiet host.stops_in_time d

release_if-Quiet : (b : Bool) → Quiet (release_if b)
unfolding release_if set_lock begun
release_if-Quiet false d = refl
release_if-Quiet true d = did-Quiet dropped_lock refl d

shutdown-Quiet : (host : Host) (server : Bool) (ns : List Text) → Quiet (shutdown host server ns)
unfolding shutdown release_pidfile_lock begun
shutdown-Quiet host server ns =
    let waiting : Attempt Daemon Failure (Unit {0}) = (do
      wait_for_stops host ns
      release_pidfile_lock) in
    let asking : Attempt Daemon Failure (Unit {0}) = (do each asked ns; waiting) in
    then-Quiet (close_server server host) (do did bus_stopped; asking)
      (close_server-Quiet server host)
      (then-Quiet (did bus_stopped) asking (did-Quiet bus_stopped refl) (
        then-Quiet (each asked ns) waiting (asked-Quiet ns) (
          then-Quiet (wait_for_stops host ns) release_pidfile_lock (wait_for_stops-Quiet host ns)
            (λ d. release_if-Quiet d.holds_lock d))))

require-Quiet : (b : Bool) (e : Failure) → Quiet (require b e)
require-Quiet true e d = refl
require-Quiet false e d = refl

-- `run` once the server is bound
launch : Host → List Text → Attempt Daemon Failure (Unit {0})
unfolding each did
launch host ns = do each began ns; require (not host.is_cancelled) cancelled; did signalled

launch-begun :
    (host : Host) (ns : List Text) (d : Daemon)
    → begun d.journal ≡ []
    → begun (launch host ns d).1.journal ≡ ns
unfolding launch begun
launch-begun host ns d h =
    follow-Quiet (each began ns d).0 (each began ns d).1 _ (
      then-Quiet (require (not host.is_cancelled) cancelled) (did signalled) (require-Quiet _ _)
        (did-Quiet signalled refl))
    ∙ rw (each-map began ns d)
        (begun-append d.journal (map began ns) ∙ rw (h, begun-map_began ns) refl)

bound-begun :
    (host : Host) (ns : List Text) (d : Daemon) (r : Ended SocketError (Unit {0})) (socket : Socket)
    → begun d.journal ≡ []
    → r ≡ returned tt
    → begun
        (follow
          (lifted r)
          (record d { socket = socket; journal = d.journal ++ bound_effect r })
          (λ u. launch host ns)).1.journal
      ≡ ns
unfolding lifted bound_effect begun
bound-begun host ns d (returned u) socket h e =
    launch-begun host ns (record d { socket = socket; journal = d.journal ++ socket_bound ∷ [] })
      (begun-append_quiet d.journal (socket_bound ∷ []) refl ∙ h)
bound-begun host ns d (raised x) socket h e = cc

-- `run` once the lock is taken, if there is a pid file
ready : Host → List Text → Attempt Daemon Failure (Unit {0})
unfolding launch did bind_server
ready host ns = do did bus_started; bind_server true host; launch host ns

ready-begun :
    (host : Host) (ns : List Text) (d : Daemon)
    → begun d.journal ≡ []
    → (start_server host.at_start d.socket).0 ≡ returned tt
    → begun (ready host ns d).1.journal ≡ ns
unfolding ready did bind_server begun
ready-begun host ns d h up =
    let (r, socket) = start_server host.at_start d.socket in
    bound-begun host ns (record d { journal = d.journal ++ bus_started ∷ [] }) r socket
      (begun-append_quiet d.journal (bus_started ∷ []) refl ∙ h) up

acquiring : Bool → Bool → Bool → Attempt Daemon Failure (Unit {0})
unfolding did set_lock
acquiring opens locks writes = do
  require opens pidfile_error
  require locks already_running
  did took_lock
  require writes pidfile_error
  set_lock true

-- Whether the pid file, if there is one, and the server can be had.
pub record CanStart (host : Host) (socket : Socket) : Type 0 where
  pub opens : host.opens ≡ true
  pub locks : host.locks ≡ true
  pub writes : host.writes ≡ true
  pub serves :
      (start_server host.at_start (record socket { server = false; listening = false })).0
      ≡ returned tt

locked-begun :
    (opens locks writes : Bool) (host : Host) (ns : List Text) (socket : Socket)
    → opens ≡ true
    → locks ≡ true
    → writes ≡ true
    → CanStart host socket
    → begun
        (let (r, d) = acquiring opens locks writes (fresh true true ns socket) in
          follow r d (λ u. ready host ns)).1.journal
      ≡ ns
unfolding acquiring did set_lock begun
locked-begun false locks writes host ns socket o l w can = cc
locked-begun true false writes host ns socket o l w can = cc
locked-begun true true false host ns socket o l w can = cc
locked-begun true true true host ns socket o l w can =
    ready-begun host ns
      (record (fresh true true ns socket) { journal = took_lock ∷ []; holds_lock = true }) refl
      can.serves

run_body-begun :
    (pidfile : Bool) (host : Host) (ns : List Text) (socket : Socket)
    → CanStart host socket
    → begun (run_body host pidfile true ns (fresh pidfile true ns socket)).1.journal ≡ ns
unfolding run_body acquire_if acquire_pidfile_lock acquiring ready launch begun
run_body-begun false host ns socket can =
    ready-begun host ns (fresh false true ns socket) refl can.serves
run_body-begun true host ns socket can =
    locked-begun host.opens host.locks host.writes host ns socket can.opens can.locks can.writes can

-- A run that can start begins each process, in the order in which they are held, and no other.
pub run-begun :
    (pidfile : Bool) (host : Host) (ns : List Text) (socket : Socket)
    → CanStart host socket
    → begun (run host (fresh pidfile true ns socket)).1.journal ≡ ns
unfolding run
run-begun pidfile host ns socket can =
    shutdown-Quiet host true ns (run_body host pidfile true ns (fresh pidfile true ns socket)).1
    ∙ run_body-begun pidfile host ns socket can
