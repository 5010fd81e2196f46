-- ===== src/Core/Run/Cycle/Follows.antt =====
-- Every run of the daemon keeps to the order, and turns off what it has turned on (supervice/core.py,
-- `run` and `shutdown`).
use supervice.Attempt.{Ended, returned, raised, follow, require, Attempt, ◌>>◌}
use supervice.Prelude.{
  ◌≡◌, refl, sym, ap, ◌∙◌, inl, inr, Bool, true, false, not, ◌&&◌, ◌||◌, some, List, [], ◌∷◌, ◌++◌,
  Text, map, append-nil, arith,
}
use supervice.Core.Run.Cycle.Shutdown.{
  allow-true, owes, IsLocked, Ends, Mid, Tells-each, shutdown-Ends,
}
use supervice.Core.Run.Cycle.{Watch, at_rest, next, leads, Tells, Tells-did, each-map}
use supervice.Core.Run.{
  took_lock, bus_started, socket_bound, signalled, began, Failure, pidfile_error, already_running,
  cancelled, Host, Daemon, did, set_lock, acquire_pidfile_lock, bind_server, bound_effect, lifted,
  each, acquire_if, run_body, run, fresh,
}
use supervice.Rpc.Socket.Starts.{is_returned, server-IsStarted, start_server-IsStarted}
use supervice.Rpc.Socket.{Socket, SocketError, start_server}

module _ (pidfile server : Bool) (host : Host) (ns : List Text) where
  ended-Mid :
      (b : Bool) (d : Daemon) (w : Watch)
      → Tells pidfile server d w
      → w.bus ≡ true
      → IsLocked pidfile server host w d
      → w.bound ≡ (server && d.socket.server)
      → (w.unfinished && not (owes ns)) ≡ false
      → Mid pidfile server host ns
          (let (r, e) = require (not b) cancelled d in follow r e (λ u. did signalled)).1
  unfolding did next
  ended-Mid true d w t bus l bound owed = (w, t, l, bound, owed)
  ended-Mid false d w t bus l bound owed =
      (w, Tells-did pidfile server signalled d t (allow-true w.bus w bus), l, bound, owed)

  leads-began :
      (ms : List Text) (w : Watch)
      → (w.bus && (w.locked || not pidfile) && (w.bound || not server)) ≡ true
      → (w.unfinished ≡ true)
      → leads pidfile server (map began ms) (some w) ≡ some w
  unfolding leads next
  leads-began [] w h u = refl
  leads-began (n ∷ ms) w h u =
      ap (leads pidfile server (map began ms)) (
        allow-true _ (record w { unfinished = true }) h
        ∙ ap (λ (b : Bool). some (record w { unfinished = b })) (sym u))
      ∙ leads-began ms w h u

  leads-all_began :
      (ms : List Text) (w : Watch)
      → (w.bus && (w.locked || not pidfile) && (w.bound || not server)) ≡ true
      → (w.unfinished ≡ false)
      → leads pidfile server (map began ms) (some w) ≡ some (record w { unfinished = owes ms })
  unfolding leads next
  leads-all_began [] w h u = ap (λ (b : Bool). some (record w { unfinished = b })) u
  leads-all_began (n ∷ ms) w h u =
      ap (leads pidfile server (map began ms)) (allow-true _ (record w { unfinished = true }) h)
      ∙ leads-began ms (record w { unfinished = true }) h refl

  -- `run` once the server is bound
  launch_all : Attempt Daemon Failure (Unit {0})
  unfolding each did
  launch_all = do each began ns; require (not host.is_cancelled) cancelled; did signalled

  owes-all : (owes ns && not (owes ns)) ≡ false
  owes-all = ground arith

  launch_all-Mid :
      (d : Daemon) (w : Watch)
      → Tells pidfile server d w
      → w.bus ≡ true
      → (w.locked || not pidfile) ≡ true
      → IsLocked pidfile server host w d
      → w.bound ≡ server
      → d.socket.server ≡ server
      → w.unfinished ≡ false
      → Mid pidfile server host ns (launch_all d).1
  unfolding launch_all
  launch_all-Mid d w t bus locked l bound up un = rw (each-map began ns d) (
      ended-Mid host.is_cancelled (record d { journal = d.journal ++ map began ns })
        (record w { unfinished = owes ns })
        (Tells-each pidfile server host began ns d t
          (leads-all_began ns w (rw (bus, locked, bound) (ground arith)) un))
        bus l (rw (bound, up) (ground arith)) owes-all)

launched :
    (pidfile server : Bool) (host : Host) (ns : List Text) → Attempt Daemon Failure (Unit {0})
unfolding bind_server launch_all
launched pidfile server host ns = do bind_server server host; launch_all pidfile server host ns

started-Mid :
    (pidfile : Bool) (host : Host) (ns : List Text) (d : Daemon) (w : Watch)
    (r : Ended SocketError (Unit {0})) (socket : Socket)
    → Tells pidfile true d w
    → w.bus ≡ true
    → (w.locked || not pidfile) ≡ true
    → IsLocked pidfile true host w d
    → w.bound ≡ false
    → w.unfinished ≡ false
    → socket.server ≡ is_returned r
    → Mid pidfile true host ns
        (follow
          (lifted r)
          (record d { socket = socket; journal = d.journal ++ bound_effect r })
          (λ u. launch_all pidfile true host ns)).1
unfolding lifted bound_effect is_returned next
started-Mid pidfile host ns d w (returned u) socket t bus locked l bound un up =
    launch_all-Mid pidfile true host ns
      (record d { socket = socket; journal = d.journal ++ socket_bound ∷ [] })
      (record w { bound = true })
      (Tells-did pidfile true socket_bound d t
        (allow-true _ (record w { bound = true }) (rw (bus, locked, bound) refl)))
      bus locked l refl up un
started-Mid pidfile host ns d w (raised e) socket t bus locked l bound un up =
    (w, rw (append-nil d.journal) t, l, bound ∙ sym up, rw un refl)

launched-Mid :
    (pidfile server : Bool) (host : Host) (ns : List Text) (d : Daemon) (w : Watch)
    → Tells pidfile server d w
    → w.bus ≡ true
    → (w.locked || not pidfile) ≡ true
    → IsLocked pidfile server host w d
    → w.bound ≡ false
    → d.socket.server ≡ false
    → w.unfinished ≡ false
    → Mid pidfile server host ns (launched pidfile server host ns d).1
unfolding launched bind_server
launched-Mid pidfile false host ns d w t bus locked l bound down un =
    launch_all-Mid pidfile false host ns d w t bus locked l bound down un
launched-Mid pidfile true host ns d w t bus locked l bound down un =
    let (r, socket) = start_server host.at_start d.socket in
    started-Mid pidfile host ns d w r socket t bus locked l bound un (
      server-IsStarted host.at_start d.socket r socket
        (start_server-IsStarted host.at_start d.socket) down)

-- `run` once the lock is taken, if there is a pid file
ready : (pidfile server : Bool) (host : Host) (ns : List Text) → Attempt Daemon Failure (Unit {0})
unfolding launched did
ready pidfile server host ns = do did bus_started; launched pidfile server host ns

ready-Mid :
    (pidfile server : Bool) (host : Host) (ns : List Text) (d : Daemon) (w : Watch)
    → Tells pidfile server d w
    → (w.locked || not pidfile) ≡ true
    → IsLocked pidfile server host w d
    → w.bound ≡ false
    → d.socket.server ≡ false
    → w.unfinished ≡ false
    → Mid pidfile server host ns (ready pidfile server host ns d).1
unfolding ready did next
ready-Mid pidfile server host ns d w t locked l bound down un =
    launched-Mid pidfile server host ns (record d { journal = d.journal ++ bus_started ∷ [] })
      (record w { bus = true })
      (Tells-did pidfile server bus_started d t (allow-true _ (record w { bus = true }) locked))
      refl locked l bound down un

-- `_acquire_pidfile_lock`, by what succeeds
acquiring : Bool → Bool → Bool → Attempt Daemon Failure (Unit {0})
unfolding did set_lock
acquiring opens locks writes = do
  require opens pidfile_error
  require locks already_running
  did took_lock
  require writes pidfile_error
  set_lock true

locked-Mid :
    (opens locks writes : Bool) (server : Bool) (host : Host) (ns : List Text) (socket : Socket)
    → host.writes ≡ writes
    → Mid true server host ns
        (let (r, d) = acquiring opens locks writes (fresh true server ns socket) in
          follow r d (λ u. ready true server host ns)).1
unfolding acquiring did set_lock leads next
locked-Mid false locks writes server host ns socket h =
    (at_rest, refl, inl refl, ground arith, ground arith)
locked-Mid true false writes server host ns socket h =
    (at_rest, refl, inl refl, ground arith, ground arith)
locked-Mid true true false server host ns socket h =
    (record at_rest { locked = true }, refl, inr (h, refl), ground arith, ground arith)
locked-Mid true true true server host ns socket h =
    ready-Mid true server host ns
      (record (fresh true server ns socket) { journal = took_lock ∷ []; holds_lock = true })
      (record at_rest { locked = true }) refl refl (inl refl) refl refl refl

run_body-Mid :
    (pidfile server : Bool) (host : Host) (ns : List Text) (socket : Socket)
    → Mid pidfile server host ns
        (run_body host pidfile server ns (fresh pidfile server ns socket)).1
unfolding run_body acquire_if acquire_pidfile_lock acquiring leads ready launched launch_all
run_body-Mid false server host ns socket =
    ready-Mid false server host ns (fresh false server ns socket) at_rest refl refl (inl refl) refl
      refl refl
run_body-Mid true server host ns socket =
    locked-Mid host.opens host.locks host.writes server host ns socket refl

-- Whatever fails when the daemon starts, runs (with no reload) or shuts down: what it does keeps to
-- the order of `next`. In the end all that it turned on is off, every process that it started was
-- waited for, for `shutdown_timeout` at most, and it does not hold the lock, except if the process id
-- could not be written under the lock, or the socket could not be removed.
pub run-Ends :
    (pidfile server : Bool) (host : Host) (ns : List Text) (socket : Socket)
    → Ends pidfile server host (run host (fresh pidfile server ns socket)).1
unfolding run
run-Ends pidfile server host ns socket =
    shutdown-Ends pidfile server host ns
      (run_body host pidfile server ns (fresh pidfile server ns socket)).1
      (run_body-Mid pidfile server host ns socket)
