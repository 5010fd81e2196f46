-- ===== src/Core/Run/Cycle/Shutdown.antt =====
-- A shutdown keeps to the order and turns off what is on (supervice/core.py, `shutdown`).
use supervice.Attempt.{Ended, returned, raised, follow, ◌>>◌}
use supervice.Prelude.{
  ◌≡◌, refl, ap, ◌∙◌, ◌⊎◌, inl, inr, Bool, true, false, not, ◌&&◌, some, List, [], ◌∷◌, ◌++◌, Text,
  map, if◌then◌else◌, append-nil, arith,
}
use supervice.Core.Run.Cycle.{
  Watch, at_rest, allow, next, leads, leads-append, Tells, Tells-did, each-map,
}
use supervice.Core.Run.{
  Effect, socket_closed, bus_stopped, all_ended, gave_up, dropped_lock, asked, Failure, Host,
  Daemon, did, set_lock, release_if, release_pidfile_lock, close_server, closed_effect, lifted,
  each, wait_for_stops, shutdown,
}
use supervice.Rpc.Socket.Starts.{IsStopped, stop_server-IsStopped}
use supervice.Rpc.Socket.{Socket, SocketError, stop_server}

pub allow-true : (b : Bool) (w : Watch) → b ≡ true → allow b w ≡ some w
unfolding allow
allow-true true w h = refl
allow-true false w h = cc

-- Whether there is a process to wait for.
abbrev pub owes : List Text → Bool
owes [] = false
owes (n ∷ ns) = true

abbrev pub IsOff : Watch → Type 0
IsOff w = (w.locked ≡ false) × (w.bus ≡ false) × (w.bound ≡ false) × (w.unfinished ≡ false)

module _ (pidfile server : Bool) (host : Host) where
  -- The lock is held as `_pidfile_fd` says, unless the process id could not be written.
  abbrev pub IsLocked : Watch → Daemon → Type 0
  IsLocked w d = (w.locked ≡ d.holds_lock) ⊎ ((host.writes ≡ false) × (d.holds_lock ≡ false))

  abbrev pub Ends : Daemon → Type 0
  Ends d =
      (w : Watch) × (Tells pidfile server d w)
      × (((d.holds_lock ≡ false) × IsOff w)
          ⊎ ((host.writes ≡ false) ⊎ (host.at_stop.unlinks ≡ false)))

  release_if-Ends :
      (b : Bool) (d : Daemon) (w : Watch)
      → d.holds_lock ≡ b
      → Tells pidfile server d w
      → IsLocked w d
      → w.bus ≡ false
      → w.bound ≡ false
      → w.unfinished ≡ false
      → Ends (release_if b d).1
  unfolding release_if did set_lock next
  release_if-Ends false d w e t (inl l) bus bound un = (w, t, inl (e, (l ∙ e, bus, bound, un)))
  release_if-Ends false d w e t (inr (f, l)) bus bound un = (w, t, inr (inl f))
  release_if-Ends true d w e t (inr (f, l)) bus bound un = cc
  release_if-Ends true d w e t (inl l) bus bound un = (
    record w { locked = false },
    Tells-did pidfile server dropped_lock d t (
        allow-true (w.locked && not w.bound && not w.bus && not w.unfinished)
          (record w { locked = false }) (rw (l, e, bound, bus, un) refl)),
    inl (refl, (refl, bus, bound, un)),
  )

  waited-Ends :
      (b : Bool) (d : Daemon) (w : Watch)
      → Tells pidfile server d w
      → IsLocked w d
      → w.bus ≡ false
      → w.bound ≡ false
      → Ends
          (follow
            (did (if b then all_ended else gave_up) d).0
            (did (if b then all_ended else gave_up) d).1
            (λ u. release_pidfile_lock)).1
  unfolding did release_pidfile_lock next
  waited-Ends true d w t l bus bound =
      release_if-Ends d.holds_lock (record d { journal = d.journal ++ all_ended ∷ [] })
        (record w { unfinished = false }) refl
        (Tells-did pidfile server all_ended d t (
          allow-true (not w.bound && not w.bus) (record w { unfinished = false })
            (rw (bound, bus) refl)))
        l bus bound refl
  waited-Ends false d w t l bus bound =
      release_if-Ends d.holds_lock (record d { journal = d.journal ++ gave_up ∷ [] })
        (record w { unfinished = false }) refl
        (Tells-did pidfile server gave_up d t (
          allow-true (not w.bound && not w.bus) (record w { unfinished = false })
            (rw (bound, bus) refl)))
        l bus bound refl

  -- The rest of `shutdown` once every process was asked to stop.
  settle-Ends :
      (ns : List Text) (d : Daemon) (w : Watch)
      → Tells pidfile server d w
      → IsLocked w d
      → w.bus ≡ false
      → w.bound ≡ false
      → (w.unfinished && not (owes ns)) ≡ false
      → Ends (let (r, e) = wait_for_stops host ns d in follow r e (λ u. release_pidfile_lock)).1
  unfolding wait_for_stops release_pidfile_lock
  settle-Ends [] d w t l bus bound owed =
      release_if-Ends d.holds_lock d w refl t l bus bound (ground arith)
  settle-Ends (n ∷ ns) d w t l bus bound owed = waited-Ends host.stops_in_time d w t l bus bound

  leads-asked :
      (ns : List Text) (w : Watch)
      → w.bus ≡ false
      → w.bound ≡ false
      → leads pidfile server (map asked ns) (some w) ≡ some w
  unfolding leads next
  leads-asked [] w bus bound = refl
  leads-asked (n ∷ ns) w bus bound =
      ap (leads pidfile server (map asked ns))
        (allow-true (not w.bound && not w.bus) w (rw (bound, bus) refl))
      ∙ leads-asked ns w bus bound

  pub Tells-each :
      (f : Text → Effect) (ns : List Text) (d : Daemon) {w v : Watch}
      → Tells pidfile server d w
      → leads pidfile server (map f ns) (some w) ≡ some v
      → Tells pidfile server (record d { journal = d.journal ++ map f ns }) v
  Tells-each f ns d t h =
      leads-append pidfile server d.journal (map f ns) (some at_rest)
      ∙ ap (leads pidfile server (map f ns)) t
      ∙ h

  -- `shutdown` once the server is closed
  quiet : List Text → Daemon → Ended Failure (Unit {0}) × Daemon
  unfolding did each wait_for_stops release_pidfile_lock
  quiet ns = do did bus_stopped; each asked ns; wait_for_stops host ns; release_pidfile_lock

  quiet-Ends :
      (ns : List Text) (d : Daemon) (w : Watch)
      → Tells pidfile server d w
      → IsLocked w d
      → w.bound ≡ false
      → (w.unfinished && not (owes ns)) ≡ false
      → Ends (quiet ns d).1
  unfolding quiet did next
  quiet-Ends ns d w t l bound owed =
      let d1 = record d { journal = d.journal ++ bus_stopped ∷ [] } in
      let d2 = record d { journal = d1.journal ++ map asked ns } in
      let w1 : Watch = record w { bus = false } in
      let t1 : Tells pidfile server d1 w1 =
        Tells-did pidfile server bus_stopped d t
          (allow-true (not w.bound) (record w { bus = false }) (rw bound refl)) in
      let t2 : Tells pidfile server d2 w1 =
        Tells-each asked ns d1 t1 (leads-asked ns w1 refl bound) in
      rw (each-map asked ns d1) (settle-Ends ns d2 w1 t2 l refl bound owed)

  -- What is true when `shutdown` begins.
  abbrev pub Mid : List Text → Daemon → Type 0
  Mid ns d =
      (w : Watch) × (Tells pidfile server d w)
      × (IsLocked w d)
      × (w.bound ≡ (server && d.socket.server))
      × ((w.unfinished && not (owes ns)) ≡ false)

  Tells-closed :
      (d : Daemon) (socket : Socket) {w : Watch}
      → Tells pidfile server d w
      → w.bound ≡ true
      → Tells pidfile server
          (record d { socket = socket; journal = d.journal ++ socket_closed ∷ [] })
          (record w { bound = false })
  unfolding next
  Tells-closed d socket {w = w} t bound =
      Tells-did pidfile server socket_closed d t
        (allow-true w.bound (record w { bound = false }) bound)

  closed-Ends :
      (ns : List Text) (d : Daemon) (c : Bool) (r : Ended SocketError (Unit {0})) (socket : Socket)
      → (w : Watch) → Tells pidfile server d w
      → IsLocked w d
      → w.bound ≡ c
      → (w.unfinished && not (owes ns)) ≡ false
      → IsStopped host.at_stop d.socket c (r, socket)
      → Ends
          (follow
            (lifted r)
            (record d { socket = socket; journal = d.journal ++ closed_effect c })
            (λ u. quiet ns)).1
  unfolding lifted closed_effect
  closed-Ends ns d false (returned u) socket w t l bound owed s =
      quiet-Ends ns (record d { socket = socket; journal = d.journal ++ [] }) w
        (rw (append-nil d.journal) t) l bound owed
  closed-Ends ns d false (raised e) socket w t l bound owed s = cc
  closed-Ends ns d true (returned u) socket w t l bound owed s =
      quiet-Ends ns (record d { socket = socket; journal = d.journal ++ socket_closed ∷ [] })
        (record w { bound = false }) (Tells-closed d socket t bound) l refl owed
  closed-Ends ns d true (raised e) socket w t l bound owed (s, unlinks, k) =
      (record w { bound = false }, Tells-closed d socket t bound, inr (inr unlinks))

pub shutdown-Ends :
    (pidfile server : Bool) (host : Host) (ns : List Text) (d : Daemon)
    → Mid pidfile server host ns d
    → Ends pidfile server host (shutdown host server ns d).1
unfolding shutdown close_server quiet
shutdown-Ends pidfile false host ns d (w, t, l, bound, owed) =
    quiet-Ends pidfile false host ns d w t l bound owed
shutdown-Ends pidfile true host ns d (w, t, l, bound, owed) =
    let (r, socket) = stop_server host.at_stop d.socket in
    closed-Ends pidfile true host ns d d.socket.server r socket w t l bound owed
      (stop_server-IsStopped host.at_stop d.socket)
