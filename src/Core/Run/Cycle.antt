-- ===== src/Core/Run/Cycle.antt =====
-- The order of what the daemon does (supervice/core.py, `run`): an automaton that says what may come
-- next, and the proof that every run keeps to it, whatever fails.
pub mod Shutdown
pub mod Follows
use supervice.Attempt.{Ended, returned, raised, follow}
use supervice.Prelude.{
  ◌≡◌, refl, sym, ap, ◌∙◌, Bool, true, false, not, ◌&&◌, ◌||◌, Option, none, some, List, [], ◌∷◌,
  ◌++◌, Text, map, if◌then◌else◌, append_assoc, append-nil,
}
use supervice.Core.Run.{
  Effect, took_lock, bus_started, socket_bound, signalled, socket_closed, bus_stopped, all_ended,
  gave_up, dropped_lock, began, asked, Failure, Host, Daemon, did, set_lock, acquire_pidfile_lock,
  release_if, bind_server, close_server, each, acquire_if, run_body, wait_for_stops, shutdown, run,
  fresh,
}

-- What the journal so far tells: whether the pid file's lock is held, whether the event bus and the
-- server are on, and whether there is a process that was started and not waited for since.
pub record Watch : Type 0 where
  pub locked : Bool
  pub bus : Bool
  pub bound : Bool
  pub unfinished : Bool

abbrev pub at_rest : Watch
at_rest = record { locked = false; bus = false; bound = false; unfinished = false }

unfoldable pub allow : Bool → Watch → Option Watch
allow true w = some w
allow false w = none

-- Which effects may come next. The server is bound only under the lock, if there is a pid file;
-- processes are started only while the server is bound, if there is one; they are asked to stop only
-- when the server and the bus are off; and the lock is dropped only when all are off and every process
-- that was started was waited for.
unfoldable pub next : Bool → Bool → Effect → Watch → Option Watch
unfolding allow
next pidfile server took_lock w = allow (not w.locked && not w.bus) (record w { locked = true })
next pidfile server bus_started w = allow (w.locked || not pidfile) (record w { bus = true })
next pidfile server socket_bound w =
    allow (w.bus && (w.locked || not pidfile) && not w.bound) (record w { bound = true })
next pidfile server (began n) w =
    allow (w.bus && (w.locked || not pidfile) && (w.bound || not server))
      (record w { unfinished = true })
next pidfile server signalled w = allow w.bus w
next pidfile server socket_closed w = allow w.bound (record w { bound = false })
next pidfile server bus_stopped w = allow (not w.bound) (record w { bus = false })
next pidfile server (asked n) w = allow (not w.bound && not w.bus) w
next pidfile server all_ended w = allow (not w.bound && not w.bus) (record w { unfinished = false })
next pidfile server gave_up w = allow (not w.bound && not w.bus) (record w { unfinished = false })
next pidfile server dropped_lock w =
    allow (w.locked && not w.bound && not w.bus && not w.unfinished) (record w { locked = false })

module _ (pidfile server : Bool) where
  unfoldable pub leads : List Effect → Option Watch → Option Watch
  unfolding next
  leads [] o = o
  leads (e ∷ es) none = none
  leads (e ∷ es) (some w) = leads es (next pidfile server e w)

  leads-none : (es : List Effect) → leads es none ≡ none
  unfolding leads
  leads-none [] = refl
  leads-none (e ∷ es) = refl

  pub leads-append :
      (es fs : List Effect) (o : Option Watch) → leads (es ++ fs) o ≡ leads fs (leads es o)
  unfolding leads
  leads-append [] fs o = refl
  leads-append (e ∷ es) fs none = sym (leads-none fs)
  leads-append (e ∷ es) fs (some w) = leads-append es fs (next pidfile server e w)

  -- The journal of the daemon keeps to the order, and tells `w`.
  abbrev pub Tells : Daemon → Watch → Type 0
  Tells d w = leads d.journal (some at_rest) ≡ some w

  pub Tells-did :
      (e : Effect) (d : Daemon) {w v : Watch}
      → Tells d w
      → next pidfile server e w ≡ some v
      → Tells (record d { journal = d.journal ++ e ∷ [] }) v
  unfolding leads
  Tells-did e d h k = leads-append d.journal (e ∷ []) (some at_rest) ∙ ap (leads (e ∷ [])) h ∙ k

pub each-map :
    (f : Text → Effect) (ns : List Text) (d : Daemon)
    → each f ns d ≡ (returned tt, record d { journal = d.journal ++ map f ns })
unfolding each did
each-map f [] d = rw (append-nil d.journal) refl
each-map f (n ∷ ns) d =
    each-map f ns (record d { journal = d.journal ++ f n ∷ [] })
    ∙ ap (λ (j : List Effect). (returned tt, record d { journal = j }))
        (append_assoc d.journal (f n ∷ []) (map f ns))
