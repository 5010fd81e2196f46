-- ===== src/Tests/Bus.antt =====
-- The event bus on small inputs.
use supervice.Prelude.{ℕ, ◌≡◌, refl, true, some, List, [], ◌∷◌, ◌++◌, arith}
use supervice.Events.Bounds.{init-IsValid, keep_last, publish_all-keep_last}
use supervice.Events.Handlers.{deliver-subscribe, raising}
use supervice.Events.Order.{start, published, taken, Accounts, History-Accounts}
use supervice.Events.{
  EventType-discrete, process_state_running, Event, EventBus, init, publish, publish_all, bus_of,
  take_event, no_subscribers, subscribe, deliver, HandlerResult, handled, raised,
}
use mathlib.Core.Logic.{ite}

abbrev event : ℕ → Event ℕ
event n = record { type = process_state_running; payload = n }

abbrev five : List (Event ℕ)
five = event 1 ∷ event 2 ∷ event 3 ∷ event 4 ∷ event 5 ∷ []

drops_oldest : (publish_all five (init 3)).queue ≡ event 3 ∷ event 4 ∷ event 5 ∷ []
unfolding publish_all
drops_oldest = refl

warns_once : (publish_all five (init 3)).warnings ≡ 1 ∷ []
unfolding publish_all
warns_once = refl

publish_all-keep_last_example :
    ((publish_all five (init 3)).queue ≡ keep_last 3 five)
    × ((publish_all five (init 3)).dropped_events ≡ 2)
publish_all-keep_last_example = publish_all-keep_last five (init 3) (init-IsValid 3) (omega arith)

abbrev one_each : EventBus ℕ
one_each = record {
  maxsize = 1;
  queue = [];
  unfinished = 1;
  dropped_events = 1;
  warnings = 1 ∷ [];
  busy = true;
}

full_twice :
    take_event (bus_of (publish (event 2) (bus_of (publish (event 1) (init 1)))))
    ≡ some (event 2, one_each)
unfolding take_event publish
full_twice = refl

History-Accounts_example : Accounts 1 (event 1 ∷ event 2 ∷ []) (event 2 ∷ []) one_each
History-Accounts_example =
    History-Accounts (taken (event 2) (published (event 2) (published (event 1) start)) full_twice)

abbrev invoke : ℕ → Event ℕ → HandlerResult
invoke h e = elim h [ ℕ.zero ↦ raised | ℕ.suc n ↦ handled ]

deliver-subscribe_example :
    ((deliver invoke
        (subscribe process_state_running 1 (subscribe process_state_running 0 no_subscribers))
        (event 7)).called
      ≡ ite
          (EventType-discrete process_state_running process_state_running)
          ((subscribe process_state_running 0 no_subscribers).handlers_of process_state_running
            ++ 1 ∷ [])
          ((subscribe process_state_running 0 no_subscribers).handlers_of process_state_running))
    × ((deliver invoke (subscribe process_state_running 0 no_subscribers) (event 7)).errors
        ≡ raising invoke
            (event 7)
            ((subscribe process_state_running 0 no_subscribers).handlers_of process_state_running))
deliver-subscribe_example =
    deliver-subscribe invoke (subscribe process_state_running 0 no_subscribers)
      process_state_running 1 (event 7)
