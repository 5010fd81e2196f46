-- ===== src/Events.antt =====
-- supervice/events.py: the event bus, a bounded queue between publishers and one consumer task.
-- The queue is asyncio's: `put_nowait` fails at `maxsize` items (0 means no bound), and counts
-- unfinished items, which `task_done` settles.
pub mod Bounds
pub mod Order
pub mod Handlers
use mathlib.Core.Logic.{ite}
use supervice.Prelude.{
  ℕ, ◌+◌, ◌-◌, ◌%◌, Bool, true, false, ◌&&◌, ◌||◌, Option, none, some, List, [], ◌∷◌, ◌++◌, ltb,
  leb, ◌==◌, if◌then◌else◌, length,
}

pub data EventType : Type 0 where
  process_state_starting process_state_running process_state_backoff : EventType
  process_state_stopping process_state_exited process_state_stopped : EventType
  process_state_fatal process_state_unknown process_state_unhealthy : EventType
  healthcheck_passed healthcheck_failed : EventType

pub EventType-discrete : Discrete EventType
EventType-discrete = hlevel

abbrev pub max_event_queue_size : ℕ
max_event_queue_size = 1000

-- An event carries its type and a payload.
pub record Event {ℓ} (P : Type ℓ) : Type ℓ where
  pub type : EventType
  pub payload : P

-- What the bus holds: the queue, its count of unfinished items, the drops, and the drop counts at
-- which a warning was logged. `busy` is true while the consumer handles an event.
pub record EventBus {ℓ} (P : Type ℓ) : Type ℓ where
  pub maxsize : ℕ
  pub queue : List (Event P)
  pub unfinished : ℕ
  pub dropped_events : ℕ
  pub warnings : List ℕ
  pub busy : Bool

-- How `publish` ends: normally, or by an exception that it does not catch.
pub data Outcome {ℓ} (P : Type ℓ) : Type ℓ where
  returned : EventBus P → Outcome P
  value_error : EventBus P → Outcome P

module _ {ℓ} {P : Type ℓ} where
  abbrev pub init : ℕ → EventBus P
  init n = record {
    maxsize = n;
    queue = [];
    unfinished = 0;
    dropped_events = 0;
    warnings = [];
    busy = false;
  }

  -- asyncio.Queue.full
  unfoldable pub full : EventBus P → Bool
  full b = ltb 0 b.maxsize && leb b.maxsize (length b.queue)

  -- asyncio.Queue.put_nowait on a queue with room
  enqueue : Event P → EventBus P → EventBus P
  enqueue e b = record b { queue = b.queue ++ e ∷ []; unfinished = b.unfinished + 1 }

  -- asyncio.Queue.put_nowait: `none` is QueueFull
  put_nowait : Event P → EventBus P → Option (EventBus P)
  unfolding full enqueue
  put_nowait e b = if full b then none else some (enqueue e b)

  get_from : List (Event P) → EventBus P → Option (Event P × EventBus P)
  get_from [] b = none
  get_from (e ∷ es) b = some (e, record b { queue = es })

  -- asyncio.Queue.get_nowait: `none` is QueueEmpty
  get_nowait : EventBus P → Option (Event P × EventBus P)
  unfolding get_from
  get_nowait b = get_from b.queue b

  -- asyncio.Queue.task_done: `none` is its ValueError, when called more often than there were items
  task_done : EventBus P → Option (EventBus P)
  task_done b =
      if b.unfinished == 0 then none else some (record b { unfinished = b.unfinished - 1 })

  -- What `except asyncio.QueueFull` counts and logs.
  count_drop : EventBus P → EventBus P
  count_drop b =
      let n = b.dropped_events + 1 in
      record b {
        dropped_events = n;
        warnings = if n == 1 || n % 100 == 0 then b.warnings ++ n ∷ [] else b.warnings;
      }

  put_last : Event P → EventBus P → Option (EventBus P) → Outcome P
  put_last e old none = returned old
  put_last e old (some b) = returned b

  settle : Event P → EventBus P → Option (EventBus P) → Outcome P
  unfolding put_last put_nowait
  settle e old none = value_error old
  settle e old (some b) = put_last e b (put_nowait e b)

  -- The inner `try`: remove the oldest event, settle it, and put the new one.
  replace_oldest : Event P → EventBus P → Option (Event P × EventBus P) → Outcome P
  unfolding settle task_done
  replace_oldest e old none = returned old
  replace_oldest e old (some (oldest, b)) = settle e b (task_done b)

  publish_from : Event P → EventBus P → Option (EventBus P) → Outcome P
  unfolding count_drop replace_oldest get_nowait
  publish_from e b none = let b' = count_drop b in replace_oldest e b' (get_nowait b')
  publish_from e b (some b') = returned b'

  unfoldable pub publish : Event P → EventBus P → Outcome P
  unfolding publish_from put_nowait
  publish e b = publish_from e b (put_nowait e b)

  abbrev pub bus_of : Outcome P → EventBus P
  bus_of (returned b) = b
  bus_of (value_error b) = b

  -- Events published one after another, with the consumer idle.
  unfoldable pub publish_all : List (Event P) → EventBus P → EventBus P
  unfolding publish
  publish_all [] b = b
  publish_all (e ∷ es) b = publish_all es (bus_of (publish e b))

  take_from : Option (Event P × EventBus P) → Option (Event P × EventBus P)
  take_from none = none
  take_from (some (e, b)) = some (e, record b { busy = true })

  -- One `await self._queue.get()` of the consumer that returns.
  unfoldable pub take_event : EventBus P → Option (Event P × EventBus P)
  unfolding take_from get_nowait
  take_event b = if b.busy then none else take_from (get_nowait b)

  finish_from : EventBus P → Option (EventBus P) → Option (EventBus P)
  finish_from old none = none
  finish_from old (some b) = some (record b { busy = false })

  -- The `task_done` at the end of the consumer's round.
  unfoldable pub finish_event : EventBus P → Option (EventBus P)
  unfolding finish_from task_done
  finish_event b = if b.busy then finish_from b (task_done b) else none

-- The subscribers of each event type, in the order of their subscription.
pub record Subscribers {ℓ} (H : Type ℓ) : Type ℓ where
  pub handlers_of : EventType → List H

module _ {ℓ} {H : Type ℓ} where
  abbrev pub no_subscribers : Subscribers H
  no_subscribers = record { handlers_of = λ t. [] }

  unfoldable pub subscribe : EventType → H → Subscribers H → Subscribers H
  subscribe t h s = record {
    handlers_of = λ u. ite (EventType-discrete u t) (s.handlers_of u ++ h ∷ []) (s.handlers_of u);
  }

-- How one handler ended, and what the loop over the handlers has done.
pub data HandlerResult : Type 0 where
  handled raised : HandlerResult

pub record Delivery {ℓ} (H : Type ℓ) : Type ℓ where
  pub called : List H
  pub errors : List H

module _ {ℓ κ} {P : Type ℓ} {H : Type κ} (invoke : H → Event P → HandlerResult) where
  note : HandlerResult → H → Delivery H → Delivery H
  note handled h d = record d { called = d.called ++ h ∷ [] }
  note raised h d = record d { called = d.called ++ h ∷ []; errors = d.errors ++ h ∷ [] }

  run_handlers : Event P → List H → Delivery H → Delivery H
  unfolding note
  run_handlers e [] d = d
  run_handlers e (h ∷ hs) d = run_handlers e hs (note (invoke h e) h d)

  -- The body of the consumer's loop, between `get` and `task_done`.
  unfoldable pub deliver : Subscribers H → Event P → Delivery H
  unfolding run_handlers
  deliver s e = run_handlers e (s.handlers_of e.type) (record { called = []; errors = [] })
