-- ===== src/Events/Bounds.antt =====
-- What holds of the bus between two operations.
use supervice.Prelude.{
  ℕ, ◌+◌, ◌-◌, ◌≤◌, ◌<◌, ◌≡◌, refl, ap, ◌∙◌, Bool, true, false, some, List, [], ◌∷◌, ◌++◌, arith,
  if◌then◌else◌, length, length-append, append-nil, append_assoc, drop, drop-append, drop-drop,
  length-drop, sym, Bool-cases, inl, inr,
}
use supervice.Events.{
  Event, EventBus, init, publish, returned, bus_of, publish_all, take_event, finish_event, full,
}

-- The number of events taken and not yet settled.
abbrev pub in_hand : Bool → ℕ
in_hand true = 1
in_hand false = 0

pub record IsValid {ℓ} {P : Type ℓ} (b : EventBus P) : Type ℓ where
  pub bounded : 0 < b.maxsize → length b.queue ≤ b.maxsize
  pub settled : b.unfinished ≡ length b.queue + in_hand b.busy

-- The last `n` items of a list.
unfoldable pub keep_last {ℓ} : {A : Type ℓ} → ℕ → List A → List A
keep_last n xs = drop (length xs - n) xs

module _ {ℓ} {P : Type ℓ} where
  pub init-IsValid : (n : ℕ) → IsValid (init {P = P} n)
  init-IsValid n = record { bounded = λ _. omega arith; settled = omega arith }

  -- The queue with its oldest event left out if there is no room.
  unfoldable pub make_room : EventBus P → List (Event P)
  unfolding full
  make_room b = if full b then drop 1 b.queue else b.queue

  pub publish_returns :
      (e : Event P) (b : EventBus P) → IsValid b → publish e b ≡ returned (bus_of (publish e b))
  unfolding publish
  publish_returns e b v = ground (arith, length-append {ℓ} b.queue (e ∷ []))

  pub queue-publish :
      (e : Event P) (b : EventBus P)
      → IsValid b
      → (bus_of (publish e b)).queue ≡ make_room b ++ e ∷ []
  unfolding publish make_room
  queue-publish e b v = ground arith

  pub publish-IsValid : (e : Event P) (b : EventBus P) → IsValid b → IsValid (bus_of (publish e b))
  unfolding publish
  publish-IsValid e b v =
      ground
        (arith, length-append {ℓ} b.queue (e ∷ []), length-append {ℓ} (drop 1 b.queue) (e ∷ []))

  pub dropped-publish :
      (e : Event P) (b : EventBus P)
      → IsValid b
      → (bus_of (publish e b)).dropped_events ≡ b.dropped_events + (if full b then 1 else 0)
  unfolding publish full
  dropped-publish e b v = ground arith

  pub maxsize-publish : (e : Event P) (b : EventBus P) → (bus_of (publish e b)).maxsize ≡ b.maxsize
  unfolding publish
  maxsize-publish e b = ground arith

  pub take_event-IsValid :
      (b : EventBus P) {e : Event P} {b' : EventBus P}
      → IsValid b
      → take_event b ≡ some (e, b')
      → IsValid b'
        × (b.queue ≡ e ∷ b'.queue)
        × (b'.dropped_events ≡ b.dropped_events)
        × (b'.maxsize ≡ b.maxsize)
  unfolding take_event
  take_event-IsValid b v h = ground arith

  pub finish_event-keeps :
      (b : EventBus P) {b' : EventBus P}
      → IsValid b
      → finish_event b ≡ some b'
      → IsValid b'
        × (b'.queue ≡ b.queue)
        × (b'.dropped_events ≡ b.dropped_events)
        × (b'.maxsize ≡ b.maxsize)
  unfolding finish_event
  finish_event-keeps b v h = ground arith

  -- A busy consumer can always settle its event.
  pub finish_event-IsValid :
      (b : EventBus P)
      → IsValid b
      → b.busy ≡ true
      → (b' : EventBus P) × (finish_event b ≡ some b') × IsValid b' × (b'.queue ≡ b.queue)
  unfolding finish_event
  finish_event-IsValid b v h =
      (record b { unfinished = b.unfinished - 1; busy = false }, ground arith, ground arith, refl)

  keep_last-keep_last :
      (n : ℕ) (xs ys : List (Event P)) → keep_last n (keep_last n xs ++ ys) ≡ keep_last n (xs ++ ys)
  unfolding keep_last
  keep_last-keep_last n xs ys =
      let k = length xs - n in
      rw (← drop-append k xs ys (omega arith)) (
        drop-drop _ k (xs ++ ys)
        ∙ ap (λ (m : ℕ). drop m (xs ++ ys))
            (omega (arith, length-drop k (xs ++ ys), length-append xs ys)))

  keep_last-eq : (k n : ℕ) (xs : List (Event P)) → length xs - n ≡ k → keep_last n xs ≡ drop k xs
  unfolding keep_last
  keep_last-eq k n xs h = rw h

  -- A bounded queue keeps the newest events.
  pub keep_last-publish :
      (e : Event P) (b : EventBus P)
      → IsValid b
      → 0 < b.maxsize
      → (bus_of (publish e b)).queue ≡ keep_last b.maxsize (b.queue ++ e ∷ [])
  unfolding keep_last make_room
  keep_last-publish e b v h = elim (Bool-cases (full b)) [
    | inl f ↦
        queue-publish e b v
        ∙ rw f (
            sym (drop-append 1 b.queue (e ∷ []) (ground arith))
            ∙ sym (
                keep_last-eq 1 b.maxsize (b.queue ++ e ∷ [])
                  (ground (arith, length-append b.queue (e ∷ [])))))
    | inr f ↦
        queue-publish e b v
        ∙ rw f (
            sym (
              keep_last-eq 0 b.maxsize (b.queue ++ e ∷ [])
                (ground (arith, length-append b.queue (e ∷ [])))))
  ]

  publish_all-queue :
      (es : List (Event P)) (b : EventBus P)
      → IsValid b
      → 0 < b.maxsize
      → (publish_all es b).queue ≡ keep_last b.maxsize (b.queue ++ es)
  unfolding publish_all
  publish_all-queue [] b v h = rw append-nil (sym (keep_last-eq 0 _ _ (omega (arith, v.bounded h))))
  publish_all-queue (e ∷ es) b v h =
      let b' = bus_of (publish e b) in
      let m = maxsize-publish e b in
      publish_all-queue es b' (publish-IsValid e b v) (omega arith)
      ∙ rw (m, keep_last-publish e b v h)
          (keep_last-keep_last b.maxsize (b.queue ++ e ∷ []) es ∙ rw append_assoc)

  publish_all-dropped :
      (es : List (Event P)) (b : EventBus P)
      → IsValid b
      → 0 < b.maxsize
      → (publish_all es b).dropped_events
        ≡ b.dropped_events + (length b.queue + length es - b.maxsize)
  unfolding publish_all make_room full
  publish_all-dropped [] b v h = omega (arith, v.bounded h)
  publish_all-dropped (e ∷ es) b v h = ground (
    arith,
    publish_all-dropped es (bus_of (publish e b)) (publish-IsValid e b v),
    maxsize-publish e b,
    dropped-publish e b v,
    queue-publish e b v,
    length-append b.queue (e ∷ []),
    length-append (drop 1 b.queue) (e ∷ []),
    length-drop 1 b.queue,
  )

  -- From a valid bus with bound n > 0, publishing any events with the consumer idle leaves the
  -- newest n of the old queue and the new events, and counts every other one as dropped.
  pub publish_all-keep_last :
      (es : List (Event P)) (b : EventBus P)
      → IsValid b
      → 0 < b.maxsize
      → ((publish_all es b).queue ≡ keep_last b.maxsize (b.queue ++ es))
        × ((publish_all es b).dropped_events
            ≡ b.dropped_events + (length b.queue + length es - b.maxsize))
  publish_all-keep_last es b v h = (publish_all-queue es b v h, publish_all-dropped es b v h)
