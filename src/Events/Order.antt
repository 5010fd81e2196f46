-- ===== src/Events/Order.antt =====
-- The bus and its one consumer, under every order of their operations.
use mathlib.Core.List.{Sublist}
use mathlib.Core.List.Sublist
use supervice.Prelude.{
  ℕ, ◌+◌, ◌≡◌, refl, ◌∙◌, some, List, [], ◌∷◌, ◌++◌, arith, length, length-append, length-drop,
  append_assoc, Bool-cases, inl, inr, drop,
}
use supervice.Events.{Event, EventBus, init, publish, bus_of, take_event, finish_event, full}
use supervice.Events.Bounds.{
  IsValid, init-IsValid, make_room, queue-publish, publish-IsValid, dropped-publish,
  maxsize-publish, take_event-IsValid, finish_event-keeps,
}

-- `History n ps ds b`: from a new bus of bound n, the operations so far published the events ps,
-- and the consumer took the events ds; the bus is now b.
pub data History {ℓ} {P : Type ℓ} (n : ℕ)
    : List (Event P) → List (Event P) → EventBus P → Type ℓ where
  start : History n [] [] (init n)
  published :
      {ps ds : List (Event P)} {b : EventBus P} (e : Event P)
      → History n ps ds b
      → History n (ps ++ e ∷ []) ds (bus_of (publish e b))
  taken :
      {ps ds : List (Event P)} {b b' : EventBus P} (e : Event P)
      → History n ps ds b
      → take_event b ≡ some (e, b')
      → History n ps (ds ++ e ∷ []) b'
  finished :
      {ps ds : List (Event P)} {b b' : EventBus P}
      → History n ps ds b
      → finish_event b ≡ some b'
      → History n ps ds b'

-- What the operations so far have kept, dropped and lost track of.
pub record Accounts {ℓ} {P : Type ℓ} (n : ℕ) (ps ds : List (Event P)) (b : EventBus P)
    : Type ℓ where
  pub valid : IsValid b
  pub bound : b.maxsize ≡ n
  pub in_order : Sublist (ds ++ b.queue) ps
  pub conserved : length ps ≡ length ds + length b.queue + b.dropped_events

module _ {ℓ} {P : Type ℓ} where
  make_room-sublist : (b : EventBus P) → Sublist (make_room b) b.queue
  unfolding make_room
  make_room-sublist b = elim (Bool-cases (full b)) [
    | inl f ↦ rw f (tail_sublist b.queue)
    | inr f ↦ rw f (Sublist.refl b.queue)
  ]
    where
      tail_sublist : (xs : List (Event P)) → Sublist (drop 1 xs) xs
      tail_sublist [] = Sublist.refl []
      tail_sublist (x ∷ xs) = Sublist.cons x (Sublist.refl xs)

  conserved_publish :
      (n : ℕ) (ps ds : List (Event P)) (b : EventBus P) (e : Event P)
      → Accounts n ps ds b
      → length (ps ++ e ∷ [])
        ≡ length ds + length (bus_of (publish e b)).queue + (bus_of (publish e b)).dropped_events
  unfolding make_room full
  conserved_publish n ps ds b e a = ground (
    arith,
    dropped-publish e b a.valid,
    queue-publish e b a.valid,
    length-append ps (e ∷ []),
    length-append b.queue (e ∷ []),
    length-append (drop 1 b.queue) (e ∷ []),
    length-drop 1 b.queue,
  )

  Accounts-publish :
      (n : ℕ) (ps ds : List (Event P)) (b : EventBus P) (e : Event P)
      → Accounts n ps ds b
      → Accounts n (ps ++ e ∷ []) ds (bus_of (publish e b))
  Accounts-publish n ps ds b e a = record {
    valid = publish-IsValid e b a.valid;
    bound = maxsize-publish e b ∙ a.bound;
    in_order =
        rw (queue-publish e b a.valid, ← append_assoc)
          (Sublist.append
            (Sublist.trans (Sublist.append (Sublist.refl ds) (make_room-sublist b)) a.in_order)
            (Sublist.refl (e ∷ [])));
    conserved = conserved_publish n ps ds b e a;
  }

  Accounts-take :
      (n : ℕ) (ps ds : List (Event P)) (b b' : EventBus P) (e : Event P)
      → take_event b ≡ some (e, b')
      → Accounts n ps ds b
      → Accounts n ps (ds ++ e ∷ []) b'
  Accounts-take n ps ds b b' e h a =
      let (v, q, d, m) = take_event-IsValid b a.valid h in
      record {
        valid = v;
        bound = m ∙ a.bound;
        in_order = rw append_assoc (rw q at a.in_order);
        conserved = ground (arith, a.conserved, length-append ds (e ∷ []), q, d);
      }

  Accounts-finish :
      (n : ℕ) (ps ds : List (Event P)) (b b' : EventBus P)
      → finish_event b ≡ some b'
      → Accounts n ps ds b
      → Accounts n ps ds b'
  Accounts-finish n ps ds b b' h a =
      let (v, q, d, m) = finish_event-keeps b a.valid h in
      record {
        valid = v;
        bound = m ∙ a.bound;
        in_order = rw q a.in_order;
        conserved = rw (q, d) a.conserved;
      }

  -- Under every order of publishing, taking and finishing from a new bus of bound n: what the
  -- consumer took and what is queued is, in that order, a subsequence of what was published; the
  -- events missing from it are as many as the drop counter says; and the bus stays valid (at most n
  -- queued if n > 0, and its count of unfinished items exact).
  pub History-Accounts :
      {n : ℕ} {ps ds : List (Event P)} {b : EventBus P} → History n ps ds b → Accounts n ps ds b
  History-Accounts {n} start = record {
    valid = init-IsValid n;
    bound = refl;
    in_order = Sublist.refl [];
    conserved = refl;
  }
  History-Accounts {n} (published {ps} {ds} {b} e r) =
      Accounts-publish n ps ds b e (History-Accounts r)
  History-Accounts {n} (taken {ps} {ds} {b} {b'} e r h) =
      Accounts-take n ps ds b b' e h (History-Accounts r)
  History-Accounts {n} (finished {ps} {ds} {b} {b'} r h) =
      Accounts-finish n ps ds b b' h (History-Accounts r)
