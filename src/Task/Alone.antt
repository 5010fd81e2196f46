-- ===== src/Task/Alone.antt =====
-- A coroutine that runs alone: nothing else touches the state while it is suspended, and the world
-- answers each wait by a function of the wait and of the state.
use supervice.Prelude.{◌≡◌, refl, ap, ◌∙◌}
use supervice.Task.Waits.{Await, Answer, Exn, cancelled}
use supervice.Task.{
  Run, done, raised, suspended, out_of_rounds, Reply, Task, pure, gets, modify, await, answered,
  got, cancel, continue, ◌>>=◌, handle, catch,
}

abbrev pub World : Type 0 → Type 0
World S = (w : Await) → S → Reply (Answer w)

module _ {S : Type 0} (world : World S) where
  module _ {A : Type 0} where
    -- Answers every wait of a run.
    unfoldable pub finish : Run S A → Run S A
    finish (done a s) = done a s
    finish (raised e s) = raised e s
    finish (suspended w s k) = finish (k (world w s) s)
    finish (out_of_rounds s) = out_of_rounds s

    -- The end of a task that runs alone.
    unfoldable pub alone : Task S A → S → Run S A
    unfolding finish
    alone m s = finish (m s)

    pub alone-pure : (a : A) (s : S) → alone (pure a) s ≡ done a s
    unfolding alone pure
    alone-pure a s = refl

    pub alone-gets : (f : S → A) (s : S) → alone (gets f) s ≡ done (f s) s
    unfolding alone gets
    alone-gets f s = refl

  module _ {A B : Type 0} where
    -- What a run goes on with.
    after : Run S A → (A → Task S B) → Run S B
    unfolding alone
    after (done a s) f = alone (f a) s
    after (raised e s) f = raised e s
    after (suspended w s k) f = out_of_rounds s
    after (out_of_rounds s) f = out_of_rounds s

    finish-continue : (r : Run S A) (f : A → Task S B) → finish (continue r f) ≡ after (finish r) f
    unfolding finish continue after
    finish-continue (done a s) f = refl
    finish-continue (raised e s) f = refl
    finish-continue (suspended w s k) f = finish-continue (k (world w s) s) f
    finish-continue (out_of_rounds s) f = refl

    pub alone-bind :
        (m : Task S A) (f : A → Task S B) (s : S) (a : A) (t : S)
        → alone m s ≡ done a t
        → alone (m >>= f) s ≡ alone (f a) t
    unfolding alone ◌>>=◌ after
    alone-bind m f s a t h = finish-continue (m s) f ∙ rw h refl

    pub alone-bind_raised :
        (m : Task S A) (f : A → Task S B) (s : S) (e : Exn) (t : S)
        → alone m s ≡ raised e t
        → alone (m >>= f) s ≡ raised e t
    unfolding alone ◌>>=◌ after
    alone-bind_raised m f s e t h = finish-continue (m s) f ∙ rw h refl

    pub alone-gets-bind :
        (g : S → A) (f : A → Task S B) (s : S) → alone (gets g >>= f) s ≡ alone (f (g s)) s
    alone-gets-bind g f s = alone-bind (gets g) f s (g s) s (alone-gets g s)

    -- The same, where what is read is known.
    pub alone-gets-bind_eq :
        (g : S → A) (f : A → Task S B) (s : S) (a : A)
        → g s ≡ a
        → alone (gets g >>= f) s ≡ alone (f a) s
    alone-gets-bind_eq g f s a h = alone-gets-bind g f s ∙ ap (λ b. alone (f b) s) h

  pub alone-await :
      (w : Await) (s : S) (a : Answer w) → world w s ≡ got a → alone (await w) s ≡ done a s
  unfolding alone await answered
  alone-await w s a h = ap (λ r. finish (answered w r s)) h

  pub alone-await_cancelled :
      (w : Await) (s : S) → world w s ≡ cancel → alone (await w) s ≡ raised cancelled s
  unfolding alone await answered
  alone-await_cancelled w s h = ap (λ r. finish (answered w r s)) h

  pub alone-modify-bind :
      {B : Type 0} (g : S → S) (f : Unit {0} → Task S B) (s : S)
      → alone (modify g >>= f) s ≡ alone (f tt) (g s)
  unfolding alone modify ◌>>=◌
  alone-modify-bind g f s = refl

  module _ {A : Type 0} where
    recover : Run S A → (Exn → Task S A) → Run S A
    unfolding alone
    recover (done a s) h = done a s
    recover (raised e s) h = alone (h e) s
    recover (suspended w s k) h = out_of_rounds s
    recover (out_of_rounds s) h = out_of_rounds s

    finish-handle : (r : Run S A) (h : Exn → Task S A) → finish (handle r h) ≡ recover (finish r) h
    unfolding finish handle recover
    finish-handle (done a s) h = refl
    finish-handle (raised e s) h = refl
    finish-handle (suspended w s k) h = finish-handle (k (world w s) s) h
    finish-handle (out_of_rounds s) h = refl

    pub alone-catch :
        (m : Task S A) (h : Exn → Task S A) (s : S) (a : A) (t : S)
        → alone m s ≡ done a t
        → alone (catch m h) s ≡ done a t
    unfolding alone catch recover
    alone-catch m h s a t e = finish-handle (m s) h ∙ rw e refl

    pub alone-catch_raised :
        (m : Task S A) (h : Exn → Task S A) (s : S) (e : Exn) (t : S)
        → alone m s ≡ raised e t
        → alone (catch m h) s ≡ alone (h e) t
    unfolding alone catch recover
    alone-catch_raised m h s e t x = finish-handle (m s) h ∙ rw x refl
