-- ===== src/Task/Guarantee.antt =====
-- What a coroutine guarantees of each stretch that it runs between two suspensions, whatever other
-- coroutines do to the state while it is suspended: one rule for each way to build a task.
use supervice.Prelude.{Bool, true, false}
use supervice.Task.{
  Run, done, raised, suspended, out_of_rounds, Reply, got, cancel, Task, pure, raise, no_rounds,
  gets, modify, answered, await, continue, ◌>>=◌, handle, catch, reraise, return, close, finally,
  when, branch,
}
use supervice.Task.Waits.{Await, Answer, Exn}

-- A relation that a stretch may be asked to guarantee.
pub record IsGuarantee {S : Type 0} (G : S → S → Type 0) : Type 0 where
  pub refl_at : (s : S) → G s s
  pub trans : (s t u : S) → G s t → G t u → G s u

-- Every stretch of the run takes the state along `G`, from `s` on.
abbrev pub Stretches : {S A : Type 0} → (S → S → Type 0) → S → Run S A → Type 0
Stretches {S} G s (done a t) = G s t
Stretches {S} G s (raised e t) = G s t
Stretches {S} G s (suspended w t k) =
    G s t × ((r : Reply (Answer w)) (u : S) → Stretches G u (k r u))
Stretches {S} G s (out_of_rounds t) = G s t

pub record Guarantees {S A : Type 0} (G : S → S → Type 0) (m : Task S A) : Type 0 where
  pub at : (s : S) → Stretches G s (m s)

module _ {S : Type 0} {G : S → S → Type 0} (g : IsGuarantee G) where
  module _ {A : Type 0} where
    Stretches-after : (s t : S) (r : Run S A) → G s t → Stretches G t r → Stretches G s r
    Stretches-after s t (done a u) h k = g.trans s t u h k
    Stretches-after s t (raised e u) h k = g.trans s t u h k
    Stretches-after s t (suspended w u c) h k = (g.trans s t u h k.0, k.1)
    Stretches-after s t (out_of_rounds u) h k = g.trans s t u h k

    pub Guarantees-pure : (a : A) → Guarantees G (pure a)
    unfolding pure
    Guarantees-pure a = record { at = g.refl_at }

    pub Guarantees-raise : (e : Exn) → Guarantees G (raise {A = A} e)
    unfolding raise
    Guarantees-raise e = record { at = g.refl_at }

    pub Guarantees-no_rounds : Guarantees G (no_rounds {A = A})
    unfolding no_rounds
    Guarantees-no_rounds = record { at = g.refl_at }

    pub Guarantees-gets : (f : S → A) → Guarantees G (gets f)
    unfolding gets
    Guarantees-gets f = record { at = g.refl_at }

  pub Guarantees-modify : (f : S → S) → ((s : S) → G s (f s)) → Guarantees G (modify f)
  unfolding modify
  Guarantees-modify f h = record { at = h }

  Stretches-answered : (w : Await) (r : Reply (Answer w)) (s : S) → Stretches G s (answered w r s)
  unfolding answered
  Stretches-answered w (got a) s = g.refl_at s
  Stretches-answered w cancel s = g.refl_at s

  pub Guarantees-await : (w : Await) → Guarantees G (await w)
  unfolding await
  Guarantees-await w = record { at = λ s. (g.refl_at s, Stretches-answered w) }

  module _ {A B : Type 0} where
    Stretches-continue :
        (s : S) (r : Run S A) (f : A → Task S B)
        → Stretches G s r
        → ((a : A) → Guarantees G (f a))
        → Stretches G s (continue r f)
    unfolding continue
    Stretches-continue s (done a t) f h k = Stretches-after s t (f a t) h ((k a).at t)
    Stretches-continue s (raised e t) f h k = h
    Stretches-continue s (suspended w t c) f h k =
        (h.0, λ r u. Stretches-continue u (c r u) f (h.1 r u) k)
    Stretches-continue s (out_of_rounds t) f h k = h

    pub Guarantees-bind :
        (m : Task S A) (f : A → Task S B)
        → Guarantees G m
        → ((a : A) → Guarantees G (f a))
        → Guarantees G (m >>= f)
    unfolding ◌>>=◌
    Guarantees-bind m f h k = record { at = λ s. Stretches-continue s (m s) f (h.at s) k }

  module _ {A : Type 0} where
    Stretches-handle :
        (s : S) (r : Run S A) (f : Exn → Task S A)
        → Stretches G s r
        → ((e : Exn) → Guarantees G (f e))
        → Stretches G s (handle r f)
    unfolding handle
    Stretches-handle s (done a t) f h k = h
    Stretches-handle s (raised e t) f h k = Stretches-after s t (f e t) h ((k e).at t)
    Stretches-handle s (suspended w t c) f h k =
        (h.0, λ r u. Stretches-handle u (c r u) f (h.1 r u) k)
    Stretches-handle s (out_of_rounds t) f h k = h

    pub Guarantees-catch :
        (m : Task S A) (f : Exn → Task S A)
        → Guarantees G m
        → ((e : Exn) → Guarantees G (f e))
        → Guarantees G (catch m f)
    unfolding catch
    Guarantees-catch m f h k = record { at = λ s. Stretches-handle s (m s) f (h.at s) k }

  module _ {A : Type 0} (f : Task S (Unit {0})) (k : Guarantees G f) where
    Guarantees-reraise : (e : Exn) (u : Unit {0}) → Guarantees G (reraise {A = A} e u)
    unfolding reraise
    Guarantees-reraise e u = record { at = g.refl_at }

    Guarantees-return : (a : A) (u : Unit {0}) → Guarantees G (return a u)
    unfolding return
    Guarantees-return a u = record { at = g.refl_at }

    Stretches-close : (s : S) (r : Run S A) → Stretches G s r → Stretches G s (close r f)
    unfolding close
    Stretches-close s (done a t) h =
        Stretches-after s t _ h
          (Stretches-continue t (f t) (return a) (k.at t) (Guarantees-return a))
    Stretches-close s (raised e t) h =
        Stretches-after s t _ h
          (Stretches-continue t (f t) (reraise e) (k.at t) (Guarantees-reraise e))
    Stretches-close s (suspended w t c) h = (h.0, λ r u. Stretches-close u (c r u) (h.1 r u))
    Stretches-close s (out_of_rounds t) h = h

  pub Guarantees-finally :
      {A : Type 0} (m : Task S A) (f : Task S (Unit {0}))
      → Guarantees G m
      → Guarantees G f
      → Guarantees G (finally m f)
  unfolding finally
  Guarantees-finally m f h k = record { at = λ s. Stretches-close f k s (m s) (h.at s) }

  pub Guarantees-when :
      (b : Bool) (m : Task S (Unit {0})) → Guarantees G m → Guarantees G (when b m)
  unfolding when
  Guarantees-when true m h = h
  Guarantees-when false m h = record { at = g.refl_at }

  pub Guarantees-branch :
      {A : Type 0} (b : Bool) (m n : Task S A)
      → Guarantees G m
      → Guarantees G n
      → Guarantees G (branch b m n)
  unfolding branch
  Guarantees-branch true m n h k = h
  Guarantees-branch false m n h k = k

pub ruleset guarantee_rules = (
  Guarantees-pure, Guarantees-raise, Guarantees-no_rounds, Guarantees-gets, Guarantees-modify,
  Guarantees-await, Guarantees-bind, Guarantees-catch, Guarantees-finally, Guarantees-when,
  Guarantees-branch,
)
