-- ===== src/Task/Ensures.antt =====
-- What a coroutine ensures of its result at the moment it returns or raises, whatever other
-- coroutines do to the state while it is suspended: one rule for each way to build a task.
use supervice.Prelude.{◌≡◌, refl}
use supervice.Task.{
  Run, done, raised, suspended, out_of_rounds, Reply, got, cancel, Task, gets, modify, answered,
  await, continue, ◌>>=◌, handle, catch, pure,
}
use supervice.Task.Waits.{Await, Answer, Exn}

-- Whenever the run returns, `Q` holds of the result and the state; whenever it raises, `E` does.
abbrev pub Ends : {S A : Type 0} → (A → S → Type 0) → (Exn → S → Type 0) → Run S A → Type 0
Ends Q E (done a t) = Q a t
Ends Q E (raised e t) = E e t
Ends {S} Q E (suspended w t k) = (r : Reply (Answer w)) (u : S) → Ends Q E (k r u)
Ends Q E (out_of_rounds t) = Unit

-- So it is of a task that starts where `P` holds.
pub record Ensures {S A : Type 0} (P : S → Type 0) (Q : A → S → Type 0) (E : Exn → S → Type 0)
    (m : Task S A) : Type 0 where
  pub at : (s : S) → P s → Ends Q E (m s)

module _ {S : Type 0} {E : Exn → S → Type 0} where
  pub Ensures-await :
      (P : S → Type 0) (w : Await)
      → ((s : S) → E Exn.cancelled s)
      → Ensures P (λ a s. Unit {0}) E (await w)
  unfolding await answered
  Ensures-await P w h = record { at = λ s p. go }
    where
      go : (r : Reply (Answer w)) (u : S) → Ends (λ a s. Unit {0}) E (answered w r u)
      go (got a) u = tt
      go cancel u = h u

  module _ {A B : Type 0} where
    Ends-continue :
        (R : A → S → Type 0) (Q : B → S → Type 0) (r : Run S A) (f : A → Task S B)
        → Ends R E r
        → ((a : A) → Ensures (R a) Q E (f a))
        → Ends Q E (continue r f)
    unfolding continue
    Ends-continue R Q (done a t) f h k = (k a).at t h
    Ends-continue R Q (raised e t) f h k = h
    Ends-continue R Q (suspended w t c) f h k = λ r u. Ends-continue R Q (c r u) f (h r u) k
    Ends-continue R Q (out_of_rounds t) f h k = tt

    pub Ensures-bind :
        (P : S → Type 0) (R : A → S → Type 0) (Q : B → S → Type 0) (m : Task S A) (f : A → Task S B)
        → Ensures P R E m
        → ((a : A) → Ensures (R a) Q E (f a))
        → Ensures P Q E (m >>= f)
    unfolding ◌>>=◌
    Ensures-bind P R Q m f h k = record { at = λ s p. Ends-continue R Q (m s) f (h.at s p) k }

  -- A task whose ending says nothing of the result, such as one that other tasks may overtake.
  pub Ensures-any :
      {A : Type 0} (m : Task S A)
      → ((e : Exn) (s : S) → E e s)
      → Ensures (λ s. Unit {0}) (λ a s. Unit {0}) E m
  Ensures-any {A} m h = record { at = λ s p. go (m s) }
    where
      go : (r : Run S A) → Ends (λ a s. Unit {0}) E r
      go (done a t) = tt
      go (raised e t) = h e t
      go (suspended w t k) = λ r u. go (k r u)
      go (out_of_rounds t) = tt

module _ {S : Type 0} {E : Exn → S → Type 0} where
  pub Ensures-gets :
      {A : Type 0} (P : S → Type 0) (f : S → A) → Ensures P (λ a s. P s × (f s ≡ a)) E (gets f)
  unfolding gets
  Ensures-gets P f = record { at = λ s p. (p, refl) }

  pub Ensures-modify : (P : S → Type 0) (f : S → S) → Ensures P (λ u s. Unit {0}) E (modify f)
  unfolding modify
  Ensures-modify P f = record { at = λ s p. tt }

  pub Ensures-weaken :
      {A : Type 0} (P R : S → Type 0) (Q : A → S → Type 0) (m : Task S A)
      → ((s : S) → P s → R s)
      → Ensures R Q E m
      → Ensures P Q E m
  Ensures-weaken P R Q m h k = record { at = λ s p. k.at s (h s p) }

module _ {S A : Type 0} {E F : Exn → S → Type 0} where
  Ends-handle :
      (Q : A → S → Type 0) (r : Run S A) (h : Exn → Task S A)
      → Ends Q E r
      → ((e : Exn) → Ensures (E e) Q F (h e))
      → Ends Q F (handle r h)
  unfolding handle
  Ends-handle Q (done a t) h d k = d
  Ends-handle Q (raised e t) h d k = (k e).at t d
  Ends-handle Q (suspended w t c) h d k = λ r u. Ends-handle Q (c r u) h (d r u) k
  Ends-handle Q (out_of_rounds t) h d k = tt

  pub Ensures-catch :
      (P : S → Type 0) (Q : A → S → Type 0) (m : Task S A) (h : Exn → Task S A)
      → Ensures P Q E m
      → ((e : Exn) → Ensures (E e) Q F (h e))
      → Ensures P Q F (catch m h)
  unfolding catch
  Ensures-catch P Q m h d k = record { at = λ s p. Ends-handle Q (m s) h (d.at s p) k }

module _ {S A : Type 0} {E : Exn → S → Type 0} where
  pub Ensures-pure :
      (P : S → Type 0) (Q : A → S → Type 0) (a : A)
      → ((s : S) → P s → Q a s)
      → Ensures P Q E (pure a)
  unfolding pure
  Ensures-pure P Q a h = record { at = h }
