-- ===== src/Task.antt =====
-- asyncio tasks, as supervice/process.py uses them: a coroutine runs on the shared state up to its
-- next `await` that suspends, and is resumed there with an answer, on the state as it then is.
pub mod Waits
pub mod Guarantee
pub mod Ensures
pub mod Alone
use supervice.Prelude.{ℕ, Bool, true, false, Option, none, some}
use supervice.Task.Waits.{Await, Answer, Exn, cancelled}

-- How a suspended coroutine is resumed: with an answer, or by CancelledError.
pub data Reply (A : Type 0) : Type 0 where
  got : A → Reply A
  cancel : Reply A

-- What a coroutine does when it runs: it returns or raises, in a state, or it suspends. A loop of
-- the model that has used up its rounds ends in `out_of_rounds`.
pub data Run (S A : Type 0) : Type 0 where
  done : A → S → Run S A
  raised : Exn → S → Run S A
  suspended : (w : Await) → S → (Reply (Answer w) → S → Run S A) → Run S A
  out_of_rounds : S → Run S A

abbrev pub Task : Type 0 → Type 0 → Type 0
Task S A = S → Run S A

module _ {S A : Type 0} where
  unfoldable pub pure : A → Task S A
  pure a s = done a s

  unfoldable pub raise : Exn → Task S A
  raise e s = raised e s

  -- A round of a loop that the model does not have any more.
  unfoldable pub no_rounds : Task S A
  no_rounds s = out_of_rounds s

  unfoldable pub gets : (S → A) → Task S A
  gets f s = done (f s) s

module _ {S : Type 0} where
  unfoldable pub modify : (S → S) → Task S (Unit {0})
  modify f s = done tt (f s)

  unfoldable pub answered : (w : Await) → Reply (Answer w) → S → Run S (Answer w)
  answered w (got a) s = done a s
  answered w cancel s = raised cancelled s

  -- `await` on something that suspends
  unfoldable pub await : (w : Await) → Task S (Answer w)
  unfolding answered
  await w s = suspended w s (answered w)

module _ {S A B : Type 0} where
  unfoldable pub continue : Run S A → (A → Task S B) → Run S B
  continue (done a s) f = f a s
  continue (raised e s) f = raised e s
  continue (suspended w s k) f = suspended w s (λ r t. continue (k r t) f)
  continue (out_of_rounds s) f = out_of_rounds s

  infixl 10 ◌>>=◌ ◌>>◌
  unfoldable pub ◌>>=◌ : Task S A → (A → Task S B) → Task S B
  unfolding continue pure raise gets modify await no_rounds
  ◌>>=◌ m f s = continue (m s) f

  abbrev pub ◌>>◌ : Task S A → Task S B → Task S B
  m >> n = m >>= λ _. n

module _ {S A : Type 0} where
  pub handle : Run S A → (Exn → Task S A) → Run S A
  handle (done a s) h = done a s
  handle (raised e s) h = h e s
  handle (suspended w s k) h = suspended w s (λ r t. handle (k r t) h)
  handle (out_of_rounds s) h = out_of_rounds s

  -- `try: m except ...: h`, where h raises what it does not handle again
  unfoldable pub catch : Task S A → (Exn → Task S A) → Task S A
  unfolding handle
  catch m h s = handle (m s) h

  reraise : Exn → Unit {0} → Task S A
  unfolding raise
  reraise e _ = raise e

  return : A → Unit {0} → Task S A
  unfolding pure
  return a _ = pure a

  pub close : Run S A → Task S (Unit {0}) → Run S A
  unfolding continue reraise return
  close (done a s) f = continue (f s) (return a)
  close (raised e s) f = continue (f s) (reraise e)
  close (suspended w s k) f = suspended w s (λ r t. close (k r t) f)
  close (out_of_rounds s) f = out_of_rounds s

  -- `try: m finally: f`
  unfoldable pub finally : Task S A → Task S (Unit {0}) → Task S A
  unfolding close
  finally m f s = close (m s) f

module _ {S : Type 0} where
  -- `if b: m`
  unfoldable pub when : Bool → Task S (Unit {0}) → Task S (Unit {0})
  unfolding pure
  when true m = m
  when false m = pure tt

module _ {S A : Type 0} where
  -- `if b: m else: n`
  unfoldable pub branch : Bool → Task S A → Task S A → Task S A
  branch true m n = m
  branch false m n = n
