-- ===== src/Attempt.antt =====
-- Code that changes a state and then returns or raises, with no other task in between: `do` blocks,
-- `try … finally` and `try … except` (supervice/core.py, rpc.py, logger.py, health.py).
use supervice.Prelude.{Bool, true, false}

pub data Ended {ℓ κ} (E : Type ℓ) (A : Type κ) : Type (ℓ ⊔ κ) where
  returned : A → Ended E A
  raised : E → Ended E A

abbrev pub Attempt {ℓ κ μ} : Type ℓ → Type κ → Type μ → Type (ℓ ⊔ κ ⊔ μ)
Attempt S E A = S → Ended E A × S

module _ {ℓ κ μ ν} {S : Type ℓ} {E : Type κ} {A : Type μ} {B : Type ν} where
  abbrev pub follow : Ended E A → S → (A → Attempt S E B) → Ended E B × S
  follow (returned a) s k = k a s
  follow (raised e) s k = (raised e, s)

  infixl 10 ◌>>=◌ ◌>>◌
  abbrev pub ◌>>=◌ : Attempt S E A → (A → Attempt S E B) → Attempt S E B
  (m >>= k) s = let (r, t) = m s in follow r t k

  abbrev pub ◌>>◌ : Attempt S E A → Attempt S E B → Attempt S E B
  m >> k = m >>= λ _. k

-- What the cleanup raises replaces how the body ended.
abbrev pub replaced {ℓ κ} : {E : Type ℓ} {A : Type κ} → Ended E (Unit {0}) → Ended E A → Ended E A
replaced (returned u) r = r
replaced (raised e) r = raised e

module _ {ℓ κ μ} {S : Type ℓ} {E : Type κ} {A : Type μ} where
  abbrev pub pure : A → Attempt S E A
  pure a s = (returned a, s)

  abbrev pub raise : E → Attempt S E A
  raise e s = (raised e, s)

  -- `try: m finally: cleanup`
  abbrev pub ensure : Attempt S E A → Attempt S E (Unit {0}) → Attempt S E A
  ensure m cleanup s = let (r, t) = m s in let (q, u) = cleanup t in (replaced q r, u)

module _ {ℓ κ} {S : Type ℓ} {E : Type κ} where
  abbrev pub modify : (S → S) → Attempt S E (Unit {0})
  modify f s = (returned tt, f s)

  -- `try: m except Exception: pass`
  abbrev pub suppress : Attempt S E (Unit {0}) → Attempt S E (Unit {0})
  suppress m s = let (r, t) = m s in (returned tt, t)

  -- An operation that raises an error unless it succeeds.
  abbrev pub require : Bool → E → Attempt S E (Unit {0})
  require true e s = (returned tt, s)
  require false e s = (raised e, s)
