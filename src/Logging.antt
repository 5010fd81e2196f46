-- ===== src/Logging.antt =====
-- The set-up of the logger (supervice/logger.py, `setup_logger`), on Python's logging: the logger
-- "supervice" has a level and handlers.
use supervice.Attempt.{Ended, returned, raised, Attempt, ◌>>◌, raise, modify, require}
use supervice.Prelude.{
  ℕ, ◌≡◌, refl, Bool, true, Option, none, some, List, [], ◌∷◌, ◌++◌, Text, codes, ltb, text_eq,
  if◌then◌else◌, Bool-cases, inl, inr,
}

pub data Handler : Type 0 where
  rotating : Text → ℕ → ℕ → Handler
  plain_file : Text → Handler
  to_stdout : Handler

pub record Logger : Type 0 where
  pub level : ℕ
  pub handlers : List Handler

-- The ValueError of a level that logging does not have, or what opening the file raises.
pub data LogError : Type 0 where
  invalid_level not_opened : LogError

find_level : Text → List (Text × ℕ) → Option ℕ
find_level t [] = none
find_level t ((name, n) ∷ ls) =
    let rest = find_level t ls in if text_eq name t then some n else rest

-- The levels of logging: getattr(logging, name, None), where it is an int.
abbrev levels : List (Text × ℕ)
levels =
    (codes "DEBUG", 10)
    ∷ (codes "INFO", 20)
    ∷ (codes "WARNING", 30)
    ∷ (codes "WARN", 30)
    ∷ (codes "ERROR", 40)
    ∷ (codes "CRITICAL", 50)
    ∷ (codes "FATAL", 50)
    ∷ (codes "NOTSET", 0)
    ∷ []

unfoldable pub numeric_level : Text → Option ℕ
unfolding find_level
numeric_level name = find_level name levels

-- The handler for a log file, or for none, which is the empty text.
unfoldable pub handler_for : Text → ℕ → ℕ → Handler
handler_for [] maxbytes backups = to_stdout
handler_for (c ∷ cs) maxbytes backups =
    if ltb 0 maxbytes then rotating (c ∷ cs) maxbytes backups else plain_file (c ∷ cs)

-- Whether a handler can be made: `opens` is what the file system says of the file.
makes : (Text → Bool) → Handler → Bool
makes opens (rotating path maxbytes backups) = opens path
makes opens (plain_file path) = opens path
makes opens to_stdout = true

add_handler : Handler → Logger → Logger
add_handler h l = record l { handlers = l.handlers ++ h ∷ [] }

clear_handlers : Logger → Logger
clear_handlers l = record l { handlers = [] }

set_up : (Text → Bool) → Option ℕ → Handler → Attempt Logger LogError (Unit {0})
unfolding makes add_handler clear_handlers
set_up opens none h = raise invalid_level
set_up opens (some n) h = do
  modify (λ (l : Logger). record l { level = n })
  modify clear_handlers
  require (makes opens h) not_opened
  modify (add_handler h)

-- `setup_logger`; `upper` is str.upper.
unfoldable pub setup_logger :
    (Text → Bool) → (Text → Text) → Text → Text → ℕ → ℕ → Attempt Logger LogError (Unit {0})
unfolding set_up numeric_level handler_for
setup_logger opens upper level logfile maxbytes backups =
    set_up opens (numeric_level (upper level)) (handler_for logfile maxbytes backups)

-- The logger after a set-up: it has the one handler that was asked for, or, if its file could not be
-- opened, none; a level that does not exist leaves it as it was.
abbrev pub IsSetUp : Option ℕ → Handler → Logger → Ended LogError (Unit {0}) × Logger → Type 0
IsSetUp o h l (returned u, m) = (o ≡ some m.level) × (m.handlers ≡ h ∷ [])
IsSetUp o h l (raised invalid_level, m) = (o ≡ none) × (m ≡ l)
IsSetUp o h l (raised not_opened, m) = (o ≡ some m.level) × (m.handlers ≡ [])

set_up-IsSetUp :
    (opens : Text → Bool) (o : Option ℕ) (h : Handler) (l : Logger)
    → IsSetUp o h l (set_up opens o h l)
unfolding set_up makes add_handler clear_handlers
set_up-IsSetUp opens none h l = (refl, refl)
set_up-IsSetUp opens (some n) to_stdout l = (refl, refl)
set_up-IsSetUp opens (some n) (plain_file p) l = elim (Bool-cases (opens p)) [
  | inl e ↦ rw e (refl, refl)
  | inr e ↦ rw e (refl, refl)
]
set_up-IsSetUp opens (some n) (rotating p b k) l = elim (Bool-cases (opens p)) [
  | inl e ↦ rw e (refl, refl)
  | inr e ↦ rw e (refl, refl)
]

pub setup_logger-IsSetUp :
    (opens : Text → Bool) (upper : Text → Text) (level logfile : Text) (maxbytes backups : ℕ)
    (l : Logger)
    → IsSetUp
        (numeric_level (upper level))
        (handler_for logfile maxbytes backups)
        l
        (setup_logger opens upper level logfile maxbytes backups l)
unfolding setup_logger
setup_logger-IsSetUp opens upper level logfile maxbytes backups l =
    set_up-IsSetUp opens (numeric_level (upper level)) (handler_for logfile maxbytes backups) l

makes-true :
    (opens : Text → Bool) (h : Handler) → ((p : Text) → opens p ≡ true) → makes opens h ≡ true
unfolding makes
makes-true opens (rotating p b k) all = all p
makes-true opens (plain_file p) all = all p
makes-true opens to_stdout all = refl

-- If every file can be opened, a set-up to a level that exists returns.
pub setup_logger-returned :
    (opens : Text → Bool) (upper : Text → Text) (level logfile : Text) (maxbytes backups : ℕ)
    (l : Logger) (n : ℕ)
    → ((p : Text) → opens p ≡ true)
    → numeric_level (upper level) ≡ some n
    → setup_logger opens upper level logfile maxbytes backups l
      ≡ (returned tt, record { level = n; handlers = handler_for logfile maxbytes backups ∷ [] })
unfolding setup_logger set_up add_handler clear_handlers
setup_logger-returned opens upper level logfile maxbytes backups l n all h =
    rw (h, makes-true opens (handler_for logfile maxbytes backups) all) refl
