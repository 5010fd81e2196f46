-- ===== src/Config/Environment.antt =====
-- The `environment` of a program (supervice/config.py, `_parse_env`). A position in the text is the
-- text from there on.
pub mod Ends
pub mod RoundTrip
use supervice.Prelude.Dict.{Dict, assign}
use supervice.Prelude.{
  ℕ, zero, suc, ◌+◌, Bool, true, false, ◌&&◌, ◌||◌, Option, none, some, List, [], ◌∷◌, ◌++◌, Text,
  leb, ◌==◌, length, drop, if◌then◌else◌,
}

-- The characters that str.strip strips.
unfoldable pub is_space : ℕ → Bool
is_space c =
    (leb 9 c && leb c 13)
    || (leb 28 c && leb c 32)
    || c == 133
    || c == 160
    || c == 5760
    || (leb 8192 c && leb c 8202)
    || c == 8232
    || c == 8233
    || c == 8239
    || c == 8287
    || c == 12288

-- `while i < n and test(value[i]): i += 1`
unfoldable pub skip : (ℕ → Bool) → Text → Text
skip test [] = []
skip test (c ∷ cs) = if test c then skip test cs else c ∷ cs

-- A text that ends in spaces, without them.
unfoldable pub strip_end : Text → Text
unfolding is_space
strip_end [] = []
strip_end (c ∷ cs) = elim (strip_end cs) [
  | [] ↦ if is_space c then [] else c ∷ []
  | d ∷ ds ↦ c ∷ d ∷ ds
]

unfoldable pub strip : Text → Text
unfolding skip strip_end is_space
strip s = strip_end (skip is_space s)

-- The text up to the first `c`, and from there on.
unfoldable pub before : ℕ → Text → Text
before c [] = []
before c (d ∷ ds) = if d == c then [] else d ∷ before c ds

unfoldable pub from : ℕ → Text → Text
from c [] = []
from c (d ∷ ds) = if d == c then d ∷ ds else from c ds

unfoldable pub is_blank : ℕ → Bool
is_blank c = c == 32 || c == 9

unfoldable pub is_separator : ℕ → Bool
is_separator c = c == 44 || c == 32 || c == 9

unfoldable pub is_quote : ℕ → Bool
is_quote c = c == 34 || c == 39

abbrev Rest : Type 0
Rest = Text → Dict Text → Option (Dict Text)

quoted : Rest → Text → ℕ → Text → Dict Text → Option (Dict Text)
unfolding before from skip is_separator assign
quoted rest key quote s env =
    rest (skip is_separator (drop 1 (from quote s))) (assign key (before quote s) env)

unquoted : Rest → Text → Text → Dict Text → Option (Dict Text)
unfolding before from strip assign
unquoted rest key s env = rest (drop 1 (from 44 s)) (assign key (strip (before 44 s)) env)

-- From the value on.
value_at : Rest → Text → Text → Dict Text → Option (Dict Text)
unfolding quoted unquoted is_quote assign
value_at rest key [] env = some (assign key [] env)
value_at rest key (c ∷ cs) env =
    if is_quote c then quoted rest key c cs env else unquoted rest key (c ∷ cs) env

-- From the `=` on, if there is one.
equals_at : Rest → Text → Text → Dict Text → Option (Dict Text)
unfolding value_at strip skip is_blank
equals_at rest key [] env = some env
equals_at rest key (c ∷ cs) env = value_at rest (strip key) (skip is_blank cs) env

-- One round of the loop, before the rounds that `rest` stands for. Where the text is at its end,
-- there is no `=` either.
parse_round : Rest → Text → Dict Text → Option (Dict Text)
unfolding equals_at before from skip is_blank
parse_round rest s env = let t = skip is_blank s in equals_at rest (before 61 t) (from 61 t) env

-- At most as many rounds as are given: `none` if they were not enough.
unfoldable pub parse_loop : ℕ → Text → Dict Text → Option (Dict Text)
unfolding parse_round
parse_loop zero s env = none
parse_loop (suc n) s env = parse_round (parse_loop n) s env

-- `_parse_env`: every round but the last passes over a character at least.
unfoldable pub parse_env : Text → Option (Dict Text)
unfolding parse_loop
parse_env value = parse_loop (suc (length value)) value []
