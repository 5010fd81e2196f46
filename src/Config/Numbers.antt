-- ===== src/Config/Numbers.antt =====
-- The numbers and truth values of a section (supervice/config.py, `getint` and `_parse_bool`).
-- `int` is modelled on decimal digits of ASCII.
use supervice.Prelude.{
  ℕ, ◌+◌, ◌-◌, ◌*◌, not, zero, suc, Bool, true, false, ◌&&◌, Option, none, some, [], ◌∷◌, Text,
  codes, leb, ◌==◌, if◌then◌else◌,
}
use supervice.Config.Environment.{strip}
use supervice.Config.Validation.{ℤ, pos, negsuc}
use supervice.Core.Reload.{mem}

unfoldable pub is_digit : ℕ → Bool
is_digit c = leb 48 c && leb c 57

-- The digits after a digit, with single underscores between digits: the number so far is `n`, and
-- `after` is true right after an underscore.
unfoldable pub digits_from : Bool → ℕ → Text → Option ℕ
unfolding is_digit
digits_from after n [] = if after then none else some n
digits_from after n (c ∷ cs) = elim (is_digit c) [
  | true ↦ digits_from false (n * 10 + (c - 48)) cs
  | false ↦ if c == 95 && not after then digits_from true n cs else none
]

unfoldable pub number : Text → Option ℕ
unfolding digits_from is_digit
number [] = none
number (c ∷ cs) = if is_digit c then digits_from false (c - 48) cs else none

unfoldable pub negative_of : ℕ → ℤ
negative_of zero = pos 0
negative_of (suc n) = negsuc n

positive : Option ℕ → Option ℤ
positive none = none
positive (some n) = some (pos n)

negated : Option ℕ → Option ℤ
unfolding negative_of
negated none = none
negated (some n) = some (negative_of n)

signed : Text → Option ℤ
unfolding number positive negated
signed [] = none
signed (c ∷ cs) =
    if c == 45
    then negated (number cs)
    else (if c == 43 then positive (number cs) else positive (number (c ∷ cs)))

-- `int`: `none` is its ValueError.
unfoldable pub parse_int : Text → Option ℤ
unfolding signed strip
parse_int s = signed (strip s)

lower_char : ℕ → ℕ
lower_char c = if leb 65 c && leb c 90 then c + 32 else c

-- str.lower, on the letters of ASCII. No other character becomes one of the letters that the words
-- compared with have.
unfoldable pub lower : Text → Text
unfolding lower_char
lower [] = []
lower (c ∷ cs) = lower_char c ∷ lower cs

-- `_parse_bool`
unfoldable pub parse_bool : Text → Bool
unfolding mem lower
parse_bool value = mem (lower value) (codes "true" ∷ codes "1" ∷ codes "yes" ∷ codes "on" ∷ [])
