-- ===== src/Config/Environment/RoundTrip.antt =====
-- An environment that is written with quotes is read back (supervice/config.py, `_parse_env`).
use supervice.Prelude.Dict.{Dict, assign, merge}
use supervice.Prelude.{
  ℕ, zero, suc, ◌≤◌, ◌<◌, ◌≡◌, refl, ◌∙◌, Bool, true, not, ◌&&◌, some, [], ◌∷◌, ◌++◌, Text, ◌==◌,
  length, length-append, arith,
}
use supervice.Config.Environment.{
  skip, strip, before, from, is_blank, is_separator, is_quote, Rest, quoted, value_at, equals_at,
  parse_round, parse_loop, parse_env,
}

unfoldable pub lacks : ℕ → Text → Bool
lacks c [] = true
lacks c (d ∷ ds) = not (d == c) && lacks c ds

unfoldable pub starts_plain : Text → Bool
unfolding is_separator
starts_plain [] = true
starts_plain (c ∷ cs) = not (is_separator c)

-- A name and a value that can be written: the name has no `=`, no spaces around it and no comma in
-- front, and the value has no quotation mark.
pub record IsWritable (k v : Text) : Type 0 where
  pub no_equals : lacks 61 k ≡ true
  pub stripped : strip k ≡ k
  pub plain : starts_plain k ≡ true
  pub no_quote : lacks 34 v ≡ true

abbrev pub AllWritable : Dict Text → Type 0
AllWritable [] = Unit {0}
AllWritable ((k, v) ∷ d) = IsWritable k v × AllWritable d

-- name="value", for each item, with a comma after it
unfoldable pub write_env : Dict Text → Text
write_env [] = []
write_env ((k, v) ∷ d) = k ++ (61 ∷ 34 ∷ (v ++ (34 ∷ 44 ∷ write_env d)))

before-append : (c : ℕ) (s t : Text) → lacks c s ≡ true → before c (s ++ (c ∷ t)) ≡ s
unfolding before lacks
before-append c [] t h = ground arith
before-append c (d ∷ ds) t h = ground (arith, before-append c ds t)

from-append : (c : ℕ) (s t : Text) → lacks c s ≡ true → from c (s ++ (c ∷ t)) ≡ c ∷ t
unfolding from lacks
from-append c [] t h = ground arith
from-append c (d ∷ ds) t h = ground (arith, from-append c ds t)

skip-blank : (k t : Text) → starts_plain k ≡ true → skip is_blank (k ++ (61 ∷ t)) ≡ k ++ (61 ∷ t)
unfolding skip is_blank starts_plain is_separator
skip-blank [] t h = refl
skip-blank (c ∷ cs) t h = ground arith

skip-separator :
    (k t : Text) → starts_plain k ≡ true → skip is_separator (k ++ (61 ∷ t)) ≡ k ++ (61 ∷ t)
unfolding skip starts_plain is_separator
skip-separator [] t h = refl
skip-separator (c ∷ cs) t h = ground arith

skip-write_env : (d : Dict Text) → AllWritable d → skip is_separator (write_env d) ≡ write_env d
unfolding write_env skip
skip-write_env [] h = refl
skip-write_env ((k, v) ∷ d) h = skip-separator k _ h.0.plain

round-item :
    (rest : Rest) (k v : Text) (d : Dict Text) (env : Dict Text)
    → IsWritable k v
    → AllWritable d
    → parse_round rest (write_env ((k, v) ∷ d)) env ≡ rest (write_env d) (assign k v env)
unfolding parse_round equals_at value_at quoted write_env is_quote skip is_blank is_separator
round-item rest k v d env h a =
    let w : Text = 34 ∷ (v ++ (34 ∷ 44 ∷ write_env d)) in
    rw
      (
        skip-blank k w h.plain,
        before-append 61 k w h.no_equals,
        from-append 61 k w h.no_equals,
        h.stripped,
        before-append 34 v (44 ∷ write_env d) h.no_quote,
        from-append 34 v (44 ∷ write_env d) h.no_quote,
        skip-write_env d a,
      )
      refl

nothing_left : (rest : Rest) (env : Dict Text) → parse_round rest (write_env []) env ≡ some env
unfolding parse_round equals_at write_env skip from before
nothing_left rest env = refl

parse_loop-write_env :
    (n : ℕ) (d env : Dict Text)
    → AllWritable d
    → length d < n
    → parse_loop n (write_env d) env ≡ some (merge env d)
unfolding parse_loop merge
parse_loop-write_env zero d env h l = absurd (omega arith)
parse_loop-write_env (suc n) [] env h l = nothing_left (parse_loop n) env
parse_loop-write_env (suc n) ((k, v) ∷ d) env h l =
    round-item (parse_loop n) k v d env h.0 h.1
    ∙ parse_loop-write_env n d (assign k v env) h.1 (omega arith)

length-write_env : (d : Dict Text) → length d ≤ length (write_env d)
unfolding write_env
length-write_env [] = omega arith
length-write_env ((k, v) ∷ d) = omega (
  arith,
  length-append k (61 ∷ 34 ∷ (v ++ (34 ∷ 44 ∷ write_env d))),
  length-append v (34 ∷ 44 ∷ write_env d),
  length-write_env d,
)

-- What was written with quotes is read back: the items, of which a later one of the same name
-- replaces an earlier one.
pub parse_env-write_env :
    (d : Dict Text) → AllWritable d → parse_env (write_env d) ≡ some (merge [] d)
unfolding parse_env
parse_env-write_env d h =
    parse_loop-write_env (suc (length (write_env d))) d [] h (omega (arith, length-write_env d))
