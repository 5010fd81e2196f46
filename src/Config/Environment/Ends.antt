-- ===== src/Config/Environment/Ends.antt =====
-- Parsing an environment comes to an end (supervice/config.py, `_parse_env`).
use supervice.Prelude.Dict.{Dict}
use supervice.Prelude.{
  ℕ, zero, suc, ◌≤◌, ◌<◌, ◌≡◌, refl, Bool, true, false, Option, some, [], ◌∷◌, Text, length,
  length-drop, drop, if◌then◌else◌, arith,
}
use supervice.Config.Environment.{
  skip, strip, before, from, is_blank, is_separator, is_quote, Rest, quoted, unquoted, value_at,
  equals_at, parse_round, parse_loop, parse_env,
}

length-skip : (test : ℕ → Bool) (s : Text) → length (skip test s) ≤ length s
unfolding skip
length-skip test [] = omega arith
length-skip test (c ∷ cs) = ground (arith, length-skip test cs)

length-from : (c : ℕ) (s : Text) → length (from c s) ≤ length s
unfolding from
length-from c [] = omega arith
length-from c (d ∷ ds) = ground (arith, length-from c ds)

-- The rounds that follow end on every text shorter than `m`.
abbrev EndsBelow : ℕ → Rest → Type 0
EndsBelow m rest =
    (t : Text) (env : Dict Text) → length t < m → (d : Dict Text) × (rest t env ≡ some d)

quoted-ends :
    (m : ℕ) (rest : Rest) (key : Text) (q : ℕ) (s : Text) (env : Dict Text)
    → EndsBelow m rest
    → length s < m
    → (d : Dict Text) × (quoted rest key q s env ≡ some d)
unfolding quoted
quoted-ends m rest key q s env h l = h _ _ (
    omega (
      arith,
      length-skip is_separator (drop 1 (from q s)),
      length-drop 1 (from q s),
      length-from q s,
    ))

unquoted-ends :
    (m : ℕ) (rest : Rest) (key s : Text) (env : Dict Text)
    → EndsBelow m rest
    → length s < m
    → (d : Dict Text) × (unquoted rest key s env ≡ some d)
unfolding unquoted
unquoted-ends m rest key s env h l =
    h _ _ (omega (arith, length-drop 1 (from 44 s), length-from 44 s))

by-quote :
    (b : Bool) (x y : Option (Dict Text))
    → ((d : Dict Text) × (x ≡ some d))
    → ((d : Dict Text) × (y ≡ some d))
    → (d : Dict Text) × ((if b then x else y) ≡ some d)
by-quote true x y h k = h
by-quote false x y h k = k

value_at-ends :
    (m : ℕ) (rest : Rest) (key s : Text) (env : Dict Text)
    → EndsBelow m rest
    → length s < m
    → (d : Dict Text) × (value_at rest key s env ≡ some d)
unfolding value_at
value_at-ends m rest key [] env h l = (_, refl)
value_at-ends m rest key (c ∷ cs) env h l =
    by-quote (is_quote c) _ _ (quoted-ends m rest key c cs env h (omega arith))
      (unquoted-ends m rest key (c ∷ cs) env h l)

equals_at-ends :
    (m : ℕ) (rest : Rest) (key s : Text) (env : Dict Text)
    → EndsBelow m rest
    → length s ≤ m
    → (d : Dict Text) × (equals_at rest key s env ≡ some d)
unfolding equals_at
equals_at-ends m rest key [] env h l = (env, refl)
equals_at-ends m rest key (c ∷ cs) env h l =
    value_at-ends m rest (strip key) (skip is_blank cs) env h
      (omega (arith, length-skip is_blank cs))

parse_loop-ends :
    (n : ℕ) (s : Text) (env : Dict Text)
    → length s < n
    → (d : Dict Text) × (parse_loop n s env ≡ some d)
unfolding parse_loop parse_round
parse_loop-ends zero s env l = absurd (omega arith)
parse_loop-ends (suc n) s env l =
    let t = skip is_blank s in
    equals_at-ends n (parse_loop n) (before 61 t) (from 61 t) env (parse_loop-ends n)
      (omega (arith, length-from 61 t, length-skip is_blank s))

-- Parsing an environment comes to an end, whatever the text is.
pub parse_env-ends : (value : Text) → (d : Dict Text) × (parse_env value ≡ some d)
unfolding parse_env
parse_env-ends value = parse_loop-ends (suc (length value)) value [] (omega arith)
