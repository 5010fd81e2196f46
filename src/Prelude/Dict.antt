-- ===== src/Prelude/Dict.antt =====
-- Python's `dict` with text keys, as an association list in the order of insertion.
use mathlib.Core.Path.{◌≡◌, refl}
use mathlib.Core.Option.{Option, none, some}
use mathlib.Core.List.{List, [], ◌∷◌}
use native.Mathlib.Omega.{arith}
use supervice.Prelude.Tests.{if◌then◌else◌}
use supervice.Prelude.Chars.{Text, text_eq, text_eq_iff}

abbrev pub Dict {ℓ} : Type ℓ → Type ℓ
Dict V = List (Text × V)

module _ {ℓ} {V : Type ℓ} where
  -- d.get(k)
  unfoldable pub lookup : Text → Dict V → Option V
  lookup k [] = none
  lookup k ((j, v) ∷ d) = if text_eq j k then some v else lookup k d

  -- d[k] = v: a key that is there keeps its place.
  unfoldable pub assign : Text → V → Dict V → Dict V
  assign k v [] = (k, v) ∷ []
  assign k v ((j, w) ∷ d) = if text_eq j k then (j, v) ∷ d else (j, w) ∷ assign k v d

  -- del d[k]
  unfoldable pub remove : Text → Dict V → Dict V
  remove k [] = []
  remove k ((j, w) ∷ d) = let rest = remove k d in if text_eq j k then rest else (j, w) ∷ rest

  unfoldable pub keys : Dict V → List Text
  keys [] = []
  keys ((k, v) ∷ d) = k ∷ keys d

  -- {**d, **e}
  unfoldable pub merge : Dict V → Dict V → Dict V
  unfolding assign
  merge d [] = d
  merge d ((k, v) ∷ e) = merge (assign k v d) e

  pub lookup-assign :
      (k j : Text) (v : V) (d : Dict V)
      → lookup j (assign k v d) ≡ (if text_eq k j then some v else lookup j d)
  unfolding lookup assign
  lookup-assign k j v [] = refl
  lookup-assign k j v ((i, w) ∷ d) =
      ground (arith, text_eq_iff k j, text_eq_iff i k, text_eq_iff i j, lookup-assign k j v d)

  pub lookup-remove :
      (k j : Text) (d : Dict V) → lookup j (remove k d) ≡ (if text_eq k j then none else lookup j d)
  unfolding lookup remove
  lookup-remove k j [] = ground arith
  lookup-remove k j ((i, w) ∷ d) =
      ground (arith, text_eq_iff k j, text_eq_iff i k, text_eq_iff i j, lookup-remove k j d)
