-- ===== src/Core/Instances/Names.antt =====
-- The names of a program's instances (supervice/core.py).
use supervice.Prelude.{
  ℕ, zero, suc, ◌+◌, ◌-◌, ◌*◌, ◌/◌, ◌%◌, ◌≤◌, ◌<◌, ◌≡◌, refl, sym, ap, ◌∙◌, Bool, true, false, List,
  [], ◌∷◌, ◌++◌, Text, ltb, length, arith, drop, drop-append_length, Bool-cases, inl, inr,
}
use supervice.Core.Instances.{
  digits, two_digits, instance_name, names_from, instance_names, instance_config, instances_from,
}
use supervice.Models.{ProgramConfig}

-- The number that decimal digits write, read after the number `acc`.
unfoldable pub value : ℕ → Text → ℕ
value acc [] = acc
value acc (c ∷ cs) = value (acc * 10 + (c - 48)) cs

value-append : (acc : ℕ) (xs ys : Text) → value acc (xs ++ ys) ≡ value (value acc xs) ys
unfolding value
value-append acc [] ys = refl
value-append acc (c ∷ xs) ys = value-append (acc * 10 + (c - 48)) xs ys

value-last :
    (f n : ℕ)
    → value 0 (digits f (n / 10)) ≡ n / 10
    → 10 ≤ n
    → value 0 (digits f (n / 10) ++ (48 + n % 10) ∷ []) ≡ n
unfolding value
value-last f n ih h =
    value-append 0 (digits f (n / 10)) ((48 + n % 10) ∷ [])
    ∙ ap (λ (k : ℕ). k * 10 + (48 + n % 10 - 48)) ih
    ∙ omega arith

value-by :
    (b : Bool) (f n : ℕ)
    → ltb n 10 ≡ b
    → (10 ≤ n → value 0 (digits f (n / 10)) ≡ n / 10)
    → value 0 (elim b [ true ↦ (48 + n) ∷ [] | false ↦ digits f (n / 10) ++ (48 + n % 10) ∷ [] ])
      ≡ n
unfolding value
value-by true f n h ih = omega arith
value-by false f n h ih = let l : 10 ≤ n = ground arith in value-last f n (ih l) l

pub value-digits : (f n : ℕ) → n < f → value 0 (digits f n) ≡ n
unfolding digits
value-digits zero n h = absurd (omega arith)
value-digits (suc f) n h = value-by (ltb n 10) f n refl (λ l. value-digits f (n / 10) (omega arith))

pub value-two_digits : (n : ℕ) → value 0 (two_digits n) ≡ n
unfolding two_digits value
value-two_digits n = elim (Bool-cases (ltb n 10)) as (λ x. value 0 (two_digits n) ≡ n) [
  | inl e ↦ rw (e, value) (value-digits (suc n) n (omega arith))
  | inr e ↦ rw (e, value) (value-digits (suc n) n (omega arith))
]

-- The number that stands in an instance's name.
unfoldable pub number_in : ProgramConfig → Text → ℕ
unfolding value
number_in prog name = value 0 (drop 1 (drop (length prog.name) name))

-- In a program with several instances, the number of an instance is read back from its name, which
-- is the program's name, a colon and at least two decimal digits: so no two have the same name.
pub number_in-instance_name :
    (prog : ProgramConfig) (i : ℕ) → 1 < prog.numprocs → number_in prog (instance_name prog i) ≡ i
unfolding instance_name number_in
number_in-instance_name prog i h =
    let several : ltb 1 prog.numprocs ≡ true = ground arith in
    let e : instance_name prog i ≡ prog.name ++ (58 ∷ two_digits i) = rw several refl in
    ap (number_in prog) e
    ∙ ap (λ (s : Text). value 0 (drop 1 s)) (drop-append_length prog.name (58 ∷ two_digits i))
    ∙ value-two_digits i

abbrev pub names_of : List ProgramConfig → List Text
names_of [] = []
names_of (c ∷ cs) = c.name ∷ names_of cs

pub names_of-append :
    (cs ds : List ProgramConfig) → names_of (cs ++ ds) ≡ names_of cs ++ names_of ds
names_of-append [] ds = refl
names_of-append (c ∷ cs) ds = rw (names_of-append cs ds) refl

names_from-names_of :
    (prog : ProgramConfig) (i n : ℕ) → names_from prog i n ≡ names_of (instances_from prog i n)
unfolding names_from instances_from instance_config
names_from-names_of prog i zero = refl
names_from-names_of prog i (suc n) =
    ap (λ (ns : List Text). instance_name prog i ∷ ns) (names_from-names_of prog (suc i) n)

single_name :
    (prog : ProgramConfig) → ltb 1 prog.numprocs ≡ false → instance_name prog 0 ≡ prog.name
unfolding instance_name
single_name prog e = rw e refl

single_instance :
    (prog : ProgramConfig)
    → ltb 1 prog.numprocs ≡ false
    → prog.numprocs ≡ 1
    → prog.name ∷ [] ≡ names_of (instances_from prog 0 prog.numprocs)
unfolding instances_from instance_config
single_instance prog e h =
    sym (ap (λ (s : Text). s ∷ []) (single_name prog e))
    ∙ sym (ap (λ (n : ℕ). names_of (instances_from prog 0 n)) h)

-- The names that a program is said to have are the names of the instances made of it, if it has
-- instances at all.
pub instance_names-names_of :
    (prog : ProgramConfig)
    → 0 < prog.numprocs
    → instance_names prog ≡ names_of (instances_from prog 0 prog.numprocs)
unfolding instance_names
instance_names-names_of prog h = elim (Bool-cases (ltb 1 prog.numprocs)) [
  | inl e ↦ rw e (names_from-names_of prog 0 prog.numprocs)
  | inr e ↦ rw e (single_instance prog e (ground arith))
]
