-- ===== src/Client/Uptime.antt =====
-- Uptimes as the client prints them (supervice/client.py, `_format_uptime`).
use supervice.Prelude.{
  ℕ, zero, suc, ◌+◌, ◌-◌, ◌*◌, ◌/◌, ◌%◌, ◌<◌, ◌≡◌, refl, sym, ap, ◌∙◌, Bool, true, false, Option,
  none, some, [], ◌∷◌, ◌++◌, Text, codes, ltb, ◌==◌, if◌then◌else◌, arith, Bool-cases, inl, inr,
  append-nil, append_assoc,
}
use supervice.Core.Instances.Names.{value, value-digits, value-two_digits}
use supervice.Core.Instances.{digits, two_digits}

-- "%d" % n
unfoldable pub decimal : ℕ → Text
unfolding digits
decimal n = digits (suc n) n

clock_text : ℕ → ℕ → ℕ → Text
unfolding decimal two_digits
clock_text hours minutes secs =
    if ltb 0 hours
    then decimal hours ++ (58 ∷ two_digits minutes) ++ (58 ∷ two_digits secs)
    else decimal minutes ++ (58 ∷ two_digits secs)

unfoldable pub format_uptime : Option ℕ → Text
unfolding clock_text
format_uptime none = codes "-"
format_uptime (some seconds) =
    clock_text (seconds / 3600) (seconds % 3600 / 60) (seconds % 3600 % 60)

-- The seconds that a clock's text stands for: parts of sixty with colons between them, after the
-- parts `acc` and the digits `n` of one.
unfoldable pub seconds_in : ℕ → ℕ → Text → ℕ
seconds_in acc n [] = acc * 60 + n
seconds_in acc n (c ∷ cs) =
    if c == 58 then seconds_in (acc * 60 + n) 0 cs else seconds_in acc (n * 10 + (c - 48)) cs

-- Characters that are no colon.
abbrev IsPlain : Text → Type 0
IsPlain [] = Unit {0}
IsPlain (c ∷ cs) = ((c == 58) ≡ false) × IsPlain cs

seconds_in-plain :
    (xs ys : Text) (acc n : ℕ)
    → IsPlain xs
    → seconds_in acc n (xs ++ ys) ≡ seconds_in acc (value n xs) ys
unfolding seconds_in value
seconds_in-plain [] ys acc n h = refl
seconds_in-plain (c ∷ xs) ys acc n (h, t) = rw h (seconds_in-plain xs ys acc (n * 10 + (c - 48)) t)

IsPlain-append : (xs ys : Text) → IsPlain xs → IsPlain ys → IsPlain (xs ++ ys)
IsPlain-append [] ys h k = k
IsPlain-append (c ∷ xs) ys (h, t) k = (h, IsPlain-append xs ys t k)

digit-IsPlain : (n : ℕ) → n < 10 → ((48 + n) == 58) ≡ false
digit-IsPlain n h = ground arith

IsPlain-by :
    (b : Bool) (n : ℕ) (ds : Text)
    → ltb n 10 ≡ b
    → IsPlain ds
    → IsPlain (elim b [ true ↦ (48 + n) ∷ [] | false ↦ ds ++ (48 + n % 10) ∷ [] ])
IsPlain-by true n ds h k = (digit-IsPlain n (ground arith), tt)
IsPlain-by false n ds h k =
    IsPlain-append ds ((48 + n % 10) ∷ []) k (digit-IsPlain (n % 10) (omega arith), tt)

digits-IsPlain : (f n : ℕ) → IsPlain (digits f n)
unfolding digits
digits-IsPlain zero n = tt
digits-IsPlain (suc f) n =
    IsPlain-by (ltb n 10) n (digits f (n / 10)) refl (digits-IsPlain f (n / 10))

two_digits-IsPlain : (n : ℕ) → IsPlain (two_digits n)
unfolding two_digits
two_digits-IsPlain n = elim (Bool-cases (ltb n 10)) [
  | inl e ↦ rw e (refl, digits-IsPlain (suc n) n)
  | inr e ↦ rw e (digits-IsPlain (suc n) n)
]

seconds_in-part :
    (xs ys : Text) (acc : ℕ)
    → IsPlain xs
    → seconds_in acc 0 (xs ++ (58 ∷ ys)) ≡ seconds_in (acc * 60 + value 0 xs) 0 ys
unfolding seconds_in
seconds_in-part xs ys acc h = seconds_in-plain xs (58 ∷ ys) acc 0 h

seconds_in-last : (acc s : ℕ) → seconds_in acc 0 (two_digits s) ≡ acc * 60 + s
unfolding seconds_in
seconds_in-last acc s =
    ap (seconds_in acc 0) (sym (append-nil (two_digits s)))
    ∙ seconds_in-plain (two_digits s) [] acc 0 (two_digits-IsPlain s)
    ∙ ap (λ (n : ℕ). acc * 60 + n) (value-two_digits s)

minutes_last :
    (m s acc : ℕ) → seconds_in acc 0 (two_digits m ++ (58 ∷ two_digits s)) ≡ (acc * 60 + m) * 60 + s
minutes_last m s acc =
    seconds_in-part (two_digits m) (two_digits s) acc (two_digits-IsPlain m)
    ∙ ap (λ (n : ℕ). seconds_in (acc * 60 + n) 0 (two_digits s)) (value-two_digits m)
    ∙ seconds_in-last (acc * 60 + m) s

decimal_first : (n : ℕ) (ys : Text) → seconds_in 0 0 (decimal n ++ (58 ∷ ys)) ≡ seconds_in n 0 ys
unfolding decimal
decimal_first n ys =
    seconds_in-part (digits (suc n) n) ys 0 (digits-IsPlain (suc n) n)
    ∙ ap (λ (k : ℕ). seconds_in k 0 ys)
        (let e = value-digits (suc n) n (omega arith) in omega arith)

clock_text-by :
    (b : Bool) (h m s : ℕ)
    → ltb 0 h ≡ b
    → seconds_in 0 0 (
        if b
        then decimal h ++ (58 ∷ two_digits m) ++ (58 ∷ two_digits s)
        else decimal m ++ (58 ∷ two_digits s))
      ≡ (if b then (h * 60 + m) * 60 + s else m * 60 + s)
clock_text-by true h m s e =
    ap (seconds_in 0 0) (append_assoc (decimal h) (58 ∷ two_digits m) (58 ∷ two_digits s))
    ∙ decimal_first h (two_digits m ++ (58 ∷ two_digits s))
    ∙ minutes_last m s h
clock_text-by false h m s e = decimal_first m (two_digits s) ∙ seconds_in-last m s

total :
    (b : Bool) (n : ℕ)
    → ltb 0 (n / 3600) ≡ b
    → (if b
        then (n / 3600 * 60 + n % 3600 / 60) * 60 + n % 3600 % 60
        else n % 3600 / 60 * 60 + n % 3600 % 60)
      ≡ n
total true n h = omega arith
total false n h = let small : n / 3600 ≡ 0 = ground arith in omega arith

-- The seconds of an uptime are read back from how it is printed.
pub seconds_in-format_uptime : (n : ℕ) → seconds_in 0 0 (format_uptime (some n)) ≡ n
unfolding format_uptime clock_text
seconds_in-format_uptime n =
    clock_text-by (ltb 0 (n / 3600)) (n / 3600) (n % 3600 / 60) (n % 3600 % 60) refl
    ∙ total (ltb 0 (n / 3600)) n refl
