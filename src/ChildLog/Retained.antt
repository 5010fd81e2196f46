-- ===== src/ChildLog/Retained.antt =====
-- What a rotated log retains (supervice/process.py, `_ChildLogWriter`).
use supervice.Prelude.{
  ℕ, zero, suc, ◌+◌, ◌≤◌, ◌<◌, ◌≡◌, refl, sym, ap, ◌∙◌, ◌⊎◌, Option, none, some, [], ◌++◌, arith,
  ◌==◌, if◌then◌else◌, length, drop, length-append, append_assoc, append-nil, drop-append_length,
}
use supervice.ChildLog.{Bytes, Files, bytes, put, LogWriter, shift, move_up}

-- The backups n to 1, the oldest first.
unfoldable pub span : ℕ → Files → Bytes
span zero f = []
span (suc n) f = bytes (f (suc n)) ++ span n f

-- The files n + 1 to 2.
unfoldable pub span_up : ℕ → Files → Bytes
span_up zero f = []
span_up (suc n) f = bytes (f (suc (suc n))) ++ span_up n f

span-put_above : (n i : ℕ) (o : Option Bytes) (f : Files) → n < i → span n (put i o f) ≡ span n f
unfolding span put
span-put_above zero i o f h = refl
span-put_above (suc n) i o f h = ground (arith, span-put_above n i o f (omega arith))

pub span-put_live : (n : ℕ) (o : Option Bytes) (f : Files) → span n (put 0 o f) ≡ span n f
unfolding span put
span-put_live zero o f = refl
span-put_live (suc n) o f = ground (arith, span-put_live n o f)

span-move_up : (n : ℕ) (o : Option Bytes) (f : Files) → span n (move_up (suc n) o f) ≡ span n f
unfolding move_up
span-move_up n none f = refl
span-move_up n (some bs) f =
    span-put_above n (suc n) none (put (suc (suc n)) (some bs) f) (omega arith)
    ∙ span-put_above n (suc (suc n)) (some bs) f (omega arith)

move_up-at :
    (n : ℕ) (o : Option Bytes) (f : Files) → f (suc n) ≡ o → move_up (suc n) o f (suc n) ≡ none
unfolding move_up put
move_up-at n none f h = h
move_up-at n (some bs) f h = ground arith

move_up-next :
    (n : ℕ) (o : Option Bytes) (f : Files)
    → move_up (suc n) o f (suc (suc n)) ≡ elim o [ none ↦ f (suc (suc n)) | some bs ↦ some bs ]
unfolding move_up put
move_up-next n none f = refl
move_up-next n (some bs) f = ground arith

move_up-above :
    (n k : ℕ) (o : Option Bytes) (f : Files) → suc (suc n) < k → move_up (suc n) o f k ≡ f k
unfolding move_up put
move_up-above n k none f h = refl
move_up-above n k (some bs) f h = ground arith

move_up-live : (n : ℕ) (o : Option Bytes) (f : Files) → move_up (suc n) o f 0 ≡ f 0
unfolding move_up put
move_up-live n none f = refl
move_up-live n (some bs) f = ground arith

-- The loop changes no file above n + 1, and not the live file.
shift-above : (n k : ℕ) (f : Files) → suc n < k → shift n f k ≡ f k
unfolding shift
shift-above zero k f h = refl
shift-above (suc n) k f h =
    shift-above n k (move_up (suc n) (f (suc n)) f) (omega arith)
    ∙ move_up-above n k (f (suc n)) f h

pub shift-live : (n : ℕ) (f : Files) → shift n f 0 ≡ f 0
unfolding shift
shift-live zero f = refl
shift-live (suc n) f = shift-live n (move_up (suc n) (f (suc n)) f) ∙ move_up-live n (f (suc n)) f

bytes-next :
    (o p : Option Bytes) → p ≡ none → bytes (elim o [ none ↦ p | some bs ↦ some bs ]) ≡ bytes o
bytes-next none p h = ap bytes h
bytes-next (some bs) p h = refl

-- If there is no file n + 1, the loop moves every backup up by one and loses nothing.
span_up-shift : (n : ℕ) (f : Files) → f (suc n) ≡ none → span_up n (shift n f) ≡ span n f
unfolding shift span span_up
span_up-shift zero f h = refl
span_up-shift (suc n) f h =
    let g = move_up (suc n) (f (suc n)) f in
    let top : bytes (shift n g (suc (suc n))) ≡ bytes (f (suc n)) =
      ap bytes (shift-above n (suc (suc n)) g (omega arith) ∙ move_up-next n (f (suc n)) f)
      ∙ bytes-next (f (suc n)) (f (suc (suc n))) h in
    let rest : span_up n (shift n g) ≡ span n f =
      span_up-shift n g (move_up-at n (f (suc n)) f refl) ∙ span-move_up n (f (suc n)) f in
    rw (top, rest)

dropped_oldest :
    (o p q : Option Bytes) (u s : Bytes)
    → q ≡ elim o [ none ↦ p | some bs ↦ some bs ]
    → u ≡ s
    → (k : ℕ) × (bytes q ++ u ≡ drop k (bytes p ++ (bytes o ++ s)))
      × (k ≤ length (bytes p ++ (bytes o ++ s)))
dropped_oldest none p q u s h e = (0, rw (h, e) refl, omega arith)
dropped_oldest (some x) p q u s h e = (
  length (bytes p),
  rw (h, e) (sym (drop-append_length (bytes p) (x ++ s))),
  omega (arith, length-append {0} (bytes p) (x ++ s)),
)

-- The loop of `_rotate` loses at most the oldest backup.
pub span_up-shift-drop :
    (n : ℕ) (f : Files)
    → (k : ℕ) × (span_up n (shift n f) ≡ drop k (span (suc n) f)) × (k ≤ length (span (suc n) f))
unfolding shift span span_up
span_up-shift-drop zero f = (
  length (bytes (f 1)),
  sym (drop-append_length (bytes (f 1)) []),
  omega (arith, length-append {0} (bytes (f 1)) []),
)
span_up-shift-drop (suc m) f =
    let g = move_up (suc m) (f (suc m)) f in
    let top : shift m g (suc (suc m))
        ≡ elim (f (suc m)) [ none ↦ f (suc (suc m)) | some bs ↦ some bs ] =
      shift-above m (suc (suc m)) g (omega arith) ∙ move_up-next m (f (suc m)) f in
    let rest : span_up m (shift m g) ≡ span m f =
      span_up-shift m g (move_up-at m (f (suc m)) f refl) ∙ span-move_up m (f (suc m)) f in
    dropped_oldest (f (suc m)) (f (suc (suc m))) (shift m g (suc (suc m))) (span_up m (shift m g))
      (span m f) top rest

pub span-put_first :
    (b : ℕ) (x : Bytes) (g : Files) → span (suc b) (put 1 (some x) g) ≡ span_up b g ++ x
unfolding span span_up put
span-put_first zero x g = append-nil x
span-put_first (suc b) x g =
    let above : put 1 (some x) g (suc (suc b)) ≡ g (suc (suc b)) = ground arith in
    rw (above, span-put_first b x g) (sym (append_assoc (bytes (g (suc (suc b)))) (span_up b g) x))

-- What is in the files, in the order in which it was written.
unfoldable pub retained : LogWriter → Bytes
retained w = span w.backups w.files ++ bytes (w.files 0)

-- The size is that of the live file.
pub record IsConsistent (w : LogWriter) : Type 0 where
  pub size_is : w.size ≡ length (bytes (w.files 0))

-- `new` is `old` without its oldest bytes, of which at least `spare` remain if any were lost.
pub record Forgets (spare : ℕ) (old new : Bytes) : Type 0 where
  pub lost : ℕ
  pub newest : new ≡ drop lost old
  pub kept : (lost ≡ 0) ⊎ (spare + lost ≤ length old)

-- The bytes that a rotation leaves at least: a full file, if there are backups.
unfoldable pub spare : LogWriter → ℕ
spare w = if w.backups == 0 then 0 else w.maxbytes
