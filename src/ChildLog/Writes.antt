-- ===== src/ChildLog/Writes.antt =====
-- Writing to a rotated log: it comes to an end, keeps the live file within its bound, and loses the
-- oldest bytes only (supervice/process.py, `_ChildLogWriter`).
use mathlib.Core.Path.{subst}
use supervice.Prelude.{
  ℕ, zero, suc, ◌+◌, ◌-◌, ◌≤◌, ◌<◌, ◌≡◌, refl, sym, ap, ◌∙◌, ◌⊎◌, inl, inr, Bool, true, false,
  Option, none, some, [], ◌∷◌, ◌++◌, arith, leb, ◌==◌, if◌then◌else◌, length, take, drop,
  length-append, length-take, length-drop, append_assoc, append-nil, drop-append,
  drop-append_length, drop-drop, take-append-drop,
}
use supervice.ChildLog.Retained.{
  span, span_up, span-put_live, span-put_first, span_up-shift-drop, shift-live, retained,
  IsConsistent, Forgets, spare,
}
use supervice.ChildLog.{
  Bytes, Files, bytes, put, LogWriter, shift, rotate_files, rotate, append, make_room, write_loop,
  write, open_append,
}

pub Forgets-nothing : (n : ℕ) (xs : Bytes) → Forgets n xs xs
Forgets-nothing n xs = record { lost = 0; newest = refl; kept = inl refl }

lost_le : (n : ℕ) (xs ys : Bytes) (f : Forgets n xs ys) → f.lost ≤ length xs
lost_le n xs ys f = elim f.kept [ inl h ↦ omega arith | inr h ↦ omega arith ]

kept_sum :
    (n l m a c : ℕ)
    → (l ≡ 0) ⊎ (n + l ≤ a)
    → (m ≡ 0) ⊎ (n + m ≤ a - l + c)
    → (l + m ≡ 0) ⊎ (n + (l + m) ≤ a + c)
kept_sum n l m a c (inl h) (inl k) = inl (omega arith)
kept_sum n l m a c (inl h) (inr k) = inr (omega arith)
kept_sum n l m a c (inr h) (inl k) = inr (omega arith)
kept_sum n l m a c (inr h) (inr k) = inr (omega arith)

pub Forgets-then :
    (n : ℕ) (xs ys zs c : Bytes) → Forgets n xs ys → Forgets n (ys ++ c) zs → Forgets n (xs ++ c) zs
Forgets-then n xs ys zs c f g = record {
  lost = f.lost + g.lost;
  newest =
      g.newest
      ∙ ap (λ (us : Bytes). drop g.lost (us ++ c)) f.newest
      ∙ ap (λ (us : Bytes). drop g.lost us) (sym (drop-append f.lost xs c (lost_le n xs ys f)))
      ∙ drop-drop g.lost f.lost (xs ++ c);
  kept =
      let e : length (ys ++ c) ≡ length xs - f.lost + length c =
        length-append ys c
        ∙ ap (λ (us : Bytes). length us + length c) f.newest
        ∙ ap (λ (k : ℕ). k + length c) (length-drop f.lost xs) in
      let k : (g.lost ≡ 0) ⊎ (n + g.lost ≤ length xs - f.lost + length c) = elim g.kept [
        | inl h ↦ inl h
        | inr h ↦ inr (omega arith)
      ] in
      let s = kept_sum n f.lost g.lost (length xs) (length c) f.kept k in
      elim s [ inl h ↦ inl h | inr h ↦ inr (omega (arith, length-append xs c)) ];
}

rotate_files_live : (b : ℕ) (f : Files) → rotate_files b f 0 ≡ none
unfolding rotate_files put
rotate_files_live zero f = refl
rotate_files_live (suc b) f = refl

rotate_live : (w : LogWriter) → (rotate w).files 0 ≡ some []
unfolding rotate open_append put
rotate_live w = ap (λ (o : Option Bytes). some (bytes o)) (rotate_files_live w.backups w.files)

rotate-IsConsistent : (w : LogWriter) → IsConsistent (rotate w)
unfolding rotate
rotate-IsConsistent w = record {
  size_is = sym (ap (λ (o : Option Bytes). length (bytes o)) (rotate_live w));
}

span-rotate :
    (b : ℕ) (f : Files)
    → span (suc b) (open_append (rotate_files (suc b) f)) ≡ span_up b (shift b f) ++ bytes (f 0)
unfolding open_append rotate_files
span-rotate b f =
    let g = shift b f in
    span-put_live (suc b) (some _) (put 0 none (put 1 (some (bytes (g 0))) g))
    ∙ span-put_live (suc b) none (put 1 (some (bytes (g 0))) g)
    ∙ span-put_first b (bytes (g 0)) g
    ∙ ap (λ (o : Option Bytes). span_up b g ++ bytes o) (shift-live b f)

rotate_from :
    (b : ℕ) (m : ℕ) (f : Files)
    → m ≤ length (bytes (f 0))
    → Forgets
        (if b == 0 then 0 else m)
        (span b f ++ bytes (f 0))
        (span b (open_append (rotate_files b f)) ++ [])
unfolding span
rotate_from zero m f h = record {
  lost = length (bytes (f 0));
  newest =
      sym (drop-append_length (bytes (f 0)) [])
      ∙ ap (drop (length (bytes (f 0)))) (append-nil (bytes (f 0)));
  kept = inr (omega arith);
}
rotate_from (suc b) m f h =
    let s : (if suc b == 0 then 0 else m) ≡ m = ground arith in
    let (k, e, l) = span_up-shift-drop b f in
    record {
      lost = k;
      newest =
          append-nil _
          ∙ span-rotate b f
          ∙ ap (λ (us : Bytes). us ++ bytes (f 0)) e
          ∙ sym (drop-append k (span (suc b) f) (bytes (f 0)) l);
      kept = inr (omega (arith, s, length-append (span (suc b) f) (bytes (f 0))));
    }

rotate-Forgets :
    (w : LogWriter)
    → IsConsistent w
    → w.maxbytes ≤ w.size
    → Forgets (spare w) (retained w) (retained (rotate w))
unfolding spare retained rotate
rotate-Forgets w c h =
    let f = rotate_from w.backups w.maxbytes w.files (omega (arith, c.size_is)) in
    record {
      lost = f.lost;
      newest =
          ap (λ (o : Option Bytes). span w.backups (rotate w).files ++ bytes o) (rotate_live w)
          ∙ f.newest;
      kept = f.kept;
    }

-- What `make_room` leaves: room for a byte at least.
record HasRoom (w v : LogWriter) : Type 0 where
  forgets : Forgets (spare w) (retained w) (retained v)
  consistent : IsConsistent v
  room : v.size < v.maxbytes
  maxbytes : v.maxbytes ≡ w.maxbytes
  backups : v.backups ≡ w.backups

HasRoom-by :
    (b : Bool) (w : LogWriter)
    → leb w.maxbytes w.size ≡ b
    → IsConsistent w
    → 0 < w.maxbytes
    → HasRoom w (if b then rotate w else w)
unfolding rotate
HasRoom-by true w h c m = record {
  forgets = rotate-Forgets w c (ground arith);
  consistent = rotate-IsConsistent w;
  room = m;
  maxbytes = refl;
  backups = refl;
}
HasRoom-by false w h c m = record {
  forgets = Forgets-nothing (spare w) (retained w);
  consistent = c;
  room = ground arith;
  maxbytes = refl;
  backups = refl;
}

make_room-HasRoom : (w : LogWriter) → IsConsistent w → 0 < w.maxbytes → HasRoom w (make_room w)
unfolding make_room
make_room-HasRoom w c m = HasRoom-by (leb w.maxbytes w.size) w refl c m

retained-append : (p : Bytes) (w : LogWriter) → retained (append p w) ≡ retained w ++ p
unfolding retained append put
retained-append p w =
    ap (λ (us : Bytes). us ++ (bytes (w.files 0) ++ p)) (span-put_live w.backups (some _) w.files)
    ∙ sym (append_assoc (span w.backups w.files) (bytes (w.files 0)) p)

append-IsConsistent : (p : Bytes) (w : LogWriter) → IsConsistent w → IsConsistent (append p w)
unfolding append put
append-IsConsistent p w c = record {
  size_is = ap (λ (k : ℕ). k + length p) c.size_is ∙ sym (length-append (bytes (w.files 0)) p);
}

-- What a write of `chunk` to `w` leaves, if the live file is within its bound.
pub record Written (w : LogWriter) (chunk : Bytes) (v : LogWriter) : Type 0 where
  pub forgets : Forgets (spare w) (retained w ++ chunk) (retained v)
  pub consistent : IsConsistent v
  pub bounded : v.size ≤ w.maxbytes

-- One round of the loop: make room, append what fits, and go on from there.
round-Written :
    (w v : LogWriter) (n : ℕ) (chunk : Bytes)
    → (h : HasRoom w (make_room w)) → Written (append (take n chunk) (make_room w)) (drop n chunk) v
    → Written w chunk v
unfolding append spare
round-Written w v n chunk h r =
    let x = make_room w in
    let e : retained (append (take n chunk) x) ++ drop n chunk ≡ retained x ++ chunk =
      ap (λ (us : Bytes). us ++ drop n chunk) (retained-append (take n chunk) x)
      ∙ append_assoc (retained x) (take n chunk) (drop n chunk)
      ∙ ap (λ (us : Bytes). retained x ++ us) (take-append-drop n chunk) in
    let s : spare (append (take n chunk) x) ≡ spare w = rw (h.backups, h.maxbytes) refl in
    let f : Forgets (spare w) (retained x ++ chunk) (retained v) =
      subst (λ (k : ℕ). Forgets k (retained x ++ chunk) (retained v)) s
        (subst (λ (us : Bytes). Forgets (spare (append (take n chunk) x)) us (retained v)) e
          r.forgets) in
    record {
      forgets = Forgets-then (spare w) (retained w) (retained x) (retained v) chunk h.forgets f;
      consistent = r.consistent;
      bounded = omega (arith, r.bounded, h.maxbytes);
    }

write_loop-Written :
    (n : ℕ) (chunk : Bytes) (w : LogWriter)
    → IsConsistent w
    → 0 < w.maxbytes
    → length chunk ≤ n
    → (w.size ≤ w.maxbytes) ⊎ (0 < length chunk)
    → (v : LogWriter) × (write_loop n chunk w ≡ some v) × Written w chunk v
unfolding write_loop append
write_loop-Written n [] w c m l (inl h) = (
  w,
  refl,
  record {
    forgets =
        subst (λ (us : Bytes). Forgets (spare w) us (retained w)) (sym (append-nil (retained w)))
          (Forgets-nothing (spare w) (retained w));
    consistent = c;
    bounded = h;
  },
)
write_loop-Written n [] w c m l (inr h) = absurd (omega arith)
write_loop-Written zero (b ∷ bs) w c m l s = absurd (omega arith)
write_loop-Written (suc n) (b ∷ bs) w c m l s =
    let chunk : Bytes = b ∷ bs in
    let x = make_room w in
    let h = make_room-HasRoom w c m in
    let k : ℕ = x.maxbytes - x.size in
    let (v, e, r) =
      write_loop-Written n (drop k chunk) (append (take k chunk) x)
        (append-IsConsistent (take k chunk) x h.consistent) (omega (arith, h.maxbytes))
        (omega (arith, length-drop k chunk, h.room))
        (inl (omega (arith, length-take k chunk, h.room))) in
    (v, e, round-Written w v k chunk h r)

positive-eqb : (n : ℕ) → 0 < n → (n == 0) ≡ false
positive-eqb n h = ground arith

-- A write to a log with a bound comes to an end. What the files then hold, backups first, is what
-- they held and the chunk, without some of the oldest bytes: nothing is lost in the middle or at
-- the end, and with backups at least a full file of bytes remains. The live file is within the
-- bound, and the size is its size.
pub write-Written :
    (chunk : Bytes) (w : LogWriter)
    → IsConsistent w
    → 0 < w.maxbytes
    → 0 < length chunk
    → (v : LogWriter) × (write chunk w ≡ some v) × Written w chunk v
unfolding write
write-Written chunk w c m l =
    let (v, e, r) = write_loop-Written (length chunk) chunk w c m (omega arith) (inr l) in
    let bounded : (w.maxbytes == 0) ≡ false = positive-eqb w.maxbytes m in (v, rw bounded e, r)
