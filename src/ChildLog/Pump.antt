-- ===== src/ChildLog/Pump.antt =====
-- What a stream's pump writes to its log (supervice/process.py, `_pump_stream`). The stream is the
-- chunks that its reads return up to the end; the log's files do not fail, so no error ends the loop.
use mathlib.Core.Path.{subst}
use supervice.ChildLog.Retained.{retained, spare, Forgets, IsConsistent}
use supervice.ChildLog.Writes.{Written, write-Written, Forgets-then, Forgets-nothing}
use supervice.ChildLog.{Bytes, LogWriter, rotate, append, make_room, write_loop, write}
use supervice.Prelude.{
  ℕ, zero, suc, ◌≤◌, ◌<◌, ◌≡◌, refl, sym, ap, ◌∙◌, false, Option, none, some, List, [], ◌∷◌, ◌++◌,
  arith, leb, ◌==◌, length, append_assoc, append-nil, Bool-cases, inl, inr,
}

-- A log that was written to, and then closed.
pub data Pumped : Type 0 where
  closed : LogWriter → Pumped
  no_rounds : Pumped

written_then : Option LogWriter → (LogWriter → Pumped) → Pumped
written_then none k = no_rounds
written_then (some w) k = k w

-- `_pump_stream`: an empty chunk is the end of the stream.
unfoldable pub pump : List Bytes → LogWriter → Pumped
unfolding written_then write
pump [] w = closed w
pump ([] ∷ chunks) w = closed w
pump ((c ∷ cs) ∷ chunks) w = written_then (write (c ∷ cs) w) (pump chunks)

-- All that a stream delivers before its end.
unfoldable pub delivered : List Bytes → Bytes
delivered [] = []
delivered ([] ∷ chunks) = []
delivered ((c ∷ cs) ∷ chunks) = (c ∷ cs) ++ delivered chunks

make_room-keeps :
    (w : LogWriter) → ((make_room w).maxbytes ≡ w.maxbytes) × ((make_room w).backups ≡ w.backups)
unfolding make_room rotate
make_room-keeps w = elim (Bool-cases (leb w.maxbytes w.size)) [
  | inl e ↦ rw e (refl, refl)
  | inr e ↦ rw e (refl, refl)
]

abbrev HasSameLimits : LogWriter → LogWriter → Type 0
HasSameLimits w v = (v.maxbytes ≡ w.maxbytes) × (v.backups ≡ w.backups)

some_value : LogWriter → Option LogWriter → LogWriter
some_value w none = w
some_value w (some v) = v

some-injective : {w v : LogWriter} → some w ≡ some v → w ≡ v
unfolding some_value
some-injective {w = w} h = ap (some_value w) h

write_loop-keeps :
    (n : ℕ) (chunk : Bytes) (w v : LogWriter) → write_loop n chunk w ≡ some v → HasSameLimits w v
unfolding write_loop append
write_loop-keeps n [] w v h = (
  ap (λ (x : LogWriter). x.maxbytes) (sym (some-injective h)),
  ap (λ (x : LogWriter). x.backups) (sym (some-injective h)),
)
write_loop-keeps zero (c ∷ cs) w v h = cc
write_loop-keeps (suc n) (c ∷ cs) w v h =
    let (m, b) = write_loop-keeps n _ _ v h in let (k, l) = make_room-keeps w in (m ∙ k, b ∙ l)

write-keeps :
    (chunk : Bytes) (w v : LogWriter) → 0 < w.maxbytes → write chunk w ≡ some v → HasSameLimits w v
unfolding write
write-keeps chunk w v m h =
    let bounded : (w.maxbytes == 0) ≡ false = ground arith in
    write_loop-keeps (length chunk) chunk w v (rw bounded at h)

-- What the pump leaves of the log `w`: what it holds, and all that was delivered, without some of the
-- oldest bytes.
abbrev pub IsPumped : LogWriter → Bytes → Pumped → Type 0
IsPumped w bs (closed v) = Written w bs v
IsPumped w bs no_rounds = ⊥

Written-then :
    (w x : LogWriter) (chunk rest : Bytes)
    → 0 < w.maxbytes
    → HasSameLimits w x
    → Written w chunk x
    → (p : Pumped) → IsPumped x rest p
    → IsPumped w (chunk ++ rest) p
unfolding spare
Written-then w x chunk rest m (k, l) f (closed v) g =
    let s : spare x ≡ spare w = rw (k, l) refl in
    record {
      forgets =
          subst (λ (us : Bytes). Forgets (spare w) us (retained v))
            (append_assoc (retained w) chunk rest)
            (Forgets-then (spare w) (retained w ++ chunk) (retained x) (retained v) rest f.forgets
              (subst (λ (n : ℕ). Forgets n (retained x ++ rest) (retained v)) s g.forgets));
      consistent = g.consistent;
      bounded = omega (arith, g.bounded, k);
    }
Written-then w x chunk rest m k f no_rounds g = absurd g

Written-nothing : (w : LogWriter) → IsConsistent w → w.size ≤ w.maxbytes → Written w [] w
Written-nothing w c s = record {
  forgets =
      subst (λ (us : Bytes). Forgets (spare w) us (retained w)) (sym (append-nil (retained w)))
        (Forgets-nothing (spare w) (retained w));
  consistent = c;
  bounded = s;
}

-- A pump of a stream that ends, into a log with a bound that its live file is within: it comes to an
-- end and closes the log, whose live file is within the bound; what its files then hold, backups first,
-- is what they held and all that the stream delivered, without some of the oldest bytes, and with
-- backups at least a full file of bytes remains.
pub pump-IsPumped :
    (chunks : List Bytes) (w : LogWriter)
    → IsConsistent w
    → 0 < w.maxbytes
    → w.size ≤ w.maxbytes
    → IsPumped w (delivered chunks) (pump chunks w)
unfolding pump delivered
pump-IsPumped [] w c m s = Written-nothing w c s
pump-IsPumped ([] ∷ chunks) w c m s = Written-nothing w c s
pump-IsPumped ((b ∷ bs) ∷ chunks) w c m s =
    let (x, e, f) = write-Written (b ∷ bs) w c m (omega arith) in
    let k = write-keeps (b ∷ bs) w x m e in
    let rest =
      pump-IsPumped chunks x f.consistent (omega (arith, k.0)) (omega (arith, k.0, f.bounded)) in
    subst
      (λ (o : Option LogWriter).
        IsPumped w ((b ∷ bs) ++ delivered chunks) (written_then o (pump chunks)))
      (sym e) (Written-then w x (b ∷ bs) (delivered chunks) m k f (pump chunks x) rest)
