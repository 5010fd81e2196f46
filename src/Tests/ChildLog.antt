-- ===== src/Tests/ChildLog.antt =====
-- The log of a child on small inputs.
use supervice.Prelude.{ℕ, ◌≡◌, refl, some, none, [], ◌∷◌, arith, Option, drop}
use supervice.ChildLog.Retained.{retained, span}
use supervice.ChildLog.Pump.{IsPumped, delivered, pump, pump-IsPumped}
use supervice.ChildLog.Writes.{Written, write-Written}
use supervice.ChildLog.{Bytes, LogWriter, shift, write}

abbrev eight : Bytes
eight = 1 ∷ 2 ∷ 3 ∷ 4 ∷ 5 ∷ 6 ∷ 7 ∷ 8 ∷ []

abbrev retained_of : Option LogWriter → Bytes
retained_of none = []
retained_of (some w) = retained w

abbrev empty_log : ℕ → LogWriter
empty_log backups = record { maxbytes = 3; backups = backups; files = λ i. none; size = 0 }

keeps_one_backup : retained_of (write eight (empty_log 1)) ≡ drop 3 eight
unfolding retained write span shift
keeps_one_backup = refl

keeps_two_backups : retained_of (write eight (empty_log 2)) ≡ eight
unfolding retained write span shift
keeps_two_backups = refl

keeps_no_backup : retained_of (write eight (empty_log 0)) ≡ drop 6 eight
unfolding retained write span shift
keeps_no_backup = refl

write-Written_example :
    (v : LogWriter) × (write eight (empty_log 1) ≡ some v) × Written (empty_log 1) eight v
write-Written_example =
    write-Written eight (empty_log 1) (record { size_is = refl }) (omega arith) (omega arith)

abbrev small_log : LogWriter
small_log = empty_log 1

pump-IsPumped_example :
    IsPumped small_log
      (delivered (eight ∷ eight ∷ [] ∷ []))
      (pump (eight ∷ eight ∷ [] ∷ []) small_log)
pump-IsPumped_example =
    pump-IsPumped (eight ∷ eight ∷ [] ∷ []) small_log (record { size_is = refl }) (omega arith)
      (omega arith)
