-- ===== src/ChildLog.antt =====
-- The log of one child output stream (supervice/process.py, `_ChildLogWriter`): a live file and its
-- numbered backups. File 0 is the live one, file i is "path.i". Opening, moving and removing a file
-- are taken to succeed.
pub mod Retained
pub mod Writes
pub mod Pump
use supervice.Prelude.{
  ℕ, zero, suc, ◌+◌, ◌-◌, Bool, true, false, Option, none, some, List, [], ◌∷◌, ◌++◌, leb, ◌==◌,
  if◌then◌else◌, length, take, drop,
}

abbrev pub Bytes : Type 0
Bytes = List ℕ

abbrev pub Files : Type 0
Files = ℕ → Option Bytes

abbrev pub bytes : Option Bytes → Bytes
bytes none = []
bytes (some bs) = bs

-- The file `i` becomes `o`.
unfoldable pub put : ℕ → Option Bytes → Files → Files
put i o f j = if i == j then o else f j

pub record LogWriter : Type 0 where
  pub maxbytes : ℕ
  pub backups : ℕ
  pub files : Files
  pub size : ℕ

-- `open(path, "ab")`: what is there is kept.
unfoldable pub open_append : Files → Files
unfolding put
open_append f = put 0 (some (bytes (f 0))) f

-- `__init__`
unfoldable pub open_writer : ℕ → ℕ → Files → LogWriter
unfolding open_append
open_writer maxbytes backups f = record {
  maxbytes = maxbytes;
  backups = backups;
  files = open_append f;
  size = length (bytes (f 0));
}

move_up : ℕ → Option Bytes → Files → Files
unfolding put
move_up i none f = f
move_up i (some bs) f = put i none (put (suc i) (some bs) f)

-- The loop of `_rotate`, from `n` down to 1.
unfoldable pub shift : ℕ → Files → Files
unfolding move_up
shift zero f = f
shift (suc n) f = shift n (move_up (suc n) (f (suc n)) f)

-- `_rotate` on the files: the live file becomes the first backup, or is removed if there are none.
unfoldable pub rotate_files : ℕ → Files → Files
unfolding put
rotate_files zero f = put 0 none f
rotate_files (suc b) f = let g = shift b f in put 0 none (put 1 (some (bytes (g 0))) g)

unfoldable pub rotate : LogWriter → LogWriter
unfolding rotate_files open_append
rotate w = record w { files = open_append (rotate_files w.backups w.files); size = 0 }

-- `write` and `flush` on the live file
unfoldable pub append : Bytes → LogWriter → LogWriter
unfolding put
append part w = record w {
  files = put 0 (some (bytes (w.files 0) ++ part)) w.files;
  size = w.size + length part;
}

-- `if room <= 0: self._rotate()`
unfoldable pub make_room : LogWriter → LogWriter
unfolding rotate
make_room w = if leb w.maxbytes w.size then rotate w else w

-- The loop of `write`, for at most as many rounds as it is given: `none` if they were not enough.
unfoldable pub write_loop : ℕ → Bytes → LogWriter → Option LogWriter
unfolding make_room append
write_loop n [] w = some w
write_loop zero (c ∷ cs) w = none
write_loop (suc n) (c ∷ cs) w =
    let room = (make_room w).maxbytes - (make_room w).size in
    write_loop n (drop room (c ∷ cs)) (append (take room (c ∷ cs)) (make_room w))

-- `write`
unfoldable pub write : Bytes → LogWriter → Option LogWriter
unfolding write_loop
write chunk w = if w.maxbytes == 0 then some (append chunk w) else write_loop (length chunk) chunk w
