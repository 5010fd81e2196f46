-- ===== src/Core/PidFile.antt =====
-- The pid file and its lock (supervice/core.py, `_acquire_pidfile_lock` and `_release_pidfile_lock`),
-- for any number of daemons with the same path, one system call at a time. A file is an inode: the
-- path may name another one later, and a lock is on the inode that was opened.
pub mod Locks
pub mod Excludes
use supervice.Prelude.{ℕ, zero, suc, Bool, true, false, Option, none, some, ◌==◌, if◌then◌else◌}

-- Where a daemon is: its file is open, locked, truncated, and has its process id; then the lock is
-- dropped, the file at the path is open, and has been found to have its process id.
pub data Phase : Type 0 where
  idle refused unlocked judged gone : Phase
  opened locked truncated holding reading : ℕ → Phase

-- A map that has another value at one number.
abbrev pub set_at {ℓ} : {A : Type ℓ} → ℕ → A → (ℕ → A) → ℕ → A
set_at n v f m = if m == n then v else f m

-- The inode that the path names, the next new inode, what is written in each and which daemon has
-- locked it, by its process id; where each daemon is; and how often the file was removed.
pub record Daemons : Type 0 where
  pub path : Option ℕ
  pub new_inode : ℕ
  pub contents : ℕ → Option ℕ
  pub owner : ℕ → Option ℕ
  pub phase : ℕ → Phase
  pub removals : ℕ

abbrev pub no_daemons : Daemons
no_daemons = record {
  path = none;
  new_inode = 0;
  contents = λ i. none;
  owner = λ i. none;
  phase = λ d. idle;
  removals = 0;
}

-- os.open with O_CREAT
open_at : ℕ → Daemons → Option ℕ → Daemons
open_at d w (some i) = record w { phase = set_at d (opened i) w.phase }
open_at d w none = record w {
  path = some w.new_inode;
  new_inode = suc w.new_inode;
  contents = set_at w.new_inode none w.contents;
  phase = set_at d (opened w.new_inode) w.phase;
}

-- fcntl.flock with LOCK_EX and LOCK_NB
lock_at : ℕ → Daemons → ℕ → Option ℕ → Daemons
lock_at d w i none = record w {
  owner = set_at i (some d) w.owner;
  phase = set_at d (locked i) w.phase;
}
lock_at d w i (some other) = record w { phase = set_at d refused w.phase }

-- os.path.exists and open, without O_CREAT
look_at : ℕ → Daemons → Option ℕ → Daemons
look_at d w none = record w { phase = set_at d gone w.phase }
look_at d w (some j) = record w { phase = set_at d (reading j) w.phase }

-- contents == str(os.getpid())
compare_id : ℕ → Option ℕ → Phase
compare_id d none = gone
compare_id d (some pid) = if pid == d then judged else gone

call : ℕ → Daemons → Phase → Daemons
unfolding open_at lock_at look_at compare_id
call d w idle = open_at d w w.path
call d w (opened i) = lock_at d w i (w.owner i)
call d w (locked i) = record w {
  contents = set_at i none w.contents;
  phase = set_at d (truncated i) w.phase;
}
call d w (truncated i) = record w {
  contents = set_at i (some d) w.contents;
  phase = set_at d (holding i) w.phase;
}
call d w (holding i) = record w { owner = set_at i none w.owner; phase = set_at d unlocked w.phase }
call d w unlocked = look_at d w w.path
call d w (reading j) = record w { phase = set_at d (compare_id d (w.contents j)) w.phase }
call d w judged = record w { path = none; phase = set_at d gone w.phase; removals = suc w.removals }
call d w refused = w
call d w gone = w

-- The next system call of a daemon: it takes the lock, and drops it when it shuts down.
unfoldable pub advance : ℕ → Daemons → Daemons
unfolding call
advance d w = call d w (w.phase d)

unlock : Phase → (ℕ → Option ℕ) → ℕ → Option ℕ
unlock (locked i) owner = set_at i none owner
unlock (truncated i) owner = set_at i none owner
unlock (holding i) owner = set_at i none owner
unlock _ owner = owner

-- A daemon that is killed: the kernel drops its lock.
unfoldable pub crash : ℕ → Daemons → Daemons
unfolding unlock
crash d w = record w { owner = unlock (w.phase d) w.owner; phase = set_at d gone w.phase }

pub data Reach : Daemons → Type 0 where
  initially : Reach no_daemons
  advanced : {w : Daemons} (d : ℕ) → Reach w → Reach (advance d w)
  crashed : {w : Daemons} (d : ℕ) → Reach w → Reach (crash d w)
