-- ===== src/Vm/Lock.antt =====
-- vm/lock/lock.go: Acquire and Release by several processes on one path, in steps that interleave.
pub mod Holders
pub mod Exclusive
pub mod Mutex
pub mod Refines
use slopvmrunner.Prelude.{
  ℕ, suc, Bool, true, false, Option, none, some, List, [], ◌∷◌, ◌==◌, if◌then◌else◌,
}

-- How far a process has come: it has no file; it has opened a file, which Acquire is to lock; it
-- holds the lock of a file; Release has unlocked the file and is to remove the path. A file is
-- named by its inode.
pub data Phase : Type 0 where
  outside : Phase
  opened holding unlocked : ℕ → Phase

-- The inode that the path names, the inode that a new file gets, the inodes that are locked, and
-- the phase of each process.
pub record Store : Type 0 where
  pub bound : Option ℕ
  pub fresh : ℕ
  pub locked : ℕ → Bool
  pub phase : ℕ → Phase

-- One call of the system by a process: os.OpenFile, syscall.Flock to lock (with the closing of the
-- file if another has locked it), syscall.Flock to unlock with the closing, and os.Remove.
pub data Move : Type 0 where
  open_file lock unlock remove : ℕ → Move

abbrev pub put {ℓ} : {A : Type ℓ} → (ℕ → A) → ℕ → A → ℕ → A
put f p a q = if q == p then a else f q

unfoldable pub open_bound : Store → ℕ → Option ℕ → Store
open_bound s p (some i) = record s { phase = put s.phase p (opened i) }
open_bound s p none = record s {
  bound = some s.fresh;
  fresh = suc s.fresh;
  phase = put s.phase p (opened s.fresh);
}

unfoldable pub try_lock : Store → ℕ → ℕ → Bool → Store
try_lock s p i true = record s { phase = put s.phase p outside }
try_lock s p i false = record s { locked = put s.locked i true; phase = put s.phase p (holding i) }

-- A process moves only where its program stands; other moves change nothing.
unfoldable pub open_from : Store → ℕ → Phase → Store
unfolding open_bound
open_from s p outside = open_bound s p s.bound
open_from s p x = s

unfoldable pub lock_from : Store → ℕ → Phase → Store
unfolding try_lock
lock_from s p (opened i) = try_lock s p i (s.locked i)
lock_from s p x = s

unfoldable pub unlock_from : Store → ℕ → Phase → Store
unlock_from s p (holding i) = record s {
  locked = put s.locked i false;
  phase = put s.phase p (unlocked i);
}
unlock_from s p x = s

unfoldable pub remove_from : Store → ℕ → Phase → Store
remove_from s p (unlocked i) = record s { bound = none; phase = put s.phase p outside }
remove_from s p x = s

unfoldable pub move : Store → Move → Store
unfolding open_from lock_from unlock_from remove_from
move s (open_file p) = open_from s p (s.phase p)
move s (lock p) = lock_from s p (s.phase p)
move s (unlock p) = unlock_from s p (s.phase p)
move s (remove p) = remove_from s p (s.phase p)

unfoldable pub moves : Store → List Move → Store
unfolding move
moves s [] = s
moves s (m ∷ ms) = moves (move s m) ms

-- No file, and no process has one.
abbrev pub empty : Store
empty = record { bound = none; fresh = 0; locked = λ i. false; phase = λ p. outside }
