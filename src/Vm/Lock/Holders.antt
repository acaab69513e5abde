-- ===== src/Vm/Lock/Holders.antt =====
-- Who holds the lock.
use slopvmrunner.Prelude.{
  ℕ, suc, ◌≡◌, ◌≢◌, refl, Bool, true, false, Option, none, some, List, [], ◌∷◌, arith,
}
use slopvmrunner.Vm.Lock.{
  Phase, outside, opened, holding, unlocked, Store, Move, open_file, lock, unlock, remove, put,
  open_bound, try_lock, open_from, lock_from, unlock_from, remove_from, move, moves,
}

-- A held file is locked, and by one process.
pub record IsApart (s : Store) : Type 0 where
  pub marked : (p i : ℕ) → s.phase p ≡ holding i → s.locked i ≡ true
  pub one : (p q i : ℕ) → s.phase p ≡ holding i → s.phase q ≡ holding i → p ≡ q

holding-injective : (i j : ℕ) → holding i ≡ holding j → i ≡ j
holding-injective i j e = cc e

-- A phase that is no holding may be set without harm.
put-IsApart :
    (s : Store) (b : Option ℕ) (f p : ℕ) (x : Phase)
    → IsApart s
    → ((i : ℕ) → x ≢ holding i)
    → IsApart (record s { bound = b; fresh = f; phase = put s.phase p x })
put-IsApart s b f p x h n = record {
  marked = λ q i e. ground (arith, h.marked q i, n i);
  one = λ q r i e k. ground (arith, h.one q r i, n i);
}

lock-IsApart :
    (s : Store) (p i : ℕ)
    → IsApart s
    → s.locked i ≡ false
    → IsApart (record s { locked = put s.locked i true; phase = put s.phase p (holding i) })
lock-IsApart s p i h free = record {
  marked = λ q j e. ground (arith, h.marked q j, holding-injective i j);
  one = λ q r j e k. ground (arith, h.one q r j, h.marked q j, h.marked r j, holding-injective i j);
}

unlock-IsApart :
    (s : Store) (p i : ℕ)
    → IsApart s
    → s.phase p ≡ holding i
    → IsApart (record s { locked = put s.locked i false; phase = put s.phase p (unlocked i) })
unlock-IsApart s p i h e = record {
  marked = λ q j k. ground (arith, h.marked q j, h.one p q i, holding-injective i j);
  one = λ q r j k l. ground (arith, h.one q r j);
}

open-IsApart : (s : Store) (p : ℕ) (b : Option ℕ) → IsApart s → IsApart (open_bound s p b)
unfolding open_bound
open-IsApart s p (some i) h = put-IsApart s s.bound s.fresh p (opened i) h (λ j e. cc e)
open-IsApart s p none h =
    put-IsApart s (some s.fresh) (suc s.fresh) p (opened s.fresh) h (λ j e. cc e)

try_lock-IsApart :
    (s : Store) (p i : ℕ) (b : Bool) → IsApart s → s.locked i ≡ b → IsApart (try_lock s p i b)
unfolding try_lock
try_lock-IsApart s p i true h e = put-IsApart s s.bound s.fresh p outside h (λ j k. cc k)
try_lock-IsApart s p i false h e = lock-IsApart s p i h e

open_from-IsApart : (s : Store) (p : ℕ) (x : Phase) → IsApart s → IsApart (open_from s p x)
unfolding open_from
open_from-IsApart s p outside h = open-IsApart s p s.bound h
open_from-IsApart s p (opened i) h = h
open_from-IsApart s p (holding i) h = h
open_from-IsApart s p (unlocked i) h = h

lock_from-IsApart : (s : Store) (p : ℕ) (x : Phase) → IsApart s → IsApart (lock_from s p x)
unfolding lock_from
lock_from-IsApart s p outside h = h
lock_from-IsApart s p (opened i) h = try_lock-IsApart s p i (s.locked i) h refl
lock_from-IsApart s p (holding i) h = h
lock_from-IsApart s p (unlocked i) h = h

unlock_from-IsApart :
    (s : Store) (p : ℕ) (x : Phase) → IsApart s → s.phase p ≡ x → IsApart (unlock_from s p x)
unfolding unlock_from
unlock_from-IsApart s p outside h e = h
unlock_from-IsApart s p (opened i) h e = h
unlock_from-IsApart s p (holding i) h e = unlock-IsApart s p i h e
unlock_from-IsApart s p (unlocked i) h e = h

remove_from-IsApart : (s : Store) (p : ℕ) (x : Phase) → IsApart s → IsApart (remove_from s p x)
unfolding remove_from
remove_from-IsApart s p outside h = h
remove_from-IsApart s p (opened i) h = h
remove_from-IsApart s p (holding i) h = h
remove_from-IsApart s p (unlocked i) h = put-IsApart s none s.fresh p outside h (λ j e. cc e)

pub move-IsApart : (s : Store) (m : Move) → IsApart s → IsApart (move s m)
unfolding move
move-IsApart s (open_file p) h = open_from-IsApart s p (s.phase p) h
move-IsApart s (lock p) h = lock_from-IsApart s p (s.phase p) h
move-IsApart s (unlock p) h = unlock_from-IsApart s p (s.phase p) h refl
move-IsApart s (remove p) h = remove_from-IsApart s p (s.phase p) h

-- Whatever the order of the steps of any number of processes, a file that a process holds is
-- locked, and no other process holds the same file, if this was so at the start.
pub moves-IsApart : (s : Store) (ms : List Move) → IsApart s → IsApart (moves s ms)
unfolding moves
moves-IsApart s [] h = h
moves-IsApart s (m ∷ ms) h = moves-IsApart (move s m) ms (move-IsApart s m h)
