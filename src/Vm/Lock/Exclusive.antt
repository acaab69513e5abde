-- ===== src/Vm/Lock/Exclusive.antt =====
-- While no process removes the path, one process at most holds the lock.
use slopvmrunner.Prelude.{
  ℕ, ◌≡◌, ◌≢◌, refl, Bool, true, false, Option, none, some, List, [], ◌∷◌, arith, All,
}
use slopvmrunner.Vm.Lock.{
  Phase, outside, opened, holding, unlocked, Store, Move, open_file, lock, unlock, remove,
  open_bound, try_lock, open_from, lock_from, unlock_from, move, moves, empty,
}
use slopvmrunner.Vm.Lock.Holders.{IsApart}

-- A file that is open to be locked, or held, is the one that the path names.
pub record IsBound (s : Store) : Type 0 where
  pub opens : (p i : ℕ) → s.phase p ≡ opened i → s.bound ≡ some i
  pub holds : (p i : ℕ) → s.phase p ≡ holding i → s.bound ≡ some i

abbrev pub Keeps : Move → Type 0
Keeps (open_file p) = Unit {0}
Keeps (lock p) = Unit {0}
Keeps (unlock p) = Unit {0}
Keeps (remove p) = ⊥

phase_free :
    (i j : ℕ)
    → (opened i ≢ holding j)
      × ((outside ≢ opened j)
          × ((outside ≢ holding j)
              × ((unlocked i ≢ opened j) × ((unlocked i ≢ holding j) × (holding i ≢ opened j)))))
phase_free i j = (λ e. cc e, (λ e. cc e, (λ e. cc e, (λ e. cc e, (λ e. cc e, λ e. cc e)))))

opened-injective : (i j : ℕ) → opened i ≡ opened j → i ≡ j
opened-injective i j e = cc e

pub holding-injective : (i j : ℕ) → holding i ≡ holding j → i ≡ j
holding-injective i j e = cc e

open-IsBound :
    (s : Store) (p : ℕ) (b : Option ℕ) → IsBound s → s.bound ≡ b → IsBound (open_bound s p b)
unfolding open_bound
open-IsBound s p (some i) h e = record {
  opens = λ q j k. ground (arith, h.opens q j, opened-injective i j, e);
  holds = λ q j k. ground (arith, h.holds q j, phase_free i j, e);
}
open-IsBound s p none h e = record {
  opens = λ q j k. ground (arith, h.opens q j, opened-injective s.fresh j, e);
  holds = λ q j k. ground (arith, h.holds q j, phase_free s.fresh j, e);
}

try_lock-IsBound :
    (s : Store) (p i : ℕ) (b : Bool) → IsBound s → s.phase p ≡ opened i → IsBound (try_lock s p i b)
unfolding try_lock
try_lock-IsBound s p i true h e = record {
  opens = λ q j k. ground (arith, h.opens q j, phase_free i j);
  holds = λ q j k. ground (arith, h.holds q j, phase_free i j);
}
try_lock-IsBound s p i false h e = record {
  opens = λ q j k. ground (arith, h.opens q j, phase_free i j);
  holds = λ q j k. ground (arith, h.holds q j, h.opens p i e, holding-injective i j);
}

open_from-IsBound : (s : Store) (p : ℕ) (x : Phase) → IsBound s → IsBound (open_from s p x)
unfolding open_from
open_from-IsBound s p outside h = open-IsBound s p s.bound h refl
open_from-IsBound s p (opened i) h = h
open_from-IsBound s p (holding i) h = h
open_from-IsBound s p (unlocked i) h = h

lock_from-IsBound :
    (s : Store) (p : ℕ) (x : Phase) → IsBound s → s.phase p ≡ x → IsBound (lock_from s p x)
unfolding lock_from
lock_from-IsBound s p outside h e = h
lock_from-IsBound s p (opened i) h e = try_lock-IsBound s p i (s.locked i) h e
lock_from-IsBound s p (holding i) h e = h
lock_from-IsBound s p (unlocked i) h e = h

unlock_from-IsBound : (s : Store) (p : ℕ) (x : Phase) → IsBound s → IsBound (unlock_from s p x)
unfolding unlock_from
unlock_from-IsBound s p outside h = h
unlock_from-IsBound s p (opened i) h = h
unlock_from-IsBound s p (holding i) h = record {
  opens = λ q j k. ground (arith, h.opens q j, phase_free i j);
  holds = λ q j k. ground (arith, h.holds q j, phase_free i j);
}
unlock_from-IsBound s p (unlocked i) h = h

pub move-IsBound : (s : Store) (m : Move) → Keeps m → IsBound s → IsBound (move s m)
unfolding move
move-IsBound s (open_file p) k h = open_from-IsBound s p (s.phase p) h
move-IsBound s (lock p) k h = lock_from-IsBound s p (s.phase p) h refl
move-IsBound s (unlock p) k h = unlock_from-IsBound s p (s.phase p) h
move-IsBound s (remove p) k h = absurd k

moves-IsBound : (s : Store) (ms : List Move) → All Keeps ms → IsBound s → IsBound (moves s ms)
unfolding moves
moves-IsBound s [] k h = h
moves-IsBound s (m ∷ ms) k h = moves-IsBound (move s m) ms k.1 (move-IsBound s m k.0 h)

pub empty-IsBound : IsBound empty
empty-IsBound = record { opens = λ p i e. cc e; holds = λ p i e. cc e }

pub empty-IsApart : IsApart empty
empty-IsApart = record { marked = λ p i e. cc e; one = λ p q i e k. cc e }
