-- ===== src/Vm/Lock/Refines.antt =====
-- While no process removes the path, the lock refines an abstract one.
use slopvmrunner.Prelude.{
  ℕ, ◌≡◌, ◌∙◌, ap, refl, sym, Bool, true, false, Option, none, some, List, [], ◌∷◌, All,
}
use slopvmrunner.Vm.Lock.{
  Phase, outside, opened, holding, unlocked, Store, Move, open_file, lock, unlock, remove,
  open_bound, try_lock, open_from, lock_from, unlock_from, move, moves, empty,
}
use slopvmrunner.Vm.Lock.Holders.{IsApart, move-IsApart}
use slopvmrunner.Vm.Lock.Exclusive.{IsBound, Keeps, move-IsBound, empty-IsBound, empty-IsApart}
use slopvmrunner.Vm.Lock.Mutex.{
  takes, frees, waits, MutexRun, ends, steps, View, Simulated, put-View, lock-View, unlock-View,
  none-some, some-injective, unlocked_if_free, put_self,
}

-- Where some process holds a file, no other file can be opened or locked.
held-locked :
    (s : Store) (p q i : ℕ)
    → IsBound s
    → IsApart s
    → View s (some q)
    → s.phase p ≡ opened i
    → s.locked i ≡ true
held-locked s p q i b a v e =
    let (j, k) = v.holder q refl in
    let same = some-injective i j (sym (b.opens p i e) ∙ b.holds q j k) in
    ap s.locked same ∙ a.marked q j k

try_lock-Simulated :
    (s : Store) (p i : ℕ) (h : Option ℕ) (taken : Bool)
    → IsBound s
    → IsApart s
    → View s h
    → s.phase p ≡ opened i
    → s.locked i ≡ taken
    → Simulated s h (lock p) (try_lock s p i taken)
unfolding try_lock
try_lock-Simulated s p i h true b a v e l = record {
  after = h;
  step = waits;
  view = put-View s h s.bound s.fresh p outside v (λ j k. cc (e, k)) (λ j k. cc k);
}
try_lock-Simulated s p i none false b a v e l = record {
  after = some p;
  step = takes;
  view = lock-View s p i v;
}
try_lock-Simulated s p i (some q) false b a v e l = cc (l, held-locked s p q i b a v e)

lock_from-Simulated :
    (s : Store) (p : ℕ) (h : Option ℕ) (x : Phase)
    → IsBound s
    → IsApart s
    → View s h
    → s.phase p ≡ x
    → Simulated s h (lock p) (lock_from s p x)
unfolding lock_from
lock_from-Simulated s p h outside b a v e = record { after = h; step = waits; view = v }
lock_from-Simulated s p h (holding i) b a v e = record { after = h; step = waits; view = v }
lock_from-Simulated s p h (unlocked i) b a v e = record { after = h; step = waits; view = v }
lock_from-Simulated s p h (opened i) b a v e = try_lock-Simulated s p i h (s.locked i) b a v e refl

open-Simulated :
    (s : Store) (p : ℕ) (h b : Option ℕ)
    → View s h
    → s.phase p ≡ outside
    → Simulated s h (open_file p) (open_bound s p b)
unfolding open_bound
open-Simulated s p h (some i) v e = record {
  after = h;
  step = waits;
  view = put-View s h s.bound s.fresh p (opened i) v (λ j k. cc (e, k)) (λ j k. cc k);
}
open-Simulated s p h none v e = record {
  after = h;
  step = waits;
  view = put-View s h _ _ p (opened s.fresh) v (λ j k. cc (e, k)) (λ j k. cc k);
}

open_from-Simulated :
    (s : Store) (p : ℕ) (h : Option ℕ) (x : Phase)
    → View s h
    → s.phase p ≡ x
    → Simulated s h (open_file p) (open_from s p x)
unfolding open_from
open_from-Simulated s p h outside v e = open-Simulated s p h s.bound v e
open_from-Simulated s p h (opened i) v e = record { after = h; step = waits; view = v }
open_from-Simulated s p h (holding i) v e = record { after = h; step = waits; view = v }
open_from-Simulated s p h (unlocked i) v e = record { after = h; step = waits; view = v }

unlock-Simulated :
    (s : Store) (p i : ℕ) (h : Option ℕ)
    → View s h
    → s.phase p ≡ holding i
    → Simulated s h (unlock p) (unlock_from s p (holding i))
unfolding unlock_from
unlock-Simulated s p i h v e =
    let same = v.held p i e in
    record { after = none; step = rw same frees; view = unlock-View s p i (rw same at v) e }

unlock_from-Simulated :
    (s : Store) (p : ℕ) (h : Option ℕ) (x : Phase)
    → View s h
    → s.phase p ≡ x
    → Simulated s h (unlock p) (unlock_from s p x)
unfolding unlock_from
unlock_from-Simulated s p h outside v e = record { after = h; step = waits; view = v }
unlock_from-Simulated s p h (opened i) v e = record { after = h; step = waits; view = v }
unlock_from-Simulated s p h (holding i) v e = unlock-Simulated s p i h v e
unlock_from-Simulated s p h (unlocked i) v e = record { after = h; step = waits; view = v }

move-Simulated :
    (s : Store) (h : Option ℕ) (m : Move)
    → Keeps m
    → IsBound s
    → IsApart s
    → View s h
    → Simulated s h m (move s m)
unfolding move
move-Simulated s h (open_file p) k b a v = open_from-Simulated s p h (s.phase p) v refl
move-Simulated s h (lock p) k b a v = lock_from-Simulated s p h (s.phase p) b a v refl
move-Simulated s h (unlock p) k b a v = unlock_from-Simulated s p h (s.phase p) v refl
move-Simulated s h (remove p) k b a v = absurd k

ready :
    (s : Store) (p i : ℕ) (h : Option ℕ)
    → View s h
    → h ≡ none
    → s.phase p ≡ opened i
    → (move s (lock p)).phase p ≡ holding i
unfolding move lock_from try_lock
ready s p i h v n e =
    rw (e, unlocked_if_free s i _ (rw n at v) refl) (put_self s.phase p (holding i))

-- A run of the abstract lock that ends with the holder of the store; if there is none, each process
-- that has opened the file gets the lock when it tries.
pub record Refines (h : Option ℕ) (ms : List Move) (t : Store) : Type 0 where
  pub last : Option ℕ
  pub run : MutexRun h ms last
  pub view : View t last
  pub takes_free :
      last ≡ none → (p i : ℕ) → t.phase p ≡ opened i → (move t (lock p)).phase p ≡ holding i

moves-from :
    (s : Store) (h : Option ℕ) (ms : List Move)
    → All Keeps ms
    → IsBound s
    → IsApart s
    → View s h
    → Refines h ms (moves s ms)
unfolding moves
moves-from s h [] k b a v = record {
  last = h;
  run = ends;
  view = v;
  takes_free = λ n p i e. ready s p i h v n e;
}
moves-from s h (m ∷ ms) k b a v =
    let r = move-Simulated s h m k.0 b a v in
    let more =
      moves-from (move s m) r.after ms k.1 (move-IsBound s m k.0 b) (move-IsApart s m a) r.view in
    record {
      last = more.last;
      run = steps r.step more.run;
      view = more.view;
      takes_free = more.takes_free;
    }

-- Every order of steps of any number of processes that open, lock and unlock the file is a run of
-- the abstract lock, which is taken only while it is free, given back only by its holder, and else
-- stays as it is. At the end its holder is the process that holds a file; if there is none, no file
-- is locked and whoever has opened the file and tries gets the lock. The removal of the path, which
-- Release does, is left out.
pub moves-Refines : (ms : List Move) → All Keeps ms → Refines none ms (moves empty ms)
moves-Refines ms k =
    moves-from empty none ms k empty-IsBound empty-IsApart
      (record { held = λ p i e. cc e; holder = λ p e. absurd (none-some p e); owned = λ i e. cc e })
