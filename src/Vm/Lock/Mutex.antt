-- ===== src/Vm/Lock/Mutex.antt =====
-- An abstract lock, and how the lock file looks while it is held or free.
use slopvmrunner.Prelude.{
  ℕ, ◌≡◌, ◌≢◌, ◌∙◌, ap, refl, sym, Bool, true, false, Option, none, some, List, [], ◌∷◌, arith,
}
use slopvmrunner.Vm.Lock.{Phase, holding, unlocked, Store, Move, lock, unlock, put}
use slopvmrunner.Vm.Lock.Exclusive.{holding-injective}

-- The abstract lock has a holder or none: only a free lock is taken, and only its holder frees it.
pub data Mutex : Option ℕ → Move → Option ℕ → Type 0 where
  takes : {p : ℕ} → Mutex none (lock p) (some p)
  frees : {p : ℕ} → Mutex (some p) (unlock p) none
  waits : {h : Option ℕ} {m : Move} → Mutex h m h

pub data MutexRun : Option ℕ → List Move → Option ℕ → Type 0 where
  ends : {h : Option ℕ} → MutexRun h [] h
  steps :
      {a b c : Option ℕ} {m : Move} {ms : List Move}
      → Mutex a m b
      → MutexRun b ms c
      → MutexRun a (m ∷ ms) c

-- The holder is the one process that holds a file, and a locked file is held.
pub record View (s : Store) (h : Option ℕ) : Type 0 where
  pub held : (p i : ℕ) → s.phase p ≡ holding i → h ≡ some p
  pub holder : (p : ℕ) → h ≡ some p → (i : ℕ) × (s.phase p ≡ holding i)
  pub owned : (i : ℕ) → s.locked i ≡ true → (p : ℕ) × (s.phase p ≡ holding i)

pub record Simulated (s : Store) (h : Option ℕ) (m : Move) (t : Store) : Type 0 where
  pub after : Option ℕ
  pub step : Mutex h m after
  pub view : View t after

-- A process that holds nothing goes where it holds nothing.
pub put-View :
    (s : Store) (h : Option ℕ) (b : Option ℕ) (f p : ℕ) (x : Phase)
    → View s h
    → ((i : ℕ) → s.phase p ≢ holding i)
    → ((i : ℕ) → x ≢ holding i)
    → View (record s { bound = b; fresh = f; phase = put s.phase p x }) h
put-View s h b f p x v old new = record {
  held = λ q i e. ground (arith, v.held q i, new i);
  holder = λ q e. let (i, k) = v.holder q e in (i, ground (arith, k, old i));
  owned = λ i e. let (q, k) = v.owned i e in (q, ground (arith, k, old i));
}

pub none-some : (p : ℕ) → ◌≢◌ {A = Option ℕ} none (some p)
none-some p e = cc e

pub some-injective : (i j : ℕ) → some i ≡ some j → i ≡ j
some-injective i j e = cc e

-- Under a free lock no file is locked.
pub unlocked_if_free : (s : Store) (i : ℕ) (b : Bool) → View s none → s.locked i ≡ b → b ≡ false
unlocked_if_free s i true v e = let (q, k) = v.owned i e in absurd (none-some q (v.held q i k))
unlocked_if_free s i false v e = refl

pub put_self : (f : ℕ → Phase) (p : ℕ) (x : Phase) → put f p x p ≡ x
put_self f p x = ground arith

locked_now : (f : ℕ → Bool) (i j : ℕ) → put f i true j ≡ true → f j ≡ false → j ≡ i
locked_now f i j e n = ground (arith, e, n)

pub lock-View :
    (s : Store) (p i : ℕ)
    → View s none
    → View (record s { locked = put s.locked i true; phase = put s.phase p (holding i) }) (some p)
lock-View s p i v = record {
  held = λ q j e. ground (arith, v.held q j, none-some q);
  holder = λ q e. (i, ground (arith, some-injective p q e));
  owned = λ j e.
      let same = locked_now s.locked i j e (unlocked_if_free s j _ v refl) in
      (p, put_self s.phase p (holding i) ∙ ap holding (sym same));
}

still_locked : (f : ℕ → Bool) (i j : ℕ) → put f i false j ≡ true → (f j ≡ true) × (j ≢ i)
still_locked f i j e = ground (arith, e)

pub unlock-View :
    (s : Store) (p i : ℕ)
    → View s (some p)
    → s.phase p ≡ holding i
    → View (record s { locked = put s.locked i false; phase = put s.phase p (unlocked i) }) none
unlock-View s p i v e = record {
  held = λ q j k. ground (arith, v.held q j, some-injective p q);
  holder = λ q k. absurd (none-some q k);
  owned = λ j k.
      let (l, n) = still_locked s.locked i j k in
      let (q, m) = v.owned j l in
      let same = some-injective p q (v.held q j m) in
      absurd (n (holding-injective j i (sym m ∙ ap s.phase (sym same) ∙ e)));
}
