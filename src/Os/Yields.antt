-- ===== src/Os/Yields.antt =====
-- What a function's value is known to be when it succeeds.
use slopvmrunner.Prelude.{ℕ, ◌≡◌, refl, Bool, true, false, Result, ok, err, if◌then◌else◌}
use slopvmrunner.Os.{
  World, Run, Trace, Error, exits, exited, M, continue, ◌>>=◌, return, fail, when, or_exit,
}
use slopvmrunner.Os.Runs.{continue-ok, continue-err}

-- Whatever the world, a value that the function returns has the property.
pub record Yields {A : Type 0} (P : A → Type 0) (m : M A) : Type 0 where
  pub holds : (w : World) (t : Trace) {a : A} → (m w t).result ≡ ok a → P a

ok-injective : {A : Type 0} {a b : A} → ◌≡◌ {A = Result Error A} (ok a) (ok b) → a ≡ b
ok-injective e = cc e

module _ {A : Type 0} (P : A → Type 0) where
  pub return-Yields : (a : A) → P a → Yields P (return a)
  return-Yields a p = record { holds = λ w t e. rw (← ok-injective e) p }

  pub fail-Yields : (e : Error) → Yields P (fail e)
  fail-Yields e = record { holds = λ w t h. cc h }

  continue-Yields :
      {B : Type 0} (Q : B → Type 0) (w : World) (r : Run B) (f : B → M A) (o : Result Error B)
      {a : A}
      → r.result ≡ o
      → ((b : B) → r.result ≡ ok b → Q b)
      → ((b : B) → Q b → Yields P (f b))
      → (continue w r f).result ≡ ok a
      → P a
  continue-Yields Q w r f (ok b) e q h k =
      (h b (q b e)).holds w r.trace (rw (continue-ok w r f e) at k)
  continue-Yields Q w r f (err x) e q h k = cc (rw (continue-err w r f e) at k)

  pub bind-Yields :
      {B : Type 0} (Q : B → Type 0) (m : M B) (f : B → M A)
      → Yields Q m
      → ((b : B) → Q b → Yields P (f b))
      → Yields P (m >>= f)
  bind-Yields Q m f g h = record {
    holds = λ w t k. continue-Yields Q w (m w t) f _ refl (λ b e. g.holds w t e) h k;
  }

  -- Nothing is known of the first part.
  pub then-Yields :
      {B : Type 0} (m : M B) (f : B → M A) → ((b : B) → Yields P (f b)) → Yields P (m >>= f)
  then-Yields m f h = bind-Yields (λ b. Unit {0}) m f (record { holds = λ w t e. tt }) (λ b _. h b)

exited-ok : {A : Type 0} (status : ℕ) (r : Run A) {a : A} → r.result ≡ ok a → exited status r ≡ r
exited-ok status r e = rw e refl

exited-err :
    {A : Type 0} (status : ℕ) (r : Run A) {e : Error}
    → r.result ≡ err e
    → exited status r ≡ record { result = err (exits status e); trace = r.trace }
exited-err status r e = rw e refl

exited-inverse :
    {A : Type 0} (status : ℕ) (r : Run A) {a : A} (o : Result Error A)
    → r.result ≡ o
    → (exited status r).result ≡ ok a
    → r.result ≡ ok a
exited-inverse status r (ok b) e k = rw (exited-ok status r e) at k
exited-inverse status r (err x) e k = cc (rw (exited-err status r e) at k)

pub or_exit-Yields :
    {A : Type 0} (P : A → Type 0) (status : ℕ) (m : M A) → Yields P m → Yields P (or_exit status m)
or_exit-Yields P status m h = record {
  holds = λ w t k. h.holds w t (exited-inverse status (m w t) (m w t).result refl k);
}

pub refuse-Yields : (b : Bool) (e : Error) → Yields (λ _. b ≡ false) (when b (fail e))
refuse-Yields true e = record { holds = λ w t h. cc h }
refuse-Yields false e = record { holds = λ w t h. refl }

-- A test made before a function: both branches may use its result.
pub if-Yields :
    {A : Type 0} (P : A → Type 0) (b : Bool) (m k : M A)
    → (b ≡ true → Yields P m)
    → (b ≡ false → Yields P k)
    → Yields P (if b then m else k)
if-Yields P true m k h g = h refl
if-Yields P false m k h g = g refl

pub weaken-Yields :
    {A : Type 0} {P Q : A → Type 0} (m : M A) → ((a : A) → P a → Q a) → Yields P m → Yields Q m
weaken-Yields m f h = record { holds = λ w t {a} e. f a (h.holds w t e) }
