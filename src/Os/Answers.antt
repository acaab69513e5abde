-- ===== src/Os/Answers.antt =====
-- What a function's value is known to be when it succeeds in a given world.
use slopvmrunner.Prelude.{◌≡◌, refl, Result, ok, err}
use slopvmrunner.Go.Strings.{Text}
use slopvmrunner.Os.{World, Run, Trace, Error, M, continue, ◌>>=◌, return, fail, text_of, Action}
use slopvmrunner.Os.Runs.{continue-ok, continue-err}

-- Whatever was called before, a value that the function returns in this world has the property.
pub record Answers {A : Type 0} (w : World) (P : A → Type 0) (m : M A) : Type 0 where
  pub answers : (t : Trace) {a : A} → (m w t).result ≡ ok a → P a

ok-injective : {A : Type 0} {a b : A} → ◌≡◌ {A = Result Error A} (ok a) (ok b) → a ≡ b
ok-injective e = cc e

module _ {A : Type 0} (w : World) (P : A → Type 0) where
  pub return-Answers : (a : A) → P a → Answers w P (return a)
  return-Answers a p = record { answers = λ t e. rw (← ok-injective e) p }

  pub fail-Answers : (e : Error) → Answers w P (fail e)
  fail-Answers e = record { answers = λ t h. cc h }

  continue-Answers :
      {B : Type 0} (Q : B → Type 0) (r : Run B) (f : B → M A) (o : Result Error B) {a : A}
      → r.result ≡ o
      → ((b : B) → r.result ≡ ok b → Q b)
      → ((b : B) → Q b → Answers w P (f b))
      → (continue w r f).result ≡ ok a
      → P a
  continue-Answers Q r f (ok b) e q h k =
      (h b (q b e)).answers r.trace (rw (continue-ok w r f e) at k)
  continue-Answers Q r f (err x) e q h k = cc (rw (continue-err w r f e) at k)

  pub bind-Answers :
      {B : Type 0} (Q : B → Type 0) (m : M B) (f : B → M A)
      → Answers w Q m
      → ((b : B) → Q b → Answers w P (f b))
      → Answers w P (m >>= f)
  bind-Answers Q m f g h = record {
    answers = λ t k. continue-Answers Q (m w t) f _ refl (λ b e. g.answers t e) h k;
  }

  -- Nothing is known of the first part.
  pub then-Answers :
      {B : Type 0} (m : M B) (f : B → M A) → ((b : B) → Answers w P (f b)) → Answers w P (m >>= f)
  then-Answers m f h =
      bind-Answers (λ b. Unit {0}) m f (record { answers = λ t e. tt }) (λ b _. h b)

-- What a call yields is what the world reads for it after some calls.
pub data ReadBy (w : World) (a : Action) : Text → Type 0 where
  read_after : (t : Trace) → ReadBy w a (w.reads t a)

pub text_of-Answers : (w : World) (a : Action) → Answers w (ReadBy w a) (text_of a)
text_of-Answers w a = record { answers = λ t e. rw (← ok-injective e) (read_after t) }
