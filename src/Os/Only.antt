-- ===== src/Os/Only.antt =====
-- Functions whose calls all have a property.
use slopvmrunner.Prelude.{
  String, ◌≡◌, ◌∙◌, refl, sym, ap, Option, none, some, [], ◌∷◌, ◌++◌, Result, ok, err, All,
  append-nil, append_assoc,
}
use slopvmrunner.Os.Runs.{continue-ok, continue-err}
use slopvmrunner.Os.{
  World, Run, Trace, Action, Errno, Error, M, continue, ◌>>=◌, return, fail, attempt, ignore, check,
  exec, exec_as, text_of, finally, number_of, system, wrapped,
}

-- The calls between two others, put together.
pub between :
    (t more : Trace) (a b : Action) → ((t ++ a ∷ []) ++ more) ++ b ∷ [] ≡ t ++ a ∷ (more ++ b ∷ [])
between t more a b =
    ap (λ l. l ++ b ∷ []) (append_assoc t (a ∷ []) more) ∙ append_assoc t (a ∷ more) (b ∷ [])

-- The calls that a run adds to those made before it.
pub record Adds (P : Action → Type 0) (before after : Trace) : Type 0 where
  pub more : Trace
  pub whole : after ≡ before ++ more
  pub each : All P more

-- Whatever the world, the function makes only calls with the property.
pub record Only (P : Action → Type 0) {A : Type 0} (m : M A) : Type 0 where
  pub adds : (w : World) (t : Trace) → Adds P t (m w t).trace

module _ (P : Action → Type 0) where
  All-append : (xs ys : Trace) → All P xs → All P ys → All P (xs ++ ys)
  All-append [] ys h k = k
  All-append (x ∷ xs) ys h k = (h.0, All-append xs ys h.1 k)

  Adds-refl : (t : Trace) → Adds P t t
  Adds-refl t = record { more = []; whole = sym (append-nil t); each = tt }

  Adds-trans : {s t u : Trace} → Adds P s t → Adds P t u → Adds P s u
  Adds-trans {s} h k = record {
    more = h.more ++ k.more;
    whole = k.whole ∙ ap (λ l. l ++ k.more) h.whole ∙ append_assoc s h.more k.more;
    each = All-append h.more k.more h.each k.each;
  }

  pub return-Only : {A : Type 0} (a : A) → Only P (return a)
  return-Only a = record { adds = λ w t. Adds-refl t }

  pub fail-Only : {A : Type 0} (e : Error) → Only P (fail {A = A} e)
  fail-Only e = record { adds = λ w t. Adds-refl t }

  continue-Adds :
      {A B : Type 0} (w : World) (r : Run A) (f : A → M B)
      → ((a : A) → Only P (f a))
      → (o : Result Error A) → r.result ≡ o
      → Adds P r.trace (continue w r f).trace
  continue-Adds w r f h (ok a) e = rw (continue-ok w r f e) ((h a).adds w r.trace)
  continue-Adds w r f h (err e) e' = rw (continue-err w r f e') (Adds-refl r.trace)

  pub bind-Only :
      {A B : Type 0} (m : M A) (f : A → M B)
      → Only P m
      → ((a : A) → Only P (f a))
      → Only P (m >>= f)
  bind-Only m f h k = record {
    adds = λ w t. Adds-trans (h.adds w t) (continue-Adds w (m w t) f k _ refl);
  }

  pub attempt-Only : (a : Action) → P a → Only P (attempt a)
  attempt-Only a p = record { adds = λ w t. record { more = a ∷ []; whole = refl; each = (p, tt) } }

  pub ignore-Only : (a : Action) → P a → Only P (ignore a)
  ignore-Only a p = record { adds = λ w t. record { more = a ∷ []; whole = refl; each = (p, tt) } }

  pub check-Only : (o : Option Errno) (as_error : Errno → Error) → Only P (check o as_error)
  check-Only none as_error = return-Only tt
  check-Only (some e) as_error = fail-Only (as_error e)

  pub exec-Only : (a : Action) → P a → Only P (exec a)
  exec-Only a p =
      bind-Only (attempt a) (λ e. check e system) (attempt-Only a p) (λ e. check-Only e system)

  pub exec_as-Only : (context : String) (a : Action) → P a → Only P (exec_as context a)
  exec_as-Only context a p =
      bind-Only (attempt a) (λ e. check e (λ n. wrapped context (system n))) (attempt-Only a p)
        (λ e. check-Only e (λ n. wrapped context (system n)))

  pub Adds-snoc : {s t : Trace} (a : Action) → P a → Adds P s t → Adds P s (t ++ a ∷ [])
  Adds-snoc a p h = Adds-trans h (record { more = a ∷ []; whole = refl; each = (p, tt) })

  pub finally-Only : {A : Type 0} (a : Action) (m : M A) → P a → Only P m → Only P (finally a m)
  finally-Only a m p h = record { adds = λ w t. Adds-snoc a p (h.adds w t) }

  pub number_of-Only : (a : Action) → Only P (number_of a)
  number_of-Only a = record { adds = λ w t. Adds-refl t }

  pub text_of-Only : (a : Action) → Only P (text_of a)
  text_of-Only a = record { adds = λ w t. Adds-refl t }

All-weaken : {P Q : Action → Type 0} (xs : Trace) → ((a : Action) → P a → Q a) → All P xs → All Q xs
All-weaken [] f h = tt
All-weaken (x ∷ xs) f h = (f x h.0, All-weaken xs f h.1)

pub weaken-Only :
    {P Q : Action → Type 0} {A : Type 0} (m : M A)
    → ((a : Action) → P a → Q a)
    → Only P m
    → Only Q m
weaken-Only m f h = record {
  adds = λ w t.
      let k = h.adds w t in
      record { more = k.more; whole = k.whole; each = All-weaken k.more f k.each };
}
