-- ===== src/Os/Runs.antt =====
-- Which calls a function makes: all of a plan if it succeeds, a first part of it if it fails.
use slopvmrunner.Prelude.{
  String, ◌≡◌, ◌∙◌, refl, sym, ap, Bool, true, false, Option, none, some, [], ◌∷◌, ◌++◌, ok, err,
  if◌then◌else◌, append-nil, append_assoc,
}
use slopvmrunner.Os.{
  World, Run, Trace, Action, Errno, Error, M, Void, continue, ◌>>=◌, return, fail, attempt, check,
  exec, exec_as, when, answer_of, system, wrapped,
}

pub record IsPrefix (done plan : Trace) : Type 0 where
  pub rest : Trace
  pub whole : plan ≡ done ++ rest

-- On success the calls are those of the plan and the value has the property; on failure they are a
-- first part of the plan.
pub data Ends {A : Type 0} (P : A → Type 0) (t plan : Trace) (r : Run A) : Type 0 where
  succeeds : (a : A) → r.result ≡ ok a → r.trace ≡ t ++ plan → P a → Ends P t plan r
  stops :
      (e : Error) (done : Trace)
      → r.result ≡ err e
      → r.trace ≡ t ++ done
      → IsPrefix done plan
      → Ends P t plan r

pub record Follows {A : Type 0} (m : M A) (plan : Trace) (P : A → Type 0) : Type 0 where
  pub ends : (w : World) (t : Trace) → Ends P t plan (m w t)

abbrev pub Any : {A : Type 0} → A → Type 0
Any a = Unit {0}

prefix_nil : (plan : Trace) → IsPrefix [] plan
prefix_nil plan = record { rest = plan; whole = refl }

prefix_self : (plan : Trace) → IsPrefix plan plan
prefix_self plan = record { rest = []; whole = sym (append-nil plan) }

prefix_append :
    {done plan : Trace} (more : Trace) → IsPrefix done plan → IsPrefix done (plan ++ more)
prefix_append {done} {plan} more h = record {
  rest = h.rest ++ more;
  whole = ap (λ l. l ++ more) h.whole ∙ append_assoc done h.rest more;
}

prefix_after :
    {done more : Trace} (plan : Trace) → IsPrefix done more → IsPrefix (plan ++ done) (plan ++ more)
prefix_after {done} {more} plan h = record {
  rest = h.rest;
  whole = ap (λ l. plan ++ l) h.whole ∙ sym (append_assoc plan done h.rest);
}

pub return-Follows : {A : Type 0} (a : A) (P : A → Type 0) → P a → Follows (return a) [] P
return-Follows a P p = record { ends = λ w t. succeeds a refl (sym (append-nil t)) p }

pub fail-Follows :
    {A : Type 0} (e : Error) (plan : Trace) (P : A → Type 0) → Follows (fail e) plan P
fail-Follows e plan P = record {
  ends = λ w t. stops e [] refl (sym (append-nil t)) (prefix_nil plan);
}

pub continue-ok :
    {A B : Type 0} (w : World) (r : Run A) (f : A → M B) {a : A}
    → r.result ≡ ok a
    → continue w r f ≡ f a w r.trace
continue-ok w r f e = rw e refl

pub continue-err :
    {A B : Type 0} (w : World) (r : Run A) (f : A → M B) {e : Error}
    → r.result ≡ err e
    → continue w r f ≡ record { result = err e; trace = r.trace }
continue-err w r f e = rw e refl

-- The calls of a part count from where the part before it ended.
later :
    {B : Type 0} {Q : B → Type 0} (t plan : Trace) {s more : Trace} {b : Run B}
    → s ≡ t ++ plan
    → Ends Q s more b
    → Ends Q t (plan ++ more) b
later t plan {more} same (succeeds a h k q) =
    succeeds a h (k ∙ ap (λ l. l ++ more) same ∙ append_assoc t plan more) q
later t plan same (stops e done h k p) =
    stops e (plan ++ done) h (k ∙ ap (λ l. l ++ done) same ∙ append_assoc t plan done)
      (prefix_after plan p)

continue-Ends :
    {A B : Type 0} {P : A → Type 0} {Q : B → Type 0} (w : World) (t plan more : Trace) (r : Run A)
    (f : A → M B)
    → Ends P t plan r
    → ((a : A) → P a → Follows (f a) more Q)
    → Ends Q t (plan ++ more) (continue w r f)
continue-Ends w t plan more r f (succeeds a h k p) g =
    rw (continue-ok w r f h) (later t plan k ((g a p).ends w r.trace))
continue-Ends w t plan more r f (stops e done h k p) g =
    rw (continue-err w r f h) (stops e done refl k (prefix_append more p))

-- A step and then the rest, which may use its value.
pub bind-Follows :
    {A B : Type 0} {P : A → Type 0} {Q : B → Type 0} {m : M A} {f : A → M B} {plan more : Trace}
    → Follows m plan P
    → ((a : A) → P a → Follows (f a) more Q)
    → Follows (m >>= f) (plan ++ more) Q
bind-Follows {f} {plan} {more} h g = record {
  ends = λ w t. continue-Ends w t plan more _ f (h.ends w t) g;
}

pub attempt-Follows : (a : Action) → Follows (attempt a) (a ∷ []) Any
attempt-Follows a = record { ends = λ w t. succeeds (w.fails t a) refl refl tt }

pub answer_of-Follows : (a : Action) → Follows (answer_of a) [] Any
answer_of-Follows a = record { ends = λ w t. succeeds (w.says t a) refl (sym (append-nil t)) tt }

pub check-Follows :
    (o : Option Errno) (as_error : Errno → Error) → Follows (check o as_error) [] Any
check-Follows none as_error = return-Follows tt Any tt
check-Follows (some e) as_error = fail-Follows (as_error e) [] Any

pub exec-Follows : (a : Action) → Follows (exec a) (a ∷ []) Any
exec-Follows a = bind-Follows (attempt-Follows a) (λ e _. check-Follows e system)

pub exec_as-Follows : (context : String) (a : Action) → Follows (exec_as context a) (a ∷ []) Any
exec_as-Follows context a =
    bind-Follows (attempt-Follows a) (λ e _. check-Follows e (λ n. wrapped context (system n)))

pub when-Follows :
    (b : Bool) {m : M Void} {plan : Trace}
    → Follows m plan Any
    → Follows (when b m) (if b then plan else []) Any
when-Follows true h = h
when-Follows false h = return-Follows tt Any tt

pub refuse-Follows : (b : Bool) (e : Error) → Follows (when b (fail e)) [] Any
refuse-Follows true e = fail-Follows e [] Any
refuse-Follows false e = return-Follows tt Any tt
