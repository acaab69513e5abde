-- ===== src/Vm/Container/Releases.antt =====
-- What RunContainer holds of the remote interface, and which calls it makes.
use slopvmrunner.Prelude.{◌≡◌, List, [], ◌∷◌, ◌++◌, Result, ok, err}
use slopvmrunner.Os.{
  World, Run, Trace, Error, M, Setting, Method, Held, answer_to, ask, take, release,
}

-- What is held, the last taken first, before and after some calls of the remote interface: a call
-- gives an answer to release, and only what was taken last is released.
pub data Holds : List Held → Trace → List Held → Type 0 where
  stays : {s : List Held} → Holds s [] s
  asks :
      {s u : List Held} {t : Trace} (m : Method) (args : List Setting)
      → Holds (answer_to m ∷ s) t u
      → Holds s (ask m args ∷ t) u
  takes : {s u : List Held} {t : Trace} (h : Held) → Holds (h ∷ s) t u → Holds s (take h ∷ t) u
  releases :
      {s u : List Held} {t : Trace} (h : Held) → Holds s t u → Holds (h ∷ s) (release h ∷ t) u

-- The methods called.
abbrev pub methods : Trace → List Method
methods [] = []
methods (ask m args ∷ t) = m ∷ methods t
methods (a ∷ t) = methods t

-- All methods of a plan were called and there is a result, or a first part of them and there is an
-- error.
pub data Answered {A : Type 0} (plan called : List Method) (r : Result Error A) : Type 0 where
  answered : (a : A) → r ≡ ok a → called ≡ plan → Answered plan called r
  refused :
      (e : Error) (rest : List Method) → r ≡ err e → plan ≡ called ++ rest → Answered plan called r

pub record Session {A : Type 0} (plan : List Method) (t : Trace) (r : Run A) : Type 0 where
  pub more : Trace
  pub whole : r.trace ≡ t ++ more
  pub balanced : (s : List Held) → Holds s more s
  pub result : Answered plan (methods more) r.result

pub record Sessions {A : Type 0} (plan : List Method) (m : M A) : Type 0 where
  pub sessions : (w : World) (t : Trace) → Session plan t (m w t)
