-- ===== src/Vm/State/Prepares.antt =====
-- What is made before a machine runs: its directories, and its root image.
use slopvmrunner.Prelude.{
  ◌≡◌, Bool, true, false, none, some, List, [], ◌∷◌, ◌++◌, Result, ok, err, map,
}
use slopvmrunner.Go.Strings.{Text}
use slopvmrunner.Os.{
  World, Trace, Run, Action, Errno, Error, mkdir_all, stat, open_read, create, copy, close, Void,
}
use slopvmrunner.Os.Runs.{Follows, Any, return-Follows, bind-Follows, exec_as-Follows}
use slopvmrunner.Vm.State.{VmRunnerState, state_dirs, make_dirs, ensure_dirs}

make_dirs-Follows : (ds : List Text) → Follows (make_dirs ds) (map mkdir_all ds) Any
unfolding make_dirs
make_dirs-Follows [] = return-Follows tt Any tt
make_dirs-Follows (d ∷ ds) =
    bind-Follows (exec_as-Follows "create state dir" (mkdir_all d)) (λ _ _. make_dirs-Follows ds)

-- The opening of a file by its path: the base image to read, the machine's image to write.
pub data IsOpening (base image : Text) : Action → Text → Type 0 where
  reading : IsOpening base image (open_read base) base
  writing : IsOpening base image (create image) image

-- The files that are open, the last one first, and whether the machine's image is there, before and
-- after some calls that follow those of `t`: a call that fails opens or copies nothing, the copying
-- is from the base image to the machine's image and between open files, and only the file that was
-- opened last is closed.
pub data Files (w : World) (base image : Text)
    : Trace → List Text → Bool → Trace → List Text → Bool → Type 0 where
  stays : {t : Trace} {fs : List Text} {b : Bool} → Files w base image t fs b [] fs b
  finds :
      {t more : Trace} {fs gs : List Text} {b c : Bool}
      → w.fails t (stat image) ≡ none
      → Files w base image (t ++ stat image ∷ []) fs true more gs c
      → Files w base image t fs b (stat image ∷ more) gs c
  misses :
      {t more : Trace} {fs gs : List Text} {b c : Bool} (e : Errno)
      → w.fails t (stat image) ≡ some e
      → Files w base image (t ++ stat image ∷ []) fs false more gs c
      → Files w base image t fs b (stat image ∷ more) gs c
  opens :
      {t more : Trace} {fs gs : List Text} {b c : Bool} {a : Action} {p : Text}
      → IsOpening base image a p
      → w.fails t a ≡ none
      → Files w base image (t ++ a ∷ []) (p ∷ fs) b more gs c
      → Files w base image t fs b (a ∷ more) gs c
  open_fails :
      {t more : Trace} {fs gs : List Text} {b c : Bool} {a : Action} {p : Text} (e : Errno)
      → IsOpening base image a p
      → w.fails t a ≡ some e
      → Files w base image (t ++ a ∷ []) fs b more gs c
      → Files w base image t fs b (a ∷ more) gs c
  copies :
      {t more : Trace} {fs gs : List Text} {b c : Bool}
      → w.fails t (copy base image) ≡ none
      → Files w base image (t ++ copy base image ∷ []) (image ∷ base ∷ fs) true more gs c
      → Files w base image t (image ∷ base ∷ fs) b (copy base image ∷ more) gs c
  copy_fails :
      {t more : Trace} {fs gs : List Text} {b c : Bool} (e : Errno)
      → w.fails t (copy base image) ≡ some e
      → Files w base image (t ++ copy base image ∷ []) (image ∷ base ∷ fs) b more gs c
      → Files w base image t (image ∷ base ∷ fs) b (copy base image ∷ more) gs c
  closes :
      {t more : Trace} {fs gs : List Text} {b c : Bool} {p : Text}
      → Files w base image (t ++ close p ∷ []) fs b more gs c
      → Files w base image t (p ∷ fs) b (close p ∷ more) gs c

abbrev pub is_ok : Result Error Void → Bool
is_ok (ok a) = true
is_ok (err e) = false

-- A run keeps the open files, and succeeds exactly if the machine's image is there at its end.
pub record KeepsFiles (w : World) (base image : Text) (t : Trace) (fs : List Text) (r : Run Void)
    : Type 0 where
  pub more : Trace
  pub whole : r.trace ≡ t ++ more
  pub files : Files w base image t fs false more fs (is_ok r.result)

-- EnsureDirs makes its nine directories in order, a root before what lies below it: all of them if
-- it succeeds, and else a first part.
pub ensure_dirs-Follows :
    (s : VmRunnerState) → Follows (ensure_dirs s) (map mkdir_all (state_dirs s)) Any
unfolding ensure_dirs
ensure_dirs-Follows s = make_dirs-Follows (state_dirs s)
