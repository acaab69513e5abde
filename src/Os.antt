-- ===== src/Os.antt =====
-- The system calls of the program and their errors. A function that calls the system is a function
-- of the world, which decides how each call ends from the calls made so far, and of the calls made
-- so far; it returns Go's result and the calls made by then.
pub mod Runs
pub mod Only
pub mod Yields
pub mod Answers
use slopvmrunner.Prelude.{
  ℕ, String, Bool, true, false, Option, none, some, List, [], ◌∷◌, ◌++◌, Result, ok, err,
  if◌then◌else◌,
}
use slopvmrunner.Go.Strings.{Text}
use slopvmrunner.Go.Numbers.{ℤ}

-- The error numbers that the program tells apart; all others are `other`.
pub data Errno : Type 0 where
  busy no_device not_exist : Errno
  other : ℕ → Errno

-- An error: one from the system, one with fmt.Errorf("context: %w"), one with no cause. The context
-- is the fixed text of the format; the values printed into it are left out. The last one is the end
-- of the program with a status, for the cause that it has printed.
pub data Error : Type 0 where
  system : Errno → Error
  wrapped : String → Error → Error
  message : String → Error
  exits : ℕ → Error → Error

-- The calls of the remote interface, and what its client holds until it releases it: the answer to
-- a call and the capabilities.
pub data Method : Type 0 where
  container_service create_container start_container exit_code : Method

pub data Held : Type 0 where
  answer_to : Method → Held
  service container stdout_stream stderr_stream task : Held

-- A parameter of a call, by its setter.
pub data Setting : Type 0 where
  set_oci set_image set_id set_rootfs_path set_container_state_disk : Text → Setting
  set_stdout set_stderr : Held → Setting

pub data Action : Type 0 where
  mkdir_all stat read_file remove remove_all open_read create close : Text → Action
  write_file : Text → Text → Action
  truncate : Text → ℤ → Action
  copy symlink link : Text → Text → Action
  make_temp_dir getwd : Action
  mount : (source target fstype options : Text) → Action
  unmount : Text → Action
  look_path : Text → Action
  run start : Text → List Text → Action
  stdin_pipe stdout_pipe stderr_pipe alloc_results : Action
  pull_image resolve_digest load_image parse_reference : Text → Action
  ask : Method → List Setting → Action
  take release : Held → Action
  run_machine kill_machine wait_machine close_machine : Action

abbrev pub Trace : Type 0
Trace = List Action

-- How each call ends: its error, and the text, the number or the answer that it yields if there is
-- no error.
pub record World : Type 0 where
  pub fails : Trace → Action → Option Errno
  pub reads : Trace → Action → Text
  pub counts : Trace → Action → ℤ
  pub says : Trace → Action → Bool

pub record Run (A : Type 0) : Type 0 where
  pub result : Result Error A
  pub trace : Trace

abbrev pub M : Type 0 → Type 0
M A = World → Trace → Run A

abbrev pub Void : Type 0
Void = Unit {0}

abbrev pub continue : {A B : Type 0} → World → Run A → (A → M B) → Run B
continue w r f = elim r.result [
  | ok a ↦ f a w r.trace
  | err e ↦ record { result = err e; trace = r.trace }
]

infixl 5 ◌>>=◌ ◌>>◌
abbrev pub ◌>>=◌ : {A B : Type 0} → M A → (A → M B) → M B
◌>>=◌ m f w t = continue w (m w t) f

abbrev pub ◌>>◌ : {B : Type 0} → M Void → M B → M B
m >> k = m >>= λ _. k

abbrev pub return : {A : Type 0} → A → M A
return a w t = record { result = ok a; trace = t }

abbrev pub fail : {A : Type 0} → Error → M A
fail e w t = record { result = err e; trace = t }

-- A call whose error is a value, and one whose error is ignored.
abbrev pub attempt : Action → M (Option Errno)
attempt a w t = record { result = ok (w.fails t a); trace = t ++ a ∷ [] }

abbrev pub ignore : Action → M Void
ignore a w t = record { result = ok tt; trace = t ++ a ∷ [] }

-- `if err := call; err != nil { return … }`
abbrev pub check : Option Errno → (Errno → Error) → M Void
check none as_error = return tt
check (some e) as_error = fail (as_error e)

-- A call whose error is returned as it is, and one whose error is returned with a context.
abbrev pub exec : Action → M Void
exec a = attempt a >>= λ e. check e system

abbrev pub exec_as : String → Action → M Void
exec_as context a = attempt a >>= λ e. check e (λ n. wrapped context (system n))

-- What a call yields besides its error: asked after the call.
abbrev pub text_of : Action → M Text
text_of a w t = record { result = ok (w.reads t a); trace = t }

abbrev pub number_of : Action → M ℤ
number_of a w t = record { result = ok (w.counts t a); trace = t }

abbrev pub answer_of : Action → M Bool
answer_of a w t = record { result = ok (w.says t a); trace = t }

-- `defer call`, whose error is ignored: the call is made however the rest ends.
abbrev pub finally : {A : Type 0} → Action → M A → M A
finally a m w t = let r = m w t in record { result = r.result; trace = r.trace ++ a ∷ [] }

-- The end of the program with a status, if a part of it failed.
abbrev pub exited : {A : Type 0} → ℕ → Run A → Run A
exited status r = elim r.result [
  | ok a ↦ r
  | err e ↦ record { result = err (exits status e); trace = r.trace }
]

-- `if err := …; err != nil { …; os.Exit(status) }`
abbrev pub or_exit : {A : Type 0} → ℕ → M A → M A
or_exit status m w t = exited status (m w t)

abbrev pub when : Bool → M Void → M Void
when true m = m
when false m = return tt

unfoldable pub is_busy : Errno → Bool
is_busy busy = true
is_busy e = false
