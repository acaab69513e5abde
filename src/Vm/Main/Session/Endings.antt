-- ===== src/Vm/Main/Session/Endings.antt =====
-- vm/cmd/vm/main.go: how the program ends once it starts a machine.
use slopvmrunner.Prelude.{◌≡◌, Option, [], ◌∷◌, ◌++◌, ok, err}
use slopvmrunner.Os.{
  World, M, Void, Run, Trace, Errno, Error, system, exits, run_machine, kill_machine, wait_machine,
  close_machine, check, ignore, or_exit, ◌>>=◌,
}
use slopvmrunner.Vm.Main.{Launch}
use slopvmrunner.Vm.Main.FlagValues.{Flags}
use slopvmrunner.Vm.Main.Session.{session}

-- A step of the session: the program goes on, or it kills the machine and ends with status 1.
data Stage {A : Type 0} (r : Run A) : Type 0 where
  goes_on : (a : A) → r.result ≡ ok a → Stage r
  gives_up :
      (e : Error) (s : Trace)
      → r.result ≡ err (exits 1 e)
      → r.trace ≡ s ++ kill_machine ∷ []
      → Stage r

record Stages {A : Type 0} (m : M A) : Type 0 where
  stages : (w : World) (t : Trace) → Stage (m w t)

-- How the program ends once it tries to start the machine.
pub data ProgramEnd (r : Run Void) : Type 0 where
  not_started :
      (e : Error) (s : Trace)
      → r.result ≡ err (exits 1 e)
      → r.trace ≡ s ++ run_machine ∷ []
      → ProgramEnd r
  machine_killed :
      (e : Error) (s : Trace)
      → r.result ≡ err (exits 1 e)
      → r.trace ≡ s ++ kill_machine ∷ []
      → ProgramEnd r
  machine_failed :
      (e : Error) (s : Trace)
      → r.result ≡ err (exits 1 e)
      → r.trace ≡ s ++ wait_machine ∷ []
      → ProgramEnd r
  machine_ended :
      (s : Trace)
      → r.result ≡ ok tt
      → r.trace ≡ s ++ wait_machine ∷ close_machine ∷ []
      → ProgramEnd r

record Closings (m : M Void) : Type 0 where
  closings : (w : World) (t : Trace) → ProgramEnd (m w t)

wait_for : Option Errno → M Void
wait_for e = or_exit 1 (check e system) >>= λ _. ignore close_machine

started : Flags → Launch → Option Errno → M Void
started f l e = or_exit 1 (check e system) >>= λ _. session f l
