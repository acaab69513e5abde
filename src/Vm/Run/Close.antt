-- ===== src/Vm/Run/Close.antt =====
-- vm/runner.go: VMContext.Close, and the goroutine of VMRunner.Run that waits for the end of the
-- process of a started machine.
pub mod Once
use slopvmrunner.Prelude.{ℕ, Bool, true, false, List, [], ◌∷◌, ◌++◌, if◌then◌else◌}
use slopvmrunner.Vm.Run.{Host, Context, close_socket, close_file, close_rpc, release_lock}

-- The calls that VMContext.Close makes.
pub data Closing : Type 0 where
  release_agent close_connection unlock : Closing
  close_agent_file : (file : ℕ) → Closing

unfoldable pub closings : Context → List Closing
closings c =
    (if c.valid then release_agent ∷ [] else [])
    ++ close_connection ∷ close_agent_file c.agent.file ∷ unlock ∷ []

unfoldable pub close_one : Closing → Host → Host
unfolding close_rpc close_file release_lock
close_one release_agent h = record h { agent_held = false }
close_one close_connection h = close_rpc h
close_one (close_agent_file file) h = close_file file h
close_one unlock h = release_lock h

unfoldable pub close_each : List Closing → Host → Host
unfolding close_one
close_each [] h = h
close_each (k ∷ ks) h = close_each ks (close_one k h)

-- A started machine: its context, the host, and the calls that Close has made.
pub record Machine : Type 0 where
  pub context : Context
  pub host : Host
  pub made : List Closing

-- VMContext.Close: what closeOnce runs, on the first call only.
unfoldable pub close_context : Machine → Machine
unfolding close_each closings
close_context m = if m.context.closed then m else record {
  context = record m.context { closed = true };
  host = close_each (closings m.context) m.host;
  made = m.made ++ closings m.context;
}

-- The goroutine that waits for the manager's process, when the process has ended.
unfoldable pub on_exit : Machine → Machine
unfolding close_context close_socket
on_exit m = close_context (record m { host = close_socket (record m.host { running = false }) })

-- What happens to a started machine: a call of Close, or the end of the manager's process.
pub data MachineEvent : Type 0 where
  close_called process_ended : MachineEvent

unfoldable pub machine_events : Machine → List MachineEvent → Machine
unfolding close_context on_exit
machine_events m [] = m
machine_events m (close_called ∷ es) = machine_events (close_context m) es
machine_events m (process_ended ∷ es) = machine_events (on_exit m) es
