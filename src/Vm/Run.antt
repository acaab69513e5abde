-- ===== src/Vm/Run.antt =====
-- vm/runner.go: VMRunner.Run, which starts the manager and waits for the agent. The goroutines and
-- channels are an explicit sequence of events.
pub mod Settled
pub mod Ends
pub mod Close
pub mod Connections
pub mod Acceptor
use slopvmrunner.Prelude.{
  ℕ, Bool, true, false, ◌&&◌, not, Option, none, some, List, [], ◌∷◌, ◌++◌, Result, ok, err, ◌==◌,
  if◌then◌else◌,
}
use slopvmrunner.Go.Strings.{Text, is_empty, trim_space}
use slopvmrunner.Go.Numbers.{ℤ, uint32}
use slopvmrunner.Vm.Config.{ConfigError}

-- ProxyConn, with a number for its file.
pub record ProxyConn : Type 0 where
  pub port : ℕ
  pub file : ℕ

-- What of the host a run holds: the lock, the manager's process, the listener of the readiness
-- socket, the file of that socket, the connection of the remote interface, the agent's capability,
-- and the files of the connections that were received, in the order of their receipt.
pub record Host : Type 0 where
  pub locked : Bool
  pub running : Bool
  pub listening : Bool
  pub socket_file : Bool
  pub rpc_open : Bool
  pub agent_held : Bool
  pub files : List ℕ

pub data RunError : Type 0 where
  lock_failed no_manager mkdir_failed listen_failed start_failed accept_channel_closed accept_failed
        manager_exited cancelled invalid_agent :
      RunError
  invalid_config : ConfigError → RunError

-- What the select of the waiting loop receives, one for each case; a closed acceptCh is the last.
-- `ready_sent` is the receiving from readyCh, which holds a value once the agent is connected.
pub data Event : Type 0 where
  accepted : ProxyConn → Event
  ready_received accept_error process_exit context_done channel_closed : Event

-- The variables of the loop.
pub record Waiting : Type 0 where
  pub agent : Option ProxyConn
  pub pending : List ProxyConn

-- How a turn of the loop ends, and the host then.
pub data Turn : Type 0 where
  again : Waiting → Host → Turn
  connected : ProxyConn → List ProxyConn → Host → Turn
  gives_up : RunError → Host → Turn

-- `_ = readyListener.Close(); <-acceptDone; _ = os.Remove(socket)`
unfoldable pub close_socket : Host → Host
close_socket h = record h { listening = false; socket_file = false }

-- `_ = cmd.Process.Kill(); <-procWaitCh`
unfoldable pub stop_process : Host → Host
stop_process h = record h { running = false }

-- `os.NewFile` of the acceptor has opened the file of a connection that arrives.
unfoldable pub receive : ProxyConn → Host → Host
receive c h = record h { files = h.files ++ c.file ∷ [] }

unfoldable pub accept_conn : (agent_port : ℕ) → Waiting → ProxyConn → Waiting
accept_conn agent_port s c = elim s.agent [
  | none ↦
      if c.port == agent_port
      then record s { agent = some c }
      else record s { pending = s.pending ++ c ∷ [] }
  | some a ↦ record s { pending = s.pending ++ c ∷ [] }
]

-- `ready = agentRWC != nil`
unfoldable pub ready_if : Host → Waiting → Option ProxyConn → Turn
ready_if h s none = again s h
ready_if h s (some a) = connected a s.pending h

unfoldable pub turn : (agent_port : ℕ) → Host → Waiting → Event → Turn
unfolding accept_conn receive ready_if close_socket stop_process
turn agent_port h s (accepted c) = again (accept_conn agent_port s c) (receive c h)
turn agent_port h s ready_received = ready_if h s s.agent
turn agent_port h s accept_error = gives_up accept_failed (close_socket (stop_process h))
turn agent_port h s process_exit =
    gives_up manager_exited (close_socket (record h { running = false }))
turn agent_port h s context_done = gives_up cancelled (close_socket (stop_process h))
turn agent_port h s channel_closed = gives_up accept_channel_closed h

-- The loop over the events that arrive; `again` at the end is a loop that still waits.
unfoldable pub wait_ready : (agent_port : ℕ) → Host → Waiting → List Event → Turn
unfolding turn
wait_ready agent_port h s [] = again s h
wait_ready agent_port h s (e ∷ es) = elim (turn agent_port h s e) [
  | again s' h' ↦ wait_ready agent_port h' s' es
  | connected a pending h' ↦ connected a pending h'
  | gives_up x h' ↦ gives_up x h'
]

-- VMContext: the agent's connection and whether its capability is valid, the connections that came
-- before it was used, and whether closeOnce has run.
pub record Context : Type 0 where
  pub agent : ProxyConn
  pub valid : Bool
  pub proxies : List ProxyConn
  pub closed : Bool

pub data RunResult : Type 0 where
  started : Context → Host → RunResult
  failed : RunError → Host → RunResult
  waits : Host → RunResult

-- What Run is given, and how the calls end that it makes: of the lock at the path, of ManagerArgs,
-- of Stat on the manager, of MkdirAll, Listen and Start, and whether the agent's capability is
-- valid.
pub record Outcomes : Type 0 where
  pub lock_path : Text
  pub locks : Bool
  pub config_error : Option ConfigError
  pub manager_found : Bool
  pub makes_dir : Bool
  pub listens : Bool
  pub starts : Bool
  pub valid_agent : Bool

-- The deferred release of the lock, which a started machine keeps. With no lock file it does
-- nothing.
unfoldable pub release_lock : Host → Host
release_lock h = record h { locked = false }

-- A file is closed: the first one with its number.
unfoldable pub without_file : (file : ℕ) → List ℕ → List ℕ
without_file file [] = []
without_file file (f ∷ fs) = let rest = without_file file fs in if f == file then fs else f ∷ rest

unfoldable pub close_file : (file : ℕ) → Host → Host
unfolding without_file
close_file file h = record h { files = without_file file h.files }

unfoldable pub close_rpc : Host → Host
close_rpc h = record h { rpc_open = false }

-- `rpc.NewConn` and `Bootstrap`, whose capability may be invalid, and what follows in Run.
unfoldable pub after_wait : (valid_agent : Bool) → Turn → RunResult
unfolding release_lock close_socket stop_process close_rpc close_file
after_wait valid (again s h) = waits h
after_wait valid (gives_up x h) = failed x (release_lock h)
after_wait true (connected a pending h) =
    started (record { agent = a; valid = true; proxies = pending; closed = false })
      (record h { rpc_open = true; agent_held = true })
after_wait false (connected a pending h) = failed invalid_agent (
    release_lock
      (close_socket (stop_process (close_file a.file (close_rpc (record h { rpc_open = true }))))))

-- From cmd.Start on, with the socket open.
unfoldable pub run_started : ℤ → Outcomes → List Event → Host → RunResult
unfolding after_wait wait_ready release_lock
run_started port o events h =
    if o.starts
    then after_wait o.valid_agent (
        wait_ready (uint32 port) (record h { running = true })
          (record { agent = none; pending = [] }) events)
    else failed start_failed (release_lock (record h { listening = false; socket_file = false }))

-- VMRunner.Command
unfoldable pub command : Outcomes → Option RunError
command o = elim o.config_error [
  | some e ↦ some (invalid_config e)
  | none ↦ if o.manager_found then none else some no_manager
]

unfoldable pub run_locked : ℤ → Outcomes → List Event → Host → Option RunError → RunResult
unfolding run_started release_lock
run_locked port o events h (some e) = failed e (release_lock h)
run_locked port o events h none =
    if o.makes_dir
    then if o.listens
      then run_started port o events (record h { listening = true; socket_file = true })
      else failed listen_failed (release_lock (record h { socket_file = false }))
    else failed mkdir_failed (release_lock h)

abbrev pub idle : Host
idle = record {
  locked = false;
  running = false;
  listening = false;
  socket_file = false;
  rpc_open = false;
  agent_held = false;
  files = [];
}

-- lock.Acquire: whether a lock is held, if it does not fail. A blank path asks for none.
unfoldable pub acquire_lock : Outcomes → Option Bool
unfolding trim_space is_empty
acquire_lock o =
    if is_empty (trim_space o.lock_path) then some false else if o.locks then some true else none

-- VMRunner.Run, on a host where the socket is not there yet.
unfoldable pub run : ℤ → Outcomes → List Event → RunResult
unfolding run_locked command acquire_lock
run port o events = elim (acquire_lock o) [
  | some locked ↦ run_locked port o events (record idle { locked = locked }) (command o)
  | none ↦ failed lock_failed idle
]
