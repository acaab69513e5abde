-- ===== src/Agent/Main.antt =====
-- agent/cmd/agent/main.go and vsock.go: the connection loop of the agent, its start, and the
-- handling of signals and of ended children.
pub mod Rounds
use slopvmrunner.Prelude.{
  ℕ, ◌+◌, Bool, true, false, Option, none, some, List, [], ◌∷◌, ◌++◌, Result, ok, err,
  if◌then◌else◌, ◌==◌,
}
use slopvmrunner.Os.{Errno}

-- What the agent does: it makes and closes sockets, serves the remote interface over one, and
-- pauses.
pub data Step : Type 0 where
  open_socket connect_socket close_socket : Step
  bootstrap release_bootstrap start_rpc close_rpc : Step
  pause : (milliseconds : ℕ) → Step
  mount_runtime reap handle_signals sync : Step
  exits : ℕ → Step

-- How dialVsock ends: the socket cannot be made, or cannot be connected, or is.
pub data Dial : Type 0 where
  no_socket no_connection connected : Dial

-- dialVsock: whether there is a connection, and the steps.
unfoldable pub dial_vsock : Dial → Bool × List Step
dial_vsock no_socket = (false, [])
dial_vsock no_connection = (false, open_socket ∷ connect_socket ∷ close_socket ∷ [])
dial_vsock connected = (true, open_socket ∷ connect_socket ∷ [])

-- serveRPC: its calls to the end of the connection, and the deferred ones. Close is called twice.
unfoldable pub serve_rpc : List Step
serve_rpc = bootstrap ∷ start_rpc ∷ close_rpc ∷ close_rpc ∷ release_bootstrap ∷ close_socket ∷ []

-- One turn of the loop: how dialing ends, and the error that serveRPC returns.
pub record Round : Type 0 where
  pub dial : Dial
  pub served : Option Errno

-- The pause behind a connection that ended with an error.
unfoldable pub after_serving : Option Errno → List Step
after_serving none = []
after_serving (some e) = pause 200 ∷ []

unfoldable pub after_dialing : Bool × List Step → Option Errno → List Step
unfolding serve_rpc after_serving
after_dialing (false, steps) served = steps ++ pause 200 ∷ []
after_dialing (true, steps) served = steps ++ (serve_rpc ++ after_serving served)

-- A turn of the loop of main.
unfoldable pub round : Round → List Step
unfolding after_dialing dial_vsock
round r = after_dialing (dial_vsock r.dial) r.served

-- The loop has no end: its steps over the first turns.
unfoldable pub rounds : List Round → List Step
unfolding round
rounds [] = []
rounds (r ∷ rs) = round r ++ rounds rs

-- The start of main; an error of the mounts is only logged.
unfoldable pub start_main : (pid : ℕ) → List Step
start_main pid =
    if pid == 1 then mount_runtime ∷ reap ∷ handle_signals ∷ [] else handle_signals ∷ []

-- What Wait4 returns: a child, EINTR, or another error.
pub data Reaped : Type 0 where
  child interrupted failed : Reaped

-- reapZombies: how many calls it makes, for what they return.
unfoldable pub reap_zombies : List Reaped → ℕ
reap_zombies [] = 0
reap_zombies (failed ∷ rs) = 1
reap_zombies (r ∷ rs) = 1 + reap_zombies rs

-- handleSignals, at the first signal.
unfoldable pub handle_signal : (pid : ℕ) → List Step
handle_signal pid = if pid == 1 then sync ∷ exits 0 ∷ [] else exits 0 ∷ []
