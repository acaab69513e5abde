-- ===== src/Vm/Run/Ends.antt =====
-- What a run leaves behind, on each way that it can end.
use slopvmrunner.Prelude.{
  ℕ, ◌≡◌, refl, Bool, true, false, not, Option, none, some, List, [], ◌∷◌, ◌++◌, if◌then◌else◌,
}
use slopvmrunner.Go.Numbers.{ℤ, uint32}
use slopvmrunner.Go.Strings.{is_empty, trim_space}
use slopvmrunner.Vm.Run.{
  ProxyConn, Host, RunError, lock_failed, mkdir_failed, listen_failed, invalid_agent,
  invalid_config, no_manager, start_failed, Event, ready_received, Turn, close_socket, stop_process,
  RunResult, started, failed, waits, Outcomes, release_lock, without_file, close_file, close_rpc,
  after_wait, run_started, command, run_locked, idle, acquire_lock, run,
}
use slopvmrunner.Vm.Config.{ConfigError}
use slopvmrunner.Vm.Run.Settled.{
  files_of, held, LoopError, Settled, goes_on, connects, ends, wait_ready-Settled,
}
use slopvmrunner.Vm.Run.Connections.{Picks, conns_of}

-- An error before the loop.
pub data EarlyError : RunError → Type 0 where
  of_lock : EarlyError lock_failed
  of_config : (e : ConfigError) → EarlyError (invalid_config e)
  of_manager : EarlyError no_manager
  of_mkdir : EarlyError mkdir_failed
  of_listen : EarlyError listen_failed
  of_start : EarlyError start_failed

-- What a run leaves, with the events that it has used before the one that ends the loop; `rest`
-- comes too late for it.
pub data Leaves (port : ℕ) (locked : Bool) (es : List Event) : RunResult → Type 0 where
  starts :
      (a : ProxyConn) (pending : List ProxyConn) (h : Host) (used rest : List Event)
      → es ≡ used ++ ready_received ∷ rest
      → Picks port (conns_of used) a pending
      → h ≡ record (held locked (files_of (conns_of used))) { rpc_open = true; agent_held = true }
      → Leaves port locked es
          (started (record { agent = a; valid = true; proxies = pending; closed = false }) h)
  refuses_agent :
      (a : ProxyConn) (pending : List ProxyConn) (h : Host) (used rest : List Event)
      → es ≡ used ++ ready_received ∷ rest
      → Picks port (conns_of used) a pending
      → h ≡ record idle { files = without_file a.file (files_of (conns_of used)) }
      → Leaves port locked es (failed invalid_agent h)
  breaks_off :
      (x : RunError) (h base : Host) (v : Event) (used rest : List Event)
      → es ≡ used ++ v ∷ rest
      → LoopError base v x
      → h ≡ record base { files = files_of (conns_of used) }
      → Leaves port locked es (failed x h)
  never_waits : (x : RunError) → EarlyError x → Leaves port locked es (failed x idle)
  still_waits :
      (h : Host) → h ≡ held locked (files_of (conns_of es)) → Leaves port locked es (waits h)

after_wait-Leaves :
    (port : ℕ) (locked valid : Bool) (es : List Event) {t : Turn}
    → Settled port locked [] es t
    → Leaves port locked es (after_wait valid t)
unfolding after_wait release_lock close_socket stop_process close_rpc close_file
after_wait-Leaves port locked valid es (goes_on s h p) = still_waits h p
after_wait-Leaves port locked true es (connects a pending h used rest e k p) =
    starts a pending _ used rest e k (rw p refl)
after_wait-Leaves port locked false es (connects a pending h used rest e k p) =
    refuses_agent a pending _ used rest e k (rw p refl)
after_wait-Leaves port locked valid es (ends x h base v used rest e k p) =
    breaks_off x _ base v used rest e k p

started-Leaves :
    (port : ℤ) (locked starts : Bool) (o : Outcomes) (es : List Event)
    → o.starts ≡ starts
    → Leaves (uint32 port) locked es (
        run_started port o es
          (record idle { locked = locked; listening = true; socket_file = true }))
unfolding run_started release_lock
started-Leaves port locked true o es e = rw e (
    after_wait-Leaves (uint32 port) locked o.valid_agent es
      (wait_ready-Settled (uint32 port) locked [] none [] es (refl, tt)))
started-Leaves port locked false o es e = rw e (never_waits _ of_start)

-- The command's error is one of two.
abbrev IsCommandError : Option RunError → Type 0
IsCommandError none = Unit {0}
IsCommandError (some e) = EarlyError e

command-IsCommandError : (o : Outcomes) → IsCommandError (command o)
unfolding command
command-IsCommandError o = of_end o.config_error o.manager_found
  where
    of_end :
        (config : Option ConfigError) (found : Bool)
        → IsCommandError (elim config [
          | some e ↦ some (invalid_config e)
          | none ↦ if found then none else some no_manager
        ])
    of_end (some e) found = of_config e
    of_end none true = tt
    of_end none false = of_manager

locked-Leaves :
    (port : ℤ) (locked : Bool) (o : Outcomes) (es : List Event) (e : Option RunError)
    → IsCommandError e
    → Leaves (uint32 port) locked es (run_locked port o es (record idle { locked = locked }) e)
unfolding run_locked release_lock
locked-Leaves port locked o es (some e) k = never_waits e k
locked-Leaves port locked o es none k =
    opened o.makes_dir o.listens (started-Leaves port locked o.starts o es refl)
  where
    run_on : RunResult
    run_on =
        run_started port o es
          (record idle { locked = locked; listening = true; socket_file = true })

    opened :
        (makes_dir listens : Bool)
        → Leaves (uint32 port) locked es run_on
        → Leaves (uint32 port) locked es (
            if makes_dir
            then if listens then run_on else failed listen_failed idle
            else failed mkdir_failed idle)
    opened true true h = h
    opened true false h = never_waits _ of_listen
    opened false listens h = never_waits _ of_mkdir

-- A lock is asked for by a path that is not blank.
abbrev pub wants_lock : Outcomes → Bool
wants_lock o = not (is_empty (trim_space o.lock_path))

-- However the calls of Run end and whatever events arrive, a run ends in one of five ways. Before
-- the waiting loop it fails with nothing held. Where an event breaks the loop off, its error is
-- returned and the lock, the process, the listener and the socket's file are given up, except with
-- the closed channel of the acceptor, which gives up the lock only; and the file of every connection
-- received by then stays open, the agent's as well. With an invalid agent all is given up but the
-- files of the other connections. A run that starts, on the event of readiness, or still waits,
-- holds the process, the listener, the socket's file and the file of every connection received, and
-- the lock exactly where its path is not blank. The agent's connection is the first to its port,
-- and the others are kept in their order.
pub run-Leaves :
    (port : ℤ) (o : Outcomes) (es : List Event)
    → Leaves (uint32 port) (wants_lock o) es (run port o es)
unfolding run acquire_lock is_empty trim_space
run-Leaves port o es =
    locking (is_empty (trim_space o.lock_path)) o.locks
      (λ locked. locked-Leaves port locked o es (command o) (command-IsCommandError o))
  where
    locking :
        (blank locks : Bool)
        → ((locked : Bool)
            → Leaves
                (uint32 port)
                locked
                es
                (run_locked port o es (record idle { locked = locked }) (command o)))
        → Leaves
            (uint32 port)
            (not blank)
            es
            (elim (if blank then some false else if locks then some true else none) [
              | some locked ↦ run_locked port o es (record idle { locked = locked }) (command o)
              | none ↦ failed lock_failed idle
            ])
    locking true locks h = h false
    locking false true h = h true
    locking false false h = never_waits _ of_lock
