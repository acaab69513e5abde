-- ===== src/Vm/Run/Settled.antt =====
-- What the waiting loop of a run has received and given up when it ends.
use slopvmrunner.Prelude.{
  ℕ, ◌≡◌, refl, ap, Bool, true, false, Option, none, some, List, [], ◌∷◌, ◌++◌, map, append-nil,
  append_assoc,
}
use mathlib.Core.List.{map-append}
use slopvmrunner.Vm.Run.{
  ProxyConn, Host, RunError, accept_channel_closed, accept_failed, manager_exited, cancelled, Event,
  accepted, ready_received, accept_error, process_exit, context_done, channel_closed, Waiting, Turn,
  again, connected, gives_up, receive, accept_conn, close_socket, stop_process, ready_if, turn,
  wait_ready, release_lock, idle,
}
use slopvmrunner.Vm.Run.Connections.{Picks, Holds, accept_conn-Holds, conns_of}

-- The files of some connections.
abbrev pub files_of : List ProxyConn → List ℕ
files_of cs = map (λ c. c.file) cs

-- A machine that runs, with or without a lock, and that has received these files.
abbrev pub held : Bool → List ℕ → Host
held locked files = record idle {
  locked = locked;
  running = true;
  listening = true;
  socket_file = true;
  files = files;
}

-- An error of the waiting loop, with the event that it comes from, and what it leaves of the
-- process, the listener, the socket and the lock.
pub data LoopError : Host → Event → RunError → Type 0 where
  at_accept : LoopError idle accept_error accept_failed
  at_exit : LoopError idle process_exit manager_exited
  at_cancel : LoopError idle context_done cancelled
  at_closed : LoopError (held false []) channel_closed accept_channel_closed

-- The end of the loop that has received `conns` before the events `es`.
pub data Settled (port : ℕ) (locked : Bool) (conns : List ProxyConn) (es : List Event)
    : Turn → Type 0 where
  goes_on :
      (s : Waiting) (h : Host)
      → h ≡ held locked (files_of (conns ++ conns_of es))
      → Settled port locked conns es (again s h)
  connects :
      (a : ProxyConn) (pending : List ProxyConn) (h : Host) (used rest : List Event)
      → es ≡ used ++ ready_received ∷ rest
      → Picks port (conns ++ conns_of used) a pending
      → h ≡ held locked (files_of (conns ++ conns_of used))
      → Settled port locked conns es (connected a pending h)
  ends :
      (x : RunError) (h base : Host) (v : Event) (used rest : List Event)
      → es ≡ used ++ v ∷ rest
      → LoopError base v x
      → release_lock h ≡ record base { files = files_of (conns ++ conns_of used) }
      → Settled port locked conns es (gives_up x h)

-- An event before those of the loop, with the connections that it brings.
Settled-after :
    (port : ℕ) (locked : Bool) (conns add : List ProxyConn) (e : Event) (es : List Event) {t : Turn}
    → ((l : List Event) → conns_of (e ∷ l) ≡ add ++ conns_of l)
    → Settled port locked (conns ++ add) es t
    → Settled port locked conns (e ∷ es) t
Settled-after port locked conns add e es k (goes_on s h p) =
    goes_on s h (rw (k es, ← append_assoc conns add (conns_of es)) p)
Settled-after port locked conns add e es k (connects a pending h used rest q c p) =
    connects a pending h (e ∷ used) rest (ap (λ l. e ∷ l) q)
      (rw (k used, ← append_assoc conns add (conns_of used)) c)
      (rw (k used, ← append_assoc conns add (conns_of used)) p)
Settled-after port locked conns add e es k (ends x h base v used rest q c p) =
    ends x h base v (e ∷ used) rest (ap (λ l. e ∷ l) q) c
      (rw (k used, ← append_assoc conns add (conns_of used)) p)

received :
    (locked : Bool) (conns : List ProxyConn) (c : ProxyConn)
    → receive c (held locked (files_of conns)) ≡ held locked (files_of (conns ++ c ∷ []))
unfolding receive
received locked conns c = rw (map-append (λ d. d.file) conns (c ∷ [])) refl

pub wait_ready-Settled :
    (port : ℕ) (locked : Bool) (conns : List ProxyConn) (agent : Option ProxyConn)
    (pending : List ProxyConn) (es : List Event)
    → Holds port conns agent pending
    → Settled port locked conns es (
        wait_ready port
          (held locked (files_of conns))
          (record { agent = agent; pending = pending })
          es)
unfolding wait_ready turn ready_if conns_of close_socket stop_process release_lock
wait_ready-Settled port locked conns agent pending [] k = goes_on _ _ (rw (append-nil conns) refl)
wait_ready-Settled port locked conns agent pending (accepted c ∷ es) k =
    let s = accept_conn port (record { agent = agent; pending = pending }) c in
    Settled-after port locked conns (c ∷ []) (accepted c) es (λ l. refl)
      (rw (received locked conns c) (
        wait_ready-Settled port locked (conns ++ c ∷ []) s.agent s.pending es
          (accept_conn-Holds port conns agent pending c k)))
wait_ready-Settled port locked conns none pending (ready_received ∷ es) k =
    Settled-after port locked conns [] ready_received es (λ l. refl)
      (rw (append-nil conns) (wait_ready-Settled port locked conns none pending es k))
wait_ready-Settled port locked conns (some a) pending (ready_received ∷ es) k =
    connects a pending _ [] es refl (rw (append-nil conns) k) (rw (append-nil conns) refl)
wait_ready-Settled port locked conns agent pending (accept_error ∷ es) k =
    ends _ _ _ _ [] _ refl at_accept (rw (append-nil conns) refl)
wait_ready-Settled port locked conns agent pending (process_exit ∷ es) k =
    ends _ _ _ _ [] _ refl at_exit (rw (append-nil conns) refl)
wait_ready-Settled port locked conns agent pending (context_done ∷ es) k =
    ends _ _ _ _ [] _ refl at_cancel (rw (append-nil conns) refl)
wait_ready-Settled port locked conns agent pending (channel_closed ∷ es) k =
    ends _ _ _ _ [] _ refl at_closed (rw (append-nil conns) refl)
