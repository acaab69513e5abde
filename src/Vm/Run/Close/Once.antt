-- ===== src/Vm/Run/Close/Once.antt =====
-- The end of a started machine: Close, called any number of times, and the end of the process.
use slopvmrunner.Prelude.{ℕ, ◌≡◌, ◌∙◌, refl, ap, Bool, true, false, ◌||◌, List, [], ◌∷◌, arith}
use slopvmrunner.Go.Numbers.{ℤ}
use slopvmrunner.Vm.Run.{
  Host, Event, Context, RunResult, started, Outcomes, idle, run, close_file, close_rpc,
  release_lock, without_file, close_socket,
}
use slopvmrunner.Vm.Run.Close.{
  Closing, release_agent, close_connection, close_agent_file, unlock, closings, close_one,
  close_each, Machine, close_context, on_exit, MachineEvent, close_called, process_ended,
  machine_events,
}
use slopvmrunner.Vm.Run.Settled.{held}
use slopvmrunner.Vm.Run.Ends.{
  Leaves, starts, refuses_agent, breaks_off, never_waits, still_waits, run-Leaves,
}

-- What is held behind the first Close: the process, the listener and the socket's file until the
-- process has ended, and some files.
abbrev pub left_by : (ended : Bool) → List ℕ → Host
left_by true files = record idle { files = files }
left_by false files = held false files

-- The process has ended among these events.
unfoldable pub has_ended : List MachineEvent → Bool
has_ended [] = false
has_ended (close_called ∷ es) = has_ended es
has_ended (process_ended ∷ es) = true

-- The four calls of Close.
abbrev pub all_closings : (file : ℕ) → List Closing
all_closings file = release_agent ∷ close_connection ∷ close_agent_file file ∷ unlock ∷ []

-- A machine as Run returns it.
record IsNew (c : Context) (h : Host) : Type 0 where
  open_context : c.closed ≡ false
  valid : c.valid ≡ true
  locked : Bool
  all_held : h ≡ record (held locked h.files) { rpc_open = true; agent_held = true }

started-injective : {c d : Context} {h k : Host} → started c h ≡ started d k → (c ≡ d) × (h ≡ k)
started-injective e = (cc e, cc e)

Leaves-IsNew :
    {port : ℕ} {locked : Bool} {es : List Event} {r : RunResult} {c : Context} {h : Host}
    → Leaves port locked es r
    → r ≡ started c h
    → IsNew c h
Leaves-IsNew {locked} (starts a pending k used rest e p q) s =
    let (x, y) = started-injective s in
    record {
      open_context = rw (← x) refl;
      valid = rw (← x) refl;
      locked = locked;
      all_held = rw (← y) (rw q refl);
    }
Leaves-IsNew (refuses_agent a pending h used rest e p q) s = cc s
Leaves-IsNew (breaks_off x h base v used rest e p q) s = cc s
Leaves-IsNew (never_waits x e) s = cc s
Leaves-IsNew (still_waits h p) s = cc s

-- A closed machine.
abbrev shut : Context → (ended : Bool) → List ℕ → List Closing → Machine
shut c ended files made = record {
  context = record c { closed = true };
  host = left_by ended files;
  made = made;
}

shut-events :
    (c : Context) (ended : Bool) (files : List ℕ) (made : List Closing) (es : List MachineEvent)
    → machine_events (shut c ended files made) es ≡ shut c (has_ended es || ended) files made
unfolding machine_events close_context on_exit close_socket has_ended
shut-events c ended files made [] = refl
shut-events c ended files made (close_called ∷ es) = shut-events c ended files made es
shut-events c true files made (process_ended ∷ es) =
    shut-events c true files made es ∙ either (has_ended es)
  where
    either : (b : Bool) → shut c (b || true) files made ≡ shut c true files made
    either true = refl
    either false = refl
shut-events c false files made (process_ended ∷ es) =
    shut-events c true files made es ∙ either (has_ended es)
  where
    either : (b : Bool) → shut c (b || true) files made ≡ shut c true files made
    either true = refl
    either false = refl

first-event :
    (c : Context) (h : Host) (n : IsNew c h) (e : MachineEvent)
    → machine_events (record { context = c; host = h; made = [] }) (e ∷ [])
      ≡ shut c (has_ended (e ∷ [])) (without_file c.agent.file h.files) (all_closings c.agent.file)
unfolding machine_events close_context on_exit close_socket has_ended closings close_each close_one
    close_file close_rpc release_lock
first-event c h n close_called = rw (n.open_context, n.valid, n.all_held) refl
first-event c h n process_ended = rw (n.open_context, n.valid, n.all_held) refl

events-cons :
    (m : Machine) (e : MachineEvent) (es : List MachineEvent)
    → machine_events m (e ∷ es) ≡ machine_events (machine_events m (e ∷ [])) es
unfolding machine_events
events-cons m close_called es = refl
events-cons m process_ended es = refl

has_ended-cons :
    (e : MachineEvent) (es : List MachineEvent)
    → (has_ended es || has_ended (e ∷ [])) ≡ has_ended (e ∷ es)
unfolding has_ended
has_ended-cons close_called es = ground arith
has_ended-cons process_ended es = ground arith

-- However often Close is called on a machine that Run has started, and whether its process ends
-- before the first call, between two calls, or makes the only call: the agent is released, its
-- connection and its file closed and the lock released once each, in this order. Behind that the
-- process, the listener and the socket's file are held exactly if the process has not ended, and of
-- the files all but the agent's.
pub run-closes :
    (port : ℤ) (o : Outcomes) (es : List Event) {c : Context} {h : Host} (e : MachineEvent)
    (later : List MachineEvent)
    → run port o es ≡ started c h
    → ((machine_events (record { context = c; host = h; made = [] }) (e ∷ later)).made
        ≡ all_closings c.agent.file)
      × ((machine_events (record { context = c; host = h; made = [] }) (e ∷ later)).host
          ≡ left_by (has_ended (e ∷ later)) (without_file c.agent.file h.files))
run-closes port o es {c} {h} e later s =
    let n = Leaves-IsNew (run-Leaves port o es) s in
    let files = without_file c.agent.file h.files in
    let whole =
      events-cons (record { context = c; host = h; made = [] }) e later
      ∙ ap (λ m. machine_events m later) (first-event c h n e)
      ∙ shut-events c (has_ended (e ∷ [])) files (all_closings c.agent.file) later
      ∙ ap (λ b. shut c b files (all_closings c.agent.file)) (has_ended-cons e later) in
    (ap (λ m. m.made) whole, ap (λ m. m.host) whole)
