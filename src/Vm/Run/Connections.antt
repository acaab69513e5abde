-- ===== src/Vm/Run/Connections.antt =====
-- Which connection Run takes for the agent, and that it keeps all others in their order.
use slopvmrunner.Prelude.{
  ℕ, ◌≡◌, ◌∙◌, inl, inr, refl, sym, ap, true, false, Option, none, some, List, [], ◌∷◌, ◌++◌, ◌==◌,
  All, append-nil, append_assoc, Bool-cases,
}
use slopvmrunner.Vm.Run.{
  ProxyConn, Event, accepted, ready_received, accept_error, process_exit, context_done,
  channel_closed, accept_conn,
}

-- `agent` is the first of the connections with the port, and `pending` the others in their order.
pub data Picks (port : ℕ) (conns : List ProxyConn) (agent : ProxyConn) (pending : List ProxyConn)
    : Type 0 where
  picks :
      (before after : List ProxyConn)
      → conns ≡ before ++ agent ∷ after
      → pending ≡ before ++ after
      → All (λ c. (c.port == port) ≡ false) before
      → (agent.port == port) ≡ true
      → Picks port conns agent pending

-- The variables of the loop once the connections have been accepted.
abbrev pub Holds : ℕ → List ProxyConn → Option ProxyConn → List ProxyConn → Type 0
Holds port conns none pending = (pending ≡ conns) × All (λ c. (c.port == port) ≡ false) conns
Holds port conns (some a) pending = Picks port conns a pending

All-snoc :
    (P : ProxyConn → Type 0) (cs : List ProxyConn) (c : ProxyConn)
    → All P cs
    → P c
    → All P (cs ++ c ∷ [])
All-snoc P [] c h p = (p, tt)
All-snoc P (d ∷ cs) c h p = (h.0, All-snoc P cs c h.1 p)

Picks-later :
    (port : ℕ) (conns : List ProxyConn) (a : ProxyConn) (pending : List ProxyConn) (c : ProxyConn)
    → Picks port conns a pending
    → Picks port (conns ++ c ∷ []) a (pending ++ c ∷ [])
Picks-later port conns a pending c (picks before after e k h q) =
    picks before (after ++ c ∷ [])
      (ap (λ l. l ++ c ∷ []) e ∙ append_assoc before (a ∷ after) (c ∷ []))
      (ap (λ l. l ++ c ∷ []) k ∙ append_assoc before after (c ∷ [])) h q

pub accept_conn-Holds :
    (port : ℕ) (conns : List ProxyConn) (agent : Option ProxyConn) (pending : List ProxyConn)
    (c : ProxyConn)
    → Holds port conns agent pending
    → Holds port
        (conns ++ c ∷ [])
        (accept_conn port (record { agent = agent; pending = pending }) c).agent
        (accept_conn port (record { agent = agent; pending = pending }) c).pending
unfolding accept_conn
accept_conn-Holds port conns (some a) pending c h = Picks-later port conns a pending c h
accept_conn-Holds port conns none pending c (k, h) = elim (Bool-cases (c.port == port)) [
  | inl e ↦ rw e (picks conns [] refl (k ∙ sym (append-nil conns)) h e)
  | inr e ↦ rw e (ap (λ l. l ++ c ∷ []) k, All-snoc _ conns c h e)
]

-- The connections among the events.
unfoldable pub conns_of : List Event → List ProxyConn
conns_of [] = []
conns_of (accepted c ∷ es) = c ∷ conns_of es
conns_of (ready_received ∷ es) = conns_of es
conns_of (accept_error ∷ es) = conns_of es
conns_of (process_exit ∷ es) = conns_of es
conns_of (context_done ∷ es) = conns_of es
conns_of (channel_closed ∷ es) = conns_of es

-- Some first events have been used, and the choice is made among their connections.
pub data Chosen (port : ℕ) (conns : List ProxyConn) (es : List Event) (agent : ProxyConn)
    (pending : List ProxyConn) : Type 0 where
  chosen :
      (used rest : List Event)
      → es ≡ used ++ rest
      → Picks port (conns ++ conns_of used) agent pending
      → Chosen port conns es agent pending
