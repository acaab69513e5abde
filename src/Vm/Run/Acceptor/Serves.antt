-- ===== src/Vm/Run/Acceptor/Serves.antt =====
-- What the acceptor holds and sends, and that it gets what the manager hands over.
use slopvmrunner.Prelude.{ℕ, Bool, true, Option, none, some, List, [], ◌∷◌, Result, ok}
use slopvmrunner.Vm.RecvFd.{RecvError, recv_fd}
use slopvmrunner.Vm.Run.{ProxyConn}
use slopvmrunner.Vm.Run.Acceptor.{
  Arrival, unix_conn, AcceptError, AcceptStep, take_conn, close_conn, close_fd, send_conn,
  offer_error, close_done, close_accept,
}

-- Where the acceptor stands: it waits; it has a connection; it has closed that, and has a
-- descriptor or none; it has dropped the descriptor; it has offered an error; it has closed one
-- channel; and it has closed both.
pub data Place : Type 0 where
  waiting has_conn has_fd dropped refused half_closed over : Place

pub data AcceptMove : Place → AcceptStep → Place → Type 0 where
  takes : AcceptMove waiting take_conn has_conn
  closes : AcceptMove has_conn close_conn has_fd
  sends : {c : ProxyConn} → AcceptMove has_fd (send_conn c) waiting
  drops : {fd : ℕ} → AcceptMove has_fd (close_fd fd) dropped
  refuses : {e : AcceptError} → AcceptMove has_fd (offer_error e) refused
  refuses_dropped : {e : AcceptError} → AcceptMove dropped (offer_error e) refused
  refuses_all : {e : AcceptError} → AcceptMove waiting (offer_error e) refused
  stops : AcceptMove waiting close_done half_closed
  stops_refused : AcceptMove refused close_done half_closed
  ends : AcceptMove half_closed close_accept over

-- The steps lead from waiting to waiting or to the end.
pub data AcceptWalk : Place → List AcceptStep → Type 0 where
  still_waits : AcceptWalk waiting []
  is_over : AcceptWalk over []
  moves :
      {a b : Place} {s : AcceptStep} {l : List AcceptStep}
      → AcceptMove a s b
      → AcceptWalk b l
      → AcceptWalk a (s ∷ l)

abbrev pub sent_conns : List AcceptStep → List ProxyConn
sent_conns [] = []
sent_conns (send_conn c ∷ l) = c ∷ sent_conns l
sent_conns (s ∷ l) = sent_conns l

-- The connection that an arrival brings, if recvFD reads it and its descriptor is a file.
abbrev pub received_conn : Result RecvError (ℕ × ℕ) → (wraps : Bool) → Option ProxyConn
received_conn (ok (fd, port)) true = some (record { port = port; file = fd })
received_conn r wraps = none

abbrev pub conn_of : Arrival → Option ProxyConn
conn_of (unix_conn message wraps) = received_conn (recv_fd message) wraps
conn_of a = none

-- The connections of the arrivals before the first that brings none.
abbrev pub cons_some : Option ProxyConn → List ProxyConn → List ProxyConn
cons_some none cs = []
cons_some (some c) cs = c ∷ cs

abbrev pub good_conns : List Arrival → List ProxyConn
good_conns [] = []
good_conns (a ∷ arrivals) = cons_some (conn_of a) (good_conns arrivals)
