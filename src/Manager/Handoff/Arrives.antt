-- ===== src/Manager/Handoff/Arrives.antt =====
-- The runner receives the connections that the manager hands over.
use slopvmrunner.Prelude.{
  ℕ, ◌/◌, ◌%◌, ◌^◌, ◌<◌, ◌≡◌, ◌∙◌, refl, arith, Bool, true, false, Option, none, some, ok,
  if◌then◌else◌,
}
use slopvmrunner.Go.Strings.{Text}
use slopvmrunner.Vm.RecvFd.{Received, port_of, first_fd, fd_or_error, fd_with, decode, recv_fd}
use slopvmrunner.Manager.Handoff.{SocketCalls, little_endian, message_of, send_connection}
use slopvmrunner.Vm.RecvFd.Reads.{port_of-sum}

port_of-little_endian :
    (port : ℕ)
    → port < 2 ^ 32
    → port_of (port % 256) (port / 2 ^ 8 % 256) (port / 2 ^ 16 % 256) (port / 2 ^ 24 % 256) ≡ port
port_of-little_endian port h =
    port_of-sum _ _ _ _ (omega arith) (omega arith) (omega arith) (omega arith) ∙ omega arith

recv_fd-message : (fd port : ℕ) → port < 2 ^ 32 → recv_fd (ok (message_of fd port)) ≡ ok (fd, port)
unfolding recv_fd decode fd_with fd_or_error first_fd message_of little_endian
recv_fd-message fd port h = rw (port_of-little_endian port h) refl

sent_message : (b : Bool) {x m : Received} → (if b then none else some x) ≡ some m → x ≡ m
sent_message true e = cc e
sent_message false e = cc e

-- Whenever the manager sends a connection, recvFD returns its descriptor and the port that the
-- guest has dialed, for each port of 32 bits.
pub send_connection-recv_fd :
    (path : Option Text) (calls : SocketCalls) (fd port : ℕ) {m : Received}
    → port < 2 ^ 32
    → send_connection path calls fd port ≡ some m
    → recv_fd (ok m) ≡ ok (fd, port)
unfolding send_connection
send_connection-recv_fd none calls fd port h e = cc e
send_connection-recv_fd (some path) calls fd port h e =
    rw (← sent_message _ e) (recv_fd-message fd port h)
