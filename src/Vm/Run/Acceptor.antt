-- ===== src/Vm/Run/Acceptor.antt =====
-- vm/runner.go: the goroutine of VMRunner.Run that accepts the connections of the manager.
pub mod Serves
use slopvmrunner.Prelude.{
  ℕ, Bool, true, false, Option, none, some, List, [], ◌∷◌, ◌++◌, Result, ok, err,
}
use slopvmrunner.Os.{Errno}
use slopvmrunner.Vm.RecvFd.{Received, RecvError, recv_fd}
use slopvmrunner.Vm.Run.{ProxyConn}

-- What Accept returns: net.ErrClosed, another error, a connection of another type, or one of the
-- right type with the message that it brings, and whether os.NewFile makes a file of its descriptor.
pub data Arrival : Type 0 where
  listener_closed other_type : Arrival
  accept_failed : Errno → Arrival
  unix_conn : Result Errno Received → (wraps : Bool) → Arrival

-- What is offered to readyErrCh.
pub data AcceptError : Type 0 where
  failed : Errno → AcceptError
  unexpected_type not_wrapped : AcceptError
  not_received : RecvError → AcceptError

-- The steps of the goroutine.
pub data AcceptStep : Type 0 where
  take_conn close_conn : AcceptStep
  close_fd : (fd : ℕ) → AcceptStep
  send_conn : ProxyConn → AcceptStep
  offer_error : AcceptError → AcceptStep
  close_done close_accept : AcceptStep

-- The deferred closings of the two channels, the later one first.
abbrev pub ending : List AcceptStep
ending = close_done ∷ close_accept ∷ []

-- `os.NewFile` and what follows, with the steps of the later turns.
unfoldable pub wrap_file : (fd port : ℕ) → (wraps : Bool) → List AcceptStep → List AcceptStep
wrap_file fd port true rest = send_conn (record { port = port; file = fd }) ∷ rest
wrap_file fd port false rest = close_fd fd ∷ offer_error not_wrapped ∷ ending

unfoldable pub after_recv :
    Result RecvError (ℕ × ℕ) → (wraps : Bool) → List AcceptStep → List AcceptStep
unfolding wrap_file
after_recv (err e) wraps rest = offer_error (not_received e) ∷ ending
after_recv (ok (fd, port)) wraps rest = wrap_file fd port wraps rest

-- The loop over what Accept returns, as far as it has returned.
unfoldable pub accept_loop : List Arrival → List AcceptStep
unfolding after_recv recv_fd
accept_loop [] = []
accept_loop (listener_closed ∷ arrivals) = ending
accept_loop (accept_failed e ∷ arrivals) = offer_error (failed e) ∷ ending
accept_loop (other_type ∷ arrivals) = take_conn ∷ close_conn ∷ offer_error unexpected_type ∷ ending
accept_loop (unix_conn message wraps ∷ arrivals) =
    take_conn ∷ close_conn ∷ after_recv (recv_fd message) wraps (accept_loop arrivals)
