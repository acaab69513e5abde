-- ===== src/Vm/RecvFd.antt =====
-- vm/runner.go: recvFD, which receives a connection from the manager: its descriptor and its port.
pub mod Reads
use Prim.Native.Nat.{bit_or}
use slopvmrunner.Prelude.{ℕ, ◌%◌, ◌^◌, Option, none, some, List, [], ◌∷◌, Result, ok, err}
use slopvmrunner.Go.Bits.{shift_left}
use slopvmrunner.Os.{Errno}

-- What syscall.ParseUnixRights yields for a control message: descriptors, or an error.
pub data ControlMessage : Type 0 where
  unix_rights : List ℕ → ControlMessage
  no_rights : ControlMessage

-- A message that ReadMsgUnix has received into a buffer of four bytes, and the control messages
-- that syscall.ParseSocketControlMessage finds beside it.
pub record Received : Type 0 where
  pub payload : List ℕ
  pub control : Result Errno (List ControlMessage)

-- The errors of recvFD, one for each return.
pub data RecvError : Type 0 where
  read_failed : Errno → RecvError
  payload_too_short : RecvError
  control_failed : Errno → RecvError
  no_fd : (port : ℕ) → RecvError

-- `uint32(data[k]) << n`
abbrev pub shifted : ℕ → ℕ → ℕ
shifted n byte = shift_left n byte % 2 ^ 32

unfoldable pub port_of : (a b c d : ℕ) → ℕ
port_of a b c d = bit_or (bit_or (bit_or a (shifted 8 b)) (shifted 16 c)) (shifted 24 d)

-- The first descriptor of the first message that has one.
unfoldable pub first_fd : List ControlMessage → Option ℕ
first_fd [] = none
first_fd (no_rights ∷ msgs) = first_fd msgs
first_fd (unix_rights [] ∷ msgs) = first_fd msgs
first_fd (unix_rights (fd ∷ fds) ∷ msgs) = some fd

unfoldable pub fd_or_error : (port : ℕ) → Option ℕ → Result RecvError (ℕ × ℕ)
fd_or_error port none = err (no_fd port)
fd_or_error port (some fd) = ok (fd, port)

unfoldable pub fd_with : (port : ℕ) → Result Errno (List ControlMessage) → Result RecvError (ℕ × ℕ)
unfolding fd_or_error first_fd
fd_with port (err e) = err (control_failed e)
fd_with port (ok msgs) = fd_or_error port (first_fd msgs)

unfoldable pub decode : List ℕ → Result Errno (List ControlMessage) → Result RecvError (ℕ × ℕ)
unfolding fd_with port_of
decode (a ∷ b ∷ c ∷ d ∷ rest) control = fd_with (port_of a b c d) control
decode payload control = err payload_too_short

-- recvFD: the descriptor and the port.
unfoldable pub recv_fd : Result Errno Received → Result RecvError (ℕ × ℕ)
unfolding decode
recv_fd (err e) = err (read_failed e)
recv_fd (ok m) = decode m.payload m.control
