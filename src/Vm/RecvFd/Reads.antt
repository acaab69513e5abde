-- ===== src/Vm/RecvFd/Reads.antt =====
-- vm/runner.go: what recvFD reads from the messages for which it succeeds.
use Prim.Native.Nat.{bit_or}
use slopvmrunner.Prelude.{
  ℕ, ◌+◌, ◌*◌, ◌%◌, ◌^◌, ◌<◌, ◌≡◌, refl, arith, Option, none, some, List, [], ◌∷◌, ◌++◌, length,
  Result, ok, err, All,
}
use slopvmrunner.Go.Bits.{shift_left, bit_or-shift_left}
use slopvmrunner.Os.{Errno}
use slopvmrunner.Vm.RecvFd.{
  ControlMessage, unix_rights, no_rights, Received, shifted, port_of, first_fd, fd_or_error,
  fd_with, decode, recv_fd,
}

abbrev pub IsByte : ℕ → Type 0
IsByte n = n < 256

word : (n : ℕ) → n < 2 ^ 32 → n % 2 ^ 32 ≡ n
word n h = omega arith

-- One more byte beside the digits below it.
beside :
    (k n x : ℕ)
    → shift_left k n < 2 ^ 32
    → x < shift_left k 1
    → bit_or x (shifted k n) ≡ x + shift_left k n
beside k n x h l = rw (word (shift_left k n) h) (bit_or-shift_left k x n l)

pub port_of-sum :
    (a b c d : ℕ)
    → IsByte a
    → IsByte b
    → IsByte c
    → IsByte d
    → port_of a b c d ≡ a + b * 2 ^ 8 + c * 2 ^ 16 + d * 2 ^ 24
unfolding port_of
port_of-sum a b c d ha hb hc hd =
    rw
      (
        beside 8 b a (omega arith) (omega arith),
        beside 16 c (a + shift_left 8 b) (omega arith) (omega arith),
        beside 24 d (a + shift_left 8 b + shift_left 16 c) (omega arith) (omega arith),
      )
      (omega arith)

-- The right that a message hands over: no message before its own has a descriptor.
pub data HasFirst (fd : ℕ) : List ControlMessage → Type 0 where
  here : {fds : List ℕ} {msgs : List ControlMessage} → HasFirst fd (unix_rights (fd ∷ fds) ∷ msgs)
  after_other : {msgs : List ControlMessage} → HasFirst fd msgs → HasFirst fd (no_rights ∷ msgs)
  after_empty :
      {msgs : List ControlMessage} → HasFirst fd msgs → HasFirst fd (unix_rights [] ∷ msgs)

same_first :
    {x fd : ℕ} {fds : List ℕ} {msgs : List ControlMessage}
    → x ≡ fd
    → HasFirst fd (unix_rights (x ∷ fds) ∷ msgs)
same_first e = rw e here

first_fd-HasFirst :
    (fd : ℕ) (msgs : List ControlMessage) → first_fd msgs ≡ some fd → HasFirst fd msgs
unfolding first_fd
first_fd-HasFirst fd [] e = cc e
first_fd-HasFirst fd (no_rights ∷ msgs) e = after_other (first_fd-HasFirst fd msgs e)
first_fd-HasFirst fd (unix_rights [] ∷ msgs) e = after_empty (first_fd-HasFirst fd msgs e)
first_fd-HasFirst fd (unix_rights (x ∷ fds) ∷ msgs) e = same_first (cc e)

-- The number of some bytes, the lowest first.
abbrev pub number : List ℕ → ℕ
number [] = 0
number (b ∷ bs) = b + 256 * number bs

-- What a message holds from which recvFD has read a descriptor and a port.
pub record IsRead (m : Received) (fd port : ℕ) : Type 0 where
  pub bytes : List ℕ
  pub rest : List ℕ
  pub payload : m.payload ≡ bytes ++ rest
  pub four : length bytes ≡ 4
  pub value : port ≡ number bytes
  pub in_range : port < 2 ^ 32
  pub msgs : List ControlMessage
  pub control : m.control ≡ ok msgs
  pub right : HasFirst fd msgs

with_fd :
    (fd port n : ℕ) (o : Option ℕ) → fd_or_error n o ≡ ok (fd, port) → (n ≡ port) × (o ≡ some fd)
unfolding fd_or_error
with_fd fd port n none e = cc e
with_fd fd port n (some x) e = (cc e, cc e)

decode-IsRead :
    (fd port : ℕ) (payload : List ℕ) (control : Result Errno (List ControlMessage))
    → All IsByte payload
    → decode payload control ≡ ok (fd, port)
    → IsRead (record { payload = payload; control = control }) fd port
unfolding decode fd_with
decode-IsRead fd port [] control h e = cc e
decode-IsRead fd port (a ∷ []) control h e = cc e
decode-IsRead fd port (a ∷ b ∷ []) control h e = cc e
decode-IsRead fd port (a ∷ b ∷ c ∷ []) control h e = cc e
decode-IsRead fd port (a ∷ b ∷ c ∷ d ∷ rest) (err x) h e = cc e
decode-IsRead fd port (a ∷ b ∷ c ∷ d ∷ rest) (ok msgs) (ha, (hb, (hc, (hd, hr)))) e =
    let both = with_fd fd port _ _ e in
    let sum = port_of-sum a b c d ha hb hc hd in
    record {
      bytes = a ∷ b ∷ c ∷ d ∷ [];
      rest = rest;
      payload = refl;
      four = refl;
      value = omega (arith, both.0, sum);
      in_range = omega (arith, both.0, sum);
      msgs = msgs;
      control = refl;
      right = first_fd-HasFirst fd msgs both.1;
    }

-- If recvFD returns a descriptor and a port for a message of bytes, the message has at least four
-- bytes, the port is their number, the lowest byte first, and has at most 32 bits, and the
-- descriptor is the first one of the message's rights.
pub recv_fd-IsRead :
    (m : Received) (fd port : ℕ)
    → All IsByte m.payload
    → recv_fd (ok m) ≡ ok (fd, port)
    → IsRead m fd port
unfolding recv_fd
recv_fd-IsRead m fd port h e = decode-IsRead fd port m.payload m.control h e
