-- ===== src/Manager/Handoff.antt =====
-- manager/Sources/vmmanager/main.swift: sendConnectionFDOverUnixSocket, which hands a connection
-- from the guest to the runner.
pub mod Arrives
use slopvmrunner.Prelude.{
  ℕ, ◌+◌, ◌/◌, ◌%◌, ◌^◌, Bool, true, false, ◌&&◌, ◌||◌, not, Option, none, some, List, [], ◌∷◌, ok,
  ltb, leb, if◌then◌else◌,
}
use slopvmrunner.Go.Strings.{Text}
use slopvmrunner.Vm.RecvFd.{Received, unix_rights}

-- `path.utf8.count`
unfoldable pub utf8_count : Text → ℕ
utf8_count [] = 0
utf8_count (c ∷ s) =
    let rest = utf8_count s in
    if ltb c 0x80
    then 1 + rest
    else if ltb c 0x800
    then 2 + rest
    else if ltb c 0x1_0000
    then 3 + rest
    else 4 + rest

-- `destinationPort.littleEndian` in memory, the lowest byte first.
unfoldable pub little_endian : ℕ → List ℕ
little_endian port =
    port % 256 ∷ port / 2 ^ 8 % 256 ∷ port / 2 ^ 16 % 256 ∷ port / 2 ^ 24 % 256 ∷ []

-- How the calls of socket, connect and sendmsg end: whether each of them succeeds.
pub record SocketCalls : Type 0 where
  pub opened : Bool
  pub connected : Bool
  pub sent : Bool

-- The message that the runner receives, if one is sent: four bytes with the port, and the
-- descriptor as the one right of the one control message.
unfoldable pub message_of : (fd port : ℕ) → Received
unfolding little_endian
message_of fd port = record {
  payload = little_endian port;
  control = ok (unix_rights (fd ∷ []) ∷ []);
}

-- sendConnectionFDOverUnixSocket
unfoldable pub send_connection : Option Text → SocketCalls → (fd port : ℕ) → Option Received
unfolding utf8_count message_of
send_connection none calls fd port = none
send_connection (some path) calls fd port =
    if leb 104 (utf8_count path) || not (calls.opened && calls.connected && calls.sent)
    then none
    else some (message_of fd port)
