-- ===== src/Agent/Debug.antt =====
-- agent/cmd/agent/debug_service.go: the debug service, with the stream that counts bytes.
use slopvmrunner.Prelude.{
  ℕ, ◌+◌, ◌%◌, ◌^◌, Bool, true, false, Option, none, some, List, [], ◌∷◌, Result, ok, err, length,
}
use slopvmrunner.Go.Strings.{Text, text}
use slopvmrunner.Go.Scanner.{Bytes}

pub data DebugError : Type 0 where
  no_results undecodable : DebugError

-- debugServer.Ping; the flag tells whether the results can be allocated.
unfoldable pub ping : Bool → Result DebugError Text
unfolding text
ping false = err no_results
ping true = ok (text "pong")

-- byteStreamServer: the bytes counted so far, in 64 bits.
pub record ByteStreamServer : Type 0 where
  pub bytes : ℕ

-- debugServer.OpenByteStream
unfoldable pub open_byte_stream : Bool → Result DebugError ByteStreamServer
open_byte_stream false = err no_results
open_byte_stream true = ok (record { bytes = 0 })

-- byteStreamServer.Write; `none` is a chunk that cannot be decoded.
unfoldable pub count_write : Option Bytes → ByteStreamServer → ByteStreamServer × Option DebugError
count_write none s = (s, some undecodable)
count_write (some chunk) s = (record { bytes = (s.bytes + length chunk) % 2 ^ 64 }, none)

-- Any number of calls of Write, in the order in which they add.
unfoldable pub count_writes : List (Option Bytes) → ByteStreamServer → ByteStreamServer
unfolding count_write
count_writes [] s = s
count_writes (c ∷ cs) s = count_writes cs (count_write c s).0

-- byteStreamServer.Done: the number that it logs.
unfoldable pub done_count : ByteStreamServer → ℕ
done_count s = s.bytes
