-- ===== src/Agent/Streams/Whole.antt =====
-- What arrives through pumpToByteStream.
use slopvmrunner.Prelude.{◌≡◌, Bool, true, false, List, [], ◌∷◌, ◌++◌}
use slopvmrunner.Go.Scanner.{Bytes}
use slopvmrunner.Agent.Streams.{
  ReadEnd, end_of_file, closed, broken, Source, more, last, StreamCall, write_chunk, send_done,
  release, close_source, deferred,
}

-- The bytes of the calls, one after another, up to the first Done.
unfoldable pub payload : List StreamCall → Bytes
payload [] = []
payload (write_chunk bs ∷ calls) = bs ++ payload calls
payload (send_done ∷ calls) = payload calls
payload (release ∷ calls) = payload calls
payload (close_source ∷ calls) = payload calls

unfoldable pub says_done : List StreamCall → Bool
says_done [] = false
says_done (write_chunk bs ∷ calls) = says_done calls
says_done (send_done ∷ calls) = true
says_done (release ∷ calls) = says_done calls
says_done (close_source ∷ calls) = says_done calls

-- All bytes of a source, and how it ends.
unfoldable pub contents : Source → Bytes
contents (more bs src) = bs ++ contents src
contents (last bs end) = bs

unfoldable pub ends_with : Source → ReadEnd
ends_with (more bs src) = ends_with src
ends_with (last bs end) = end

abbrev is_end_of_file : ReadEnd → Bool
is_end_of_file end_of_file = true
is_end_of_file closed = false
is_end_of_file broken = false

-- The bytes `arriving` have all been sent, and Done exactly if they ended with io.EOF; or a write
-- was refused, a first part of them has been sent, and Done has not. Last of all, the stream is
-- released and the source closed.
pub data Delivery (refuses : List StreamCall → Bool) (arriving : Bytes) (end : ReadEnd)
    (after : List StreamCall) : Type 0 where
  all_sent :
      (calls : List StreamCall)
      → after ≡ calls ++ deferred
      → payload after ≡ arriving
      → says_done after ≡ is_end_of_file end
      → Delivery refuses arriving end after
  cut_off :
      (calls : List StreamCall) (rest : Bytes)
      → after ≡ calls ++ deferred
      → refuses calls ≡ true
      → arriving ≡ payload after ++ rest
      → says_done after ≡ false
      → Delivery refuses arriving end after
