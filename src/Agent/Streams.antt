-- ===== src/Agent/Streams.antt =====
-- agent/cmd/agent/container_service.go: pumpToByteStream, which forwards a container's output to
-- the runner.
pub mod Whole
use slopvmrunner.Prelude.{Bool, true, false, List, [], ◌∷◌, ◌++◌, if◌then◌else◌}
use slopvmrunner.Go.Scanner.{Bytes}

-- The error beside the last bytes: io.EOF, os.ErrClosed or another.
pub data ReadEnd : Type 0 where
  end_of_file closed broken : ReadEnd

-- What src.Read yields, call by call, as far as it is called; bytes may stand beside an error.
pub data Source : Type 0 where
  more : Bytes → Source → Source
  last : Bytes → ReadEnd → Source

-- The calls that pumpToByteStream makes on the stream and on its source.
pub data StreamCall : Type 0 where
  write_chunk : Bytes → StreamCall
  send_done release close_source : StreamCall

-- `defer src.Close()` and `defer dst.Release()`, the later one first.
abbrev pub deferred : List StreamCall
deferred = release ∷ close_source ∷ []

unfoldable pub after_last : ReadEnd → List StreamCall
after_last end_of_file = send_done ∷ deferred
after_last closed = deferred
after_last broken = deferred

-- `dst.Write`, where the bytes are not empty, and then the rest, unless the write has failed.
-- `refuses` tells from the calls made so far whether it fails.
abbrev forward :
    (List StreamCall → Bool)
    → List StreamCall
    → Bytes
    → (List StreamCall → List StreamCall)
    → List StreamCall
forward refuses made [] rest = rest made
forward refuses made (b ∷ bs) rest =
    let calls = made ++ write_chunk (b ∷ bs) ∷ [] in
    if refuses calls then calls ++ deferred else rest calls

-- All calls that pumpToByteStream makes, after those made so far.
unfoldable pub pump : (List StreamCall → Bool) → List StreamCall → Source → List StreamCall
unfolding after_last
pump refuses made (more bs src) = forward refuses made bs (λ calls. pump refuses calls src)
pump refuses made (last bs end) = forward refuses made bs (λ calls. calls ++ after_last end)
