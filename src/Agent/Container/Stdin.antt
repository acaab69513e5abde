-- ===== src/Agent/Container/Stdin.antt =====
-- agent/cmd/agent/container_service.go: stdinStreamServer, the standard input of a container.
pub mod Receives
use slopvmrunner.Prelude.{
  ℕ, ◌+◌, ◌-◌, ◌≤◌, ◌≡◌, ◌∙◌, refl, sym, ap, arith, Bool, true, false, Option, none, some, List, [],
  ◌∷◌, ◌++◌, length, take, drop, leb, append-nil, append_assoc, length-append, if◌then◌else◌, All,
}
use slopvmrunner.Go.Scanner.{Bytes}

-- The pipe to the container: what has gone into it, how many bytes more it takes until its reader
-- is gone, and whether its end for writing is open.
pub record Pipe : Type 0 where
  pub received : Bytes
  pub room : ℕ
  pub writable : Bool

pub data StdinError : Type 0 where
  undecodable file_closed broken_pipe : StdinError

-- The writer of cmd.StdinPipe: it writes all bytes, or a first part of them and an error.
unfoldable pub pipe_write : Pipe → Bytes → Pipe × Option StdinError
pipe_write p chunk =
    if p.writable
    then if leb (length chunk) p.room
      then (record p { received = p.received ++ chunk; room = p.room - length chunk }, none)
      else (record p { received = p.received ++ take p.room chunk; room = 0 }, some broken_pipe)
    else (p, some file_closed)

unfoldable pub write_chunk : Pipe → Bytes → Pipe × Option StdinError
unfolding pipe_write
write_chunk p [] = (p, none)
write_chunk p (b ∷ chunk) = pipe_write p (b ∷ chunk)

-- stdinStreamServer.Write; `none` is a chunk that cannot be decoded.
unfoldable pub stdin_write : Pipe → Option Bytes → Pipe × Option StdinError
unfolding write_chunk
stdin_write p none = (p, some undecodable)
stdin_write p (some chunk) = write_chunk p chunk

-- stdinStreamServer.Done. A second Close of the pipe is an error.
unfoldable pub stdin_done : Pipe → Pipe × Option StdinError
stdin_done p = (record p { writable = false }, if p.writable then none else some file_closed)

-- A call of the stream.
pub data StdinCall : Type 0 where
  writes : Option Bytes → StdinCall
  closes : StdinCall

unfoldable pub stdin_call : Pipe → StdinCall → Pipe × Option StdinError
unfolding stdin_write stdin_done
stdin_call p (writes chunk) = stdin_write p chunk
stdin_call p closes = stdin_done p

-- Some calls, one after another, with their replies.
unfoldable pub stdin_calls : Pipe → List StdinCall → Pipe × List (Option StdinError)
unfolding stdin_call
stdin_calls p [] = (p, [])
stdin_calls p (c ∷ cs) =
    let (q, reply) = stdin_call p c in
    let (last, replies) = stdin_calls q cs in (last, reply ∷ replies)
