-- ===== src/Agent/Benchmark.antt =====
-- agent/cmd/agent/debug_service.go: StartBenchmarkVsock, which writes a number of bytes to the host.
pub mod Bounds
use slopvmrunner.Prelude.{
  ℕ, zero, suc, ◌+◌, ◌-◌, ◌*◌, ◌^◌, ◌%◌, Bool, true, false, ltb, ◌==◌, if◌then◌else◌,
}

-- What conn.Write returns.
pub record Written : Type 0 where
  pub count : ℕ
  pub failed : Bool

-- How the call ends: refused by its arguments, no connection, or, with the bytes that are counted,
-- an error of a write, a write of nothing, or all written.
pub data Outcome : Type 0 where
  refused not_connected out_of_fuel : Outcome
  write_failed wrote_nothing all_written : ℕ → Outcome

-- `toWrite`
unfoldable pub to_write : (chunk total wrote : ℕ) → ℕ
to_write chunk total wrote = if ltb (total - wrote) chunk then total - wrote else chunk

-- `conn` answers a write by the bytes counted so far and the bytes handed to it.
module _ (conn : ℕ → ℕ → Written) (chunk total : ℕ) where
  unfoldable pub next : (wrote : ℕ) → Written
  unfolding to_write
  next wrote = conn wrote (to_write chunk total wrote)

  -- One more round of the loop; the count is a uint64.
  unfoldable pub write_loop : (fuel wrote : ℕ) → Outcome
  unfolding next
  write_loop zero wrote = out_of_fuel
  write_loop (suc fuel) wrote =
      let counted = (wrote + (next wrote).count) % 2 ^ 64 in
      let rest = write_loop fuel counted in
      if ltb wrote total
      then if (next wrote).failed
        then write_failed counted
        else if (next wrote).count == 0
        then wrote_nothing counted
        else rest
      else all_written wrote

-- The chunk that is used where none is given.
unfoldable pub chunk_or_default : ℕ → ℕ
chunk_or_default chunk = if chunk == 0 then 64 * 1024 else chunk

-- Each round counts a byte at least, so the fuel is one more than the total.
unfoldable pub start_benchmark :
    (conn : ℕ → ℕ → Written) (connects : Bool) (port total chunk : ℕ) → Outcome
unfolding write_loop chunk_or_default
start_benchmark conn connects port total chunk =
    if port == 0
    then refused
    else if total == 0
    then refused
    else if connects
    then write_loop conn (chunk_or_default chunk) total (suc total) 0
    else not_connected
