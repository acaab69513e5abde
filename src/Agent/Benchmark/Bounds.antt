-- ===== src/Agent/Benchmark/Bounds.antt =====
-- The benchmark's loop ends, and has written neither more nor less than it should.
use slopvmrunner.Prelude.{
  ℕ, zero, suc, ◌+◌, ◌-◌, ◌^◌, ◌%◌, ◌≤◌, ◌<◌, ◌≡◌, refl, Bool, true, false, ltb, ◌==◌,
  if◌then◌else◌, arith,
}
use slopvmrunner.Agent.Benchmark.{
  Written, Outcome, refused, not_connected, out_of_fuel, write_failed, wrote_nothing, all_written,
  to_write, next, write_loop, chunk_or_default, start_benchmark,
}

-- What the call may end with.
abbrev pub IsRight : ℕ → Outcome → Type 0
IsRight total refused = Unit {0}
IsRight total not_connected = Unit {0}
IsRight total out_of_fuel = ⊥
IsRight total (write_failed wrote) = wrote ≤ total
IsRight total (wrote_nothing wrote) = wrote < total
IsRight total (all_written wrote) = wrote ≡ total

-- io.Writer: a write returns no more than it was given.
abbrev pub IsWriter : (ℕ → ℕ → Written) → Type 0
IsWriter conn = (wrote given : ℕ) → (conn wrote given).count ≤ given

to_write-le : (chunk total wrote : ℕ) → to_write chunk total wrote ≤ total - wrote
unfolding to_write
to_write-le chunk total wrote = ground arith

module _ (conn : ℕ → ℕ → Written) (chunk total : ℕ) where
  count_le : (wrote : ℕ) → IsWriter conn → (next conn chunk total wrote).count ≤ total - wrote
  unfolding next
  count_le wrote h =
      omega (arith, h wrote (to_write chunk total wrote), to_write-le chunk total wrote)

  counted_lem :
      (wrote c : ℕ)
      → total < 2 ^ 64
      → wrote < total
      → c ≤ total - wrote
      → (wrote + c) % 2 ^ 64 ≡ wrote + c
  counted_lem wrote c big below fits = omega arith

  -- One round, from what holds of the count and of the rounds behind it.
  round-IsRight :
      (before failed nothing : Bool) (wrote counted : ℕ) (rest : Outcome)
      → ((before ≡ true) → counted ≤ total)
      → ((before ≡ true) → (nothing ≡ true) → counted < total)
      → ((before ≡ false) → wrote ≡ total)
      → ((before ≡ true) → (nothing ≡ false) → IsRight total rest)
      → IsRight total (
          if before
          then if failed
            then write_failed counted
            else if nothing
            then wrote_nothing counted
            else rest
          else all_written wrote)
  round-IsRight true true nothing wrote counted rest a b c d = a refl
  round-IsRight true false true wrote counted rest a b c d = b refl refl
  round-IsRight true false false wrote counted rest a b c d = d refl refl
  round-IsRight false failed nothing wrote counted rest a b c d = c refl

  write_loop-IsRight :
      (fuel wrote : ℕ)
      → IsWriter conn
      → total < 2 ^ 64
      → wrote ≤ total
      → total < fuel + wrote
      → IsRight total (write_loop conn chunk total fuel wrote)
  unfolding write_loop
  write_loop-IsRight zero wrote h big le enough = absurd (omega arith)
  write_loop-IsRight (suc fuel) wrote h big le enough =
      let c = (next conn chunk total wrote).count in
      round-IsRight (ltb wrote total) (next conn chunk total wrote).failed (c == 0) wrote
        ((wrote + c) % 2 ^ 64) (write_loop conn chunk total fuel ((wrote + c) % 2 ^ 64))
        (λ b. ground (arith, count_le wrote h, counted_lem wrote c big))
        (λ b z. ground (arith, count_le wrote h, counted_lem wrote c big)) (λ b. ground arith)
        (λ b z.
          write_loop-IsRight fuel ((wrote + c) % 2 ^ 64) h big
            (ground (arith, count_le wrote h, counted_lem wrote c big))
            (ground (arith, count_le wrote h, counted_lem wrote c big)))

-- StartBenchmarkVsock ends: the loop needs no more rounds than there are bytes. If it succeeds, it
-- has written exactly the total; if a write fails or writes nothing, no more than the total. The
-- total is a uint64, and a write returns no more than it was given.
pub start_benchmark-IsRight :
    (conn : ℕ → ℕ → Written) (connects : Bool) (port total chunk : ℕ)
    → IsWriter conn
    → total < 2 ^ 64
    → IsRight total (start_benchmark conn connects port total chunk)
unfolding start_benchmark
start_benchmark-IsRight conn connects port total chunk h big =
    choose (port == 0) (total == 0) connects _ total (
      write_loop-IsRight conn (chunk_or_default chunk) total (suc total) 0 h big (omega arith)
        (omega arith))
  where
    choose :
        (a b c : Bool) (o : Outcome) (n : ℕ)
        → IsRight n o
        → IsRight n (if a then refused else if b then refused else if c then o else not_connected)
    choose true b c o n k = tt
    choose false true c o n k = tt
    choose false false true o n k = k
    choose false false false o n k = tt
