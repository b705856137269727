-- ===== src/ThreadPool/Distribute.antt =====
-- lib/libtsload/src/threadpool.c, `distribute_requests`: how many requests of a step each worker
-- gets.
pub mod Totals
pub mod Rounds
use v_perf_generator.Common.Int.{ℤ, pos, ◌==ℤ◌, ltb_ℤ}
use v_perf_generator.Common.{
  ℕ, ℕ, zero, suc, some, set, replicate, not, none, if◌then◌else◌, get_or, Option, List, Bool, ◌==◌,
  ◌-◌, ◌+◌, ◌&&◌, ◌%◌,
}

-- What the loop takes from C and its library: the results of the calls of `rand`, in order,
-- `RAND_MAX`, and the value of `1 << bit`, which C leaves undefined from bit 31 on.
pub record Libc : Type 0 where
  pub rand : ℕ → ℕ
  pub rand_max : ℕ
  pub shl : ℕ → ℤ

-- The variables of the loop, and the number of calls of `rand` so far.
pub record Draw : Type 0 where
  pub num : ℕ
  pub bit : ℕ
  pub calls : ℕ
  pub rand_value : ℕ
  pub array : List ℕ

module _ (libc : Libc) (len : ℕ) where
  -- `rand_value && (1 << bit)`
  hit : Draw → Bool
  hit d = not (d.rand_value == 0) && not (libc.shl d.bit ==ℤ pos 0)

  -- `(1 << bit) >= RAND_MAX`
  exhausted : Draw → Bool
  exhausted d = not (ltb_ℤ (libc.shl d.bit) (pos libc.rand_max))

  attach : Draw → Draw
  unfolding hit
  attach d =
      let i = d.bit % len in
      if hit d
      then record d { num = d.num - 1; array = set d.array i (get_or d.array i 0 + 1) }
      else d

  regenerate : Draw → Draw
  unfolding exhausted
  regenerate d =
      if exhausted d
      then record d { bit = 1; calls = d.calls + 1; rand_value = libc.rand d.calls }
      else record d { bit = d.bit + 1 }

  -- The `while` loop; `none` when the fuel runs out.
  draw : ℕ → Draw → Option (List ℕ)
  unfolding attach regenerate
  draw zero d = none
  draw (suc fuel) d =
      let rest = draw fuel (regenerate (attach d)) in if d.num == 0 then some d.array else rest

  unfoldable pub distribute_requests : ℕ → ℕ → ℕ → Option (List ℕ)
  unfolding draw
  distribute_requests fuel def num = draw fuel (record {
    num = num;
    bit = 0;
    calls = 1;
    rand_value = libc.rand 0;
    array = replicate len def;
  })
