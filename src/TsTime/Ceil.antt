-- ===== src/TsTime/Ceil.antt =====
-- How long a control thread sleeps: lib/libtscommon/src/tstime.c, `tm_ceil_diff`.
use v_perf_generator.Common.{arith, ℕ, ◌+◌, ◌%◌, ◌≤◌, ◌<◌, ◌≡◌, arith}
use native.Mathlib.Nat.{mod-add-mod, mod_self, mod-eq_of_lt}
use v_perf_generator.TsTime.{tm_ceil_diff}

-- Sleeping for `tm_ceil_diff tm precision` from `tm` ends on a multiple of a non-zero precision, and
-- is shorter than one period; and every other way to such a multiple from `tm` is at least as long.
pub tm_ceil_diff_lem :
    (tm precision : ℕ)
    → 0 < precision
    → ((tm + tm_ceil_diff tm precision) % precision ≡ 0)
      × (tm_ceil_diff tm precision < precision)
      × ((d : ℕ) → (tm + d) % precision ≡ 0 → tm_ceil_diff tm precision ≤ d)
unfolding tm_ceil_diff
tm_ceil_diff_lem tm p h = (
  ground (arith, mod-add-mod tm p (tm_ceil_diff tm p), mod_self p),
  ground arith,
  λ d e. ground (arith, mod-add-mod tm p d, mod-eq_of_lt {n = tm % p + d} {m = p}),
)
