-- ===== src/TsTime.antt =====
-- lib/libtscommon/src/tstime.c: `ts_time_t` values are nanoseconds. Times here are not negative, as
-- `tm_get_time` and `tm_get_clock` return them, and do not reach 2^63.
pub mod Ceil
mod Tests
use v_perf_generator.Common.{
  ℕ, zero, suc, ◌+◌, ◌-◌, ◌*◌, ◌/◌, ◌%◌, ◌^◌, ◌≤◌, ◌<◌, ◌≡◌, refl, sym, ap, ◌∙◌, subst, ◌≢◌, ◌↔◌,
  ◌⊎◌, inl, inr, Bool, true, false, not, ◌&&◌, ◌||◌, Option, none, some, List, [], ◌∷◌, ◌++◌, map,
  append_assoc, append-nil, arith, ltb, leb, ◌==◌, if◌then◌else◌, ltb→lt, lt→ltb, leb→le, ==_iff,
  ==_self, ==_of_ne, Bool-cases, Option-cases, length, get_elem?, get_or, set, replicate,
  length-append, length-set, length-replicate, get_or-set_self, get_or-set_ne, All,
}

abbrev pub t_ms : ℕ
t_ms = 1_000_000

abbrev pub t_sec : ℕ
t_sec = 1_000_000_000

-- TS_TIME_MAX is LLONG_MAX.
abbrev pub ts_time_max : ℕ
ts_time_max = 2 ^ 63 - 1

unfoldable pub tm_ceil_diff : ℕ → ℕ → ℕ
tm_ceil_diff tm precision = let rest = tm % precision in if rest == 0 then 0 else precision - rest
