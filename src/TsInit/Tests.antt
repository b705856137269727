-- ===== src/TsInit/Tests.antt =====
-- Three subsystems, the last of which fails.
use v_perf_generator.TsInit.{
  ts_init, ts_finish, ts_finish-ts_init, subsystem, up_to_failure, first_failure, is_zero,
}
use v_perf_generator.Common.{map, ◌≡◌, true, some, [], ◌∷◌, map}
use v_perf_generator.Common.Int.{pos}

ts_finish-ts_init_example :
    ((ts_init true (map subsystem ((1, pos 0) ∷ (2, pos 0) ∷ (3, pos 7) ∷ []))).initialized
      ≡ 1 ∷ 2 ∷ 3 ∷ [])
    × ((ts_init true (map subsystem ((1, pos 0) ∷ (2, pos 0) ∷ (3, pos 7) ∷ []))).exited
        ≡ some (pos 7))
    × (ts_finish
          (ts_init true (map subsystem ((1, pos 0) ∷ (2, pos 0) ∷ (3, pos 7) ∷ []))).subsystems
        ≡ [])
unfolding up_to_failure first_failure is_zero
ts_finish-ts_init_example = ts_finish-ts_init ((1, pos 0) ∷ (2, pos 0) ∷ (3, pos 7) ∷ [])
