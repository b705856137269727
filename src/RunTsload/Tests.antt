-- ===== src/RunTsload/Tests.antt =====
-- Two workloads, the second of which has no steps.
use v_perf_generator.RunTsload.{
  Event, next_workload, workload_status, happen, happen_all, new_load, outcome, outcomes,
  do_workload_status, configure_round, wl_cfg_count-happen_all,
}
use v_perf_generator.Workload.{wls_success, wls_configuring}
use v_perf_generator.Steps.{step_no_rqs}
use v_perf_generator.Common.{◌≡◌, refl, ◌≡◌, true, false, List, [], ◌∷◌, refl}
use v_perf_generator.Common.Int.{negsuc, ◌+ℤ◌, ◌-ℤ◌}

abbrev second_has_no_steps : List Event
second_has_no_steps =
    next_workload true
    ∷ workload_status step_no_rqs wls_configuring
    ∷ workload_status step_no_rqs wls_success
    ∷ next_workload false
    ∷ workload_status step_no_rqs wls_success
    ∷ []

wl_cfg_count-happen_all_example : (happen_all second_has_no_steps new_load).wl_cfg_count ≡ negsuc 0
unfolding happen_all happen do_workload_status configure_round outcomes outcome ◌+ℤ◌ ◌-ℤ◌
wl_cfg_count-happen_all_example = wl_cfg_count-happen_all second_has_no_steps refl
