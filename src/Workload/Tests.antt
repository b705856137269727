-- ===== src/Workload/Tests.antt =====
-- Examples for lib/libtsload/src/workload.c.
use v_perf_generator.Workload.{
  Workload, wl_create, wl_provide_step, wl_advance_step, step_invalid, step_ok, wls_configuring,
}
use v_perf_generator.Workload.Backlog.{IsValid, none_yet}
use v_perf_generator.Workload.Backlog.Runs.{
  StepCall, provides, advances, provided, advanced, run, run_backlog, run_create,
}
use v_perf_generator.Workload.Notify.{NotifyMsg, wl_notify, pushed, Report}
use v_perf_generator.Common.{
  ℕ, ℕ, replicate, replicate, some, none, ◌∷◌, [], List, ◌≡◌, refl, arith, false, true,
}
use v_perf_generator.Common.Int.{negsuc, ◌-ℤ◌, ◌+ℤ◌, pos}
use v_perf_generator.Workload.Requests.{RunReading}

abbrev slots : List ℕ
slots = replicate 16 7

abbrev name : List ℕ
name = 119 ∷ 108 ∷ []

abbrev fresh : Workload
fresh = wl_create name none slots

-- After steps 0, 1 and 2 came, and step 0 ran.
abbrev busy : Workload
busy = record {
  wl_name = name;
  wl_tp = none;
  wl_is_configured = true;
  wl_status = wls_configuring;
  wl_current_rq = 0;
  wl_start_time = 20;
  wl_is_started = false;
  wl_notify_time = 0;
  wl_current_step = pos 0;
  wl_last_step = pos 2;
  wl_rqs_per_step = slots;
}

busy-IsValid : IsValid busy
busy-IsValid = record {
  slots = refl;
  current_low = omega arith;
  last_low = omega arith;
  fits = omega arith;
}

-- Five requests for step 0; step 0 again; two steps run, the second without input; step 1 comes too
-- late and is not run.
abbrev script : List StepCall
script =
    provides (pos 0) 5
    ∷ provides (pos 0) 5
    ∷ advances
    ∷ advances
    ∷ provides (pos 1) 6
    ∷ advances
    ∷ []

run-script :
    run fresh script
    ≡ provided step_ok
      ∷ provided step_invalid
      ∷ advanced (some 5)
      ∷ advanced none
      ∷ provided step_ok
      ∷ advanced none
      ∷ []
unfolding run wl_create wl_provide_step wl_advance_step ◌+ℤ◌ ◌-ℤ◌
run-script = refl

run_create_example : run (wl_create name none slots) script ≡ run_backlog none_yet script
run_create_example = run_create name none slots script refl

abbrev half : NotifyMsg
half = record { wl_name = name; status = wls_configuring; progress = pos 100 }

abbrev notified : Workload
notified = record busy { wl_notify_time = 60_000_000 }

notify-busy : wl_notify 60_000_000 busy wls_configuring (pos 130) ≡ pushed notified half
unfolding wl_notify
notify-busy = refl

abbrev reports : List Report
reports = (60_000_000, pos 10) ∷ (70_000_000, pos 20) ∷ (120_000_000, pos 30) ∷ []

abbrev reading : RunReading
reading = record { clock_start = 5; clock_end = 9; ret = negsuc 0; tp_times = some (0, 10) }
