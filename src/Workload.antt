-- ===== src/Workload.antt =====
-- lib/libtsload/src/workload.c, the workload object: its creation, its queue of steps, when it
-- starts, its requests and its status notifications. A function that updates `*wl` returns the new
-- workload beside its result; the mutex `wl_rq_mutex` makes each of them one step.
-- Step ids and request counts do not reach the bounds of `long` and `int`.
pub mod Backlog
pub mod Start
pub mod Notify
pub mod Requests
mod Tests
use v_perf_generator.Common.{
  ℕ, zero, suc, ◌+◌, ◌-◌, ◌*◌, ◌/◌, ◌%◌, ◌^◌, ◌≤◌, ◌<◌, ◌≡◌, refl, sym, ap, ◌∙◌, subst, ◌≢◌, ◌↔◌,
  ◌⊎◌, inl, inr, Bool, true, false, not, ◌&&◌, ◌||◌, Option, none, some, List, [], ◌∷◌, ◌++◌, map,
  append_assoc, append-nil, arith, ltb, leb, ◌==◌, if◌then◌else◌, ltb→lt, lt→ltb, leb→le, ==_iff,
  ==_self, ==_of_ne, Bool-cases, Option-cases, length, get_elem?, get_or, set, replicate,
  length-append, length-set, length-replicate, get_or-set_self, get_or-set_ne, All,
}
use v_perf_generator.Common.Int.{ℤ, pos, negsuc, ◌+ℤ◌, ◌-ℤ◌, ◌==ℤ◌, ltb_ℤ}
use v_perf_generator.TsTime.{ts_time_max}

-- WLSTEPQSIZE
abbrev pub wl_step_q_size : ℕ
wl_step_q_size = 16

pub data WlStatus : Type 0 where
  wls_new wls_configuring wls_success wls_fail wls_finished wls_running : WlStatus

-- `wl_tp` is the name of the thread pool, `none` for NULL. The hash map links, the list nodes and
-- the parameters stand with the components that own them.
pub record Workload : Type 0 where
  pub wl_name : List ℕ
  pub wl_tp : Option (List ℕ)
  pub wl_is_configured : Bool
  pub wl_status : WlStatus
  pub wl_current_rq : ℕ
  pub wl_start_time : ℕ
  pub wl_is_started : Bool
  pub wl_notify_time : ℕ
  pub wl_current_step : ℤ
  pub wl_last_step : ℤ
  pub wl_rqs_per_step : List ℕ

-- `wl_create` leaves `wl_rqs_per_step` as the memory was: `slots`.
unfoldable pub wl_create : List ℕ → Option (List ℕ) → List ℕ → Workload
wl_create name tp slots = record {
  wl_name = name;
  wl_tp = tp;
  wl_is_configured = false;
  wl_status = wls_new;
  wl_current_rq = 0;
  wl_start_time = ts_time_max;
  wl_is_started = false;
  wl_notify_time = 0;
  wl_current_step = negsuc 0;
  wl_last_step = negsuc 0;
  wl_rqs_per_step = slots;
}

-- `step_id & WLSTEPQMASK` on a two's complement `long`.
abbrev pub step_off : ℤ → ℕ
step_off (pos n) = n % wl_step_q_size
step_off (negsuc n) = wl_step_q_size - 1 - n % wl_step_q_size

-- WL_STEP_OK, WL_STEP_QUEUE_FULL and WL_STEP_INVALID
pub data StepResult : Type 0 where
  step_ok step_queue_full step_invalid : StepResult

unfoldable pub wl_provide_step : Workload → ℤ → ℕ → StepResult × Workload
wl_provide_step wl step_id num_rqs =
    if wl.wl_last_step -ℤ wl.wl_current_step ==ℤ pos wl_step_q_size
    then (step_queue_full, wl)
    else if not (step_id ==ℤ wl.wl_last_step +ℤ pos 1)
    then (step_invalid, wl)
    else (
      step_ok,
      record wl {
        wl_last_step = step_id;
        wl_rqs_per_step = set wl.wl_rqs_per_step (step_off step_id) num_rqs;
      },
    )

-- The count goes into `wls_rq_count`; `none` is the result -1, which leaves it alone.
unfoldable pub wl_advance_step : Workload → Option ℕ × Workload
wl_advance_step wl =
    let step = wl.wl_current_step +ℤ pos 1 in
    let wl' = record wl { wl_current_step = step; wl_current_rq = 0 } in
    if ltb_ℤ wl.wl_last_step step
    then (none, wl')
    else (some (get_or wl.wl_rqs_per_step (step_off step) 0), wl')
