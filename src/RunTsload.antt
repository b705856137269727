-- ===== src/RunTsload.antt =====
-- cmd/run-tsload/src/load.c: the counters that the main thread waits for, and the callbacks that
-- count. The main thread and the callbacks take turns; a step is a round of `configure_all_wls` or
-- one callback.
mod Tests
use v_perf_generator.Workload.{
  WlStatus, wls_new, wls_configuring, wls_success, wls_fail, wls_finished, wls_running,
}
use v_perf_generator.Steps.{StepsFile, StepAnswer, got_step, step_no_rqs, step_error, step_get_step}
use v_perf_generator.TsLoad.{Registry, tsload_provide_step}
use v_perf_generator.Common.{
  ℕ, ℕ, zero, suc, ◌+◌, ◌≡◌, ◌||◌, not, if◌then◌else◌, Bool, true, false, Bool-cases, inl, inr,
  List, [], ◌∷◌, refl, arith, subst, sym,
}
use v_perf_generator.Common.Int.{
  ℤ, pos, negsuc, ◌+ℤ◌, ◌-ℤ◌, pos_part, neg_part, int_laws, eq_of_parts,
}

-- `abandoned` is that `configure_all_wls` has returned LOAD_ERR_CONFIGURE.
pub record Load : Type 0 where
  pub wl_count : ℕ
  pub wl_cfg_count : ℤ
  pub wl_run_count : ℤ
  pub load_error : Bool
  pub abandoned : Bool

-- One step from the file of a workload to its queue.
unfoldable pub load_provide_step :
    List ℕ → List ℕ → StepsFile → Registry → Load → StepAnswer × StepsFile × Registry × Load
unfolding step_get_step tsload_provide_step
load_provide_step junk name sf r load =
    let (answer, sf') = step_get_step junk sf in
    elim answer [
      | got_step id num_rqs ↦
          let (ret, status, r') = tsload_provide_step name (pos id) num_rqs r in
          (got_step id num_rqs, sf', r', load)
      | step_no_rqs ↦ (step_no_rqs, sf', r, load)
      | step_error ↦ (step_error, sf', r, record load { load_error = true })
    ]

-- `answer` is what `load_provide_step` gives.
unfoldable pub do_workload_status : StepAnswer → WlStatus → Load → Load
do_workload_status answer wls_new load = load
do_workload_status answer wls_configuring load = load
do_workload_status answer wls_success load = record load {
  wl_cfg_count = load.wl_cfg_count -ℤ pos 1;
}
do_workload_status answer wls_fail load = record load {
  wl_cfg_count = load.wl_cfg_count -ℤ pos 1;
  load_error = true;
}
do_workload_status answer wls_finished load = record load {
  wl_run_count = load.wl_run_count -ℤ pos 1;
}
do_workload_status (got_step id num_rqs) wls_running load = load
do_workload_status step_no_rqs wls_running load = load
do_workload_status step_error wls_running load = record load {
  wl_run_count = pos 0;
  load_error = true;
}

unfoldable pub do_error_msg : Load → Load
do_error_msg load = record load { load_error = true }

-- The body of the loop of `configure_all_wls`; `steps_ok` is that `load_steps` gives LOAD_OK.
unfoldable pub configure_round : Bool → Load → Load
configure_round steps_ok load =
    if load.load_error || not steps_ok
    then record load { wl_count = load.wl_count + 1; abandoned = true }
    else record load { wl_count = load.wl_count + 1; wl_cfg_count = load.wl_cfg_count +ℤ pos 1 }

pub data Event : Type 0 where
  next_workload : Bool → Event
  workload_status : StepAnswer → WlStatus → Event
  error_msg : Event

-- After `configure_all_wls` has given up there are no more rounds of it.
unfoldable pub happen : Event → Load → Load
unfolding configure_round do_workload_status do_error_msg
happen (next_workload steps_ok) load =
    if load.abandoned then load else configure_round steps_ok load
happen (workload_status answer status) load = do_workload_status answer status load
happen error_msg load = do_error_msg load

unfoldable pub happen_all : List Event → Load → Load
unfolding happen
happen_all [] load = load
happen_all (e ∷ es) load = happen_all es (happen e load)

-- `do_load` before it prepares the experiment.
abbrev pub new_load : Load
new_load = record {
  wl_count = 0;
  wl_cfg_count = pos 0;
  wl_run_count = pos 0;
  load_error = false;
  abandoned = false;
}

-- Whether the configuration of a workload has come to its end.
unfoldable pub outcome : Event → ℕ
outcome (next_workload steps_ok) = 0
outcome (workload_status answer wls_new) = 0
outcome (workload_status answer wls_configuring) = 0
outcome (workload_status answer wls_success) = 1
outcome (workload_status answer wls_fail) = 1
outcome (workload_status answer wls_finished) = 0
outcome (workload_status answer wls_running) = 0
outcome error_msg = 0

unfoldable pub outcomes : List Event → ℕ
outcomes [] = 0
outcomes (e ∷ es) = outcome e + outcomes es

abbrev given_up : Load → ℕ
given_up load = if load.abandoned then 1 else 0

-- The workloads begun are those counted, those that have come to their end and the one at which
-- `configure_all_wls` gave up.
abbrev Balanced : ℕ → Load → Type 0
Balanced ended load =
    pos_part load.wl_cfg_count + ended + given_up load ≡ load.wl_count + neg_part load.wl_cfg_count

configure_round-Balanced :
    (steps_ok : Bool) (load : Load) (ended : ℕ)
    → load.abandoned ≡ false
    → Balanced ended load
    → Balanced ended (configure_round steps_ok load)
unfolding configure_round
configure_round-Balanced steps_ok load ended on balanced =
    elim (Bool-cases (load.load_error || not steps_ok)) [
      | inl stop ↦ rw stop (ground (arith, rw on at balanced))
      | inr ok ↦ rw ok (grind int_laws)
    ]

happen-Balanced :
    (e : Event) (load : Load) (ended : ℕ)
    → Balanced ended load
    → Balanced (ended + outcome e) (happen e load)
unfolding happen outcome do_workload_status do_error_msg
happen-Balanced (next_workload steps_ok) load ended balanced = elim (Bool-cases load.abandoned) [
  | inl off ↦
      subst (λ b. Balanced (ended + 0) (if b then load else configure_round steps_ok load))
        (sym off) (omega (arith, balanced))
  | inr on ↦
      subst (λ b. Balanced (ended + 0) (if b then load else configure_round steps_ok load)) (sym on)
        (omega (arith, configure_round-Balanced steps_ok load ended on balanced))
]
happen-Balanced (workload_status answer wls_new) load ended balanced = omega (arith, balanced)
happen-Balanced (workload_status answer wls_configuring) load ended balanced =
    omega (arith, balanced)
happen-Balanced (workload_status answer wls_success) load ended balanced = grind int_laws
happen-Balanced (workload_status answer wls_fail) load ended balanced = grind int_laws
happen-Balanced (workload_status answer wls_finished) load ended balanced = omega (arith, balanced)
happen-Balanced (workload_status (got_step id num_rqs) wls_running) load ended balanced =
    omega (arith, balanced)
happen-Balanced (workload_status step_no_rqs wls_running) load ended balanced =
    omega (arith, balanced)
happen-Balanced (workload_status step_error wls_running) load ended balanced =
    omega (arith, balanced)
happen-Balanced error_msg load ended balanced = omega (arith, balanced)

happen_all-Balanced :
    (es : List Event) (load : Load) (ended : ℕ)
    → Balanced ended load
    → Balanced (ended + outcomes es) (happen_all es load)
unfolding happen_all outcomes
happen_all-Balanced [] load ended balanced = omega (arith, balanced)
happen_all-Balanced (e ∷ es) load ended balanced = omega (
  arith,
  happen_all-Balanced es (happen e load) (ended + outcome e)
      (happen-Balanced e load ended balanced),
)

-- However rounds of configure_all_wls, notifications and errors interleave: when every workload that
-- tsload_configure_workload was called for has come to the end of its configuration, wl_cfg_count is
-- 0, which do_load waits for, if configure_all_wls has not given up, and -1 if it has, since the
-- workload at which it gave up is counted off and was not counted.
pub wl_cfg_count-happen_all :
    (es : List Event)
    → outcomes es ≡ (happen_all es new_load).wl_count
    → (happen_all es new_load).wl_cfg_count
      ≡ (if (happen_all es new_load).abandoned then negsuc 0 else pos 0)
wl_cfg_count-happen_all es all_ended =
    let balanced = happen_all-Balanced es new_load 0 refl in
    elim (Bool-cases (happen_all es new_load).abandoned) [
      | inl off ↦ rw off (eq_of_parts _ _ (ground (arith, rw off at balanced, all_ended)))
      | inr on ↦ rw on (eq_of_parts _ _ (ground (arith, rw on at balanced, all_ended)))
    ]
