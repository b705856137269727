-- ===== src/Quantum.antt =====
-- lib/libtsload/src/worker.c, `control_thread`: what a thread pool does in one quantum. It holds
-- `tp_mutex`, and `w_rq_mutex` of every worker while it hands out requests. `none` is a failed
-- assertion, a use of memory that was not set, or the end of the fuel of the distribution.
-- That it wakes the workers, and interrupts those that still run, is left out: when a worker is
-- interrupted is an input of Worker.
pub mod Turns
pub mod Turned
pub mod Names
pub mod Ran
pub mod Ready
pub mod Ends
pub mod Miscount
pub mod Pass
mod Tests
use v_perf_generator.ThreadPool.{ThreadPool, belongs, tp_detach_nolock}
use v_perf_generator.ThreadPool.Distribute.{Libc}
use v_perf_generator.ThreadPool.HandOut.{tp_distribute_requests}
use v_perf_generator.Workload.{Workload, wl_advance_step, wls_finished, wls_running}
use v_perf_generator.Workload.Start.{wl_is_started}
use v_perf_generator.Workload.Notify.{NotifyMsg, wl_notify, ignored, pushed, assert_failed}
use v_perf_generator.Common.{
  ◌==◌, ◌==◌, ◌&&◌, zero, zero, suc, ◌∷◌, ◌+◌, ◌∷◌, ℕ, true, some, replicate, not, none, length,
  if◌then◌else◌, false, [], Option, List, ◌++◌, ◌+◌,
}
use v_perf_generator.Common.Int.{pos_part, ℤ, pos, ltb_ℤ, ◌==ℤ◌}
use v_perf_generator.Common.Bytes.{str_eq}

-- The workloads in memory, by their names.
abbrev pub Workloads : Type 0
Workloads = List ℕ → Workload

abbrev pub store : Workloads → List ℕ → Workload → Workloads
store wls name wl n = if str_eq n name then wl else wls n

-- What the turn of one workload takes from outside: the time when it is asked whether it has
-- started, the time of its notification, and what `distribute_requests` takes from C.
pub record Reading : Type 0 where
  pub started_at : ℕ
  pub notified_at : ℕ
  pub libc : Libc

-- The pool, the workloads, and the messages pushed.
abbrev pub Turn : Type 0
Turn = Option (ThreadPool × Workloads × List NotifyMsg)

-- `wl_advance_step` returned -1.
pub finish_workload : Reading → List ℕ → ThreadPool → Workloads → Workload → Turn
finish_workload r name tp wls wl = elim (wl_notify r.notified_at wl wls_finished (pos 0)) [
  | pushed wl' m ↦
      if belongs tp wl'
      then (let (tp', wl'') = tp_detach_nolock tp wl' in some (tp', store wls name wl'', m ∷ []))
      else none
  | _ ↦ none
]

pub run_workload : ℕ → Reading → List ℕ → ThreadPool → Workloads → ℕ → Workload → Turn
run_workload fuel r name tp wls count wl = elim (wl_notify r.notified_at wl wls_running (pos 0)) [
  | pushed wl' m ↦ elim (tp_distribute_requests r.libc fuel count wl' tp) [
    | none ↦ none
    | some (tp', wl'') ↦ some (tp', store wls name wl'', m ∷ [])
  ]
  | _ ↦ none
]

-- A workload that has started.
pub advance_workload : ℕ → Reading → List ℕ → ThreadPool → Workloads → Workload → Turn
unfolding finish_workload run_workload
advance_workload fuel r name tp wls wl =
    let (ret, wl') = wl_advance_step wl in
    elim ret [
      | none ↦ finish_workload r name tp wls wl'
      | some count ↦ run_workload fuel r name tp wls count wl'
    ]

-- The body of the loop over the step array.
unfoldable pub turn : ℕ → Reading → List ℕ → ThreadPool → Workloads → Turn
unfolding advance_workload
turn fuel r name tp wls =
    let (started, wl) = wl_is_started r.started_at (wls name) in
    if started then advance_workload fuel r name tp wls wl else some (tp, store wls name wl, [])

-- `left` turns from entry `wli` on, of which `step` holds the entries; an entry names a workload, or
-- was not set.
unfoldable pub turns :
    ℕ → (ℕ → Reading) → ℕ → ℕ → List (Option (List ℕ)) → ThreadPool → Workloads → Turn
unfolding turn
turns fuel env zero wli step tp wls = some (tp, wls, [])
turns fuel env (suc left) wli [] tp wls = none
turns fuel env (suc left) wli (none ∷ step) tp wls = none
turns fuel env (suc left) wli (some name ∷ step) tp wls = elim (turn fuel (env wli) name tp wls) [
  | none ↦ none
  | some (tp', wls', sent) ↦ elim (turns fuel env left (wli + 1) step tp' wls') [
    | none ↦ none
    | some (tp'', wls'', later) ↦ some (tp'', wls'', sent ++ later)
  ]
]

-- The local variables that the thread keeps from one quantum to the next, and what it shares.
pub record Control : Type 0 where
  pub tp : ThreadPool
  pub wls : Workloads
  pub step : List (Option (List ℕ))
  pub wl_count_prev : ℤ

-- `list_for_each_entry` writes the workloads of the list into the step array.
unfoldable pub fill_steps : List (Option (List ℕ)) → List (List ℕ) → Option (List (Option (List ℕ)))
fill_steps step [] = some step
fill_steps [] (n ∷ ns) = none
fill_steps (e ∷ step) (n ∷ ns) = elim (fill_steps step ns) [
  | none ↦ none
  | some step' ↦ some (some n ∷ step')
]

-- The step array after `tp_wl_changed` was looked at. The assertion is that of the loop over the
-- list; a negative count gives an array without entries.
unfoldable pub refresh_steps : Control → Option (List (Option (List ℕ)))
unfolding fill_steps
refresh_steps c =
    let count = c.tp.tp_wl_count in
    let step = if count ==ℤ c.wl_count_prev then c.step else replicate (pos_part count) none in
    if not c.tp.tp_wl_changed
    then some c.step
    else if not (length c.tp.tp_wl_head == 0) && ltb_ℤ count (pos (length c.tp.tp_wl_head))
    then none
    else fill_steps step c.tp.tp_wl_head

-- One iteration, which starts at the time `now`.
unfoldable pub quantum : ℕ → ℕ → (ℕ → Reading) → Control → Option (Control × List NotifyMsg)
unfolding refresh_steps turns
quantum fuel now env c = elim (refresh_steps c) [
  | none ↦ none
  | some step ↦
      let count = c.tp.tp_wl_count in
      let tp = record c.tp { tp_time = now; tp_wl_changed = false } in
      let c' = record c { tp = tp; step = step; wl_count_prev = count } in
      let ran = turns fuel env (pos_part count) 0 step tp c.wls in
      if count ==ℤ pos 0 then some (c', []) else elim ran [
        | none ↦ none
        | some (tp', wls', sent) ↦ some (record c' { tp = tp'; wls = wls' }, sent)
      ]
]
