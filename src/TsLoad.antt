-- ===== src/TsLoad.antt =====
-- lib/libtsload/src/tsload.c: the calls that the agent and the command line make. The workloads and
-- the thread pools stand in the lists of their hash maps, told apart by their names, which are
-- shorter than WLNAMELEN and TPNAMELEN. `none` is an access through NULL or a failed assertion.
pub mod Configure
pub mod Errors
pub mod Names
pub mod Unique
mod Tests
use v_perf_generator.ThreadPool.{ThreadPool, tp_create, tp_detach, tp_max_threads}
use v_perf_generator.Workload.Notify.{is_configuring}
use v_perf_generator.Workload.{
  WlStatus, Workload, StepResult, step_ok, step_queue_full, step_invalid, wl_provide_step,
  wls_configuring, wls_running,
}
use v_perf_generator.Common.{
  ◌∷◌, ℕ, ◌||◌, true, some, not, none, ltb, if◌then◌else◌, false, [], Option, List, Bool, ◌==◌,
  ◌++◌,
}
use v_perf_generator.Common.Int.{pos, ℤ, ltb_ℤ}
use v_perf_generator.Common.Bytes.{str_eq}

pub data TseCode : Type 0 where
  tse_command_not_found tse_message_format tse_invalid_data tse_invalid_state tse_internal_error :
      TseCode

pub data Status : Type 0 where
  tsload_ok tsload_error : Status

-- `told` are the codes given to `tsload_error_msg`, newest first.
pub record Registry : Type 0 where
  pub workloads : List Workload
  pub pools : List ThreadPool
  pub tp_min_quantum : ℕ
  pub told : List TseCode

abbrev pub wl_search : List ℕ → List Workload → Option Workload
wl_search name [] = none
wl_search name (wl ∷ wls) = if str_eq wl.wl_name name then some wl else wl_search name wls

abbrev pub tp_search : List ℕ → List ThreadPool → Option ThreadPool
tp_search name [] = none
tp_search name (tp ∷ tps) = if str_eq tp.tp_name name then some tp else tp_search name tps

-- The object of that name is changed where it stands.
abbrev pub put_workload : Workload → List Workload → List Workload
put_workload new [] = []
put_workload new (wl ∷ wls) =
    if str_eq wl.wl_name new.wl_name then new ∷ wls else wl ∷ put_workload new wls

abbrev pub put_pool : ThreadPool → List ThreadPool → List ThreadPool
put_pool new [] = []
put_pool new (tp ∷ tps) = if str_eq tp.tp_name new.tp_name then new ∷ tps else tp ∷ put_pool new tps

abbrev pub remove_workload : List ℕ → List Workload → List Workload
remove_workload name [] = []
remove_workload name (wl ∷ wls) =
    if str_eq wl.wl_name name then wls else wl ∷ remove_workload name wls

abbrev pub remove_pool : List ℕ → List ThreadPool → List ThreadPool
remove_pool name [] = []
remove_pool name (tp ∷ tps) = if str_eq tp.tp_name name then tps else tp ∷ remove_pool name tps

abbrev pub tell : TseCode → Registry → Registry
tell code r = record r { told = code ∷ r.told }

abbrev pub refuse : TseCode → Registry → Status × Registry
refuse code r = (tsload_error, tell code r)

-- The answer goes into `*pstatus` where there is one.
unfoldable pub tsload_provide_step :
    List ℕ → ℤ → ℕ → Registry → Status × Option StepResult × Registry
tsload_provide_step name step_id num_rqs r = elim (wl_search name r.workloads) [
  | none ↦ (tsload_error, none, tell tse_invalid_data r)
  | some wl ↦
      let (ret, wl') = wl_provide_step wl step_id num_rqs in
      let r' = record r { workloads = put_workload wl' r.workloads } in
      elim ret [
        | step_invalid ↦ (tsload_error, none, tell tse_invalid_data r')
        | answer ↦ (tsload_ok, some answer, r')
      ]
]

unfoldable pub tsload_start_workload : List ℕ → ℕ → Registry → Status × Registry
tsload_start_workload name start_time r = elim (wl_search name r.workloads) [
  | none ↦ refuse tse_invalid_data r
  | some wl ↦ if not wl.wl_is_configured then refuse tse_invalid_state r else (
    tsload_ok,
    record r { workloads = put_workload (record wl { wl_start_time = start_time }) r.workloads },
  )
]

-- `tp_detach(wl->wl_tp, wl)`
unfoldable pub detach_from_pool : Workload → Registry → Option (Workload × Registry)
detach_from_pool wl r = elim wl.wl_tp [
  | none ↦ none
  | some tp_name ↦ elim (tp_search tp_name r.pools) [
    | none ↦ none
    | some tp ↦ elim (tp_detach tp wl) [
      | none ↦ none
      | some (tp', wl') ↦
          some (
            wl',
            record r { pools = put_pool tp' r.pools; workloads = put_workload wl' r.workloads },
          )
    ]
  ]
]

unfoldable pub wl_destroy : Workload → Registry → Option Registry
unfolding detach_from_pool
wl_destroy wl r = elim wl.wl_tp [
  | none ↦ some (record r { workloads = remove_workload wl.wl_name r.workloads })
  | some tp_name ↦ elim (detach_from_pool wl r) [
    | none ↦ none
    | some (wl', r') ↦ some (record r' { workloads = remove_workload wl.wl_name r'.workloads })
  ]
]

is_running : WlStatus → Bool
is_running wls_running = true
is_running _ = false

-- A workload that is not being configured; `wlt_wl_unconfig` of the load module changes nothing here.
pub unconfigure_idle : Workload → Registry → Option (Status × Registry)
unfolding is_running
unconfigure_idle wl r =
    let detached = if is_running wl.wl_status then detach_from_pool wl r else some (wl, r) in
    elim detached [
      | none ↦ none
      | some (wl', r') ↦ elim (wl_destroy wl' r') [ none ↦ none | some r'' ↦ some (tsload_ok, r'') ]
    ]

unfoldable pub tsload_unconfigure_workload : List ℕ → Registry → Option (Status × Registry)
unfolding unconfigure_idle
tsload_unconfigure_workload name r = elim (wl_search name r.workloads) [
  | none ↦ some (refuse tse_invalid_data r)
  | some wl ↦
      if is_configuring wl.wl_status
      then some (refuse tse_invalid_state r)
      else unconfigure_idle wl r
]

unfoldable pub tsload_create_threadpool : List ℕ → ℕ → ℕ → Registry → Status × Registry
tsload_create_threadpool name num_threads quantum r =
    if ltb tp_max_threads num_threads || num_threads == 0
    then refuse tse_invalid_data r
    else if ltb quantum r.tp_min_quantum
    then refuse tse_invalid_data r
    else elim (tp_search name r.pools) [
      | some tp ↦ refuse tse_invalid_data r
      | none ↦ elim (tp_create r.tp_min_quantum name num_threads quantum) [
        | none ↦ refuse tse_internal_error r
        | some tp ↦ (tsload_ok, record r { pools = r.pools ++ (tp ∷ []) })
      ]
    ]

-- `tp_destroy_impl`: the workloads of the list go with the pool.
pub remove_workloads : List (List ℕ) → List Workload → List Workload
remove_workloads [] wls = wls
remove_workloads (name ∷ names) wls = remove_workloads names (remove_workload name wls)

unfoldable pub tsload_destroy_threadpool : List ℕ → Registry → Status × Registry
unfolding remove_workloads
tsload_destroy_threadpool name r = elim (tp_search name r.pools) [
  | none ↦ refuse tse_invalid_data r
  | some tp ↦ if ltb_ℤ (pos 0) tp.tp_wl_count then refuse tse_invalid_state r else (
    tsload_ok,
    record r {
      pools = remove_pool name r.pools;
      workloads = remove_workloads tp.tp_wl_head r.workloads;
    },
  )
]
