-- ===== src/TsLoad/Configure.antt =====
-- A new workload: `json_workload_proc` and `wl_config_thread` of lib/libtsload/src/workload.c, and
-- `tsload_configure_workload` of lib/libtsload/src/tsload.c. The codes that `json_workload_proc` tells
-- itself are left out.
pub mod Outcome
pub mod Calls
use v_perf_generator.TsLoad.{
  Registry, Status, tsload_ok, tsload_error, tell, tse_internal_error, wl_search, tp_search,
  put_workload, put_pool, wl_destroy,
}
use v_perf_generator.WlParam.{
  JsonType, json_node, Platform, WlpDescr, WlpResult, wlparam_ok, Memory, is_string,
  json_wlparam_proc_all,
}
use v_perf_generator.Workload.{Workload, wl_create, wls_success}
use v_perf_generator.Workload.Notify.{NotifyMsg, wl_notify, pushed}
use v_perf_generator.ThreadPool.{ThreadPool, tp_attach}
use v_perf_generator.Common.{
  ◌∷◌, ◌∷◌, ℕ, true, some, not, none, length, if◌then◌else◌, false, [], Option, List, Bool, ◌==◌,
  ◌++◌,
}
use v_perf_generator.Common.Int.{pos, ◌==ℤ◌, ℤ}

is_node : JsonType → Bool
is_node json_node = true
is_node _ = false

abbrev is_ok : WlpResult → Bool
is_ok wlparam_ok = true
is_ok _ = false

-- The bytes of "wltype", "threadpool" and "params".
abbrev wltype_key : List ℕ
wltype_key = 119 ∷ 108 ∷ 116 ∷ 121 ∷ 112 ∷ 101 ∷ []

abbrev threadpool_key : List ℕ
threadpool_key = 116 ∷ 104 ∷ 114 ∷ 101 ∷ 97 ∷ 100 ∷ 112 ∷ 111 ∷ 111 ∷ 108 ∷ []

abbrev params_key : List ℕ
params_key = 112 ∷ 97 ∷ 114 ∷ 97 ∷ 109 ∷ 115 ∷ []

-- `wl_type_search` finds the descriptions of a workload type's parameters, `wlt_params`.
module _ {ℓ} {Node : Type ℓ} {Float : Type 0} (lib : Platform Node Float)
    (wl_type_search : List ℕ → Option (List (WlpDescr Float))) where
  -- JSON_GET_VALIDATE_PARAM
  pub validated : (JsonType → Bool) → Node → List ℕ → Option Node
  validated is_type node key = elim (lib.json_find node key) [
    | none ↦ none
    | some v ↦ if is_type (lib.json_type v) then some v else none
  ]

  -- The parameters' descriptions, the pool, and the parameters that a message names.
  unfoldable pub parse : Node → List ThreadPool → Option (List (WlpDescr Float) × ThreadPool × Node)
  unfolding validated is_node
  parse node pools = elim (validated is_string node wltype_key) [
    | none ↦ none
    | some wlt ↦ elim (validated is_string node threadpool_key) [
      | none ↦ none
      | some tp ↦ elim (validated is_node node params_key) [
        | none ↦ none
        | some params ↦ elim (wl_type_search (lib.json_as_string wlt)) [
          | none ↦ none
          | some wlps ↦ elim (tp_search (lib.json_as_string tp) pools) [
            | none ↦ none
            | some pool ↦ some (wlps, pool, params)
          ]
        ]
      ]
    ]
  ]

  -- From `wl_create` on: `slots` and `mem` are what the memory of the workload and of its parameters
  -- at `wl_params` held.
  unfoldable pub create_workload :
      List ℕ
      → List ℕ
      → ℕ
      → Memory
      → List (WlpDescr Float)
      → ThreadPool
      → Node
      → Registry
      → Option (Option Workload × Registry × Memory)
  create_workload name slots wl_params mem wlps pool params r =
      let wl = wl_create name (some pool.tp_name) slots in
      let r' = record r { workloads = r.workloads ++ (wl ∷ []) } in
      let (ret, mem') = json_wlparam_proc_all lib params wlps wl_params mem in
      if is_ok ret
      then some (some wl, r', mem')
      else elim (wl_destroy wl r') [ none ↦ none | some r'' ↦ some (none, r'', mem') ]

  unfoldable pub json_workload_proc :
      List ℕ → Node → List ℕ → ℕ → Memory → Registry → Option (Option Workload × Registry × Memory)
  unfolding parse create_workload
  json_workload_proc name node slots wl_params mem r = elim (parse node r.pools) [
    | none ↦ some (none, r, mem)
    | some (wlps, pool, params) ↦
        if length name == 0 then some (none, r, mem) else elim (wl_search name r.workloads) [
          | some wl ↦ some (none, r, mem)
          | none ↦ create_workload name slots wl_params mem wlps pool params r
        ]
  ]

  unfoldable pub tsload_configure_workload :
      List ℕ → Node → List ℕ → ℕ → Memory → Registry → Option (Status × Registry × Memory)
  unfolding json_workload_proc
  tsload_configure_workload name node slots wl_params mem r =
      elim (json_workload_proc name node slots wl_params mem r) [
        | none ↦ none
        | some (none, r', mem') ↦ some (tsload_error, tell tse_internal_error r', mem')
        | some (some wl, r', mem') ↦ some (tsload_ok, r', mem')
      ]

-- `ret` is what `wlt_wl_config` of the load module returns, `now` the time of the notification.
unfoldable pub wl_config_thread : ℤ → ℕ → List ℕ → Registry → Option (Registry × List NotifyMsg)
wl_config_thread ret now name r = elim (wl_search name r.workloads) [
  | none ↦ none
  | some wl ↦ if not (ret ==ℤ pos 0) then some (r, []) else elim wl.wl_tp [
    | none ↦ none
    | some tp_name ↦ elim (tp_search tp_name r.pools) [
      | none ↦ none
      | some tp ↦ elim (tp_attach tp wl) [
        | none ↦ none
        | some tp' ↦
            elim (wl_notify now (record wl { wl_is_configured = true }) wls_success (pos 100)) [
              | pushed wl' m ↦ some (
                record r { pools = put_pool tp' r.pools; workloads = put_workload wl' r.workloads },
                m ∷ [],
              )
              | _ ↦ none
            ]
      ]
    ]
  ]
]
