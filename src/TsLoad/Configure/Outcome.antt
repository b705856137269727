-- ===== src/TsLoad/Configure/Outcome.antt =====
-- What a configuration leaves behind: lib/libtsload/src/tsload.c, `tsload_configure_workload`.
use v_perf_generator.TsLoad.{
  tse_internal_error, tell, Registry, tsload_ok, tsload_error, wl_search, tp_search, put_workload,
  put_pool, remove_workload, wl_destroy, detach_from_pool,
}
use v_perf_generator.TsLoad.Configure.{
  is_ok, parse, create_workload, json_workload_proc, tsload_configure_workload,
}
use v_perf_generator.WlParam.{
  wlparam_ok, Platform, WlpDescr, WlpResult, Memory, json_wlparam_proc_all,
}
use v_perf_generator.WlParam.Accept.{Acceptable, json_wlparam_proc_all-Acceptable}
use v_perf_generator.Workload.{Workload, wl_create}
use v_perf_generator.ThreadPool.Members.{Counted, Listed, detach_unlisted}
use v_perf_generator.Common.{
  refl, refl, ==_of_ne, ◌≢◌, ◌++◌, ◌≢◌, ◌≡◌, ◌∷◌, ◌↔◌, ℕ, true, some, none, length, inr, inl, false,
  arith, [], Option-cases, Option, List, Bool-cases, All, ◌++◌,
}
use v_perf_generator.ThreadPool.{belongs, tp_detach_nolock, tp_detach, ThreadPool}
use v_perf_generator.Common.Bytes.{str_eq, str_eq_self}
use v_perf_generator.Common.Int.{pos, ◌+ℤ◌}

-- The last workload, of a name that no other has, is changed and removed.
remove_last :
    (name : List ℕ) (wls : List Workload) (wl wl' : Workload)
    → wl_search name wls ≡ none
    → wl.wl_name ≡ name
    → wl'.wl_name ≡ name
    → remove_workload name (put_workload wl' (wls ++ (wl ∷ []))) ≡ wls
remove_last name [] wl wl' h e e' =
    let t : str_eq wl.wl_name wl'.wl_name ≡ true = rw (e, e') (str_eq_self name) in
    let t' : str_eq wl'.wl_name name ≡ true = rw e' (str_eq_self name) in ground (arith, t, t')
remove_last name (w ∷ wls) wl wl' h e e' =
    let other : str_eq w.wl_name name ≡ false = ground arith in
    let other' : str_eq w.wl_name wl'.wl_name ≡ false = rw e' other in
    ground (arith, other, other', remove_last name wls wl wl' (ground arith) e e')

is_ok_iff : (s : WlpResult) → (is_ok s ≡ true) ↔ (s ≡ wlparam_ok)
is_ok_iff s = ground arith

module _ {ℓ} {Node : Type ℓ} {Float : Type 0} (lib : Platform Node Float)
    (wl_type_search : List ℕ → Option (List (WlpDescr Float))) (name slots : List ℕ) (node : Node)
    (wl_params : ℕ) (mem : Memory) (r : Registry) where
  -- A workload is only configured if its name is free and not empty, the message names a type, a pool
  -- and parameters, and these are acceptable; it is then registered as a new workload of that pool,
  -- nothing else of the registry changes, and the memory is as json_wlparam_proc_all leaves it, which
  -- reads these parameters into it at `wl_params`.
  pub configure-Acceptable :
      (r' : Registry) (mem' : Memory)
      → tsload_configure_workload lib wl_type_search name node slots wl_params mem r
        ≡ some (tsload_ok, r', mem')
      → (wlps : List (WlpDescr Float)) × (pool : ThreadPool) × (params : Node) × (parse lib
            wl_type_search node r.pools
          ≡ some (wlps, pool, params))
        × (wl_search name r.workloads ≡ none)
        × (length name ≢ 0)
        × All (Acceptable lib params) wlps
        × (r' ≡ record r {
          workloads = r.workloads ++ (wl_create name (some pool.tp_name) slots ∷ []);
        })
        × (mem' ≡ (json_wlparam_proc_all lib params wlps wl_params mem).1)
  unfolding tsload_configure_workload json_workload_proc create_workload
  configure-Acceptable r' mem' h = elim (Option-cases (parse lib wl_type_search node r.pools)) [
    | inl bad ↦ absurd (ground arith)
    | inr ((wlps, pool, params), got) ↦ elim (Option-cases (wl_search name r.workloads)) [
      | inr (wl, used) ↦ absurd (ground arith)
      | inl free ↦
          let ok = json_wlparam_proc_all-Acceptable lib params wlps wl_params mem in
          elim (Bool-cases (is_ok (json_wlparam_proc_all lib params wlps wl_params mem).0)) [
            | inl fine ↦ (
              wlps,
              pool,
              params,
              got,
              free,
              ground arith,
              ok.0 ((is_ok_iff _).0 fine),
              ground arith,
              ground arith,
            )
            | inr refused ↦
                absurd
                  (elim (Option-cases (
                    wl_destroy (wl_create name (some pool.tp_name) slots) (record r {
                      workloads = r.workloads ++ (wl_create name (some pool.tp_name) slots ∷ []);
                    }))) [ inl failed ↦ ground arith | inr (r2, gone) ↦ ground arith ])
          ]
    ]
  ]

  -- The workload that was made goes again, but it is taken off the count of its pool.
  destroy_new :
      (pool : ThreadPool)
      → tp_search pool.tp_name r.pools ≡ some pool
      → wl_search name r.workloads ≡ none
      → let wl = wl_create name (some pool.tp_name) slots in
        (tp_detach pool wl ≡ some (tp_detach_nolock pool wl))
        × (wl_destroy wl (record r { workloads = r.workloads ++ (wl ∷ []) })
            ≡ some (record r { pools = put_pool (tp_detach_nolock pool wl).0 r.pools }))
  unfolding wl_create wl_destroy detach_from_pool tp_detach tp_detach_nolock belongs
  destroy_new pool there free =
      let wl = wl_create name (some pool.tp_name) slots in
      let gone = remove_last name r.workloads wl (record wl { wl_tp = none }) free refl refl in
      let own = str_eq_self pool.tp_name in
      (
        rw (tp_detach, belongs, own) refl,
        rw (wl_destroy, detach_from_pool, there, tp_detach, belongs, own, gone) refl,
      )

  -- A message whose parameters are not acceptable is refused, but not without a trace: the workload
  -- that was made for it is detached from a pool that it was never attached to, so that the pool
  -- counts one workload less than it lists.
  pub configure_refused :
      (wlps : List (WlpDescr Float)) (pool : ThreadPool) (params : Node)
      → parse lib wl_type_search node r.pools ≡ some (wlps, pool, params)
      → tp_search pool.tp_name r.pools ≡ some pool
      → wl_search name r.workloads ≡ none
      → length name ≢ 0
      → ¬ Listed name pool.tp_wl_head
      → Counted pool
      → ¬ All (Acceptable lib params) wlps
      → (pool' : ThreadPool) × (r' : Registry) × (mem' : Memory) × (tsload_configure_workload lib
            wl_type_search name node slots wl_params mem r
          ≡ some (tsload_error, r', mem'))
        × (r'.workloads ≡ r.workloads)
        × (r'.pools ≡ put_pool pool' r.pools)
        × (pool'.tp_wl_head ≡ pool.tp_wl_head)
        × (pool'.tp_wl_count +ℤ pos 1 ≡ pos (length pool'.tp_wl_head))
  unfolding tsload_configure_workload json_workload_proc create_workload wl_destroy detach_from_pool
      wl_create
  configure_refused wlps pool params got there free named fresh counted bad =
      let wl = wl_create name (some pool.tp_name) slots in
      let (detached, gone) = destroy_new pool there free in
      let (head, count, _) =
        detach_unlisted pool (tp_detach_nolock pool wl).0 wl (tp_detach_nolock pool wl).1 counted
          fresh detached in
      let refused : is_ok (json_wlparam_proc_all lib params wlps wl_params mem).0 ≡ false =
        elim (Bool-cases (is_ok (json_wlparam_proc_all lib params wlps wl_params mem).0)) [
          | inl fine ↦ absurd (
              bad (
                (json_wlparam_proc_all-Acceptable lib params wlps wl_params mem).0
                  ((is_ok_iff _).0 fine)))
          | inr other ↦ other
        ] in
      (
        (tp_detach_nolock pool wl).0,
        tell tse_internal_error
            (record r { pools = put_pool (tp_detach_nolock pool wl).0 r.pools }),
        (json_wlparam_proc_all lib params wlps wl_params mem).1,
        rw
            (
              tsload_configure_workload,
              json_workload_proc,
              got,
              ==_of_ne (length name) 0 named,
              free,
              create_workload,
              refused,
              gone,
            )
            refl,
        refl,
        refl,
        head,
        count,
      )
