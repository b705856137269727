-- ===== src/TsLoad/Configure/Calls.antt =====
-- Names stay unique through all calls of lib/libtsload/src/tsload.c that change the workloads or the
-- pools, `tsload_configure_workload` among them.
use v_perf_generator.TsLoad.{Status, Registry, wl_search, wl_destroy}
use v_perf_generator.TsLoad.Errors.{Call, call}
use v_perf_generator.TsLoad.Configure.{
  is_ok, parse, create_workload, json_workload_proc, tsload_configure_workload,
}
use v_perf_generator.TsLoad.Names.{wl_names, tp_names}
use v_perf_generator.TsLoad.Unique.{Unique, same-Unique, wl_destroy-Unique, call-Unique}
use v_perf_generator.Quantum.Names.{Apart}
use v_perf_generator.ThreadPool.Members.{Listed}
use v_perf_generator.ThreadPool.{ThreadPool}
use v_perf_generator.Workload.{Workload, wl_create}
use v_perf_generator.WlParam.{Platform, WlpDescr, Memory, json_wlparam_proc_all}
use v_perf_generator.Common.{
  ℕ, ℕ, ◌≡◌, ◌++◌, ◌∷◌, [], List, Option, some, none, Option-cases, Bool-cases, inl, inr, sym, ap,
  arith, length, ◌==◌, ◌⊎◌,
}
use v_perf_generator.Common.Bytes.{str_eq_iff}

wl_search_absent :
    (name : List ℕ) (wls : List Workload) → wl_search name wls ≡ none → ¬ Listed name (wl_names wls)
wl_search_absent name [] h l = l
wl_search_absent name (wl ∷ wls) h l =
    ground (arith, str_eq_iff wl.wl_name name, wl_search_absent name wls)

Listed-append :
    (n : List ℕ) (wls : List Workload) (wl : Workload)
    → Listed n (wl_names (wls ++ (wl ∷ [])))
    → Listed n (wl_names wls) ⊎ (wl.wl_name ≡ n)
Listed-append n [] wl (inl e) = inr e
Listed-append n [] wl (inr l) = absurd l
Listed-append n (w ∷ wls) wl (inl e) = inl (inl e)
Listed-append n (w ∷ wls) wl (inr l) = elim (Listed-append n wls wl l) [
  | inl old ↦ inl (inr old)
  | inr new ↦ inr new
]

Apart-added :
    (wls : List Workload) (wl : Workload)
    → Apart (wl_names wls)
    → ¬ Listed wl.wl_name (wl_names wls)
    → Apart (wl_names (wls ++ (wl ∷ [])))
Apart-added [] wl a fresh = ((λ l. l), tt)
Apart-added (w ∷ wls) wl a fresh = (
  (λ l. elim (Listed-append w.wl_name wls wl l) [
    | inl old ↦ a.0 old
    | inr same ↦ fresh (inl (sym same))
  ]),
  Apart-added wls wl a.1 (λ l. fresh (inr l)),
)

added-Unique :
    (wl : Workload) (r : Registry)
    → wl_search wl.wl_name r.workloads ≡ none
    → Unique r
    → Unique (record r { workloads = r.workloads ++ (wl ∷ []) })
added-Unique wl r free u = record {
  workload_names =
      Apart-added r.workloads wl u.workload_names (wl_search_absent wl.wl_name r.workloads free);
  pool_names = u.pool_names;
}

module _ {ℓ} {Node : Type ℓ} {Float : Type 0} (lib : Platform Node Float)
    (wl_type_search : List ℕ → Option (List (WlpDescr Float))) where
  create_workload-Unique :
      (name slots : List ℕ) (wl_params : ℕ) (mem mem' : Memory) (wlps : List (WlpDescr Float))
      (pool : ThreadPool) (params : Node) (r r' : Registry) (o : Option Workload)
      → wl_search name r.workloads ≡ none
      → create_workload lib wl_type_search name slots wl_params mem wlps pool params r
        ≡ some (o, r', mem')
      → Unique r
      → Unique r'
  unfolding create_workload wl_create
  create_workload-Unique name slots wl_params mem mem' wlps pool params r r' o free h u =
      let wl = wl_create name (some pool.tp_name) slots in
      let more : Registry = record r { workloads = r.workloads ++ (wl ∷ []) } in
      let unique : Unique more = added-Unique wl r free u in
      elim (Bool-cases (is_ok (json_wlparam_proc_all lib params wlps wl_params mem).0)) [
        | inl fine ↦ let e : r' ≡ more = ground arith in rw e unique
        | inr bad ↦ elim (Option-cases (wl_destroy wl more)) [
          | inl failed ↦ absurd (ground arith)
          | inr (r2, gone) ↦
              let e : r' ≡ r2 = ground arith in rw e (wl_destroy-Unique wl more r2 gone unique)
        ]
      ]

  json_workload_proc-Unique :
      (name slots : List ℕ) (node : Node) (wl_params : ℕ) (mem mem' : Memory) (r r' : Registry)
      (o : Option Workload)
      → json_workload_proc lib wl_type_search name node slots wl_params mem r ≡ some (o, r', mem')
      → Unique r
      → Unique r'
  unfolding json_workload_proc
  json_workload_proc-Unique name slots node wl_params mem mem' r r' o h u =
      elim (Option-cases (parse lib wl_type_search node r.pools)) [
        | inl bad ↦ let e : r' ≡ r = ground arith in rw e u
        | inr ((wlps, pool, params), got) ↦ elim (Bool-cases (length name == 0)) [
          | inl unnamed ↦ let e : r' ≡ r = ground arith in rw e u
          | inr named ↦ elim (Option-cases (wl_search name r.workloads)) [
            | inr (wl, used) ↦ let e : r' ≡ r = ground arith in rw e u
            | inl free ↦
                create_workload-Unique name slots wl_params mem mem' wlps pool params r r' o free
                  (ground arith) u
          ]
        ]
      ]

  configure-Unique :
      (name slots : List ℕ) (node : Node) (wl_params : ℕ) (mem mem' : Memory) (r r' : Registry)
      (s : Status)
      → tsload_configure_workload lib wl_type_search name node slots wl_params mem r
        ≡ some (s, r', mem')
      → Unique r
      → Unique r'
  unfolding tsload_configure_workload
  configure-Unique name slots node wl_params mem mem' r r' s h u =
      elim (Option-cases (json_workload_proc lib wl_type_search name node slots wl_params mem r)) [
        | inl failed ↦ absurd (ground arith)
        | inr ((o, r1, mem1), got) ↦
            let u1 = json_workload_proc-Unique name slots node wl_params mem mem1 r r1 o got u in
            elim (Option-cases o) [
              | inl refused ↦
                  same-Unique r1 r' (ap wl_names (ground arith)) (ap tp_names (ground arith)) u1
              | inr (wl, made) ↦
                  same-Unique r1 r' (ap wl_names (ground arith)) (ap tp_names (ground arith)) u1
            ]
      ]

-- A call of the library; of `tsload_configure_workload` with its message, the memory of the new
-- workload and where its parameters go.
pub data AnyCall {ℓ} (Node : Type ℓ) : Type ℓ where
  plain : Call → AnyCall Node
  configures : List ℕ → Node → List ℕ → ℕ → AnyCall Node

module _ {ℓ} {Node : Type ℓ} {Float : Type 0} (lib : Platform Node Float)
    (wl_type_search : List ℕ → Option (List (WlpDescr Float))) where
  -- The registry and the memory after calls; `none` as in `call`.
  unfoldable pub calls : List (AnyCall Node) → Registry → Memory → Option (Registry × Memory)
  unfolding tsload_configure_workload call
  calls [] r mem = some (r, mem)
  calls (plain c ∷ cs) r mem = elim (call c r) [ none ↦ none | some (s, r') ↦ calls cs r' mem ]
  calls (configures name node slots wl_params ∷ cs) r mem =
      elim (tsload_configure_workload lib wl_type_search name node slots wl_params mem r) [
        | none ↦ none
        | some (s, r', mem') ↦ calls cs r' mem'
      ]

  -- Whatever calls of tsload_provide_step, tsload_start_workload, tsload_unconfigure_workload,
  -- tsload_create_threadpool, tsload_destroy_threadpool and tsload_configure_workload come, in any
  -- order, no two workloads and no two thread pools ever have one name, if none had before.
  pub calls-Unique :
      (cs : List (AnyCall Node)) (r r' : Registry) (mem mem' : Memory)
      → calls cs r mem ≡ some (r', mem')
      → Unique r
      → Unique r'
  unfolding calls
  calls-Unique [] r r' mem mem' h u = let e : r' ≡ r = ground arith in rw e u
  calls-Unique (plain c ∷ cs) r r' mem mem' h u = elim (Option-cases (call c r)) [
    | inl failed ↦ absurd (ground arith)
    | inr ((s, r1), got) ↦
        calls-Unique cs r1 r' mem mem' (ground arith) (call-Unique c r r1 s got u)
  ]
  calls-Unique (configures name node slots wl_params ∷ cs) r r' mem mem' h u =
      elim (Option-cases
        (tsload_configure_workload lib wl_type_search name node slots wl_params mem r)) [
          | inl failed ↦ absurd (ground arith)
          | inr ((s, r1, mem1), got) ↦
              calls-Unique cs r1 r' mem1 mem' (ground arith) (
                configure-Unique lib wl_type_search name slots node wl_params mem mem1 r r1 s got u)
        ]
