-- ===== src/TsLoad/Unique.antt =====
-- Names stay unique: lib/libtsload/src/tsload.c.
use v_perf_generator.TsLoad.{
  is_running, Status, Registry, wl_search, tp_search, put_workload, put_pool, remove_workload,
  remove_pool, remove_workloads, tsload_provide_step, tsload_start_workload,
  tsload_unconfigure_workload, unconfigure_idle, tsload_create_threadpool,
  tsload_destroy_threadpool, detach_from_pool, wl_destroy,
}
use v_perf_generator.TsLoad.Errors.{
  result-cases, Call, call, provides_step, starts_workload, unconfigures_workload,
  creates_threadpool, destroys_threadpool,
}
use v_perf_generator.Quantum.Names.{Apart, unlink-Apart}
use v_perf_generator.Common.{
  subst, subst, ◌⊎◌, if◌then◌else◌, ap, Option-cases, Bool-cases, ◌++◌, ◌⊎◌, ◌≡◌, ◌∷◌, ◌∙◌, ℕ, sym,
  some, refl, inr, inl, arith, [], List, ◌++◌,
}
use v_perf_generator.ThreadPool.{tp_detach, tp_create}
use v_perf_generator.Workload.{wl_provide_step, Workload}
use v_perf_generator.Common.Int.{pos, ℤ, ltb_ℤ}
use v_perf_generator.TsLoad.Names.{
  wl_names, tp_names, put_workload-names, put_pool-names, remove_workload-Apart,
  remove_workloads-Apart, remove_pool-names, tp_search_absent, Apart-append, tp_create-name,
}
use v_perf_generator.Workload.Notify.{is_configuring}

-- No two workloads and no two pools have one name.
pub record Unique (r : Registry) : Type 0 where
  pub workload_names : Apart (wl_names r.workloads)
  pub pool_names : Apart (tp_names r.pools)

pub same-Unique :
    (r r' : Registry)
    → wl_names r'.workloads ≡ wl_names r.workloads
    → tp_names r'.pools ≡ tp_names r.pools
    → Unique r
    → Unique r'
same-Unique r r' e f u = record {
  workload_names = rw e u.workload_names;
  pool_names = rw f u.pool_names;
}

detach_from_pool-Unique :
    (wl wl' : Workload) (r r' : Registry)
    → detach_from_pool wl r ≡ some (wl', r')
    → Unique r
    → Unique r'
unfolding detach_from_pool
detach_from_pool-Unique wl wl' r r' h u = elim (Option-cases wl.wl_tp) [
  | inl free ↦ absurd (ground arith)
  | inr (name, used) ↦ elim (Option-cases (tp_search name r.pools)) [
    | inl absent ↦ absurd (ground arith)
    | inr (tp, there) ↦ elim (Option-cases (tp_detach tp wl)) [
      | inl failed ↦ absurd (ground arith)
      | inr ((tp1, wl1), got) ↦
          let e : r' ≡ record r {
            pools = put_pool tp1 r.pools;
            workloads = put_workload wl1 r.workloads;
          } =
            ground arith in
          rw e (same-Unique r _ (put_workload-names wl1 r.workloads) (put_pool-names tp1 r.pools) u)
    ]
  ]
]

removed-Unique :
    (name : List ℕ) (r : Registry)
    → Unique r
    → Unique (record r { workloads = remove_workload name r.workloads })
removed-Unique name r u = record {
  workload_names = remove_workload-Apart name r.workloads u.workload_names;
  pool_names = u.pool_names;
}

pub wl_destroy-Unique :
    (wl : Workload) (r r' : Registry) → wl_destroy wl r ≡ some r' → Unique r → Unique r'
unfolding wl_destroy
wl_destroy-Unique wl r r' h u = elim (Option-cases wl.wl_tp) [
  | inl free ↦
      let e : r' ≡ record r { workloads = remove_workload wl.wl_name r.workloads } = ground arith in
      rw e (removed-Unique wl.wl_name r u)
  | inr (name, used) ↦ elim (Option-cases (detach_from_pool wl r)) [
    | inl failed ↦ absurd (ground arith)
    | inr ((wl1, r1), got) ↦
        let e : r' ≡ record r1 { workloads = remove_workload wl.wl_name r1.workloads } =
          ground arith in
        rw e (removed-Unique wl.wl_name r1 (detach_from_pool-Unique wl wl1 r r1 got u))
  ]
]

unconfigure_idle-Unique :
    (wl : Workload) (r r' : Registry) (s : Status)
    → unconfigure_idle wl r ≡ some (s, r')
    → Unique r
    → Unique r'
unfolding unconfigure_idle
unconfigure_idle-Unique wl r r' s h u =
    elim (Option-cases (if is_running wl.wl_status then detach_from_pool wl r else some (wl, r))) [
      | inl failed ↦ absurd (ground arith)
      | inr ((wl1, r1), got) ↦
          let u1 : Unique r1 = elim (Bool-cases (is_running wl.wl_status)) [
            | inl runs ↦ detach_from_pool-Unique wl wl1 r r1 (ground arith) u
            | inr rests ↦ let e : r1 ≡ r = ground arith in rw e u
          ] in
          elim (Option-cases (wl_destroy wl1 r1)) [
            | inl failed ↦ absurd (ground arith)
            | inr (r2, gone) ↦
                let e : r' ≡ r2 = ground arith in rw e (wl_destroy-Unique wl1 r1 r2 gone u1)
          ]
    ]

unconfigure-Unique :
    (name : List ℕ) (r r' : Registry) (s : Status)
    → tsload_unconfigure_workload name r ≡ some (s, r')
    → Unique r
    → Unique r'
unfolding tsload_unconfigure_workload
unconfigure-Unique name r r' s h u = elim (Option-cases (wl_search name r.workloads)) [
  | inl absent ↦ same-Unique r r' (ap wl_names (ground arith)) (ap tp_names (ground arith)) u
  | inr (wl, there) ↦ elim (Bool-cases (is_configuring wl.wl_status)) [
    | inl busy ↦ same-Unique r r' (ap wl_names (ground arith)) (ap tp_names (ground arith)) u
    | inr idle ↦
        let e : tsload_unconfigure_workload name r ≡ unconfigure_idle wl r =
          rw (tsload_unconfigure_workload, there, idle) refl in
        unconfigure_idle-Unique wl r r' s (sym e ∙ h) u
  ]
]

create-Unique :
    (name : List ℕ) (n q : ℕ) (r r' : Registry) (s : Status)
    → tsload_create_threadpool name n q r ≡ (s, r')
    → Unique r
    → Unique r'
unfolding tsload_create_threadpool
create-Unique name n q r r' s h u =
    let w : r'.workloads ≡ r.workloads = ground arith in
    elim (Option-cases (tp_search name r.pools)) [
      | inr (tp, there) ↦
          let p : r'.pools ≡ r.pools = ground arith in
          same-Unique r r' (ap wl_names w) (ap tp_names p) u
      | inl absent ↦ elim (Option-cases (tp_create r.tp_min_quantum name n q)) [
        | inl failed ↦
            let p : r'.pools ≡ r.pools = ground arith in
            same-Unique r r' (ap wl_names w) (ap tp_names p) u
        | inr (tp, made) ↦
            let new = tp_create-name r.tp_min_quantum name n q tp made in
            let p : (r'.pools ≡ r.pools) ⊎ (r'.pools ≡ r.pools ++ (tp ∷ [])) = ground arith in
            elim p [
              | inl old ↦ same-Unique r r' (ap wl_names w) (ap tp_names old) u
              | inr more ↦ record {
                workload_names = rw w u.workload_names;
                pool_names = rw more (
                    Apart-append r.pools tp u.pool_names
                      (rw new (tp_search_absent name r.pools absent)));
              }
            ]
      ]
    ]

destroy-Unique :
    (name : List ℕ) (r r' : Registry) (s : Status)
    → tsload_destroy_threadpool name r ≡ (s, r')
    → Unique r
    → Unique r'
unfolding tsload_destroy_threadpool
destroy-Unique name r r' s h u = elim (Option-cases (tp_search name r.pools)) [
  | inl absent ↦ same-Unique r r' (ap wl_names (ground arith)) (ap tp_names (ground arith)) u
  | inr (tp, there) ↦ elim (Bool-cases (ltb_ℤ (pos 0) tp.tp_wl_count)) [
    | inl busy ↦ same-Unique r r' (ap wl_names (ground arith)) (ap tp_names (ground arith)) u
    | inr idle ↦
        let e : r' ≡ record r {
          pools = remove_pool name r.pools;
          workloads = remove_workloads tp.tp_wl_head r.workloads;
        } =
          ground arith in
        rw e (record {
          workload_names = remove_workloads-Apart tp.tp_wl_head r.workloads u.workload_names;
          pool_names =
              rw (remove_pool-names name r.pools)
                (unlink-Apart name (tp_names r.pools) u.pool_names);
        })
  ]
]

provide-Unique :
    (name : List ℕ) (id : ℤ) (n : ℕ) (r : Registry)
    → Unique r
    → Unique (tsload_provide_step name id n r).2
unfolding tsload_provide_step
provide-Unique name id n r u = elim (Option-cases (wl_search name r.workloads)) [
  | inl absent ↦ same-Unique r _ (ap wl_names (ground arith)) (ap tp_names (ground arith)) u
  | inr (wl, there) ↦
      let wl' = (wl_provide_step wl id n).1 in
      let w : (tsload_provide_step name id n r).2.workloads ≡ put_workload wl' r.workloads =
        elim (result-cases (wl_provide_step wl id n).0) [
          | inl ok ↦ rw (tsload_provide_step, there, ok) refl
          | inr (inl full) ↦ rw (tsload_provide_step, there, full) refl
          | inr (inr bad) ↦ rw (tsload_provide_step, there, bad) refl
        ] in
      let p : (tsload_provide_step name id n r).2.pools ≡ r.pools =
        elim (result-cases (wl_provide_step wl id n).0) [
          | inl ok ↦ rw (tsload_provide_step, there, ok) refl
          | inr (inl full) ↦ rw (tsload_provide_step, there, full) refl
          | inr (inr bad) ↦ rw (tsload_provide_step, there, bad) refl
        ] in
      same-Unique r _ (ap wl_names w ∙ put_workload-names wl' r.workloads) (ap tp_names p) u
]

start-Unique :
    (name : List ℕ) (t : ℕ) (r r' : Registry) (s : Status)
    → tsload_start_workload name t r ≡ (s, r')
    → Unique r
    → Unique r'
unfolding tsload_start_workload
start-Unique name t r r' s h u = elim (Option-cases (wl_search name r.workloads)) [
  | inl absent ↦ same-Unique r r' (ap wl_names (ground arith)) (ap tp_names (ground arith)) u
  | inr (wl, there) ↦
      let wl' : Workload = record wl { wl_start_time = t } in
      let p : r'.pools ≡ r.pools = ground arith in
      let w : (r'.workloads ≡ r.workloads) ⊎ (r'.workloads ≡ put_workload wl' r.workloads) =
        ground arith in
      elim w [
        | inl same ↦ same-Unique r r' (ap wl_names same) (ap tp_names p) u
        | inr changed ↦
            same-Unique r r' (ap wl_names changed ∙ put_workload-names wl' r.workloads)
              (ap tp_names p) u
      ]
]

-- Names stay apart in each of these calls.
pub call-Unique :
    (c : Call) (r r' : Registry) (s : Status) → call c r ≡ some (s, r') → Unique r → Unique r'
unfolding call
call-Unique (provides_step name id n) r r' s h u =
    let e : (tsload_provide_step name id n r).2 ≡ r' = ground arith in
    subst Unique e (provide-Unique name id n r u)
call-Unique (starts_workload name t) r r' s h u = start-Unique name t r r' s (ground arith) u
call-Unique (unconfigures_workload name) r r' s h u = unconfigure-Unique name r r' s h u
call-Unique (creates_threadpool name n q) r r' s h u =
    create-Unique name n q r r' s (ground arith) u
call-Unique (destroys_threadpool name) r r' s h u = destroy-Unique name r r' s (ground arith) u
