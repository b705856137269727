-- ===== src/TsLoad/Errors.antt =====
-- What a refused call leaves behind: lib/libtsload/src/tsload.c.
use v_perf_generator.TsLoad.{
  is_running, unconfigure_idle, refuse, tse_internal_error, tse_invalid_state, tse_invalid_data,
  tp_search, TseCode, Status, tsload_ok, tsload_error, Registry, tell, wl_search, put_workload,
  tsload_provide_step, tsload_start_workload, tsload_unconfigure_workload, tsload_create_threadpool,
  tsload_destroy_threadpool, detach_from_pool, wl_destroy,
}
use v_perf_generator.Common.{
  ◌⊎◌, subst, ◌⊎◌, ◌∙◌, sym, if◌then◌else◌, ◌≡◌, ◌||◌, ltb, ap, Option-cases, Bool-cases, ◌==◌, ◌≡◌,
  ◌∷◌, ℕ, some, refl, inr, inl, arith, [], Option, List, Bool-cases,
}
use v_perf_generator.Workload.{
  step_queue_full, step_ok, StepResult, step_invalid, wl_provide_step, Workload,
}
use v_perf_generator.Common.Int.{pos, ltb_ℤ, ℤ}
use v_perf_generator.Common.Bytes.{str_eq_self, str_eq_iff, str_eq}
use v_perf_generator.ThreadPool.{tp_create, tp_max_threads}
use v_perf_generator.Workload.Notify.{is_configuring}

pub data Call : Type 0 where
  provides_step : List ℕ → ℤ → ℕ → Call
  starts_workload : List ℕ → ℕ → Call
  unconfigures_workload : List ℕ → Call
  creates_threadpool : List ℕ → ℕ → ℕ → Call
  destroys_threadpool : List ℕ → Call

-- The status and the state after a call.
unfoldable pub call : Call → Registry → Option (Status × Registry)
call (provides_step name id n) r = let (s, _, r') = tsload_provide_step name id n r in some (s, r')
call (starts_workload name t) r = some (tsload_start_workload name t r)
call (unconfigures_workload name) r = tsload_unconfigure_workload name r
call (creates_threadpool name n q) r = some (tsload_create_threadpool name n q r)
call (destroys_threadpool name) r = some (tsload_destroy_threadpool name r)

-- A refused call tells one code and changes nothing else; the others tell none.
abbrev pub Told : Status → Registry → Registry → Type 0
Told tsload_error r r' = (code : TseCode) × (r' ≡ tell code r)
Told tsload_ok r r' = r'.told ≡ r.told

abbrev pub ToldBy : Status × Registry → Registry → Type 0
ToldBy p r = Told p.0 r p.1

search-name :
    (name : List ℕ) (wl : Workload) (wls : List Workload)
    → wl_search name wls ≡ some wl
    → wl.wl_name ≡ name
search-name name wl [] h = cc
search-name name wl (w ∷ wls) h = ground (arith, str_eq_iff w.wl_name name, search-name name wl wls)

put_found :
    (name : List ℕ) (wl : Workload) (wls : List Workload)
    → wl_search name wls ≡ some wl
    → put_workload wl wls ≡ wls
put_found name wl [] h = refl
put_found name wl (w ∷ wls) h =
    let e = search-name name wl (w ∷ wls) h in
    elim (Bool-cases (str_eq w.wl_name name)) [
      | inl same ↦ let ew : wl ≡ w = ground arith in rw (ew, str_eq_self w.wl_name) refl
      | inr other ↦ rw (e, other) (ap (◌∷◌ w) (put_found name wl wls (ground arith)))
    ]

provide-invalid :
    (wl : Workload) (id : ℤ) (n : ℕ)
    → (wl_provide_step wl id n).0 ≡ step_invalid
    → (wl_provide_step wl id n).1 ≡ wl
unfolding wl_provide_step
provide-invalid wl id n h = ground arith

start-Told : (name : List ℕ) (t : ℕ) (r : Registry) → ToldBy (tsload_start_workload name t r) r
unfolding tsload_start_workload
start-Told name t r = elim (Option-cases (wl_search name r.workloads)) [
  | inl absent ↦ rw (tsload_start_workload, absent) (tse_invalid_data, refl)
  | inr (wl, got) ↦ elim (Bool-cases wl.wl_is_configured) [
    | inl ready ↦ rw (tsload_start_workload, got, ready) refl
    | inr early ↦ rw (tsload_start_workload, got, early) (tse_invalid_state, refl)
  ]
]

destroy-Told : (name : List ℕ) (r : Registry) → ToldBy (tsload_destroy_threadpool name r) r
unfolding tsload_destroy_threadpool
destroy-Told name r = elim (Option-cases (tp_search name r.pools)) [
  | inl absent ↦ rw (tsload_destroy_threadpool, absent) (tse_invalid_data, refl)
  | inr (tp, got) ↦ elim (Bool-cases (ltb_ℤ (pos 0) tp.tp_wl_count)) [
    | inl busy ↦ rw (tsload_destroy_threadpool, got, busy) (tse_invalid_state, refl)
    | inr idle ↦ rw (tsload_destroy_threadpool, got, idle) refl
  ]
]

create-Told :
    (name : List ℕ) (n q : ℕ) (r : Registry) → ToldBy (tsload_create_threadpool name n q r) r
unfolding tsload_create_threadpool
create-Told name n q r = elim (Bool-cases (ltb tp_max_threads n || n == 0)) [
  | inl bad ↦ rw (tsload_create_threadpool, bad) (tse_invalid_data, refl)
  | inr good ↦ elim (Bool-cases (ltb q r.tp_min_quantum)) [
    | inl small ↦ rw (tsload_create_threadpool, good, small) (tse_invalid_data, refl)
    | inr large ↦ elim (Option-cases (tp_search name r.pools)) [
      | inr (tp, got) ↦ rw (tsload_create_threadpool, good, large, got) (tse_invalid_data, refl)
      | inl absent ↦ elim (Option-cases (tp_create r.tp_min_quantum name n q)) [
        | inl none_ ↦
            rw (tsload_create_threadpool, good, large, absent, none_) (tse_internal_error, refl)
        | inr (tp, made_) ↦ rw (tsload_create_threadpool, good, large, absent, made_) refl
      ]
    ]
  ]
]

pub result-cases : (s : StepResult) → (s ≡ step_ok) ⊎ ((s ≡ step_queue_full) ⊎ (s ≡ step_invalid))
result-cases step_ok = inl refl
result-cases step_queue_full = inr (inl refl)
result-cases step_invalid = inr (inr refl)

provide-Told :
    (name : List ℕ) (id : ℤ) (n : ℕ) (r : Registry)
    → let (s, _, r') = tsload_provide_step name id n r in Told s r r'
unfolding tsload_provide_step
provide-Told name id n r = elim (Option-cases (wl_search name r.workloads)) [
  | inl absent ↦ rw (tsload_provide_step, absent) (tse_invalid_data, refl)
  | inr (wl, got) ↦ elim (result-cases (wl_provide_step wl id n).0) [
    | inl ok ↦ rw (tsload_provide_step, got, ok) refl
    | inr (inl full) ↦ rw (tsload_provide_step, got, full) refl
    | inr (inr bad) ↦
        rw
          (
            tsload_provide_step,
            got,
            bad,
            provide-invalid wl id n bad,
            put_found name wl r.workloads got,
          )
          (tse_invalid_data, refl)
  ]
]

detach_from_pool-told :
    (wl wl' : Workload) (r r' : Registry)
    → detach_from_pool wl r ≡ some (wl', r')
    → r'.told ≡ r.told
unfolding detach_from_pool
detach_from_pool-told wl wl' r r' h = ground arith

wl_destroy-told : (wl : Workload) (r r' : Registry) → wl_destroy wl r ≡ some r' → r'.told ≡ r.told
unfolding wl_destroy
wl_destroy-told wl r r' h = elim (Option-cases wl.wl_tp) [
  | inl free ↦ ground arith
  | inr (name, used) ↦ elim (Option-cases (detach_from_pool wl r)) [
    | inl failed ↦ absurd (ground arith)
    | inr ((wl1, r1), got) ↦ ground (arith, detach_from_pool-told wl wl1 r r1 got)
  ]
]

unconfigure_idle-told :
    (wl : Workload) (r : Registry) (p : Status × Registry)
    → unconfigure_idle wl r ≡ some p
    → ToldBy p r
unfolding unconfigure_idle is_running
unconfigure_idle-told wl r p h =
    elim (Option-cases (if is_running wl.wl_status then detach_from_pool wl r else some (wl, r))) [
      | inl failed ↦ absurd (ground arith)
      | inr ((wl1, r1), got) ↦
          let first : r1.told ≡ r.told = ground (arith, detach_from_pool-told wl wl1 r r1) in
          elim (Option-cases (wl_destroy wl1 r1)) [
            | inl failed ↦ absurd (ground arith)
            | inr (r2, gone) ↦
                let e : p ≡ (tsload_ok, r2) = ground arith in
                rw e (wl_destroy-told wl1 r1 r2 gone ∙ first)
          ]
    ]

unconfigure-Told :
    (name : List ℕ) (r : Registry) (p : Status × Registry)
    → tsload_unconfigure_workload name r ≡ some p
    → ToldBy p r
unfolding tsload_unconfigure_workload
unconfigure-Told name r p h = elim (Option-cases (wl_search name r.workloads)) [
  | inl absent ↦
      let e : p ≡ refuse tse_invalid_data r = ground arith in rw e (tse_invalid_data, refl)
  | inr (wl, got) ↦ elim (Bool-cases (is_configuring wl.wl_status)) [
    | inl busy ↦
        let e : p ≡ refuse tse_invalid_state r = ground arith in rw e (tse_invalid_state, refl)
    | inr idle ↦
        let e : tsload_unconfigure_workload name r ≡ unconfigure_idle wl r =
          rw (tsload_unconfigure_workload, got, idle) refl in
        unconfigure_idle-told wl r p (sym e ∙ h)
  ]
]

-- A call of tsload_provide_step, tsload_start_workload, tsload_unconfigure_workload,
-- tsload_create_threadpool or tsload_destroy_threadpool that is refused tells exactly one code and
-- leaves the workloads and the pools as they were; one that is accepted tells none. This is not said
-- of tsload_configure_workload.
pub call-Told : (c : Call) (r r' : Registry) (s : Status) → call c r ≡ some (s, r') → Told s r r'
unfolding call
call-Told (provides_step name id n) r r' s h =
    let e : ((tsload_provide_step name id n r).0, (tsload_provide_step name id n r).2) ≡ (s, r') =
      ground arith in
    subst (λ p. ToldBy p r) e (provide-Told name id n r)
call-Told (starts_workload name t) r r' s h =
    let e : tsload_start_workload name t r ≡ (s, r') = ground arith in
    subst (λ p. ToldBy p r) e (start-Told name t r)
call-Told (unconfigures_workload name) r r' s h = unconfigure-Told name r (s, r') h
call-Told (creates_threadpool name n q) r r' s h =
    let e : tsload_create_threadpool name n q r ≡ (s, r') = ground arith in
    subst (λ p. ToldBy p r) e (create-Told name n q r)
call-Told (destroys_threadpool name) r r' s h =
    let e : tsload_destroy_threadpool name r ≡ (s, r') = ground arith in
    subst (λ p. ToldBy p r) e (destroy-Told name r)
