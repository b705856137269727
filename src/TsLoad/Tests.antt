-- ===== src/TsLoad/Tests.antt =====
-- Examples for lib/libtsload/src/tsload.c: a pool with one workload, and messages for another one.
use v_perf_generator.TsLoad.{
  tp_search, tsload_start_workload, tsload_create_threadpool, TseCode, tse_invalid_data,
  tse_internal_error, tsload_ok, tsload_error, Registry, tell, wl_search,
}
use v_perf_generator.TsLoad.Errors.{call, starts_workload, creates_threadpool, call-Told}
use v_perf_generator.TsLoad.Unique.{Unique}
use v_perf_generator.TsLoad.Configure.Calls.{AnyCall, plain, configures, calls, calls-Unique}
use v_perf_generator.TsLoad.Configure.{
  create_workload, json_workload_proc, parse, tsload_configure_workload,
}
use v_perf_generator.TsLoad.Configure.Outcome.{configure-Acceptable}
use v_perf_generator.WlParam.{
  json_wlparam_proc_all, Platform, JsonType, json_string, json_node, WlpDescr, wlp_bool, Memory,
  write,
}
use v_perf_generator.WlParam.Accept.{Acceptable}
use v_perf_generator.Workload.{wl_create}
use v_perf_generator.Common.{
  ◌≢◌, ◌++◌, ◌≢◌, ◌≡◌, ◌∷◌, ℕ, zero, true, suc, some, refl, none, ltb, length, inr, inl,
  if◌then◌else◌, false, arith, [], Option, List, All, ◌==◌, ◌++◌,
}
use v_perf_generator.ThreadPool.Members.{Listed}
use v_perf_generator.ThreadPool.{ThreadPool}
use v_perf_generator.Common.Int.{pos}
use v_perf_generator.Common.Bytes.{str_eq}

abbrev jobs : List ℕ
jobs = 106 ∷ []

abbrev other : List ℕ
other = 111 ∷ []

abbrev pool : ThreadPool
pool = record {
  tp_name = 112 ∷ [];
  tp_num_threads = 2;
  tp_is_dead = false;
  tp_quantum = 1_000_000_000;
  tp_time = 0;
  tp_workers = [] ∷ [] ∷ [];
  tp_wl_head = other ∷ [];
  tp_wl_count = pos 1;
  tp_wl_changed = false;
}

abbrev registry : Registry
registry = record {
  workloads = record (wl_create other (some (112 ∷ [])) []) { wl_is_configured = true } ∷ [];
  pools = pool ∷ [];
  tp_min_quantum = 1000;
  told = [];
}

registry-Unique : Unique registry
registry-Unique = record { workload_names = ((λ l. l), tt); pool_names = ((λ l. l), tt) }

abbrev started : Registry
started = record registry {
  workloads =
      record (wl_create other (some (112 ∷ [])) []) { wl_is_configured = true; wl_start_time = 5 }
      ∷ [];
}

start-other : call (starts_workload other 5) registry ≡ some (tsload_ok, started)
unfolding call tsload_start_workload wl_create str_eq
start-other = refl

create-pool :
    call (creates_threadpool (112 ∷ []) 2 5000) registry
    ≡ some (tsload_error, tell tse_invalid_data registry)
unfolding call tsload_create_threadpool str_eq
create-pool = refl

call-Told_example : (code : TseCode) × (tell tse_invalid_data registry ≡ tell code registry)
call-Told_example =
    call-Told (creates_threadpool (112 ∷ []) 2 5000) registry (tell tse_invalid_data registry)
      tsload_error create-pool

-- The message is node 0; its three fields are the nodes 1, 2 and 3, of which node 3 has no field.
abbrev field_of : ℕ → List ℕ → Option ℕ
field_of zero key =
    if str_eq key (119 ∷ 108 ∷ 116 ∷ 121 ∷ 112 ∷ 101 ∷ [])
    then some 1
    else if str_eq key (112 ∷ 97 ∷ 114 ∷ 97 ∷ 109 ∷ 115 ∷ [])
    then some 3
    else some 2
field_of (suc node) key = none

abbrev type_of : ℕ → JsonType
type_of node = if node == 3 then json_node else json_string

abbrev lib : Platform ℕ ℕ
lib = record {
  json_type = type_of;
  json_as_bool = pos;
  json_as_int = pos;
  json_as_float = λ v. v;
  json_as_string = λ v. 112 ∷ [];
  json_find = field_of;
  ltb_float = ltb;
  bytes_of_int = λ i. 1 ∷ [];
  bytes_of_long = λ i. [];
  bytes_of_double = λ f. [];
  bytes_of_size = λ n. [];
}

abbrev needed : WlpDescr ℕ
needed = record {
  type = wlp_bool;
  flags = 0;
  range = record {
    range = false;
    str_length = 0;
    i_min = pos 0;
    i_max = pos 0;
    d_min = 0;
    d_max = 0;
    sz_min = 0;
    sz_max = 0;
    ss_strings = [];
  };
  defval = record { enabled = false; b = pos 0; i = pos 0; f = 0; sz = 0; s = []; ssi = pos 0 };
  name = 115 ∷ [];
  off = 0;
}

abbrev memory : Memory
memory a = 7

abbrev with_jobs : Registry
with_jobs = record registry {
  workloads = registry.workloads ++ (wl_create jobs (some (112 ∷ [])) [] ∷ []);
}

-- A parameter that the message leaves out, with a default.
abbrev optional : WlpDescr ℕ
optional = record needed {
  flags = 1;
  defval = record { enabled = true; b = pos 1; i = pos 0; f = 0; sz = 0; s = []; ssi = pos 0 };
}

abbrev types : List ℕ → Option (List (WlpDescr ℕ))
types t = some (optional ∷ [])

configure-jobs :
    tsload_configure_workload lib types jobs 0 [] 100 memory registry
    ≡ some (tsload_ok, with_jobs, write memory 100 (1 ∷ []))
unfolding tsload_configure_workload json_workload_proc parse create_workload json_wlparam_proc_all
    wl_create str_eq
configure-jobs = refl

configure-Acceptable_example :
    (wlps : List (WlpDescr ℕ)) × (tp : ThreadPool) × (params : ℕ) × (parse lib types 0
        registry.pools
      ≡ some (wlps, tp, params))
    × (wl_search jobs registry.workloads ≡ none)
    × (length jobs ≢ 0)
    × All (Acceptable lib params) wlps
    × (with_jobs ≡ record registry {
      workloads = registry.workloads ++ (wl_create jobs (some tp.tp_name) [] ∷ []);
    })
    × (write memory 100 (1 ∷ []) ≡ (json_wlparam_proc_all lib params wlps 100 memory).1)
configure-Acceptable_example =
    configure-Acceptable lib types jobs [] 0 100 memory registry with_jobs
      (write memory 100 (1 ∷ [])) configure-jobs

-- The workload that is there is started, a second one configured, and then another of its name.
abbrev three_calls : List (AnyCall ℕ)
three_calls =
    plain (starts_workload other 5) ∷ configures jobs 0 [] 100 ∷ configures jobs 0 [] 100 ∷ []

abbrev in_the_end : Registry
in_the_end = record started {
  workloads = started.workloads ++ (wl_create jobs (some (112 ∷ [])) [] ∷ []);
  told = tse_internal_error ∷ [];
}

call-three :
    calls lib types three_calls registry memory ≡ some (in_the_end, write memory 100 (1 ∷ []))
unfolding calls call tsload_start_workload tsload_configure_workload json_workload_proc parse
    create_workload json_wlparam_proc_all wl_create str_eq
call-three = refl

calls-Unique_example : Unique in_the_end
calls-Unique_example =
    calls-Unique lib types three_calls registry in_the_end memory (write memory 100 (1 ∷ []))
      call-three registry-Unique

parse-needed : parse lib (λ t. some (needed ∷ [])) 0 registry.pools ≡ some (needed ∷ [], pool, 3)
unfolding parse str_eq
parse-needed = refl

search-pool : tp_search pool.tp_name registry.pools ≡ some pool
unfolding str_eq
search-pool = refl

search-jobs : wl_search jobs registry.workloads ≡ none
unfolding str_eq wl_create
search-jobs = refl

jobs_absent : ¬ Listed jobs pool.tp_wl_head
jobs_absent (inl e) = ground arith
jobs_absent (inr l) = l

not-Acceptable : ¬ All (Acceptable lib 3) (needed ∷ [])
not-Acceptable a = ground arith
