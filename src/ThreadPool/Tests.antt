-- ===== src/ThreadPool/Tests.antt =====
-- Examples for lib/libtsload/src/threadpool.c.
use v_perf_generator.ThreadPool.{ThreadPool, belongs, tp_attach, tp_detach}
use v_perf_generator.ThreadPool.Members.{Listed}
use v_perf_generator.ThreadPool.Distribute.{Libc, distribute_requests}
use v_perf_generator.ThreadPool.Distribute.Totals.{sum}
use v_perf_generator.ThreadPool.Distribute.Rounds.{distribute_requests-first}
use v_perf_generator.ThreadPool.HandOut.{
  batch, tp_distribute_requests, Dealt, tp_distribute_requests_ends-Dealt,
}
use v_perf_generator.Workload.{Workload, wl_create}
use v_perf_generator.Common.{
  ◌≤◌, ◌≤◌, ℕ, inr, inl, ◌^◌, All, ◌-◌, ◌+◌, some, none, ◌∷◌, [], List, ◌≡◌, ◌/◌, refl, arith,
  false, true,
}
use v_perf_generator.Common.Int.{◌-ℤ◌, ◌+ℤ◌, pos}
use v_perf_generator.Common.Bytes.{str_eq}
use v_perf_generator.Workload.Requests.{wl_create_request}

-- A library whose `rand` counts up from `first`, with a `RAND_MAX` that the shifts do not reach.
abbrev counting : ℕ → Libc
counting first = record { rand = λ k. first + k; rand_max = 2 ^ 31 - 1; shl = λ bit. pos 1024 }

abbrev jobs : List ℕ
jobs = 106 ∷ []

abbrev other : List ℕ
other = 111 ∷ []

abbrev pool : ThreadPool
pool = record {
  tp_name = 112 ∷ [];
  tp_num_threads = 3;
  tp_is_dead = false;
  tp_quantum = 1_000_000_000;
  tp_time = 0;
  tp_workers = [] ∷ [] ∷ [] ∷ [];
  tp_wl_head = other ∷ [];
  tp_wl_count = pos 1;
  tp_wl_changed = false;
}

abbrev both : ThreadPool
both = record pool { tp_wl_head = other ∷ jobs ∷ []; tp_wl_count = pos 2; tp_wl_changed = true }

abbrev workload : Workload
workload = wl_create jobs (some (112 ∷ [])) []

jobs_absent : ¬ Listed jobs pool.tp_wl_head
jobs_absent (inl e) = ground arith
jobs_absent (inr e) = e

workload-belongs : belongs pool workload ≡ true
unfolding belongs wl_create str_eq
workload-belongs = refl

attach-pool : tp_attach pool workload ≡ some both
unfolding tp_attach wl_create str_eq ◌+ℤ◌
attach-pool = refl

detach-both :
    tp_detach both workload
    ≡ some (
      record both { tp_wl_head = other ∷ []; tp_wl_count = pos 1 },
      record workload { wl_tp = none },
    )
unfolding tp_detach wl_create str_eq ◌-ℤ◌
detach-both = refl

detach-pool :
    tp_detach pool workload
    ≡ some (
      record pool { tp_wl_count = pos 0; tp_wl_changed = true },
      record workload { wl_tp = none },
    )
unfolding tp_detach wl_create str_eq ◌-ℤ◌
detach-pool = refl

jobs-Listed : Listed workload.wl_name both.tp_wl_head
unfolding wl_create
jobs-Listed = inr (inl refl)

workload_absent : ¬ Listed workload.wl_name pool.tp_wl_head
unfolding wl_create
workload_absent = jobs_absent

spread : distribute_requests (counting 5) 3 8 2 2 ≡ some (3 ∷ 3 ∷ 2 ∷ [])
spread =
    distribute_requests-first (counting 5) 3 8 2 2 (omega arith) (λ b lt. (refl, refl))
      (omega arith) (omega arith)

abbrev shares : List ℕ
shares = 3 ∷ 3 ∷ 2 ∷ []

-- Eight requests of step 4, whose ids go on from 0, behind a queue that is empty.
abbrev stepped : Workload
stepped = record workload { wl_current_step = pos 4 }

abbrev dealt : ThreadPool
dealt = record pool {
  tp_workers = batch jobs (pos 4) 0 0 3 ∷ batch jobs (pos 4) 1 3 3 ∷ batch jobs (pos 4) 2 6 2 ∷ [];
}

deal :
    tp_distribute_requests (counting 5) 8 8 stepped pool
    ≡ some (dealt, record stepped { wl_current_rq = 8 })
unfolding tp_distribute_requests distribute_requests wl_create_request wl_create batch
deal = refl

tp_distribute_requests_ends-Dealt_example :
    (tp : ThreadPool) × (wl : Workload) × (ns : List ℕ) × (tp_distribute_requests
        (counting 5)
        8
        8
        stepped
        pool
      ≡ some (tp, wl))
    × (sum ns ≡ 8)
    × All (λ n. 8 / 3 ≤ n) ns
    × Dealt stepped.wl_name (pos 4) 0 stepped.wl_current_rq ns pool.tp_workers tp.tp_workers
    × (wl ≡ record stepped { wl_current_rq = stepped.wl_current_rq + 8 })
    × (tp ≡ record pool { tp_workers = tp.tp_workers })
tp_distribute_requests_ends-Dealt_example =
    tp_distribute_requests_ends-Dealt (counting 5) 8 8 stepped pool (omega arith) refl
      (λ k. omega arith) (λ b. refl) (omega arith)
