-- ===== src/ThreadPool.antt =====
-- lib/libtsload/src/threadpool.c: thread pools, the workloads attached to them, and how a step's
-- requests go to the workers.
pub mod Distribute
pub mod Members
pub mod HandOut
mod Tests
use v_perf_generator.Common.Int.{ℤ, pos, ◌+ℤ◌, ◌-ℤ◌}
use v_perf_generator.Common.Bytes.{str_eq}
use v_perf_generator.Workload.{Workload}
use v_perf_generator.Workload.Requests.{Request}
use v_perf_generator.Common.{
  ◌∷◌, ◌∷◌, ℕ, ◌||◌, true, some, replicate, none, ltb, if◌then◌else◌, false, [], Option, List, Bool,
  ◌==◌, ◌++◌,
}

-- TPMAXTHREADS
abbrev pub tp_max_threads : ℕ
tp_max_threads = 64

-- The threads, the mutex and the event stand for no state of their own here. A worker is the list of
-- its requests, `w_requests`; `tp_wl_head` lists the workloads by name; `tp_wl_count` is an `int`.
pub record ThreadPool : Type 0 where
  pub tp_name : List ℕ
  pub tp_num_threads : ℕ
  pub tp_is_dead : Bool
  pub tp_quantum : ℕ
  pub tp_time : ℕ
  pub tp_workers : List (List Request)
  pub tp_wl_head : List (List ℕ)
  pub tp_wl_count : ℤ
  pub tp_wl_changed : Bool

-- `none` is NULL. `min_quantum` is the global `tp_min_quantum`.
unfoldable pub tp_create : ℕ → List ℕ → ℕ → ℕ → Option ThreadPool
tp_create min_quantum name num_threads quantum =
    if ltb tp_max_threads num_threads || num_threads == 0
    then none
    else if ltb quantum min_quantum
    then none
    else some (record {
      tp_name = name;
      tp_num_threads = num_threads;
      tp_is_dead = false;
      tp_quantum = quantum;
      tp_time = 0;
      tp_workers = replicate num_threads [];
      tp_wl_head = [];
      tp_wl_count = pos 0;
      tp_wl_changed = false;
    })

-- `wl->wl_tp == tp`; pools are told apart by their names.
unfoldable pub belongs : ThreadPool → Workload → Bool
belongs tp wl = elim wl.wl_tp [ none ↦ false | some name ↦ str_eq name tp.tp_name ]

-- `none` where the assertion fails.
unfoldable pub tp_attach : ThreadPool → Workload → Option ThreadPool
unfolding belongs
tp_attach tp wl =
    if belongs tp wl
    then some (record tp {
      tp_wl_head = tp.tp_wl_head ++ (wl.wl_name ∷ []);
      tp_wl_count = tp.tp_wl_count +ℤ pos 1;
      tp_wl_changed = true;
    })
    else none

-- `list_del` of the workload's node. A node in no list is linked to itself, and stays so.
unfoldable pub unlink : List ℕ → List (List ℕ) → List (List ℕ)
unlink name [] = []
unlink name (n ∷ ns) = if str_eq n name then ns else n ∷ unlink name ns

unfoldable pub tp_detach_nolock : ThreadPool → Workload → ThreadPool × Workload
unfolding unlink
tp_detach_nolock tp wl = (
  record tp {
    tp_wl_head = unlink wl.wl_name tp.tp_wl_head;
    tp_wl_count = tp.tp_wl_count -ℤ pos 1;
    tp_wl_changed = true;
  },
  record wl { wl_tp = none },
)

unfoldable pub tp_detach : ThreadPool → Workload → Option (ThreadPool × Workload)
unfolding belongs tp_detach_nolock
tp_detach tp wl = if belongs tp wl then some (tp_detach_nolock tp wl) else none
