-- ===== src/Quantum/Miscount.antt =====
-- A pool that counts too few workloads: lib/libtsload/src/worker.c.
use v_perf_generator.Quantum.{Reading, Control, refresh_steps, quantum}
use v_perf_generator.ThreadPool.Members.{Counted, Listed, detach_unlisted}
use v_perf_generator.Common.{
  ◌≢◌, false, arith, ==_of_ne, ◌==◌, ◌≢◌, ◌≡◌, ℕ, true, some, refl, none, length, arith,
}
use v_perf_generator.ThreadPool.{ThreadPool, tp_detach_nolock, tp_detach}
use v_perf_generator.Workload.{Workload}
use v_perf_generator.Common.Int.{ltb_ℤ, pos, ℤ, ◌+ℤ◌}

one_less : (a : ℤ) (n : ℕ) → a +ℤ pos 1 ≡ pos n → ltb_ℤ a (pos n) ≡ true
unfolding ◌+ℤ◌
one_less a n e = ground arith

-- When a workload was detached from a pool with other workloads that it had never been attached to,
-- an assertion of the control thread fails in the next quantum.
pub quantum_aborts :
    (fuel now : ℕ) (env : ℕ → Reading) (c : Control) (pool : ThreadPool) (wl wl' : Workload)
    → Counted pool
    → ¬ Listed wl.wl_name pool.tp_wl_head
    → length pool.tp_wl_head ≢ 0
    → tp_detach pool wl ≡ some (c.tp, wl')
    → quantum fuel now env c ≡ none
unfolding quantum refresh_steps tp_detach tp_detach_nolock
quantum_aborts fuel now env c pool wl wl' counted fresh some_listed e =
    let (head, count, _) = detach_unlisted pool c.tp wl wl' counted fresh e in
    let changed : c.tp.tp_wl_changed ≡ true = ground arith in
    let low = one_less c.tp.tp_wl_count (length c.tp.tp_wl_head) count in
    let full : (length c.tp.tp_wl_head == 0) ≡ false = rw head (==_of_ne _ 0 some_listed) in
    rw (quantum, refresh_steps, changed, full, low) refl
