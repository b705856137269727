-- ===== src/Quantum/Tests.antt =====
-- Examples for lib/libtsload/src/worker.c, `control_thread`: a pool of two threads with a workload
-- that has one step of three requests, in its first quantum and in the next one.
use v_perf_generator.Quantum.{
  fill_steps, refresh_steps, turns, store, turn, Reading, Workloads, Control, quantum,
}
use v_perf_generator.Workload.Start.{wl_is_started}
use v_perf_generator.Quantum.Turns.{queued}
use v_perf_generator.Quantum.Pass.{Each, requests_in, leave}
use v_perf_generator.Quantum.Ready.{Ready}
use v_perf_generator.Quantum.Ends.{quantum_ends, quantum_ends-Ready}
use v_perf_generator.ThreadPool.Members.{Listed}
use v_perf_generator.Workload.Notify.{wl_notify, NotifyMsg}
use v_perf_generator.Common.{
  inr, inr, inl, ◌≢◌, ◌+◌, ◌≢◌, ◌≡◌, ◌∷◌, ℕ, true, some, replicate, refl, none, false, arith, ◌^◌,
  [], List, ◌-◌, ◌+◌,
}
use v_perf_generator.ThreadPool.{tp_detach, belongs, ThreadPool}
use v_perf_generator.Workload.{wl_advance_step, wls_success, wls_running, Workload}
use v_perf_generator.ThreadPool.HandOut.{tp_distribute_requests, batch}
use v_perf_generator.Common.Int.{◌-ℤ◌, ◌+ℤ◌, negsuc, pos}
use v_perf_generator.Common.Bytes.{str_eq}
use v_perf_generator.ThreadPool.Distribute.{distribute_requests}
use v_perf_generator.Workload.Requests.{wl_create_request}

abbrev jobs : List ℕ
jobs = 106 ∷ []

abbrev workload : Workload
workload = record {
  wl_name = jobs;
  wl_tp = some (112 ∷ []);
  wl_is_configured = true;
  wl_status = wls_success;
  wl_current_rq = 0;
  wl_start_time = 20;
  wl_is_started = false;
  wl_notify_time = 0;
  wl_current_step = negsuc 0;
  wl_last_step = pos 0;
  wl_rqs_per_step = 3 ∷ replicate 15 0;
}

abbrev pool : ThreadPool
pool = record {
  tp_name = 112 ∷ [];
  tp_num_threads = 2;
  tp_is_dead = false;
  tp_quantum = 1_000_000_000;
  tp_time = 0;
  tp_workers = [] ∷ [] ∷ [];
  tp_wl_head = jobs ∷ [];
  tp_wl_count = pos 1;
  tp_wl_changed = true;
}

abbrev wls : Workloads
wls n = workload

abbrev env : ℕ → Reading
env wli = record {
  started_at = 30;
  notified_at = 31;
  libc = record { rand = λ k. 5 + k; rand_max = 2 ^ 31 - 1; shl = λ bit. pos 1024 };
}

abbrev control : Control
control = record { tp = pool; wls = wls; step = none ∷ []; wl_count_prev = pos 0 }

control-Ready : Ready control
control-Ready = record {
  counted = refl;
  apart = ((λ h. h), tt);
  fit = (
    (
      record {
        slots = refl;
        current_low = omega arith;
        last_low = omega arith;
        fits = omega arith;
      },
      refl,
    ),
    tt,
  );
  room = omega arith;
  kept = λ h. absurd (ground (arith, h));
  threads = omega arith;
  sized = refl;
}

abbrev running : Workload
running = record workload {
  wl_status = wls_running;
  wl_is_started = true;
  wl_current_rq = 3;
  wl_notify_time = 31;
  wl_current_step = pos 0;
}

abbrev later : Control
later = record control {
  tp = record pool {
    tp_time = 29;
    tp_wl_changed = false;
    tp_workers = batch jobs (pos 0) 0 0 2 ∷ batch jobs (pos 0) 1 2 1 ∷ [];
  };
  wls = store wls jobs running;
  step = some jobs ∷ [];
  wl_count_prev = pos 1;
}

abbrev sent : List NotifyMsg
sent = record { wl_name = jobs; status = wls_running; progress = pos 0 } ∷ []

first_quantum : quantum 3 29 env control ≡ some (later, sent)
unfolding quantum turn turns refresh_steps fill_steps wl_is_started wl_advance_step wl_notify
    tp_distribute_requests distribute_requests wl_create_request batch ◌+ℤ◌
first_quantum = refl

workload-belongs : belongs pool workload ≡ true
unfolding belongs str_eq
workload-belongs = refl

quantum_ends_example : quantum 3 29 env control ≢ none
quantum_ends_example =
    quantum_ends 3 29 env control control-Ready (workload-belongs, tt)
      (λ k. (λ j. omega arith, λ b. refl)) (omega arith)

quantum_ends-Ready_example :
    (c' : Control) × (told : List NotifyMsg) × (quantum 3 29 env control ≡ some (c', told))
    × Ready c'
    × Each env 0 (jobs ∷ []) wls c'.wls
    × (queued c'.tp.tp_workers ≡ 0 + requests_in env 0 (jobs ∷ []) wls)
    × (c'.tp.tp_wl_head ≡ leave env 0 (jobs ∷ []) wls (jobs ∷ []))
    × ((n : List ℕ) → ¬ Listed n (jobs ∷ []) → c'.wls n ≡ wls n)
quantum_ends-Ready_example =
    quantum_ends-Ready 3 29 env control control-Ready (workload-belongs, tt)
      (λ k. (λ j. omega arith, λ b. refl)) (omega arith)

-- The pool after a workload `other` of it was detached that it never listed.
abbrev other : Workload
other = record workload { wl_name = 111 ∷ [] }

abbrev miscounted : Control
miscounted = record control { tp = record pool { tp_wl_count = pos 0; tp_wl_changed = true } }

other_absent : ¬ Listed other.wl_name pool.tp_wl_head
other_absent (inl e) = ground arith
other_absent (inr l) = l

detach-other : tp_detach pool other ≡ some (miscounted.tp, record other { wl_tp = none })
unfolding tp_detach str_eq ◌-ℤ◌
detach-other = refl
