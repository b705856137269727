-- ===== src/Worker/Tests.antt =====
-- Examples for lib/libtsload/src/worker.c, `worker_thread`.
use v_perf_generator.Worker.{WorkerPass, worker_pass}
use v_perf_generator.Worker.Chain.{Pushed, worker_pass-Served}
use v_perf_generator.ThreadPool.HandOut.{made, batch}
use v_perf_generator.Common.{◌≡◌, ◌==◌, ◌≡◌, ◌∷◌, ℕ, some, refl, false, arith, [], List, Bool, ◌==◌}
use v_perf_generator.Workload.Requests.{wl_run_request, RunReading, Request}
use v_perf_generator.Common.Int.{pos}

abbrev quick : ℕ → RunReading
quick i = record { clock_start = 5; clock_end = 6; ret = pos 0; tp_times = some (0, 10) }

-- The worker is interrupted after the second request.
abbrev second : ℕ → Bool
second i = i == 1

abbrev queue : List Request
queue = batch (106 ∷ []) (pos 4) 2 0 3

queue_run :
    worker_pass quick second queue
    ≡ some (record {
      pushed_chain = some (
          record (made (106 ∷ []) (pos 4) 2 0) { rq_start_time = 5; rq_end_time = 6; rq_flags = 15 }
          ∷ record (made (106 ∷ []) (pos 4) 2 1) {
            rq_start_time = 5;
            rq_end_time = 6;
            rq_flags = 15;
          }
          ∷ made (106 ∷ []) (pos 4) 2 2
          ∷ []);
      w_requests = [];
      do_sleep = false;
    })
unfolding worker_pass batch wl_run_request
queue_run = refl

worker_pass-Served_example :
    (p : WorkerPass) × (worker_pass quick second queue ≡ some p)
    × (p.w_requests ≡ [])
    × Pushed quick second queue p
worker_pass-Served_example = worker_pass-Served quick second (λ i. ground arith) queue
