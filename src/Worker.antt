-- ===== src/Worker.antt =====
-- lib/libtsload/src/worker.c, `worker_thread`: what a worker does with its queue of requests once it
-- is woken. It takes the queue in one step with `w_rq_mutex` held.
pub mod Chain
mod Tests
use v_perf_generator.Workload.Requests.{Request, RunReading, wl_run_request}
use v_perf_generator.Common.{◌∷◌, ◌∷◌, ℕ, true, some, none, false, [], Option, List, Bool, ◌+◌}

-- The loop over the chain, from its request `i` on: what each run takes from outside, and whether
-- `w_state` is INTERRUPT after it. It yields the chain and `do_sleep`; `none` is an access through
-- NULL in `wl_run_request`.
run_chain : (ℕ → RunReading) → (ℕ → Bool) → ℕ → List Request → Option (List Request × Bool)
run_chain env interrupted i [] = some ([], true)
run_chain env interrupted i (rq ∷ rqs) = elim (wl_run_request (env i) rq) [
  | none ↦ none
  | some rq' ↦ elim (interrupted i) [
    | true ↦ some (rq' ∷ rqs, false)
    | false ↦ elim (run_chain env interrupted (i + 1) rqs) [
      | none ↦ none
      | some (rqs', sleep) ↦ some (rq' ∷ rqs', sleep)
    ]
  ]
]

-- What the worker leaves: the chain that it pushes, if there is one, its queue, and `do_sleep`.
pub record WorkerPass : Type 0 where
  pub pushed_chain : Option (List Request)
  pub w_requests : List Request
  pub do_sleep : Bool

unfoldable pub worker_pass : (ℕ → RunReading) → (ℕ → Bool) → List Request → Option WorkerPass
unfolding run_chain
worker_pass env interrupted [] =
    some (record { pushed_chain = none; w_requests = []; do_sleep = true })
worker_pass env interrupted (rq ∷ rqs) = elim (run_chain env interrupted 0 (rq ∷ rqs)) [
  | none ↦ none
  | some (chain, sleep) ↦
      some (record { pushed_chain = some chain; w_requests = []; do_sleep = sleep })
]
