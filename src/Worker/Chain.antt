-- ===== src/Worker/Chain.antt =====
-- No request is lost: lib/libtsload/src/worker.c, `worker_thread`.
use v_perf_generator.Worker.{run_chain, WorkerPass, worker_pass}
use v_perf_generator.Workload.Requests.{Request, RunReading, wl_run_request}
use v_perf_generator.Common.{
  if◌then◌else◌, if◌then◌else◌, ◌≢◌, ◌≡◌, ◌∷◌, ℕ, zero, true, suc, some, refl, none, map, length,
  inr, inl, false, arith, ap, [], Option-cases, List, Bool-cases, Bool, ◌<◌, ◌+◌,
}

-- A request without what a run leaves in it.
abbrev pub clean : Request → Request
clean rq = record rq { rq_start_time = 0; rq_end_time = 0; rq_flags = 0 }

-- The first `k` requests are as they are after their runs, the others as they were.
abbrev pub Ran : (ℕ → RunReading) → ℕ → ℕ → List Request → List Request → Type 0
Ran env i zero rqs out = out ≡ rqs
Ran env i (suc k) (rq ∷ rqs) (rq' ∷ out) =
    (wl_run_request (env i) rq ≡ some rq') × Ran env (i + 1) k rqs out
Ran env i (suc k) _ _ = ⊥

-- How many of `n` requests from the `i`-th on are begun before the worker sees an interrupt.
pub until_interrupt : (ℕ → Bool) → ℕ → ℕ → ℕ
until_interrupt interrupted i zero = 0
until_interrupt interrupted i (suc n) =
    let later = until_interrupt interrupted (i + 1) n in if interrupted i then 1 else suc later

-- No interrupt is seen after one of `n` requests from the `i`-th on.
pub undisturbed : (ℕ → Bool) → ℕ → ℕ → Bool
undisturbed interrupted i zero = true
undisturbed interrupted i (suc n) =
    let later = undisturbed interrupted (i + 1) n in if interrupted i then false else later

-- Every request is in the chain, in the order of the queue; the first `k` were run, which are those
-- up to the first interrupt, and the worker goes to sleep exactly if there is none.
pub record Served (env : ℕ → RunReading) (interrupted : ℕ → Bool) (i : ℕ) (rqs out : List Request)
    (sleep : Bool) : Type 0 where
  pub kept : map clean out ≡ map clean rqs
  pub k : ℕ
  pub stops : k ≡ until_interrupt interrupted i (length rqs)
  pub ran : Ran env i k rqs out
  pub sleeps : sleep ≡ undisturbed interrupted i (length rqs)
  pub all_ran : sleep ≡ true → k ≡ length rqs
  pub some_ran : 0 < length rqs → 0 < k

-- What is pushed of a queue.
abbrev pub Pushed : (ℕ → RunReading) → (ℕ → Bool) → List Request → WorkerPass → Type 0
Pushed env interrupted [] p = (p.pushed_chain ≡ none) × (p.do_sleep ≡ true)
Pushed env interrupted (rq ∷ rqs) p =
    (out : List Request) × (p.pushed_chain ≡ some out)
    × Served env interrupted 0 (rq ∷ rqs) out p.do_sleep

module _ (env : ℕ → RunReading) (interrupted : ℕ → Bool)
    (pooled : (i : ℕ) → (env i).tp_times ≢ none) where
  run-clean :
      (i : ℕ) (rq : Request)
      → (rq' : Request) × (wl_run_request (env i) rq ≡ some rq') × (clean rq' ≡ clean rq)
  unfolding wl_run_request
  run-clean i rq = elim (Option-cases (env i).tp_times) [
    | inl none_ ↦ absurd (pooled i none_)
    | inr (t, got) ↦ elim (Option-cases (wl_run_request (env i) rq)) [
      | inl out ↦ absurd (ground (arith, got))
      | inr (rq', run) ↦ (rq', run, ground (arith, got, run))
    ]
  ]

  run_chain-Served :
      (i : ℕ) (rqs : List Request)
      → (out : List Request) × (sleep : Bool) × (run_chain env interrupted i rqs
          ≡ some (out, sleep))
        × Served env interrupted i rqs out sleep
  unfolding run_chain until_interrupt undisturbed
  run_chain-Served i [] = (
    [],
    true,
    refl,
    record {
      kept = refl;
      k = 0;
      stops = refl;
      ran = refl;
      sleeps = refl;
      all_ran = λ h. refl;
      some_ran = λ h. h;
    },
  )
  run_chain-Served i (rq ∷ rqs) =
      let (rq', run, same) = run-clean i rq in
      elim (Bool-cases (interrupted i)) [
        | inl stop ↦ (
          rq' ∷ rqs,
          false,
          rw (run_chain, run, stop) refl,
          record {
            kept = rw same refl;
            k = 1;
            stops = rw stop refl;
            ran = (run, refl);
            sleeps = rw stop refl;
            all_ran = λ h. absurd (ground (arith, h));
            some_ran = λ h. omega arith;
          },
        )
        | inr go ↦
            let (out, sleep, more, s) = run_chain-Served (i + 1) rqs in
            (
              rq' ∷ out,
              sleep,
              rw (run_chain, run, go, more) refl,
              record {
                kept = rw (same, s.kept) refl;
                k = suc s.k;
                stops = rw go (ap suc s.stops);
                ran = (run, s.ran);
                sleeps = rw go s.sleeps;
                all_ran = λ h. ap suc (s.all_ran h);
                some_ran = λ h. omega arith;
              },
            )
      ]

  -- A worker that is woken takes its whole queue, and as long as no workload of it has left its pool
  -- it pushes a chain with all the requests, in their order and unchanged but for what their runs
  -- leave in them. Those up to the first after which the worker sees that it is interrupted are run,
  -- all of them where there is none, and the others are pushed as they were; the worker goes to sleep
  -- exactly if it saw no interrupt. With an empty queue it pushes nothing and sleeps.
  pub worker_pass-Served :
      (rqs : List Request)
      → (p : WorkerPass) × (worker_pass env interrupted rqs ≡ some p)
        × (p.w_requests ≡ [])
        × Pushed env interrupted rqs p
  unfolding worker_pass
  worker_pass-Served [] =
      (record { pushed_chain = none; w_requests = []; do_sleep = true }, refl, refl, (refl, refl))
  worker_pass-Served (rq ∷ rqs) =
      let (out, sleep, got, s) = run_chain-Served 0 (rq ∷ rqs) in
      (
        record { pushed_chain = some out; w_requests = []; do_sleep = sleep },
        rw (worker_pass, got) refl,
        refl,
        (out, refl, s),
      )
