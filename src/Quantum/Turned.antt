-- ===== src/Quantum/Turned.antt =====
-- The turn of one workload against its backlog: lib/libtsload/src/worker.c.
use v_perf_generator.Quantum.{run_workload, finish_workload, Reading, Workloads, turn}
use v_perf_generator.Quantum.Turns.{
  Outcome, stays, ends, runs, outcome, next_step, requests_of, After, left_by, queued, queued-Dealt,
  is_started-cases, store-other, store_self, stays_turn, finish_turn, run_turn, started_turn,
  advance_none, advance_some,
}
use v_perf_generator.Workload.Start.{wl_is_started}
use v_perf_generator.Workload.Backlog.{backlog, advance, IsValid}
use v_perf_generator.Workload.Backlog.Runs.{advance_refines, advance-IsValid}
use v_perf_generator.ThreadPool.HandOut.{tp_distribute_requests-Dealt}
use v_perf_generator.Common.{
  ◌∙◌, ◌∙◌, sym, inr, inl, ◌<◌, true, refl, false, ap, ◌⊎◌, ◌+◌, ◌⊎◌, ◌≢◌, ◌≡◌, ℕ, some, none,
  length, arith, List, ◌+◌,
}
use v_perf_generator.ThreadPool.{tp_detach_nolock, ThreadPool}
use v_perf_generator.Workload.{wls_finished, Workload, wl_advance_step}
use v_perf_generator.Workload.Notify.{NotifyMsg}
use v_perf_generator.ThreadPool.Members.{unlink-length, Listed, Counted}
use v_perf_generator.Common.Int.{◌-ℤ◌}

-- What one turn does to the memory and the pool.
pub record Turned (o : Outcome) (name : List ℕ) (tp tp' : ThreadPool) (wls wls' : Workloads)
    : Type 0 where
  pub after : After o (wls name) (wls' name)
  pub valid : IsValid (wls' name)
  pub own : (wls' name).wl_name ≡ (wls name).wl_name
  pub others : (n : List ℕ) → n ≢ name → wls' n ≡ wls n
  pub listed : tp'.tp_wl_head ≡ left_by o name tp.tp_wl_head
  pub dealt : queued tp'.tp_workers ≡ queued tp.tp_workers + requests_of o
  pub sized : length tp'.tp_workers ≡ length tp.tp_workers
  pub threads : tp'.tp_num_threads ≡ tp.tp_num_threads
  pub named : tp'.tp_name ≡ tp.tp_name
  pub counted : Counted tp → Listed name tp.tp_wl_head → Counted tp'
  pub quiet :
      tp'.tp_wl_changed ≡ false
      → (tp'.tp_wl_head ≡ tp.tp_wl_head)
        × (tp'.tp_wl_count ≡ tp.tp_wl_count)
        × (tp.tp_wl_changed ≡ false)

pub advance-keeps :
    (wl : Workload)
    → ((wl_advance_step wl).1.wl_name ≡ wl.wl_name)
      × ((wl_advance_step wl).1.wl_tp ≡ wl.wl_tp)
      × ((wl_advance_step wl).1.wl_current_rq ≡ 0)
unfolding wl_advance_step
advance-keeps wl = ground arith

-- A step of the queue, by the pending ones.
pub advance-cases :
    (wl : Workload)
    → IsValid wl
    → let wl' = (wl_advance_step wl).1 in
      ((wl_advance_step wl ≡ (none, wl')) × (next_step (backlog wl).pending ≡ ends))
      ⊎ (n : ℕ) × (wl_advance_step wl ≡ (some n, wl')) × (next_step (backlog wl).pending ≡ runs n)
unfolding advance
advance-cases wl v = ground (arith, advance_refines wl v)

detach_count :
    (tp : ThreadPool) (wl : Workload) (name : List ℕ)
    → wl.wl_name ≡ name
    → Counted tp
    → Listed name tp.tp_wl_head
    → Counted (tp_detach_nolock tp wl).0
unfolding tp_detach_nolock ◌-ℤ◌
detach_count tp wl name own c m = rw own (ground (arith, unlink-length name tp.tp_wl_head m))

abbrev pub started : Workload → Workload
started wl = record wl { wl_is_started = true }

pub started-IsValid : (wl : Workload) → IsValid wl → IsValid (started wl)
started-IsValid wl v = record {
  slots = v.slots;
  current_low = v.current_low;
  last_low = v.last_low;
  fits = v.fits;
}

module _ (fuel : ℕ) (r : Reading) (name : List ℕ) (tp tp' : ThreadPool) (wls wls' : Workloads)
    (sent : List NotifyMsg) (v : IsValid (wls name)) where
  stays-Turned :
      wl_is_started r.started_at (wls name) ≡ (false, wls name)
      → turn fuel r name tp wls ≡ some (tp', wls', sent)
      → Turned stays name tp tp' wls wls'
  stays-Turned s e =
      let (et, ew) = stays_turn fuel r name tp tp' wls wls' sent s e in
      rw (et, ew)
        (record {
          after = store_self wls name (wls name);
          valid = rw (store_self wls name (wls name)) v;
          own = ap (λ w. w.wl_name) (store_self wls name (wls name));
          others = λ n h. store-other wls name n (wls name) h;
          listed = refl;
          dealt = omega arith;
          sized = refl;
          threads = refl;
          named = refl;
          counted = λ c _. c;
          quiet = λ q. (refl, refl, q);
        })

  ends-Turned :
      (wl : Workload)
      → (wls name).wl_name ≡ name
      → wl ≡ (wl_advance_step (started (wls name))).1
      → wl_advance_step (started (wls name)) ≡ (none, wl)
      → finish_workload r name tp wls wl ≡ some (tp', wls', sent)
      → Turned ends name tp tp' wls wls'
  unfolding tp_detach_nolock
  ends-Turned wl own ewl a e =
      let (et, ew) = finish_turn fuel r name tp tp' wls wls' sent wl e in
      let done = record wl {
        wl_notify_time = r.notified_at;
        wl_status = wls_finished;
        wl_tp = none;
      } in
      let ok = advance-IsValid (started (wls name)) (started-IsValid (wls name) v) in
      let b = ap (λ p. p.1) (advance_refines (started (wls name)) (started-IsValid (wls name) v)) in
      let (same, _, _) = advance-keeps (started (wls name)) in
      rw (et, ew)
        (record {
          after = rw (store_self wls name done) (rw ewl b, refl, refl);
          valid =
              rw (store_self wls name done, ewl)
                (record {
                  slots = ok.slots;
                  current_low = ok.current_low;
                  last_low = ok.last_low;
                  fits = ok.fits;
                });
          own = rw (store_self wls name done, ewl, same) refl;
          others = λ n h. store-other wls name n done h;
          listed = rw (ewl, same, own) refl;
          dealt = omega arith;
          sized = refl;
          threads = refl;
          named = refl;
          counted = detach_count tp wl name (rw (ewl, same, own) refl);
          quiet = λ q. absurd (ground (arith, q));
        })

  runs-Turned :
      (wl : Workload) (n : ℕ)
      → wl ≡ (wl_advance_step (started (wls name))).1
      → wl_advance_step (started (wls name)) ≡ (some n, wl)
      → 0 < tp.tp_num_threads
      → length tp.tp_workers ≡ tp.tp_num_threads
      → run_workload fuel r name tp wls n wl ≡ some (tp', wls', sent)
      → Turned (runs n) name tp tp' wls wls'
  runs-Turned wl n ewl a threads sized e =
      let (wl', got, ew) = run_turn fuel r name tp tp' wls wls' sent n wl e in
      let (ns, total, _, dealt, ewl', etp) =
        tp_distribute_requests-Dealt r.libc fuel n _ wl' tp tp' threads sized got in
      let (q, l) = queued-Dealt _ _ 0 _ ns tp.tp_workers tp'.tp_workers dealt in
      let ok = advance-IsValid (started (wls name)) (started-IsValid (wls name) v) in
      let b = ap (λ p. p.1) (advance_refines (started (wls name)) (started-IsValid (wls name) v)) in
      let (same, pool, zero_rq) = advance-keeps (started (wls name)) in
      rw ew (record {
        after = rw (store_self wls name wl', ewl', ewl) (b, refl, pool, omega (arith, zero_rq));
        valid =
            rw (store_self wls name wl', ewl', ewl)
              (record {
                slots = ok.slots;
                current_low = ok.current_low;
                last_low = ok.last_low;
                fits = ok.fits;
              });
        own = rw (store_self wls name wl', ewl', ewl, same) refl;
        others = λ n' h. store-other wls name n' wl' h;
        listed = ap (λ t. t.tp_wl_head) etp;
        dealt = q ∙ ap (λ k. queued tp.tp_workers + k) total;
        sized = l;
        threads = ap (λ t. t.tp_num_threads) etp;
        named = ap (λ t. t.tp_name) etp;
        counted = λ c _. rw etp c;
        quiet = λ q. (
          ap (λ t. t.tp_wl_head) etp,
          ap (λ t. t.tp_wl_count) etp,
          sym (ap (λ t. t.tp_wl_changed) etp) ∙ q,
        );
      })

  -- The turn of a workload is what its start time and its backlog ask for: it stays as it is, or its
  -- backlog advances by one step, whose requests the workers get; if there is no step it is finished
  -- and leaves the pool. No other workload changes.
  pub turn-Turned :
      (wls name).wl_name ≡ name
      → 0 < tp.tp_num_threads
      → length tp.tp_workers ≡ tp.tp_num_threads
      → turn fuel r name tp wls ≡ some (tp', wls', sent)
      → Turned (outcome r.started_at (wls name)) name tp tp' wls wls'
  turn-Turned own threads sized e = elim (is_started-cases r.started_at (wls name)) [
    | inl (s, o) ↦ rw o (stays-Turned s e)
    | inr (s, o) ↦
        let go = sym (started_turn fuel r name tp tp' wls wls' sent s) ∙ e in
        elim (advance-cases (started (wls name)) (started-IsValid (wls name) v)) [
          | inl (a, o') ↦
              rw (o, o')
                (ends-Turned _ own refl a
                  (sym (advance_none fuel r name tp tp' wls wls' sent _ _ a) ∙ go))
          | inr (n, a, o') ↦
              rw (o, o')
                (runs-Turned _ n refl a threads sized
                  (sym (advance_some fuel r name tp tp' wls wls' sent _ _ n a) ∙ go))
        ]
  ]
