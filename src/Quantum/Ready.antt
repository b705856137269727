-- ===== src/Quantum/Ready.antt =====
-- What a control thread keeps from quantum to quantum: lib/libtsload/src/worker.c.
use v_perf_generator.Quantum.{Reading, Workloads, Control, refresh_steps, quantum, turns}
use v_perf_generator.Quantum.Turns.{Outcome, stays, ends, runs, outcome, left_by, queued}
use v_perf_generator.Quantum.Names.{Apart, Starts, unlink-Apart, fill_steps-Starts}
use v_perf_generator.Quantum.Pass.{Names, Each, Fit, Passed, requests_in, leave}
use v_perf_generator.Quantum.Ran.{turns-Passed}
use v_perf_generator.ThreadPool.Members.{Counted, Listed}
use v_perf_generator.Common.{
  ◌∙◌, ◌∙◌, sym, ap, Option-cases, Option-cases, ◌≤◌, length-replicate, ◌+◌, ◌≤◌, ◌≡◌, ◌∷◌, ℕ, some,
  replicate, refl, none, length, inr, inl, if◌then◌else◌, false, arith, [], Option, List,
  Bool-cases, All, ◌<◌, ◌+◌,
}
use v_perf_generator.Common.Int.{pos, pos_part, ◌==ℤ◌}
use v_perf_generator.ThreadPool.{ThreadPool, unlink}
use v_perf_generator.Common.Bytes.{str_eq}
use v_perf_generator.Workload.Notify.{NotifyMsg}

pub record Ready (c : Control) : Type 0 where
  pub counted : Counted c.tp
  pub apart : Apart c.tp.tp_wl_head
  pub fit : Fit c.wls c.tp.tp_wl_head
  pub room : pos_part c.wl_count_prev ≤ length c.step
  pub kept : c.tp.tp_wl_changed ≡ false → Starts c.tp.tp_wl_head c.step
  pub threads : 0 < c.tp.tp_num_threads
  pub sized : length c.tp.tp_workers ≡ c.tp.tp_num_threads

module _ (P : List ℕ → Type 0) where
  unlink-All : (n : List ℕ) (ns : Names) → All P ns → All P (unlink n ns)
  unfolding unlink
  unlink-All n [] a = a
  unlink-All n (k ∷ ks) a = elim (Bool-cases (str_eq k n)) [
    | inl same ↦ rw same a.1
    | inr other ↦ rw other (a.0, unlink-All n ks a.1)
  ]

  left_by-All : (o : Outcome) (n : List ℕ) (ns : Names) → All P ns → All P (left_by o n ns)
  left_by-All stays n ns a = a
  left_by-All ends n ns a = unlink-All n ns a
  left_by-All (runs k) n ns a = a

  leave-All :
      (env : ℕ → Reading) (i : ℕ) (ns : Names) (wls : Workloads) (head : Names)
      → All P head
      → All P (leave env i ns wls head)
  leave-All env i [] wls head a = a
  leave-All env i (n ∷ ns) wls head a =
      leave-All env (i + 1) ns wls _ (left_by-All (outcome (env i).started_at (wls n)) n head a)

left_by-Apart : (o : Outcome) (n : List ℕ) (ns : Names) → Apart ns → Apart (left_by o n ns)
left_by-Apart stays n ns a = a
left_by-Apart ends n ns a = unlink-Apart n ns a
left_by-Apart (runs k) n ns a = a

leave-Apart :
    (env : ℕ → Reading) (i : ℕ) (ns : Names) (wls : Workloads) (head : Names)
    → Apart head
    → Apart (leave env i ns wls head)
leave-Apart env i [] wls head a = a
leave-Apart env i (n ∷ ns) wls head a =
    leave-Apart env (i + 1) ns wls _ (left_by-Apart (outcome (env i).started_at (wls n)) n head a)

Starts-length :
    (ns : Names) (step : List (Option (List ℕ))) → Starts ns step → length ns ≤ length step
Starts-length [] step s = omega arith
Starts-length (n ∷ ns) [] s = absurd s
Starts-length (n ∷ ns) (e ∷ step) s = omega (arith, Starts-length ns step s.1)

-- All of the list stands in the list.
pub All-Listed :
    (ns head : Names) → ((n : List ℕ) → Listed n ns → Listed n head) → All (λ n. Listed n head) ns
All-Listed [] head h = tt
All-Listed (n ∷ ns) head h = (h n (inl refl), All-Listed ns head (λ m l. h m (inr l)))

abbrev no_entry : Option (List ℕ)
no_entry = none

pub refresh-Starts :
    (c : Control)
    → Ready c
    → (step : List (Option (List ℕ))) × (refresh_steps c ≡ some step)
      × Starts c.tp.tp_wl_head step
      × (length c.tp.tp_wl_head ≤ length step)
unfolding refresh_steps
refresh-Starts c r = elim (Bool-cases c.tp.tp_wl_changed) [
  | inr same ↦
      let s = r.kept same in (c.step, rw (refresh_steps, same) refl, s, Starts-length _ _ s)
  | inl changed ↦
      let step : List (Option (List ℕ)) =
        if c.tp.tp_wl_count ==ℤ c.wl_count_prev
        then c.step
        else replicate (pos_part c.tp.tp_wl_count) none in
      let enough : length c.tp.tp_wl_head ≤ length step =
        ground (arith, r.counted, r.room, length-replicate (pos_part c.tp.tp_wl_count) no_entry) in
      let (step', got, s, l) = fill_steps-Starts step c.tp.tp_wl_head enough in
      (step', ground (arith, r.counted, changed, got), s, omega (arith, l, enough))
]

module _ (fuel now : ℕ) (env : ℕ → Reading) (c c' : Control) (sent : List NotifyMsg) where
  -- The step array and the pool with which the loop starts, and what it returns.
  quantum-some :
      (step : List (Option (List ℕ)))
      → refresh_steps c ≡ some step
      → Counted c.tp
      → quantum fuel now env c ≡ some (c', sent)
      → turns fuel env
            (length c.tp.tp_wl_head)
            0
            step
            (record c.tp { tp_time = now; tp_wl_changed = false })
            c.wls
          ≡ some (c'.tp, c'.wls, sent)
        × (c'.step ≡ step)
        × (c'.wl_count_prev ≡ c.tp.tp_wl_count)
  unfolding quantum turns
  quantum-some step e counted q =
      let tp : ThreadPool = record c.tp { tp_time = now; tp_wl_changed = false } in
      elim (Bool-cases (c.tp.tp_wl_count ==ℤ pos 0)) [
        | inl idle ↦ let n0 : length c.tp.tp_wl_head ≡ 0 = ground arith in rw n0 (ground arith)
        | inr busy ↦
            let n1 : pos_part c.tp.tp_wl_count ≡ length c.tp.tp_wl_head = ground arith in
            elim (Option-cases (turns fuel env (pos_part c.tp.tp_wl_count) 0 step tp c.wls)) [
              | inl out ↦ absurd (ground arith)
              | inr ((tp', wls', ms), got) ↦
                  let ec : c' ≡ record c {
                    tp = tp';
                    wls = wls';
                    step = step;
                    wl_count_prev = c.tp.tp_wl_count;
                  } =
                    ground arith in
                  let es : sent ≡ ms = ground arith in rw (ec, es, ← n1) (got, refl, refl)
            ]
      ]

  quantum-Passed :
      Ready c
      → quantum fuel now env c ≡ some (c', sent)
      → (step : List (Option (List ℕ))) × (refresh_steps c ≡ some step)
        × Starts c.tp.tp_wl_head step
        × (length c.tp.tp_wl_head ≤ length step)
        × (c'.step ≡ step)
        × (c'.wl_count_prev ≡ c.tp.tp_wl_count)
        × Passed env 0 c.tp.tp_wl_head
            (record c.tp { tp_time = now; tp_wl_changed = false })
            c'.tp
            c.wls
            c'.wls
  quantum-Passed r q =
      let (step, got, s, l) = refresh-Starts c r in
      let (ran, es, ep) = quantum-some step got r.counted q in
      (
        step,
        got,
        s,
        l,
        es,
        ep,
        turns-Passed fuel env c.tp.tp_wl_head 0 step _ c'.tp c.wls c'.wls sent r.apart r.fit
            (All-Listed c.tp.tp_wl_head c.tp.tp_wl_head (λ n m. m)) r.threads r.sized s ran,
      )

  -- What a quantum that ends has done.
  pub quantum-Ready :
      Ready c
      → quantum fuel now env c ≡ some (c', sent)
      → Ready c'
        × Each env 0 c.tp.tp_wl_head c.wls c'.wls
        × (queued c'.tp.tp_workers
            ≡ queued c.tp.tp_workers + requests_in env 0 c.tp.tp_wl_head c.wls)
        × (c'.tp.tp_wl_head ≡ leave env 0 c.tp.tp_wl_head c.wls c.tp.tp_wl_head)
        × ((n : List ℕ) → ¬ Listed n c.tp.tp_wl_head → c'.wls n ≡ c.wls n)
  quantum-Ready r q =
      let (step, got, s, l, es, ep, p) = quantum-Passed r q in
      (
        record {
          counted = p.counted r.counted;
          apart = rw p.left (leave-Apart env 0 c.tp.tp_wl_head c.wls _ r.apart);
          fit = rw p.left (leave-All _ env 0 c.tp.tp_wl_head c.wls _ p.fit);
          room = omega (arith, ap pos_part ep, ap pos_part r.counted, l, ap length es);
          kept = λ h. rw ((p.quiet h).0, es) s;
          threads = omega (arith, p.threads, r.threads);
          sized = p.sized ∙ r.sized ∙ sym p.threads;
        },
        p.each,
        p.dealt,
        p.left,
        p.others,
      )
