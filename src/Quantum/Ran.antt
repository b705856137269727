-- ===== src/Quantum/Ran.antt =====
-- One turn after the other: lib/libtsload/src/worker.c, the loop over the step array.
use v_perf_generator.Quantum.{Reading, Workloads, turn, turns}
use v_perf_generator.Quantum.Turns.{outcome}
use v_perf_generator.Quantum.Turned.{Turned, turn-Turned}
use v_perf_generator.Quantum.Names.{Apart, Starts}
use v_perf_generator.Quantum.Pass.{
  Names, Fit, Passed, Each-Same, requests_in-Same, leave-Same, Same-others, Fit-Same, All-left,
}
use v_perf_generator.Common.{
  ◌≡◌, ◌∷◌, ◌∙◌, ℕ, sym, suc, some, refl, length, inr, inl, arith, [], Option-cases, Option, List,
  All, ◌<◌, ◌+◌,
}
use v_perf_generator.ThreadPool.{ThreadPool}
use v_perf_generator.ThreadPool.Members.{Listed}
use v_perf_generator.Workload.Notify.{NotifyMsg}

-- A turn and those behind it.
both-Passed :
    (env : ℕ → Reading) (i : ℕ) (n : List ℕ) (ns : Names) (tp tp' tp'' : ThreadPool)
    (wls wls' wls'' : Workloads)
    → ¬ Listed n ns
    → Fit wls (n ∷ ns)
    → Listed n tp.tp_wl_head
    → Turned (outcome (env i).started_at (wls n)) n tp tp' wls wls'
    → Passed env (i + 1) ns tp' tp'' wls' wls''
    → Passed env i (n ∷ ns) tp tp'' wls wls''
both-Passed env i n ns tp tp' tp'' wls wls' wls'' a f l t p =
    let same = Same-others n ns wls wls' a t.others in
    record {
      each = (rw (p.others n a) t.after, Each-Same env (i + 1) ns wls wls' wls'' same p.each);
      fit = (rw (p.others n a) (t.valid, t.own ∙ f.0.1), p.fit);
      others = λ m h. p.others m (λ k. h (inr k)) ∙ t.others m (λ e. h (inl (sym e)));
      left = p.left ∙ rw t.listed (leave-Same env (i + 1) ns wls wls' _ same);
      dealt = omega (arith, p.dealt, t.dealt, requests_in-Same env (i + 1) ns wls wls' same);
      sized = p.sized ∙ t.sized;
      threads = p.threads ∙ t.threads;
      counted = λ c. p.counted (t.counted c l);
      quiet = λ q.
          let (h, c, q') = p.quiet q in let (h', c', q'') = t.quiet q' in (h ∙ h', c ∙ c', q'');
    }

turns-some :
    (fuel : ℕ) (env : ℕ → Reading) (left i : ℕ) (n : List ℕ) (step : List (Option (List ℕ)))
    (tp tp'' : ThreadPool) (wls wls'' : Workloads) (sent : List NotifyMsg)
    → turns fuel env (suc left) i (some n ∷ step) tp wls ≡ some (tp'', wls'', sent)
    → (tp' : ThreadPool) × (wls' : Workloads) × (m : List NotifyMsg) × (ms : List NotifyMsg) × (turn
          fuel
          (env i)
          n
          tp
          wls
        ≡ some (tp', wls', m))
      × (turns fuel env left (i + 1) step tp' wls' ≡ some (tp'', wls'', ms))
unfolding turns
turns-some fuel env left i n step tp tp'' wls wls'' sent e =
    elim (Option-cases (turn fuel (env i) n tp wls)) [
      | inl out ↦ absurd (ground arith)
      | inr ((tp', wls', m), got) ↦
          elim (Option-cases (turns fuel env left (i + 1) step tp' wls')) [
            | inl out ↦ absurd (ground arith)
            | inr ((tp3, wls3, ms), more) ↦
                let et : tp'' ≡ tp3 = ground arith in
                let ew : wls'' ≡ wls3 = ground arith in (tp', wls', m, ms, got, rw (et, ew) more)
          ]
    ]

pub turns-Passed :
    (fuel : ℕ) (env : ℕ → Reading) (ns : Names) (i : ℕ) (step : List (Option (List ℕ)))
    (tp tp' : ThreadPool) (wls wls' : Workloads) (sent : List NotifyMsg)
    → Apart ns
    → Fit wls ns
    → All (λ n. Listed n tp.tp_wl_head) ns
    → 0 < tp.tp_num_threads
    → length tp.tp_workers ≡ tp.tp_num_threads
    → Starts ns step
    → turns fuel env (length ns) i step tp wls ≡ some (tp', wls', sent)
    → Passed env i ns tp tp' wls wls'
unfolding turns
turns-Passed fuel env [] i step tp tp' wls wls' sent a f l threads sized s e =
    let et : tp' ≡ tp = ground arith in
    let ew : wls' ≡ wls = ground arith in
    rw (et, ew)
      (record {
        each = tt;
        fit = tt;
        others = λ n h. refl;
        left = refl;
        dealt = omega arith;
        sized = refl;
        threads = refl;
        counted = λ c. c;
        quiet = λ q. (refl, refl, q);
      })
turns-Passed fuel env (n ∷ ns) i [] tp tp' wls wls' sent a f l threads sized s e = absurd s
turns-Passed fuel env (n ∷ ns) i (entry ∷ step) tp tp' wls wls' sent a f l threads sized s e =
    let (tp1, wls1, m, ms, first, rest) =
      turns-some fuel env (length ns) i n step tp tp' wls wls' sent (rw s.0 at e) in
    let t = turn-Turned fuel (env i) n tp tp1 wls wls1 m f.0.0 f.0.1 threads sized first in
    let same = Same-others n ns wls wls1 a.0 t.others in
    both-Passed env i n ns tp tp1 tp' wls wls1 wls' a.0 f l.0 t (
      turns-Passed fuel env ns (i + 1) step tp1 tp' wls1 wls' ms a.1 (Fit-Same ns wls wls1 same f.1)
        (rw t.listed (All-left (outcome (env i).started_at (wls n)) n ns tp.tp_wl_head a.0 l.1))
        (rw t.threads threads) (t.sized ∙ sized ∙ sym t.threads) s.1 rest)
