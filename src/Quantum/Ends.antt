-- ===== src/Quantum/Ends.antt =====
-- That a quantum comes to its end: lib/libtsload/src/worker.c.
use v_perf_generator.Quantum.{
  Reading, Workloads, Control, turn, turns, quantum, finish_workload, run_workload,
}
use v_perf_generator.Quantum.Turns.{
  queued, is_started-cases, started_turn, advance_none, advance_some,
}
use v_perf_generator.Quantum.Turned.{
  turn-Turned, started, started-IsValid, advance-keeps, advance-cases,
}
use v_perf_generator.Workload.Start.{wl_is_started}
use v_perf_generator.Quantum.Names.{Apart, Starts}
use v_perf_generator.Quantum.Pass.{
  Same, Names, Fit, Same-others, Fit-Same, Each, requests_in, leave,
}
use v_perf_generator.ThreadPool.Members.{Listed}
use v_perf_generator.Quantum.Ready.{Ready, refresh-Starts, quantum-Ready}
use v_perf_generator.ThreadPool.HandOut.{tp_distribute_requests, tp_distribute_requests_ends}
use v_perf_generator.Common.{
  ◌≤◌, ◌∷◌, ◌∙◌, sym, suc, none, length, ap, [], Option-cases, All, ◌+◌, ◌≤◌, ◌≢◌, ◌≡◌, ℕ, true,
  some, refl, inr, inl, false, arith, Option, List, Bool-cases, ◌<◌,
}
use v_perf_generator.Common.Int.{pos_part, pos, ◌==ℤ◌}
use v_perf_generator.ThreadPool.{belongs, ThreadPool}
use v_perf_generator.Workload.{wl_advance_step, wls_running, Workload}
use v_perf_generator.Workload.Notify.{wl_notify, NotifyMsg}
use v_perf_generator.Workload.Backlog.{IsValid}

-- No value of `rand` and no `1 << bit` is 0.
abbrev pub Lucky : Reading → Type 0
Lucky r = ((k : ℕ) → r.libc.rand k ≢ 0) × ((b : ℕ) → (r.libc.shl b ==ℤ pos 0) ≡ false)

hand_out_ends :
    (r : Reading) (fuel count : ℕ) (wl : Workload) (tp : ThreadPool)
    → Lucky r
    → 0 < tp.tp_num_threads
    → tp.tp_num_threads ≤ fuel
    → tp_distribute_requests r.libc fuel count wl tp ≢ none
hand_out_ends r fuel count wl tp lucky n f =
    tp_distribute_requests_ends r.libc fuel count wl tp n lucky.0 lucky.1 f

module _ (fuel : ℕ) (r : Reading) (name : List ℕ) (tp : ThreadPool) (wls : Workloads) where
  finish_ends : (wl : Workload) → belongs tp wl ≡ true → finish_workload r name tp wls wl ≢ none
  unfolding finish_workload wl_notify belongs
  finish_ends wl b e = ground arith

  run_ends :
      (count : ℕ) (wl : Workload)
      → Lucky r
      → 0 < tp.tp_num_threads
      → tp.tp_num_threads ≤ fuel
      → run_workload fuel r name tp wls count wl ≢ none
  unfolding run_workload wl_notify
  run_ends count wl lucky n f e = ground (
    arith,
    hand_out_ends r fuel count
        (record wl { wl_notify_time = r.notified_at; wl_status = wls_running }) tp lucky n f,
  )

  belongs-advance :
      belongs tp (wls name) ≡ true → belongs tp (wl_advance_step (started (wls name))).1 ≡ true
  unfolding belongs
  belongs-advance b = rw ((advance-keeps (started (wls name))).1, belongs) b

  stays_ends :
      wl_is_started r.started_at (wls name) ≡ (false, wls name) → turn fuel r name tp wls ≢ none
  unfolding turn
  stays_ends s e = ground arith

  turn_ends :
      IsValid (wls name)
      → belongs tp (wls name) ≡ true
      → Lucky r
      → 0 < tp.tp_num_threads
      → tp.tp_num_threads ≤ fuel
      → turn fuel r name tp wls ≢ none
  turn_ends v b lucky n f e = elim (is_started-cases r.started_at (wls name)) [
    | inl (s, _) ↦ stays_ends s e
    | inr (s, _) ↦
        let go = sym (started_turn fuel r name tp tp wls wls [] s) ∙ e in
        elim (advance-cases (started (wls name)) (started-IsValid (wls name) v)) [
          | inl (a, _) ↦
              finish_ends _ (belongs-advance b)
                (sym (advance_none fuel r name tp tp wls wls [] _ _ a) ∙ go)
          | inr (k, a, _) ↦
              run_ends k _ lucky n f (sym (advance_some fuel r name tp tp wls wls [] _ _ k a) ∙ go)
        ]
  ]

-- All workloads of the list are of the pool.
abbrev pub Owned : ThreadPool → Workloads → Names → Type 0
Owned tp wls = All (λ n. belongs tp (wls n) ≡ true)

Owned-Same :
    (tp tp' : ThreadPool) (wls wls' : Workloads) (ns : Names)
    → tp'.tp_name ≡ tp.tp_name
    → Same wls wls' ns
    → Owned tp wls ns
    → Owned tp' wls' ns
unfolding belongs
Owned-Same tp tp' wls wls' [] e s o = tt
Owned-Same tp tp' wls wls' (n ∷ ns) e s o =
    (rw (s.0, e) o.0, Owned-Same tp tp' wls wls' ns e s.1 o.1)

turns_cons :
    (fuel : ℕ) (env : ℕ → Reading) (left i : ℕ) (n : List ℕ) (step : List (Option (List ℕ)))
    (tp tp' : ThreadPool) (wls wls' : Workloads) (m : List NotifyMsg)
    → turn fuel (env i) n tp wls ≡ some (tp', wls', m)
    → turns fuel env (suc left) i (some n ∷ step) tp wls ≡ none
    → turns fuel env left (i + 1) step tp' wls' ≡ none
unfolding turns
turns_cons fuel env left i n step tp tp' wls wls' m e q =
    elim (Option-cases (turns fuel env left (i + 1) step tp' wls')) [
      | inl out ↦ out
      | inr (x, got) ↦ absurd (ground arith)
    ]

turns_ends :
    (fuel : ℕ) (env : ℕ → Reading) (ns : Names) (i : ℕ) (step : List (Option (List ℕ)))
    (tp : ThreadPool) (wls : Workloads)
    → ((k : ℕ) → Lucky (env k))
    → Apart ns
    → Fit wls ns
    → Owned tp wls ns
    → 0 < tp.tp_num_threads
    → tp.tp_num_threads ≤ fuel
    → length tp.tp_workers ≡ tp.tp_num_threads
    → Starts ns step
    → turns fuel env (length ns) i step tp wls ≢ none
unfolding turns
turns_ends fuel env [] i step tp wls lucky a f o n h sized s e = ground arith
turns_ends fuel env (k ∷ ns) i [] tp wls lucky a f o n h sized s e = s
turns_ends fuel env (k ∷ ns) i (entry ∷ step) tp wls lucky a f o n h sized s e =
    elim (Option-cases (turn fuel (env i) k tp wls)) [
      | inl out ↦ turn_ends fuel (env i) k tp wls f.0.0 o.0 (lucky i) n h out
      | inr ((tp', wls', m), got) ↦
          let t = turn-Turned fuel (env i) k tp tp' wls wls' m f.0.0 f.0.1 n sized got in
          let same = Same-others k ns wls wls' a.0 t.others in
          turns_ends fuel env ns (i + 1) step tp' wls' lucky a.1 (Fit-Same ns wls wls' same f.1)
            (Owned-Same tp tp' wls wls' ns t.named same o.1) (rw t.threads n) (rw t.threads h)
            (t.sized ∙ sized ∙ sym t.threads) s.1
            (turns_cons fuel env (length ns) i k step tp tp' wls wls' m got (rw s.0 at e))
    ]

-- A quantum of a pool in a sound state ends, and no assertion fails in it, if all workloads of the
-- list name the pool and no value of `rand` and no `1 << bit` is 0: as many rounds of each
-- distribution as there are threads are enough.
pub quantum_ends :
    (fuel now : ℕ) (env : ℕ → Reading) (c : Control)
    → Ready c
    → Owned c.tp c.wls c.tp.tp_wl_head
    → ((k : ℕ) → Lucky (env k))
    → c.tp.tp_num_threads ≤ fuel
    → quantum fuel now env c ≢ none
unfolding quantum
quantum_ends fuel now env c r o lucky h q =
    let (step, got, s, l) = refresh-Starts c r in
    let tp : ThreadPool = record c.tp { tp_time = now; tp_wl_changed = false } in
    let n1 : pos_part c.tp.tp_wl_count ≡ length c.tp.tp_wl_head = ap pos_part r.counted in
    let ran =
      turns_ends fuel env c.tp.tp_wl_head 0 step tp c.wls lucky r.apart r.fit
        (Owned-Same c.tp tp c.wls c.wls c.tp.tp_wl_head refl (all_same c.tp.tp_wl_head) o) r.threads
        h r.sized s in
    elim (Bool-cases (c.tp.tp_wl_count ==ℤ pos 0)) [
      | inl idle ↦ ground arith
      | inr busy ↦ ran (ground arith)
    ]
  where
    all_same : (ns : Names) → Same c.wls c.wls ns
    all_same [] = tt
    all_same (n ∷ ns) = (refl, all_same ns)

-- Each quantum of a pool in a sound state, all of whose workloads name the pool, where no value of
-- rand and no `1 << bit` is 0, ends with a sound state. In it every workload of the list, in the order
-- of the list, does what its start time and its backlog ask for; the workers get as many requests, all
-- together, as the steps that begin have; the workloads that ran out of steps are gone from the list;
-- and no other workload changes.
pub quantum_ends-Ready :
    (fuel now : ℕ) (env : ℕ → Reading) (c : Control)
    → Ready c
    → Owned c.tp c.wls c.tp.tp_wl_head
    → ((k : ℕ) → Lucky (env k))
    → c.tp.tp_num_threads ≤ fuel
    → (c' : Control) × (sent : List NotifyMsg) × (quantum fuel now env c ≡ some (c', sent))
      × Ready c'
      × Each env 0 c.tp.tp_wl_head c.wls c'.wls
      × (queued c'.tp.tp_workers ≡ queued c.tp.tp_workers + requests_in env 0 c.tp.tp_wl_head c.wls)
      × (c'.tp.tp_wl_head ≡ leave env 0 c.tp.tp_wl_head c.wls c.tp.tp_wl_head)
      × ((n : List ℕ) → ¬ Listed n c.tp.tp_wl_head → c'.wls n ≡ c.wls n)
quantum_ends-Ready fuel now env c r o lucky h = elim (Option-cases (quantum fuel now env c)) [
  | inl out ↦ absurd (quantum_ends fuel now env c r o lucky h out)
  | inr ((c', sent), got) ↦
      let (ready, each, dealt, left, others) = quantum-Ready fuel now env c c' sent r got in
      (c', sent, got, ready, each, dealt, left, others)
]
