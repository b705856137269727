-- ===== src/Quantum/Pass.antt =====
-- All workloads of a pool in one quantum: lib/libtsload/src/worker.c.
use v_perf_generator.Quantum.{Reading, Workloads}
use v_perf_generator.Quantum.Turns.{
  Outcome, stays, ends, runs, outcome, requests_of, After, left_by, queued,
}
use v_perf_generator.Quantum.Names.{Listed-unlink}
use v_perf_generator.Workload.Backlog.{IsValid}
use v_perf_generator.Common.{
  ◌≢◌, ◌≢◌, ◌≡◌, ◌∷◌, ℕ, sym, refl, length, inr, inl, false, [], List, All, ◌+◌,
}
use v_perf_generator.ThreadPool.Members.{Counted, Listed}
use v_perf_generator.ThreadPool.{ThreadPool}

abbrev pub Names : Type 0
Names = List (List ℕ)

-- Every workload did what was due to it.
abbrev pub Each : (ℕ → Reading) → ℕ → Names → Workloads → Workloads → Type 0
Each env i [] wls wls' = Unit {0}
Each env i (n ∷ ns) wls wls' =
    After (outcome (env i).started_at (wls n)) (wls n) (wls' n) × Each env (i + 1) ns wls wls'

-- The requests of all steps.
abbrev pub requests_in : (ℕ → Reading) → ℕ → Names → Workloads → ℕ
requests_in env i [] wls = 0
requests_in env i (n ∷ ns) wls =
    requests_of (outcome (env i).started_at (wls n)) + requests_in env (i + 1) ns wls

-- The list without the workloads that ended.
abbrev pub leave : (ℕ → Reading) → ℕ → Names → Workloads → Names → Names
leave env i [] wls head = head
leave env i (n ∷ ns) wls head =
    leave env (i + 1) ns wls (left_by (outcome (env i).started_at (wls n)) n head)

abbrev pub Fit : Workloads → Names → Type 0
Fit wls = All (λ n. IsValid (wls n) × ((wls n).wl_name ≡ n))

pub record Passed (env : ℕ → Reading) (i : ℕ) (ns : Names) (tp tp' : ThreadPool)
    (wls wls' : Workloads) : Type 0 where
  pub each : Each env i ns wls wls'
  pub fit : Fit wls' ns
  pub others : (n : List ℕ) → ¬ Listed n ns → wls' n ≡ wls n
  pub left : tp'.tp_wl_head ≡ leave env i ns wls tp.tp_wl_head
  pub dealt : queued tp'.tp_workers ≡ queued tp.tp_workers + requests_in env i ns wls
  pub sized : length tp'.tp_workers ≡ length tp.tp_workers
  pub threads : tp'.tp_num_threads ≡ tp.tp_num_threads
  pub counted : Counted tp → Counted tp'
  pub quiet :
      tp'.tp_wl_changed ≡ false
      → (tp'.tp_wl_head ≡ tp.tp_wl_head)
        × (tp'.tp_wl_count ≡ tp.tp_wl_count)
        × (tp.tp_wl_changed ≡ false)

abbrev pub Same : Workloads → Workloads → Names → Type 0
Same wls wls' = All (λ n. wls' n ≡ wls n)

pub Each-Same :
    (env : ℕ → Reading) (i : ℕ) (ns : Names) (wls wls' out : Workloads)
    → Same wls wls' ns
    → Each env i ns wls' out
    → Each env i ns wls out
Each-Same env i [] wls wls' out s e = tt
Each-Same env i (n ∷ ns) wls wls' out s e =
    (rw s.0 at e.0, Each-Same env (i + 1) ns wls wls' out s.1 e.1)

pub requests_in-Same :
    (env : ℕ → Reading) (i : ℕ) (ns : Names) (wls wls' : Workloads)
    → Same wls wls' ns
    → requests_in env i ns wls' ≡ requests_in env i ns wls
requests_in-Same env i [] wls wls' s = refl
requests_in-Same env i (n ∷ ns) wls wls' s =
    rw (s.0, requests_in-Same env (i + 1) ns wls wls' s.1) refl

pub leave-Same :
    (env : ℕ → Reading) (i : ℕ) (ns : Names) (wls wls' : Workloads) (head : Names)
    → Same wls wls' ns
    → leave env i ns wls' head ≡ leave env i ns wls head
leave-Same env i [] wls wls' head s = refl
leave-Same env i (n ∷ ns) wls wls' head s = rw s.0 (leave-Same env (i + 1) ns wls wls' _ s.1)

pub Same-others :
    (n : List ℕ) (ns : Names) (wls wls' : Workloads)
    → ¬ Listed n ns
    → ((m : List ℕ) → m ≢ n → wls' m ≡ wls m)
    → Same wls wls' ns
Same-others n [] wls wls' h o = tt
Same-others n (m ∷ ns) wls wls' h o =
    (o m (λ e. h (inl e)), Same-others n ns wls wls' (λ l. h (inr l)) o)

pub Fit-Same : (ns : Names) (wls wls' : Workloads) → Same wls wls' ns → Fit wls ns → Fit wls' ns
Fit-Same [] wls wls' s f = tt
Fit-Same (n ∷ ns) wls wls' s f = (rw s.0 f.0, Fit-Same ns wls wls' s.1 f.1)

left_by-Listed :
    (o : Outcome) (n m : List ℕ) (head : Names)
    → n ≢ m
    → Listed m head
    → Listed m (left_by o n head)
left_by-Listed stays n m head h l = l
left_by-Listed ends n m head h l = Listed-unlink n m head h l
left_by-Listed (runs k) n m head h l = l

pub All-left :
    (o : Outcome) (n : List ℕ) (ns head : Names)
    → ¬ Listed n ns
    → All (λ m. Listed m head) ns
    → All (λ m. Listed m (left_by o n head)) ns
All-left o n [] head h a = tt
All-left o n (m ∷ ns) head h a = (
  left_by-Listed o n m head (λ e. h (inl (sym e))) a.0,
  All-left o n ns head (λ l. h (inr l)) a.1,
)
