-- ===== src/ThreadPool/HandOut.antt =====
-- lib/libtsload/src/threadpool.c, `tp_distribute_requests`: the requests of one step go to the
-- workers of the pool. It runs with `w_rq_mutex` of every worker held.
use v_perf_generator.ThreadPool.Distribute.{Libc, distribute_requests}
use v_perf_generator.ThreadPool.Distribute.Totals.{
  sum, sum-replicate, AtLeast-replicate, distribute_requests-total,
}
use native.Mathlib.Numerals.{add-one}
use mathlib.Core.List.{append-nil}
use v_perf_generator.ThreadPool.{ThreadPool}
use v_perf_generator.Workload.{Workload}
use v_perf_generator.Workload.Requests.{Request, wl_create_request}
use v_perf_generator.Common.{
  ◌≢◌, ◌≢◌, false, ◌≤◌, sym, replicate, inr, inl, append-nil, Option-cases, Bool-cases, All, ◌<◌,
  ◌%◌, ◌≡◌, ◌∙◌, refl, ◌≡◌, ◌∷◌, ℕ, zero, suc, some, none, length, if◌then◌else◌, arith, [], Option,
  List, ◌==◌, ◌/◌, ◌++◌, ◌+◌, ◌%◌,
}
use v_perf_generator.Common.Int.{ℤ, pos, ◌==ℤ◌}
use v_perf_generator.ThreadPool.Distribute.Rounds.{distribute_requests_ends}
use native.Mathlib.Nat.{div-add-mod, mod-lt}

-- `while(num_rqs[tid] > 0)`: the requests in the order in which they are appended.
create_requests : Workload → ℕ → ℕ → List Request × Workload
create_requests wl tid zero = ([], wl)
create_requests wl tid (suc n) =
    let (rq, wl') = wl_create_request wl tid in
    let (rqs, wl'') = create_requests wl' tid n in (rq ∷ rqs, wl'')

-- `for(tid = 0; tid < tp->tp_num_threads; ++tid)` over the counts and the workers' lists.
hand_out : Workload → ℕ → List ℕ → List (List Request) → List (List Request) × Workload
unfolding create_requests
hand_out wl tid [] workers = (workers, wl)
hand_out wl tid (n ∷ ns) [] = ([], wl)
hand_out wl tid (n ∷ ns) (w ∷ ws) =
    let (rqs, wl') = create_requests wl tid n in
    let (ws', wl'') = hand_out wl' (tid + 1) ns ws in ((w ++ rqs) ∷ ws', wl'')

-- `count` is `wls_rq_count`; `none` means that the fuel of the distribution ran out.
unfoldable pub tp_distribute_requests :
    Libc → ℕ → ℕ → Workload → ThreadPool → Option (ThreadPool × Workload)
unfolding hand_out
tp_distribute_requests libc fuel count wl tp =
    if count == 0
    then some (tp, wl)
    else elim (distribute_requests libc tp.tp_num_threads fuel (count / tp.tp_num_threads)
        (count % tp.tp_num_threads)) [
          | none ↦ none
          | some num_rqs ↦
              let (workers, wl') = hand_out wl 0 num_rqs tp.tp_workers in
              some (record tp { tp_workers = workers }, wl')
        ]

-- A new request of the workload `name` in step `step`, for the worker `tid`.
abbrev pub made : List ℕ → ℤ → ℕ → ℕ → Request
made name step tid id = record {
  rq_step = step;
  rq_id = id;
  rq_thread_id = tid;
  rq_start_time = 0;
  rq_end_time = 0;
  rq_flags = 0;
  rq_workload = name;
}

-- `n` requests with consecutive ids from `id` on.
unfoldable pub batch : List ℕ → ℤ → ℕ → ℕ → ℕ → List Request
batch name step tid id zero = []
batch name step tid id (suc n) = made name step tid id ∷ batch name step tid (suc id) n

-- What the workers hold behind what they held: the counts say how many new requests each has; the
-- ids run on from one worker to the next.
abbrev pub Dealt : List ℕ → ℤ → ℕ → ℕ → List ℕ → List (List Request) → List (List Request) → Type 0
Dealt name step tid id [] [] [] = Unit {0}
Dealt name step tid id (n ∷ ns) (w ∷ ws) (w' ∷ ws') =
    (w' ≡ w ++ batch name step tid id n) × Dealt name step (tid + 1) (id + n) ns ws ws'
Dealt name step tid id _ _ _ = ⊥

create_requests-batch :
    (wl : Workload) (tid n : ℕ)
    → create_requests wl tid n ≡ (
      batch wl.wl_name wl.wl_current_step tid wl.wl_current_rq n,
      record wl { wl_current_rq = wl.wl_current_rq + n },
    )
unfolding create_requests batch wl_create_request
create_requests-batch wl tid zero = ground arith
create_requests-batch wl tid (suc n) =
    rw (create_requests-batch (record wl { wl_current_rq = wl.wl_current_rq + 1 }) tid n, add-one)
      (ground arith)

hand_out-Dealt :
    (wl : Workload) (tid : ℕ) (ns : List ℕ) (ws : List (List Request))
    → length ws ≡ length ns
    → let (ws', wl') = hand_out wl tid ns ws in
      Dealt wl.wl_name wl.wl_current_step tid wl.wl_current_rq ns ws ws'
      × (wl' ≡ record wl { wl_current_rq = wl.wl_current_rq + sum ns })
unfolding hand_out sum
hand_out-Dealt wl tid [] [] h = (tt, ground arith)
hand_out-Dealt wl tid [] (w ∷ ws) h = absurd (omega arith)
hand_out-Dealt wl tid (n ∷ ns) [] h = absurd (omega arith)
hand_out-Dealt wl tid (n ∷ ns) (w ∷ ws) h =
    let ih =
      hand_out-Dealt (record wl { wl_current_rq = wl.wl_current_rq + n }) (tid + 1) ns ws
        (omega arith) in
    rw (create_requests-batch wl tid n) ((refl, ih.0), ih.1 ∙ ground arith)

none-Dealt :
    (name : List ℕ) (step : ℤ) (tid id n : ℕ) (ws : List (List Request))
    → length ws ≡ n
    → Dealt name step tid id (replicate n 0) ws ws
unfolding batch
none-Dealt name step tid id zero [] h = tt
none-Dealt name step tid id zero (w ∷ ws) h = absurd (omega arith)
none-Dealt name step tid id (suc n) [] h = absurd (omega arith)
none-Dealt name step tid id (suc n) (w ∷ ws) h =
    (sym (append-nil w), none-Dealt name step (tid + 1) (id + 0) n ws (omega arith))

-- What a distribution that ends has done.
pub tp_distribute_requests-Dealt :
    (libc : Libc) (fuel count : ℕ) (wl wl' : Workload) (tp tp' : ThreadPool)
    → 0 < tp.tp_num_threads
    → length tp.tp_workers ≡ tp.tp_num_threads
    → tp_distribute_requests libc fuel count wl tp ≡ some (tp', wl')
    → (ns : List ℕ) × (sum ns ≡ count)
      × All (λ n. count / tp.tp_num_threads ≤ n) ns
      × Dealt wl.wl_name wl.wl_current_step 0 wl.wl_current_rq ns tp.tp_workers tp'.tp_workers
      × (wl' ≡ record wl { wl_current_rq = wl.wl_current_rq + count })
      × (tp' ≡ record tp { tp_workers = tp'.tp_workers })
unfolding tp_distribute_requests
tp_distribute_requests-Dealt libc fuel count wl wl' tp tp' pos_n sized e =
    elim (Bool-cases (count == 0)) [
      | inl idle ↦
          let et : tp' ≡ tp = ground arith in
          let ew : wl' ≡ wl = ground arith in
          let ec : count ≡ 0 = ground arith in
          let q : 0 / tp.tp_num_threads ≡ 0 = grind arith in
          rw (et, ew, ec)
            (
              replicate tp.tp_num_threads 0,
              omega (arith, sum-replicate tp.tp_num_threads 0),
              rw q (AtLeast-replicate tp.tp_num_threads 0),
              none-Dealt wl.wl_name wl.wl_current_step 0 wl.wl_current_rq tp.tp_num_threads
                  tp.tp_workers sized,
              ground arith,
              refl,
            )
      | inr busy ↦
          elim (Option-cases (
            distribute_requests libc tp.tp_num_threads fuel (count / tp.tp_num_threads)
              (count % tp.tp_num_threads))) [
                | inl out ↦ absurd (ground arith)
                | inr (ns, got) ↦
                    let (size, total, least) =
                      distribute_requests-total libc tp.tp_num_threads fuel
                        (count / tp.tp_num_threads) (count % tp.tp_num_threads) ns pos_n got in
                    let all : sum ns ≡ count = total ∙ div-add-mod count tp.tp_num_threads in
                    let (dealt, rest) = hand_out-Dealt wl 0 ns tp.tp_workers (sized ∙ sym size) in
                    let et : tp' ≡ record tp { tp_workers = (hand_out wl 0 ns tp.tp_workers).0 } =
                      ground arith in
                    let ew : wl' ≡ (hand_out wl 0 ns tp.tp_workers).1 = ground arith in
                    rw (et, ew) (ns, all, least, dealt, rest ∙ rw all, refl)
              ]
    ]

pub tp_distribute_requests_ends :
    (libc : Libc) (fuel count : ℕ) (wl : Workload) (tp : ThreadPool)
    → 0 < tp.tp_num_threads
    → ((k : ℕ) → libc.rand k ≢ 0)
    → ((b : ℕ) → (libc.shl b ==ℤ pos 0) ≡ false)
    → tp.tp_num_threads ≤ fuel
    → tp_distribute_requests libc fuel count wl tp ≢ none
unfolding tp_distribute_requests
tp_distribute_requests_ends libc fuel count wl tp threads r p f e =
    let (out, got) =
      distribute_requests_ends libc tp.tp_num_threads fuel (count / tp.tp_num_threads)
        (count % tp.tp_num_threads) r p (omega (arith, mod-lt count threads)) in
    ground arith

-- Where no value of rand and no `1 << bit` is 0, and with a round for each thread, the distribution
-- ends. A step of `count` requests is dealt to the workers behind what they still hold, `count`
-- requests in all and at least the quotient `count / tp_num_threads` to each; the new requests are of
-- the workload and its current step, carry the worker's number, and their ids go on from
-- `wl_current_rq` without a gap or a repetition. Nothing else of the pool and the workload changes.
pub tp_distribute_requests_ends-Dealt :
    (libc : Libc) (fuel count : ℕ) (wl : Workload) (tp : ThreadPool)
    → 0 < tp.tp_num_threads
    → length tp.tp_workers ≡ tp.tp_num_threads
    → ((k : ℕ) → libc.rand k ≢ 0)
    → ((b : ℕ) → (libc.shl b ==ℤ pos 0) ≡ false)
    → tp.tp_num_threads ≤ fuel
    → (tp' : ThreadPool) × (wl' : Workload) × (ns : List ℕ) × (tp_distribute_requests libc fuel
          count wl tp
        ≡ some (tp', wl'))
      × (sum ns ≡ count)
      × All (λ n. count / tp.tp_num_threads ≤ n) ns
      × Dealt wl.wl_name wl.wl_current_step 0 wl.wl_current_rq ns tp.tp_workers tp'.tp_workers
      × (wl' ≡ record wl { wl_current_rq = wl.wl_current_rq + count })
      × (tp' ≡ record tp { tp_workers = tp'.tp_workers })
tp_distribute_requests_ends-Dealt libc fuel count wl tp threads sized r p f =
    elim (Option-cases (tp_distribute_requests libc fuel count wl tp)) [
      | inl out ↦ absurd (tp_distribute_requests_ends libc fuel count wl tp threads r p f out)
      | inr ((tp', wl'), got) ↦
          let (ns, all, least, dealt, wl_left, tp_left) =
            tp_distribute_requests-Dealt libc fuel count wl wl' tp tp' threads sized got in
          (tp', wl', ns, got, all, least, dealt, wl_left, tp_left)
    ]
