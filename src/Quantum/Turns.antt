-- ===== src/Quantum/Turns.antt =====
-- The turn of one workload in a quantum: lib/libtsload/src/worker.c.
use v_perf_generator.Quantum.{
  advance_workload, Reading, Workloads, store, turn, finish_workload, run_workload,
}
use v_perf_generator.Workload.Start.{wl_is_started}
use v_perf_generator.Workload.Backlog.{backlog, advance}
use v_perf_generator.ThreadPool.HandOut.{tp_distribute_requests, Dealt, batch}
use v_perf_generator.Common.{
  Option-cases, Option-cases, ◌⊎◌, some, inr, inl, Bool-cases, ◌⊎◌, ◌≢◌, ◌≡◌, true, false, ◌≡◌, ◌∷◌,
  ℕ, ◌||◌, zero, suc, refl, none, length-append, length, leb, if◌then◌else◌, arith, ap, [], List,
  ◌+◌, ◌&&◌,
}
use v_perf_generator.Workload.Requests.{Request}
use v_perf_generator.Workload.{wl_advance_step, wls_running, wls_finished, Workload}
use v_perf_generator.ThreadPool.Distribute.Totals.{sum}
use v_perf_generator.ThreadPool.{tp_detach_nolock, ThreadPool, unlink}
use v_perf_generator.Common.Int.{ℤ}
use v_perf_generator.Common.Bytes.{str_eq_iff, str_eq, str_eq_self}
use v_perf_generator.Workload.Notify.{wl_notify, NotifyMsg}

-- What a workload does in a quantum.
pub data Outcome : Type 0 where
  stays ends : Outcome
  runs : ℕ → Outcome

abbrev pub next_step : List ℕ → Outcome
next_step [] = ends
next_step (n ∷ ns) = runs n

-- By the time at which it is asked whether it starts, and its backlog.
unfoldable pub outcome : ℕ → Workload → Outcome
outcome now wl =
    if wl.wl_is_started || (wl.wl_is_configured && leb wl.wl_start_time now)
    then next_step (backlog wl).pending
    else stays

-- The requests of an outcome.
abbrev pub requests_of : Outcome → ℕ
requests_of stays = 0
requests_of ends = 0
requests_of (runs n) = n

-- The workload after its turn.
abbrev pub After : Outcome → Workload → Workload → Type 0
After stays wl wl' = wl' ≡ wl
After ends wl wl' =
    (backlog wl' ≡ (advance (backlog wl)).1) × (wl'.wl_status ≡ wls_finished) × (wl'.wl_tp ≡ none)
After (runs n) wl wl' =
    (backlog wl' ≡ (advance (backlog wl)).1)
    × (wl'.wl_status ≡ wls_running)
    × (wl'.wl_tp ≡ wl.wl_tp)
    × (wl'.wl_current_rq ≡ n)

-- The list of the pool's workloads after the turn of one of them.
abbrev pub left_by : Outcome → List ℕ → List (List ℕ) → List (List ℕ)
left_by ends name ns = unlink name ns
left_by _ name ns = ns

-- How many requests the workers hold.
abbrev pub queued : List (List Request) → ℕ
queued [] = 0
queued (w ∷ ws) = length w + queued ws

length-batch : (name : List ℕ) (step : ℤ) (tid id n : ℕ) → length (batch name step tid id n) ≡ n
unfolding batch
length-batch name step tid id zero = refl
length-batch name step tid id (suc n) = ap suc (length-batch name step tid (suc id) n)

pub queued-Dealt :
    (name : List ℕ) (step : ℤ) (tid id : ℕ) (ns : List ℕ) (ws ws' : List (List Request))
    → Dealt name step tid id ns ws ws'
    → (queued ws' ≡ queued ws + sum ns) × (length ws' ≡ length ws)
unfolding sum
queued-Dealt name step tid id [] [] [] d = (refl, refl)
queued-Dealt name step tid id (n ∷ ns) (w ∷ ws) (w' ∷ ws') (e, d) =
    let (q, l) = queued-Dealt name step (tid + 1) (id + n) ns ws ws' d in
    rw e (
      omega (arith, q, length-append w (batch name step tid id n), length-batch name step tid id n),
      omega (arith, l),
    )
queued-Dealt name step tid id [] [] (w' ∷ ws') d = absurd d
queued-Dealt name step tid id [] (w ∷ ws) ws' d = absurd d
queued-Dealt name step tid id (n ∷ ns) [] ws' d = absurd d
queued-Dealt name step tid id (n ∷ ns) (w ∷ ws) [] d = absurd d

pub is_started-cases :
    (now : ℕ) (wl : Workload)
    → ((wl_is_started now wl ≡ (false, wl)) × (outcome now wl ≡ stays))
      ⊎ ((wl_is_started now wl ≡ (true, record wl { wl_is_started = true }))
          × (outcome now wl ≡ next_step (backlog wl).pending))
unfolding wl_is_started outcome
is_started-cases now wl = ground arith

pub store-other :
    (wls : Workloads) (name n : List ℕ) (wl : Workload) → n ≢ name → store wls name wl n ≡ wls n
store-other wls name n wl h = elim (Bool-cases (str_eq n name)) [
  | inl same ↦ absurd (h ((str_eq_iff n name).0 same))
  | inr other ↦ rw other refl
]

pub store_self : (wls : Workloads) (name : List ℕ) (wl : Workload) → store wls name wl name ≡ wl
store_self wls name wl = rw (str_eq_self name)

module _ (fuel : ℕ) (r : Reading) (name : List ℕ) (tp tp' : ThreadPool) (wls wls' : Workloads)
    (sent : List NotifyMsg) where
  pub stays_turn :
      wl_is_started r.started_at (wls name) ≡ (false, wls name)
      → turn fuel r name tp wls ≡ some (tp', wls', sent)
      → (tp' ≡ tp) × (wls' ≡ store wls name (wls name))
  unfolding turn
  stays_turn s e = ground arith

  pub finish_turn :
      (wl : Workload)
      → finish_workload r name tp wls wl ≡ some (tp', wls', sent)
      → (tp' ≡ (tp_detach_nolock tp wl).0)
        × (wls'
            ≡ store wls name (record wl {
              wl_notify_time = r.notified_at;
              wl_status = wls_finished;
              wl_tp = none;
            }))
  unfolding finish_workload wl_notify tp_detach_nolock
  finish_turn wl e = ground arith

  pub run_turn :
      (count : ℕ) (wl : Workload)
      → run_workload fuel r name tp wls count wl ≡ some (tp', wls', sent)
      → (wl' : Workload) × (tp_distribute_requests r.libc fuel count
            (record wl { wl_notify_time = r.notified_at; wl_status = wls_running })
            tp
          ≡ some (tp', wl'))
        × (wls' ≡ store wls name wl')
  unfolding run_workload wl_notify
  run_turn count wl e =
      let wl_running = record wl { wl_notify_time = r.notified_at; wl_status = wls_running } in
      elim (Option-cases (tp_distribute_requests r.libc fuel count wl_running tp)) [
        | inl out ↦ absurd (ground arith)
        | inr ((tp'', wl'), got) ↦
            let et : tp' ≡ tp'' = ground arith in
            let ew : wls' ≡ store wls name wl' = ground arith in (wl', rw et got, ew)
      ]

  pub started_turn :
      wl_is_started r.started_at (wls name) ≡ (true, record (wls name) { wl_is_started = true })
      → turn fuel r name tp wls
        ≡ advance_workload fuel r name tp wls (record (wls name) { wl_is_started = true })
  unfolding turn
  started_turn s = ground arith

  pub advance_none :
      (wl wl' : Workload)
      → wl_advance_step wl ≡ (none, wl')
      → advance_workload fuel r name tp wls wl ≡ finish_workload r name tp wls wl'
  unfolding advance_workload
  advance_none wl wl' e = ground arith

  pub advance_some :
      (wl wl' : Workload) (n : ℕ)
      → wl_advance_step wl ≡ (some n, wl')
      → advance_workload fuel r name tp wls wl ≡ run_workload fuel r name tp wls n wl'
  unfolding advance_workload
  advance_some wl wl' n e = ground arith
